-- ===== src/Fit/Output/Devices.antt =====
-- The devices and blocks of a fitter's output.
use localx_llama.Prelude.{
  ◌≡◌, refl, ap, ◌∙◌, sym, Bool, true, ◌⊎◌, ◌↔◌, ◌++◌, ◌^◌, ==_iff, bind-eq-some, ◌||◌, some, any,
  ℕ, List, [], ◌∷◌, Bool-cases, Option-cases, ltb, ltb→lt, ◌==◌, All, inl, inr, arith, ◌<◌,
}
use localx_llama.Fit.Output.{
  leading_digits, ends_with, split_commas, insert_block_once, collect_blocks, cpu_blocks, cpu_block,
}
use localx_llama.Text.{Text, codes, trim, trim_end, strip_prefix, ◌=ᵗ◌}
use localx_llama.Text.Case.{=ᵗ_iff, =ᵗ_refl}
use localx_llama.Text.Find.{strip_prefix-eq, strip_prefix-of}
use localx_llama.Text.Numbers.{parse_digits}

-- Each block is above the one before it.
abbrev pub IsAscending : List ℕ → Type 0
IsAscending [] = Unit
IsAscending (x ∷ xs) = All (λ y. x < y) xs × IsAscending xs

above-insert :
    (z x : ℕ) (xs : List ℕ)
    → z < x
    → All (λ y. z < y) xs
    → All (λ y. z < y) (insert_block_once x xs)
unfolding insert_block_once
above-insert z x [] lt h = (lt, tt)
above-insert z x (y ∷ ys) lt (h, hs) = elim (Bool-cases (x == y)) [
  | inl same ↦ rw (same, insert_block_once) (h, hs)
  | inr other ↦ elim (Bool-cases (ltb x y)) [
    | inl before ↦ rw (other, insert_block_once) (rw (before, insert_block_once) (lt, (h, hs)))
    | inr behind ↦
        rw (other, insert_block_once)
          (rw (behind, insert_block_once) (h, above-insert z x ys lt hs))
  ]
]

above-lower : (x y : ℕ) (ys : List ℕ) → x < y → All (λ z. y < z) ys → All (λ z. x < z) ys
above-lower x y [] lt h = tt
above-lower x y (z ∷ zs) lt (h, hs) = (omega arith, above-lower x y zs lt hs)

insert-IsAscending : (x : ℕ) (xs : List ℕ) → IsAscending xs → IsAscending (insert_block_once x xs)
unfolding insert_block_once
insert-IsAscending x [] h = (tt, tt)
insert-IsAscending x (y ∷ ys) (h, hs) = elim (Bool-cases (x == y)) [
  | inl same ↦ rw (same, insert_block_once) (h, hs)
  | inr other ↦ elim (Bool-cases (ltb x y)) [
    | inl before ↦
        let lt : x < y = ltb→lt x y before in
        rw (other, insert_block_once)
          (rw (before, insert_block_once) ((lt, above-lower x y ys lt h), (h, hs)))
    | inr behind ↦
        let lt : y < x = ground arith in
        rw (other, insert_block_once)
          (rw (behind, insert_block_once) (above-insert y x ys lt h, insert-IsAscending x ys hs))
  ]
]

collect_blocks-IsAscending : (entries : List Text) → IsAscending (collect_blocks entries)
unfolding collect_blocks
collect_blocks-IsAscending [] = tt
collect_blocks-IsAscending (entry ∷ entries) = elim (Option-cases (cpu_block entry)) [
  | inl e ↦ rw (e, collect_blocks) (collect_blocks-IsAscending entries)
  | inr (block, e) ↦
      rw (e, collect_blocks)
        (insert-IsAscending block (collect_blocks entries) (collect_blocks-IsAscending entries))
]

-- `entry` sends block `x` to the CPU: behind the blanks at its start it begins with `blk\.` and the
-- digits of a 32-bit `x`, and before the blanks at its end it ends in `=CPU`.
abbrev pub SendsToCpu : ℕ → Text → Type 0
SendsToCpu x entry =
    ((target : Text) × (trim_end entry ≡ target ++ codes "=CPU"))
    × ((rest : Text) × (trim entry ≡ codes "blk\\." ++ rest)
        × (parse_digits (2 ^ 32) (leading_digits rest) ≡ some x))

ends_with-suffix : (p suffix : Text) → ends_with suffix (p ++ suffix) ≡ true
ends_with-suffix [] [] = unfold ◌=ᵗ◌ in refl
ends_with-suffix [] (c ∷ s) = rw (=ᵗ_refl (c ∷ s)) refl
ends_with-suffix (c ∷ p) suffix = ground (arith, ends_with-suffix p suffix)

suffix-ends_with : (suffix s : Text) → ends_with suffix s ≡ true → (p : Text) × (s ≡ p ++ suffix)
suffix-ends_with suffix [] h = ([], sym ((=ᵗ_iff suffix []).0 h))
suffix-ends_with suffix (c ∷ s) h = elim (Bool-cases ((c ∷ s) =ᵗ suffix)) [
  | inl same ↦ ([], (=ᵗ_iff (c ∷ s) suffix).0 same)
  | inr other ↦ let (p, e) = suffix-ends_with suffix s (rw other at h) in (c ∷ p, ap (λ t. c ∷ t) e)
]

cpu_block-SendsToCpu : (entry : Text) (x : ℕ) → cpu_block entry ≡ some x → SendsToCpu x entry
unfolding cpu_block
cpu_block-SendsToCpu entry x h = elim (Bool-cases (ends_with (codes "=CPU") (trim_end entry))) [
  | inr other ↦ cc (rw (other, cpu_block) at h)
  | inl cpu ↦
      let (rest, e, f) =
        bind-eq-some (strip_prefix (codes "blk\\.") (trim entry)) _ (rw (cpu, cpu_block) at h) in
      (
        suffix-ends_with (codes "=CPU") (trim_end entry) cpu,
        (rest, strip_prefix-eq (codes "blk\\.") (trim entry) rest e, f),
      )
]

SendsToCpu-cpu_block : (entry : Text) (x : ℕ) → SendsToCpu x entry → cpu_block entry ≡ some x
unfolding cpu_block
SendsToCpu-cpu_block entry x ((target, e), (rest, f, g)) =
    let cpu : ends_with (codes "=CPU") (trim_end entry) ≡ true =
      rw e (ends_with-suffix target (codes "=CPU")) in
    let rest_of : strip_prefix (codes "blk\\.") (trim entry) ≡ some rest =
      rw f (strip_prefix-of (codes "blk\\.") rest) in
    rw (cpu, cpu_block) (rw (rest_of, cpu_block) g)

has-insert :
    (x block : ℕ) (xs : List ℕ)
    → any (λ y. y == x) (insert_block_once block xs) ≡ (block == x || any (λ y. y == x) xs)
unfolding insert_block_once
has-insert x block [] = refl
has-insert x block (y ∷ ys) = ground (arith, has-insert x block ys)

-- An entry among these sends block `x` to the CPU.
abbrev pub Sent : ℕ → List Text → Type 0
Sent x [] = ⊥
Sent x (entry ∷ entries) = SendsToCpu x entry ⊎ Sent x entries

collect_blocks_iff :
    (x : ℕ) (entries : List Text)
    → (any (λ y. y == x) (collect_blocks entries) ≡ true) ↔ Sent x entries
unfolding collect_blocks
collect_blocks_iff x [] = (λ h. absurd (cc h), λ e. absurd e)
collect_blocks_iff x (entry ∷ entries) =
    let ih = collect_blocks_iff x entries in
    elim (Option-cases (cpu_block entry)) [
      | inl e ↦
          rw (e, collect_blocks)
            (
              λ h. inr (ih.0 h),
              λ s. elim s [
                | inl sends ↦ absurd (cc (e, SendsToCpu-cpu_block entry x sends))
                | inr later ↦ ih.1 later
              ],
            )
      | inr (block, e) ↦
          let has = has-insert x block (collect_blocks entries) in
          rw (e, collect_blocks)
            (rw has (
              λ h. elim (Bool-cases (block == x)) [
                | inl same ↦
                    let f : block ≡ x = (==_iff block x).0 same in
                    inl (cpu_block-SendsToCpu entry x (e ∙ ap some f))
                | inr other ↦ inr (ih.0 (rw other at h))
              ],
              λ s. elim s [
                | inl sends ↦
                    let f : some block ≡ some x = sym e ∙ SendsToCpu-cpu_block entry x sends in
                    let g : block ≡ x = cc f in rw ((==_iff block x).1 g) refl
                | inr later ↦ rw (ih.1 later) (or_true (block == x))
              ],
            ))
    ]
  where
    or_true : (b : Bool) → (b || true) ≡ true
    or_true b = ground arith

-- The blocks are in ascending order, each once, and block `x` is among them if and only if an entry
-- between the commas sends it to the CPU: the entry names the block behind `blk\.` and ends in
-- `=CPU`.
pub cpu_blocks_lem :
    (overrides : Text)
    → IsAscending (cpu_blocks overrides)
      × ((x : ℕ)
          → (any (λ y. y == x) (cpu_blocks overrides) ≡ true) ↔ Sent x (split_commas overrides))
unfolding cpu_blocks
cpu_blocks_lem overrides = (
  collect_blocks-IsAscending (split_commas overrides),
  λ x. collect_blocks_iff x (split_commas overrides),
)
