-- ===== src/Quant/Shards/Found.antt =====
-- The names that are taken for the first shard of a set.
use localx_llama.Prelude.{
  true, Bool-cases, ◌≤◌, ap, ◌∙◌, inl, inr, arith, bind-eq-some, ℕ, ◌≡◌, refl, ◌&&◌, Option, none,
  some, [], ◌∷◌, ◌++◌, if◌then◌else◌, leb, ◌==◌, all,
}
use localx_llama.Text.{Text, codes, lower}
use localx_llama.Quant.Names.{rsplit_once, strip_suffix, is_digits, parse_u32}
use localx_llama.Text.{strip_prefix}
use localx_llama.Text.Numbers.{is_digit, number_onto}
use localx_llama.Quant.Shards.{max_shard_count, shard_suffix, primary_total, primary_shard}
use localx_llama.Quant.Shards.Searches.{
  rsplit_once-at, rsplit_once-eq, strip_suffix-eq, rsplit_once-digits,
}

-- The name, in lower case, is `base-index-of-total.gguf`: the index stands for 1, and the total for
-- `n`, which is at least 2 and at most `MAX_SHARD_COUNT`.
abbrev pub IsFirstShard : Text → Text → Text → Text → ℕ → Type 0
IsFirstShard primary base index total n =
    (lower primary ≡ ((base ++ (codes "-" ++ index)) ++ (codes "-of-" ++ total)) ++ codes ".gguf")
    × (is_digits index ≡ true)
    × (is_digits total ≡ true)
    × (number_onto 0 index ≡ 1)
    × (number_onto 0 total ≡ n)
    × (2 ≤ n)
    × (n ≤ max_shard_count)

parse_u32-value : (s : Text) (n : ℕ) → parse_u32 s ≡ some n → number_onto 0 s ≡ n
unfolding parse_u32
parse_u32-value s n h = ground arith

value-parse_u32 : (s : Text) (n : ℕ) → number_onto 0 s ≡ n → n ≤ 1024 → parse_u32 s ≡ some n
unfolding parse_u32
value-parse_u32 s n h le = ground arith

counted-bounds :
    (i m n : ℕ)
    → (if i == 1 && leb 2 m && leb m max_shard_count then some m else none) ≡ some n
    → (i ≡ 1) × (m ≡ n) × (2 ≤ n) × (n ≤ max_shard_count)
counted-bounds i m n h = ground arith

primary_total-parts :
    (index total : Text) (n : ℕ)
    → primary_total index total ≡ some n
    → (is_digits index ≡ true)
      × (is_digits total ≡ true)
      × (number_onto 0 index ≡ 1)
      × (number_onto 0 total ≡ n)
      × (2 ≤ n)
      × (n ≤ max_shard_count)
unfolding primary_total
primary_total-parts index total n h = elim (Bool-cases (is_digits index)) [
  | inr other ↦ cc (rw (other, primary_total) at h)
  | inl first ↦ elim (Bool-cases (is_digits total)) [
    | inr other ↦ cc (rw (first, other, primary_total) at h)
    | inl second ↦
        let (i, e, h₁) =
          bind-eq-some (parse_u32 index) _ (rw (first, second, primary_total) at h) in
        let (m, f, h₂) = bind-eq-some (parse_u32 total) _ h₁ in
        let (a, b, low, high) = counted-bounds i m n h₂ in
        (first, second, parse_u32-value index i e ∙ a, parse_u32-value total m f ∙ b, low, high)
  ]
]

shard_suffix-eq :
    (stem base index total : Text)
    → shard_suffix stem ≡ some (base, index, total)
    → stem ≡ (base ++ (codes "-" ++ index)) ++ (codes "-of-" ++ total)
unfolding shard_suffix
shard_suffix-eq stem base index total h =
    let (x, f₁, f₂) = bind-eq-some (rsplit_once (codes "-of-") stem) _ h in
    let (y, f₃, f₄) = bind-eq-some (rsplit_once (codes "-") x.0) _ f₂ in of x.0 x.1 y.0 y.1 f₁ f₃ f₄
  where
    of :
        (before t b i : Text)
        → rsplit_once (codes "-of-") stem ≡ some (before, t)
        → rsplit_once (codes "-") before ≡ some (b, i)
        → ◌≡◌ {A = Option (Text × Text × Text)} (some (b, i, t)) (some (base, index, total))
        → stem ≡ (base ++ (codes "-" ++ index)) ++ (codes "-of-" ++ total)
    of before t b i e f g =
        let eb : b ≡ base = cc in
        let ei : i ≡ index = cc in
        let et : t ≡ total = cc in
        rsplit_once-eq (codes "-of-") stem before t e
        ∙ ap (λ u. u ++ (codes "-of-" ++ t)) (rsplit_once-eq (codes "-") before b i f)
        ∙ (λ k. (eb k ++ (codes "-" ++ ei k)) ++ (codes "-of-" ++ et k))

pub primary_shard-IsFirstShard :
    (primary base index : Text) (n : ℕ)
    → primary_shard primary ≡ some (base, index, n)
    → (total : Text) × IsFirstShard primary base index total n
unfolding primary_shard
primary_shard-IsFirstShard primary base index n h =
    let (stem, e, h₁) = bind-eq-some (strip_suffix (codes ".gguf") (lower primary)) _ h in
    let (x, f, h₂) = bind-eq-some (shard_suffix stem) _ h₁ in
    let (m, g, h₃) = bind-eq-some (primary_total x.1 x.2) _ h₂ in of stem x.0 x.1 x.2 m e f g h₃
  where
    of :
        (stem b i t : Text) (m : ℕ)
        → strip_suffix (codes ".gguf") (lower primary) ≡ some stem
        → shard_suffix stem ≡ some (b, i, t)
        → primary_total i t ≡ some m
        → ◌≡◌ {A = Option (Text × Text × ℕ)} (some (b, i, m)) (some (base, index, n))
        → (total : Text) × IsFirstShard primary base index total n
    of stem b i t m e f g k =
        let eb : b ≡ base = cc in
        let ei : i ≡ index = cc in
        let en : m ≡ n = cc in
        let (di, dt, vi, vt, low, high) = primary_total-parts i t m g in
        rw (← eb, ← ei, ← en)
          (
            t,
            (
              strip_suffix-eq (codes ".gguf") (lower primary) stem e
                  ∙ ap (λ u. u ++ codes ".gguf") (shard_suffix-eq stem b i t f),
              di,
              dt,
              vi,
              vt,
              low,
              high,
            ),
          )

digits_all : (s : Text) → is_digits s ≡ true → all is_digit s ≡ true
unfolding is_digits
digits_all [] h = cc
digits_all (c ∷ s) h = h

dash_digits : (s : Text) → is_digits s ≡ true → strip_prefix (codes "-of-") (b'-' ∷ s) ≡ none
unfolding strip_prefix is_digits is_digit
dash_digits [] h = cc
dash_digits (d ∷ s) h = ground arith

IsFirstShard-suffix :
    (base index total : Text)
    → is_digits index ≡ true
    → is_digits total ≡ true
    → shard_suffix ((base ++ (codes "-" ++ index)) ++ (codes "-of-" ++ total))
      ≡ some (base, index, total)
unfolding shard_suffix
IsFirstShard-suffix base index total di dt =
    let late : rsplit_once (codes "-of-") (codes "of-" ++ total) ≡ none =
      unfold rsplit_once strip_prefix in
      rw (rsplit_once-digits (codes "of-") total (digits_all total dt), rsplit_once)
        (rw (dash_digits total dt, rsplit_once) refl) in
    rw (rsplit_once-at b'-' (codes "of-") (base ++ (codes "-" ++ index)) total late) (
      rw (rsplit_once-at b'-' [] base index (rsplit_once-digits [] index (digits_all index di)))
        refl)

pub IsFirstShard-primary_shard :
    (primary base index total : Text) (n : ℕ)
    → IsFirstShard primary base index total n
    → primary_shard primary ≡ some (base, index, n)
unfolding primary_shard strip_suffix primary_total
IsFirstShard-primary_shard primary base index total n (e, di, dt, vi, vt, low, high) =
    let stem : Text = (base ++ (codes "-" ++ index)) ++ (codes "-of-" ++ total) in
    let found : strip_suffix (codes ".gguf") (lower primary) ≡ some stem = rw e (
      rw
        (
          rsplit_once-at b'.' (codes "gguf") stem [] (unfold rsplit_once strip_prefix in refl),
          strip_suffix,
        )
        refl) in
    let counted : primary_total index total ≡ some n =
      rw (di, dt, primary_total)
        (rw (value-parse_u32 index 1 vi (omega arith), value-parse_u32 total n vt high)
          (ground arith)) in
    rw found (rw (IsFirstShard-suffix base index total di dt) (rw counted refl))
