-- ===== src/Vram/Laws.antt =====
-- What a VRAM figure promises, and how the fit of a quant grows with it.
use localx_llama.Prelude.{
  if◌then◌else◌, ℕ, ◌≤◌, Bool, true, false, ◌≡◌, ◌⊎◌, inl, inr, refl, Option, some, none, arith,
  filter_option, Bool-cases, Option-cases,
}
use localx_llama.Vram.{
  FitClass, auto, configured, fallback, fits, over, quant_fit_class, resolve_vram, tight, unknown,
}
use localx_llama.Prelude.Int.{ℤ, pos, is_positive}

filter_option-some :
    (o : Option ℤ) (v : ℤ)
    → filter_option is_positive o ≡ some v
    → (o ≡ some v) × (is_positive v ≡ true)
filter_option-some none v h = absurd cc
filter_option-some (some w) v h = elim (Bool-cases (is_positive w)) [
  | inl p ↦
      let e : some w ≡ some v = rw (p, filter_option) at h in (e, (let f : w ≡ v = cc in rw f at p))
  | inr n ↦ absurd (cc (rw (n, filter_option) at h))
]

-- The figure is always positive, and comes from where its source says: the configured value, if
-- that is positive, or else the detected one, or else 24.
pub resolve_vram_lem :
    (given probed : Option ℤ)
    → (is_positive (resolve_vram given probed).gb ≡ true)
      × ((((resolve_vram given probed).source ≡ configured)
            × (given ≡ some (resolve_vram given probed).gb))
          ⊎ ((((resolve_vram given probed).source ≡ auto)
                × (filter_option is_positive given ≡ none)
                × (probed ≡ some (resolve_vram given probed).gb))
              ⊎ (((resolve_vram given probed).source ≡ fallback)
                  × (filter_option is_positive given ≡ none)
                  × (filter_option is_positive probed ≡ none)
                  × ((resolve_vram given probed).gb ≡ pos 24))))
unfolding resolve_vram
resolve_vram_lem given probed = elim (Option-cases (filter_option is_positive given)) [
  | inr (v, e) ↦
      let (g, p) = filter_option-some given v e in rw (e, resolve_vram) (p, inl (refl, g))
  | inl e ↦ elim (Option-cases (filter_option is_positive probed)) [
    | inr (v, f) ↦
        let (g, p) = filter_option-some probed v f in
        rw (e, f, resolve_vram) (p, inr (inl (refl, refl, g)))
    | inl f ↦ rw (e, f, resolve_vram) (refl, inr (inr (refl, refl, refl, refl)))
  ]
]

abbrev pub rank : FitClass → ℕ
rank fits = 2
rank tight = 1
rank over = 0
rank unknown = 0

at_least_tight : (b : Bool) → 1 ≤ rank (if b then fits else tight)
at_least_tight true = omega arith
at_least_tight false = omega arith

-- `le`, `minus` and `from_int` as in the definition.
module _ {F : Type 0} (le : F → F → Bool) (minus : F → F → F) (from_int : ℤ → F)
    (seven two : F) where
  -- On a larger card a quant fits no worse, where `<=` is transitive and the larger figure stays
  -- the larger when the headroom is taken away.
  pub quant_fit_class-grows :
      (size : F) (small large : ℤ)
      → ((a b c : F) → le a b ≡ true → le b c ≡ true → le a c ≡ true)
      → ((k : F) → le (minus (from_int small) k) (minus (from_int large) k) ≡ true)
      → rank (quant_fit_class le minus from_int seven two (some size) small)
        ≤ rank (quant_fit_class le minus from_int seven two (some size) large)
  unfolding quant_fit_class
  quant_fit_class-grows size small large trans grows =
      elim (Bool-cases (le size (minus (from_int small) seven))) [
        | inl f ↦
            let f' : le size (minus (from_int large) seven) ≡ true =
              trans size (minus (from_int small) seven) (minus (from_int large) seven) f
                (grows seven) in
            rw (f, f') (omega arith)
        | inr n ↦ elim (Bool-cases (le size (minus (from_int small) two))) [
          | inl t ↦
              let t' : le size (minus (from_int large) two) ≡ true =
                trans size (minus (from_int small) two) (minus (from_int large) two) t
                  (grows two) in
              rw (n, t, t') (at_least_tight (le size (minus (from_int large) seven)))
          | inr o ↦ rw (n, o) (omega arith)
        ]
      ]
