-- ===== src/Quant/Shards/Searches.antt =====
-- What `rfind` and `strip_suffix` find.
use localx_llama.Prelude.{
  true, false, ap, ◌∙◌, inl, inr, arith, Option-cases, ℕ, ◌≡◌, refl, ◌&&◌, Option, none, some, [],
  ◌∷◌, ◌++◌, ◌==◌, Bool, all, append-nil,
}
use localx_llama.Text.{Text}
use localx_llama.Quant.Names.{rsplit_once, strip_suffix}
use localx_llama.Text.{strip_prefix}
use localx_llama.Text.Find.{strip_prefix-eq, strip_prefix-of}
use localx_llama.Text.Numbers.{is_digit}

-- Where a needle and what follows it begin, if it does not occur later.
pub rsplit_once-at :
    (c : ℕ) (m p q : Text)
    → rsplit_once (c ∷ m) (m ++ q) ≡ none
    → rsplit_once (c ∷ m) (p ++ ((c ∷ m) ++ q)) ≡ some (p, q)
unfolding rsplit_once
rsplit_once-at c m [] q h = rw (h, rsplit_once) (rw (strip_prefix-of (c ∷ m) q) refl)
rsplit_once-at c m (x ∷ p) q h = rw (rsplit_once-at c m p q h, rsplit_once) refl

pub rsplit_once-eq : (n s p q : Text) → rsplit_once n s ≡ some (p, q) → s ≡ p ++ (n ++ q)
unfolding rsplit_once
rsplit_once-eq n [] p q h = cc
rsplit_once-eq n (c ∷ s) p q h = elim (Option-cases (rsplit_once n s)) [
  | inr ((p', q'), e) ↦
      let k : some (c ∷ p', q') ≡ some (p, q) = rw (e, rsplit_once) at h in
      let ih : s ≡ p' ++ (n ++ q') = rsplit_once-eq n s p' q' e in
      let a : c ∷ p' ≡ p = cc in let b : q' ≡ q = cc in rw (← a, ← b) (ap (λ t. c ∷ t) ih)
  | inl e ↦ elim (Option-cases (strip_prefix n (c ∷ s))) [
    | inl f ↦ cc (rw (e, f, rsplit_once) at h)
    | inr (after, f) ↦
        let k : ◌≡◌ {A = Option (Text × Text)} (some ([], after)) (some (p, q)) =
          rw (e, f, rsplit_once) at h in
        let a : [] ≡ p = cc in
        let b : after ≡ q = cc in rw (← a, ← b) (strip_prefix-eq n (c ∷ s) after f)
  ]
]

pub strip_suffix-eq : (n s p : Text) → strip_suffix n s ≡ some p → s ≡ p ++ n
unfolding strip_suffix
strip_suffix-eq n s p h = of (rsplit_once n s) refl
  where
    of : (o : Option (Text × Text)) → rsplit_once n s ≡ o → s ≡ p ++ n
    of none e = cc (rw (e, strip_suffix) at h)
    of (some (p', [])) e =
        let k : p' ≡ p = cc (rw (e, strip_suffix) at h) in
        rsplit_once-eq n s p' [] e ∙ rw k (ap (λ t. p ++ t) (append-nil n))
    of (some (p', c ∷ q)) e = cc (rw (e, strip_suffix) at h)

-- Digits hold no dash.
digit_no_dash : (c : ℕ) → is_digit c ≡ true → (b'-' == c) ≡ false
unfolding is_digit
digit_no_dash c h = ground arith

pub rsplit_once-digits : (m s : Text) → all is_digit s ≡ true → rsplit_once (b'-' ∷ m) s ≡ none
unfolding rsplit_once strip_prefix
rsplit_once-digits m [] h = refl
rsplit_once-digits m (c ∷ s) h =
    let (d, ds) = both (is_digit c) (all is_digit s) h in
    rw (rsplit_once-digits m s ds, digit_no_dash c d, rsplit_once) refl
  where
    both : (a b : Bool) → (a && b) ≡ true → (a ≡ true) × (b ≡ true)
    both a b h = ground arith
