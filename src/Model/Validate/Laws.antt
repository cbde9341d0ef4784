-- ===== src/Model/Validate/Laws.antt =====
-- `validate_model_def` accepts exactly the definitions whose fields are valid.
use localx_llama.Prelude.{
  arith, ◌≡◌, refl, ◌↔◌, ◌⊎◌, inl, inr, Bool, true, false, not, Option, none, some, List, [], ◌∷◌,
  Bool-cases, append-eq-nil, all, any, filter_option, is_some, ok,
}
use localx_llama.Maps.{keys, Map}
use localx_llama.Model.Validate.{
  repo_errors, quant_errors, parser_errors, context_errors, size_errors, field_errors, IsValidDef,
  validate_model_def,
}
use localx_llama.Prelude.Int.{is_positive, ℤ}
use localx_llama.Text.{Text, eq_ignore_case, is_blank}
use localx_llama.Model.{ModelDef, QuantEntry, known_parsers}

repo_errors_iff : (name repo : Text) → (repo_errors name repo ≡ []) ↔ (is_blank repo ≡ false)
unfolding repo_errors
repo_errors_iff name repo = elim (Bool-cases (is_blank repo)) [
  | inl b ↦ (λ h. cc (rw (b, repo_errors) at h), λ h. cc)
  | inr b ↦ (λ h. b, λ h. rw b)
]

quant_errors-none :
    (name : Text) (available : List Text) (o : Option Text)
    → quant_errors name available o ≡ []
    → (o ≡ none) ⊎ ((q : Text) × (o ≡ some q) × (any (λ k. eq_ignore_case k q) available ≡ true))
unfolding quant_errors
quant_errors-none name available none h = inl refl
quant_errors-none name available (some q) h =
    elim (Bool-cases (any (λ k. eq_ignore_case k q) available)) [
      | inl b ↦ inr (q, refl, b)
      | inr b ↦ cc (rw b at h)
    ]

none-quant_errors :
    (name : Text) (available : List Text) (o : Option Text)
    → (o ≡ none) ⊎ ((q : Text) × (o ≡ some q) × (any (λ k. eq_ignore_case k q) available ≡ true))
    → quant_errors name available o ≡ []
unfolding quant_errors
none-quant_errors name available o (inl e) = rw e
none-quant_errors name available o (inr (q, e, b)) = rw (e, b)

parser_errors-none :
    (name : Text) (o : Option Text)
    → parser_errors name o ≡ []
    → (o ≡ none)
      ⊎ ((p : Text) × (o ≡ some p) × (any (λ k. eq_ignore_case k p) known_parsers ≡ true))
unfolding parser_errors
parser_errors-none name none h = inl refl
parser_errors-none name (some p) h =
    elim (Bool-cases (any (λ k. eq_ignore_case k p) known_parsers)) [
      | inl b ↦ inr (p, refl, b)
      | inr b ↦ cc (rw b at h)
    ]

none-parser_errors :
    (name : Text) (o : Option Text)
    → (o ≡ none)
      ⊎ ((p : Text) × (o ≡ some p) × (any (λ k. eq_ignore_case k p) known_parsers ≡ true))
    → parser_errors name o ≡ []
unfolding parser_errors
none-parser_errors name o (inl e) = rw e
none-parser_errors name o (inr (p, e, b)) = rw (e, b)

context_errors_iff :
    (name : Text) (contexts : Map ℤ)
    → (context_errors name contexts ≡ []) ↔ (all (λ e. is_positive e.1) contexts ≡ true)
unfolding context_errors
context_errors_iff name [] = (λ h. refl, λ h. refl)
context_errors_iff name ((ck, v) ∷ contexts) = elim (Bool-cases (is_positive v)) [
  | inl b ↦ rw b (context_errors_iff name contexts)
  | inr b ↦ rw b (λ h. cc, λ h. cc)
]

module _ {F : Type 0} (le_zero : F → Bool) (show : F → Text) where
  size_errors_iff :
      (name : Text) (quants : Map (QuantEntry F))
      → (size_errors le_zero show name quants ≡ [])
        ↔ (all (λ e. not (is_some (filter_option le_zero e.1.size_gb))) quants ≡ true)
  unfolding size_errors
  size_errors_iff name [] = (λ h. refl, λ h. refl)
  size_errors_iff name ((qk, qe) ∷ quants) =
      let ih = size_errors_iff name quants in (λ h. ground (arith, ih.0), λ h. ground (arith, ih.1))

  accepted-nil :
      (name : Text) (def : ModelDef F)
      → validate_model_def le_zero show name def ≡ ok tt
      → field_errors le_zero show name def ≡ []
  unfolding validate_model_def
  accepted-nil name def h = on (field_errors le_zero show name def) refl
    where
      on :
          (es : List Text)
          → field_errors le_zero show name def ≡ es
          → field_errors le_zero show name def ≡ []
      on [] e = e
      on (x ∷ es) e = cc (rw (e, validate_model_def) at h)

  nil-accepted :
      (name : Text) (def : ModelDef F)
      → field_errors le_zero show name def ≡ []
      → validate_model_def le_zero show name def ≡ ok tt
  unfolding validate_model_def
  nil-accepted name def h = rw (h, validate_model_def)

  -- A definition is accepted exactly if its repository is named, its default quant and its parser
  -- are known but for ASCII case, and its context lengths and file sizes are positive.
  pub validate_model_def_iff :
      (name : Text) (def : ModelDef F)
      → (validate_model_def le_zero show name def ≡ ok tt) ↔ IsValidDef le_zero def
  unfolding field_errors
  validate_model_def_iff name def = (
    λ h.
        let a = append-eq-nil _ _ (accepted-nil name def h) in
        let b = append-eq-nil _ _ a.1 in
        let c = append-eq-nil _ _ b.1 in
        let d = append-eq-nil _ _ c.1 in
        record {
          repo_given = (repo_errors_iff name def.repo).0 a.0;
          quant_known = quant_errors-none name (keys def.quants) def.quant b.0;
          parser_known = parser_errors-none name def.parser c.0;
          contexts_positive = (context_errors_iff name def.contexts).0 d.0;
          sizes_positive = (size_errors_iff name def.quants).0 d.1;
        },
    λ v. nil-accepted name def (
        simp (
          (repo_errors_iff name def.repo).1 v.repo_given,
          none-quant_errors name (keys def.quants) def.quant v.quant_known,
          none-parser_errors name def.parser v.parser_known,
          (context_errors_iff name def.contexts).1 v.contexts_positive,
          (size_errors_iff name def.quants).1 v.sizes_positive,
        )),
  )
