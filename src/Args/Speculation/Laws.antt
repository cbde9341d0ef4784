-- ===== src/Args/Speculation/Laws.antt =====
-- Spec-types that the turboquant fork has no path for.
-- A text that lower-cases to a spec-type with no blanks is no n-gram type.
use localx_llama.Prelude.{
  ◌↔◌, none, bind-eq-ok, false, ◌++◌, ◌⊎◌, some, filter_option, err, ◌>>=◌, arith, Option-cases,
  Result, ◌∷◌, ◌≡◌, refl, ◌∙◌, inl, inr, true, false, Option, List, Bool-cases, ok,
}
use localx_llama.Text.{
  eq_ignore_case, decimal_ℤ, is_blank, Text, codes, contains_text, lower, starts_with, strip_prefix,
  trim, ◌=ᵗ◌,
}
use localx_llama.Prelude.Int.{is_positive, ℤ}
use localx_llama.Error.{spec_type_unsupported, CoreError}
use localx_llama.Model.{Mode, native, prism_ml, turboquant}
use localx_llama.Args.Kv.{is_turboquant, validate_spec_type, non_blank, mtp_spec_types}
use localx_llama.Args.Params.{push2}
use localx_llama.Args.Speculation.{
  draft_args, draft_simple, spec_only_args, is_ngram_spec, speculation_args,
}
use localx_llama.Text.Case.{=ᵗ_iff, trim-lower}

ngram-lower : (s : Text) → is_ngram_spec s ≡ starts_with (codes "ngram-") (trim (lower s))
unfolding is_ngram_spec
ngram-lower s = rw trim-lower

mtp_is_no_ngram :
    (s : Text) → contains_text mtp_spec_types (lower s) ≡ true → is_ngram_spec s ≡ false
unfolding trim strip_prefix
mtp_is_no_ngram s h = elim (Bool-cases (codes "draft-mtp" =ᵗ lower s)) [
  | inl a ↦ ngram-lower s ∙ rw (← (=ᵗ_iff (codes "draft-mtp") (lower s)).0 a) refl
  | inr a ↦ elim (Bool-cases (codes "mtp" =ᵗ lower s)) [
    | inl b ↦ ngram-lower s ∙ rw (← (=ᵗ_iff (codes "mtp") (lower s)).0 b) refl
    | inr b ↦ elim (Bool-cases (codes "nextn" =ᵗ lower s)) [
      | inl c ↦ ngram-lower s ∙ rw (← (=ᵗ_iff (codes "nextn") (lower s)).0 c) refl
      | inr c ↦ cc (rw (a, b, c) at h)
    ]
  ]
]

head_is :
    (x y s : Text) (l rest : List Text)
    → ◌≡◌ {A = Result CoreError (List Text)} (ok (x ∷ (y ∷ l))) (ok (x ∷ (s ∷ rest)))
    → y ≡ s
head_is x y s l rest h = cc

draft_simple_is_no_mtp : contains_text mtp_spec_types (lower draft_simple) ≡ false
unfolding lower ◌=ᵗ◌
draft_simple_is_no_mtp = refl

draft_args-head :
    (spec : Option Text) (path : Text) (n_max : Option ℤ) (s : Text) (rest : List Text)
    → draft_args spec path n_max ≡ ok (codes "--spec-type" ∷ (s ∷ rest))
    → draft_simple ≡ s
unfolding draft_args
draft_args-head spec path n_max s rest h = ground arith

mtp_refused :
    (spec : Text)
    → is_blank spec ≡ false
    → contains_text mtp_spec_types (lower spec) ≡ true
    → validate_spec_type spec turboquant ≡ err (spec_type_unsupported (lower spec))
unfolding validate_spec_type is_turboquant
mtp_refused spec b m = rw (b, m)

spec_only-head :
    (mode : Mode) (spec : Text) (n_max : Option ℤ) (s : Text) (rest : List Text)
    → spec_only_args mode spec n_max ≡ ok (codes "--spec-type" ∷ (s ∷ rest))
    → (spec ≡ s) × ((is_ngram_spec spec ≡ true) ⊎ (validate_spec_type spec mode ≡ ok tt))
unfolding spec_only_args
spec_only-head mode spec n_max s rest h = elim (Option-cases (filter_option is_positive n_max)) [
  | inr (n, e) ↦ with_length n (rw (e, spec_only_args) at h) (validate_spec_type spec mode) refl
  | inl e ↦ elim (Bool-cases (is_ngram_spec spec)) [
    | inl g ↦ (cc (rw (e, g, spec_only_args) at h), inl g)
    | inr g ↦ cc (rw (e, g, spec_only_args) at h)
  ]
]
  where
    with_length :
        (n : ℤ)
        → (validate_spec_type spec mode >>= λ _.
            ok (
              push2 (codes "--spec-type") spec ++ push2 (codes "--spec-draft-n-max") (decimal_ℤ n)))
          ≡ ok (codes "--spec-type" ∷ (s ∷ rest))
        → (v : Result CoreError (Unit {0})) → validate_spec_type spec mode ≡ v
        → (spec ≡ s) × ((is_ngram_spec spec ≡ true) ⊎ (validate_spec_type spec mode ≡ ok tt))
    with_length n k (ok u) e = (cc (rw e at k), inr e)
    with_length n k (err x) e = cc (rw e at k)

spec_only-no_mtp :
    (spec : Text) (n_max : Option ℤ) (s : Text) (rest : List Text)
    → is_blank spec ≡ false
    → spec_only_args turboquant spec n_max ≡ ok (codes "--spec-type" ∷ (s ∷ rest))
    → contains_text mtp_spec_types (lower s) ≡ false
spec_only-no_mtp spec n_max s rest b h =
    let (e, w) = spec_only-head turboquant spec n_max s rest h in
    rw (← e) (elim (Bool-cases (contains_text mtp_spec_types (lower spec))) [
      | inr good ↦ good
      | inl bad ↦ elim w [
        | inl g ↦ cc (mtp_is_no_ngram spec bad)
        | inr v ↦ cc (mtp_refused spec b bad)
      ]
    ])

shown : (o : Option Text) (t : Text) → non_blank o ≡ some t → is_blank t ≡ false
unfolding non_blank
shown o t h = ground arith

-- In turboquant mode, the spec-type that a launch is given is never an MTP type, whether a draft
-- model, a draft length or an n-gram type leads to it.
speculation_no_mtp :
    (spec draft_path : Option Text) (n_max : Option ℤ) (s : Text) (rest : List Text)
    → speculation_args turboquant spec draft_path n_max ≡ ok (codes "--spec-type" ∷ (s ∷ rest))
    → contains_text mtp_spec_types (lower s) ≡ false
unfolding speculation_args
speculation_no_mtp spec draft_path n_max s rest h = elim (Option-cases (non_blank draft_path)) [
  | inr (path, e) ↦
      rw (← draft_args-head spec path n_max s rest (ground arith)) draft_simple_is_no_mtp
  | inl e ↦ elim (Option-cases (non_blank spec)) [
    | inr (t, f) ↦ spec_only-no_mtp t n_max s rest (shown spec t f) (ground arith)
    | inl f ↦ absurd (ground arith)
  ]
]

-- The fork has no path for MTP.
abbrev pub Takes : Mode → Text → Type 0
Takes turboquant spec = contains_text mtp_spec_types (lower spec) ≡ false
Takes native spec = Unit
Takes prism_ml spec = Unit

-- One engine: beside a draft model the spec-type is `draft-simple`, if there is one. Without a draft
-- model, the mode takes a spec-type that comes with a draft length.
abbrev pub OneEngine : Mode → Option Text → Option Text → Option ℤ → Type 0
OneEngine mode (some path) none n_max = Unit
OneEngine mode (some path) (some spec) n_max = eq_ignore_case spec (codes "draft-simple") ≡ true
OneEngine mode none (some spec) (some n) = Takes mode spec
OneEngine mode none (some spec) none = Unit
OneEngine mode none none n_max = Unit

-- Blank texts, and lengths that are not positive, are as none.
abbrev pub IsConsistent : Mode → Option Text → Option Text → Option ℤ → Type 0
IsConsistent mode spec draft_path n_max =
    OneEngine mode (non_blank draft_path) (non_blank spec) (filter_option is_positive n_max)

valid_iff :
    (mode : Mode) (spec : Text)
    → is_blank spec ≡ false
    → (validate_spec_type spec mode ≡ ok tt) ↔ Takes mode spec
unfolding validate_spec_type is_turboquant
valid_iff native spec b = rw b (λ h. tt, λ t. refl)
valid_iff prism_ml spec b = rw b (λ h. tt, λ t. refl)
valid_iff turboquant spec b = elim (Bool-cases (contains_text mtp_spec_types (lower spec))) [
  | inl mtp ↦ (λ h. absurd (cc (rw (b, mtp) at h)), λ t. absurd (cc (mtp, t)))
  | inr other ↦ (λ h. other, λ t. rw (b, other) refl)
]

draft_args_iff :
    (spec : Option Text) (path : Text) (n_max : Option ℤ) (mode : Mode)
    → ((args : List Text) × (draft_args spec path n_max ≡ ok args))
      ↔ OneEngine mode (some path) (non_blank spec) (filter_option is_positive n_max)
unfolding draft_args
draft_args_iff spec path n_max mode = elim (Option-cases (non_blank spec)) [
  | inl e ↦ rw (e, draft_args) (λ h. tt, λ t. (_, refl))
  | inr (s, e) ↦ elim (Bool-cases (eq_ignore_case s (codes "draft-simple"))) [
    | inl same ↦ rw (e, draft_args) (rw (same, draft_args) (λ h. refl, λ t. (_, refl)))
    | inr other ↦
        rw (e, draft_args) (rw (other, draft_args) (λ h. absurd (cc h.1), λ t. absurd (cc t)))
  ]
]

spec_only_args_iff :
    (mode : Mode) (spec : Text) (n_max : Option ℤ)
    → is_blank spec ≡ false
    → ((args : List Text) × (spec_only_args mode spec n_max ≡ ok args))
      ↔ OneEngine mode none (some spec) (filter_option is_positive n_max)
unfolding spec_only_args
spec_only_args_iff mode spec n_max b = elim (Option-cases (filter_option is_positive n_max)) [
  | inl e ↦ rw (e, spec_only_args) (λ h. tt, λ t. (_, refl))
  | inr (n, e) ↦
      let v = valid_iff mode spec b in
      rw (e, spec_only_args)
        (
          λ h. let (u, k, _) = bind-eq-ok (validate_spec_type spec mode) _ h.1 in v.0 k,
          λ t. (
            push2 (codes "--spec-type") spec ++ push2 (codes "--spec-draft-n-max") (decimal_ℤ n),
            rw (v.1 t) refl,
          ),
        )
]

-- There are arguments of speculation exactly if the speculation is consistent.
pub speculation_args_iff :
    (mode : Mode) (spec draft_path : Option Text) (n_max : Option ℤ)
    → ((args : List Text) × (speculation_args mode spec draft_path n_max ≡ ok args))
      ↔ IsConsistent mode spec draft_path n_max
unfolding speculation_args
speculation_args_iff mode spec draft_path n_max = elim (Option-cases (non_blank draft_path)) [
  | inr (path, e) ↦ rw (e, speculation_args) (draft_args_iff spec path n_max mode)
  | inl e ↦ elim (Option-cases (non_blank spec)) [
    | inr (s, f) ↦ rw (e, f, speculation_args) (spec_only_args_iff mode s n_max (shown spec s f))
    | inl f ↦ rw (e, f, speculation_args) (λ h. tt, λ t. (_, refl))
  ]
]
