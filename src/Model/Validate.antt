-- ===== src/Model/Validate.antt =====
-- `validate_model_def` of model.rs: every field error, joined in one message. The tests and the
-- printing of `f64` are parameters.
-- `{name}.Field`, and a text in quotes
pub mod Laws
use localx_llama.Prelude.{
  ◌≡◌, ◌⊎◌, Bool, true, false, not, Option, none, some, List, [], ◌∷◌, ◌++◌, if◌then◌else◌, all,
  any, filter_option, is_some, Result, err, ok,
}
use localx_llama.Prelude.Int.{is_positive, ℤ}
use localx_llama.Text.{
  Text, codes, decimal_ℤ, eq_ignore_case, is_blank, is_empty, join, lower, trim, ◌=ᵗ◌,
}
use localx_llama.Maps.{Map, keys}
use localx_llama.Error.{CoreError, validation}
use localx_llama.Model.{ModelDef, QuantEntry, known_parsers, separator}

unfoldable pub dotted : Text → Text → Text
dotted name field = name ++ (codes "." ++ field)

unfoldable pub repo_errors : Text → Text → List Text
unfolding dotted trim
repo_errors name repo =
    if is_blank repo then dotted name (codes "Repo must not be empty") ∷ [] else []

unfoldable pub quant_errors : Text → List Text → Option Text → List Text
unfolding dotted lower ◌=ᵗ◌ join
quant_errors name available none = []
quant_errors name available (some q) =
    if any (λ k. eq_ignore_case k q) available
    then []
    else (dotted name (codes "Quant '")
        ++ (q
            ++ (codes "' is not a key in "
                ++ (dotted name (codes "Quants (") ++ (join separator available ++ codes ")")))))
      ∷ []

unfoldable pub parser_errors : Text → Option Text → List Text
unfolding dotted lower ◌=ᵗ◌ join
parser_errors name none = []
parser_errors name (some p) =
    if any (λ k. eq_ignore_case k p) known_parsers
    then []
    else (dotted name (codes "Parser '")
        ++ (p
            ++ (codes "' is unknown (expected one of "
                ++ (join separator known_parsers ++ codes ")"))))
      ∷ []

unfoldable pub context_errors : Text → Map ℤ → List Text
unfolding dotted decimal_ℤ
context_errors name [] = []
context_errors name ((ck, v) ∷ contexts) =
    let more = context_errors name contexts in
    if is_positive v
    then more
    else (dotted name (codes "Contexts['")
        ++ ((if is_empty ck then codes "default" else ck)
            ++ (codes "'] must be a positive integer, got " ++ decimal_ℤ v)))
      ∷ more

module _ {F : Type 0} (le_zero : F → Bool) (show : F → Text) where
  unfoldable pub size_errors : Text → Map (QuantEntry F) → List Text
  unfolding dotted
  size_errors name [] = []
  size_errors name ((qk, qe) ∷ quants) =
      let more = size_errors name quants in
      elim (filter_option le_zero qe.size_gb) [
        | none ↦ more
        | some sz ↦
            (dotted name (codes "Quants['")
              ++ (qk ++ (codes "'].SizeGB must be positive, got " ++ show sz)))
            ∷ more
      ]

  unfoldable pub field_errors : Text → ModelDef F → List Text
  field_errors name def =
      repo_errors name def.repo
      ++ (quant_errors name (keys def.quants) def.quant
          ++ (parser_errors name def.parser
              ++ (context_errors name def.contexts ++ size_errors name def.quants)))

  unfoldable pub validate_model_def : Text → ModelDef F → Result CoreError (Unit {0})
  validate_model_def name def = elim (field_errors name def) [
    | [] ↦ ok tt
    | e ∷ es ↦ err (validation (join (codes "\n") (e ∷ es)))
  ]

-- What a definition must meet, with no message in sight.
pub record IsValidDef {F : Type 0} (le_zero : F → Bool) (def : ModelDef F) : Type 0 where
  pub repo_given : is_blank def.repo ≡ false
  pub quant_known :
      (def.quant ≡ none)
      ⊎ ((q : Text) × (def.quant ≡ some q)
          × (any (λ k. eq_ignore_case k q) (keys def.quants) ≡ true))
  pub parser_known :
      (def.parser ≡ none)
      ⊎ ((p : Text) × (def.parser ≡ some p) × (any (λ k. eq_ignore_case k p) known_parsers ≡ true))
  pub contexts_positive : all (λ e. is_positive e.1) def.contexts ≡ true
  pub sizes_positive :
      all (λ e. not (is_some (filter_option le_zero e.1.size_gb))) def.quants ≡ true
