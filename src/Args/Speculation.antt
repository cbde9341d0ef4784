-- ===== src/Args/Speculation.antt =====
-- Speculative decoding, args.rs: one engine per launch.
pub mod Laws
use localx_llama.Args.Params.{positive_arg, push2}
use localx_llama.Text.{decimal_ℤ, Text, codes, eq_ignore_case, lower, starts_with, trim}
use localx_llama.Prelude.{
  Bool, Option, none, some, List, [], ◌++◌, if◌then◌else◌, filter_option, Result, err, ok, ◌>>=◌,
}
use localx_llama.Prelude.Int.{is_positive, ℤ}
use localx_llama.Error.{CoreError, spec_type_conflicts_with_draft}
use localx_llama.Model.{Mode}
use localx_llama.Args.Kv.{non_blank, validate_spec_type}

unfoldable pub is_ngram_spec : Text → Bool
is_ngram_spec spec = starts_with (codes "ngram-") (lower (trim spec))

abbrev pub draft_simple : Text
draft_simple = codes "draft-simple"

-- With a draft model at `path`.
unfoldable pub draft_args : Option Text → Text → Option ℤ → Result CoreError (List Text)
draft_args spec path n_max =
    let args : List Text =
      push2 (codes "--spec-type") draft_simple
      ++ (push2 (codes "--spec-draft-model") path
          ++ positive_arg (codes "--spec-draft-n-max") n_max) in
    elim (non_blank spec) [
      | none ↦ ok args
      | some s ↦
          if eq_ignore_case s draft_simple
          then ok args
          else err (spec_type_conflicts_with_draft (lower s))
    ]

-- Without one, for a spec-type that is not blank.
unfoldable pub spec_only_args : Mode → Text → Option ℤ → Result CoreError (List Text)
spec_only_args mode spec n_max = elim (filter_option is_positive n_max) [
  | some n ↦
      (validate_spec_type spec mode >>= λ _.
      ok (push2 (codes "--spec-type") spec ++ push2 (codes "--spec-draft-n-max") (decimal_ℤ n)))
  | none ↦ ok (if is_ngram_spec spec then push2 (codes "--spec-type") spec else [])
]

unfoldable pub speculation_args :
    Mode → Option Text → Option Text → Option ℤ → Result CoreError (List Text)
speculation_args mode spec draft_path n_max = elim (non_blank draft_path) [
  | some path ↦ draft_args spec path n_max
  | none ↦ elim (non_blank spec) [ none ↦ ok [] | some s ↦ spec_only_args mode s n_max ]
]
