-- ===== src/Args/Sampler/Laws.antt =====
-- The sampler flags: which parsers are known, what a quoted value becomes, which value wins.
-- Only the exact names are known to the builder.
use localx_llama.Prelude.{
  All, refl, inl, inr, Bool-cases, ◌≡◌, ◌⊎◌, true, false, Option, none, some, List, [], ◌∷◌, ◌++◌,
  if◌then◌else◌, or_else, err, ok,
}
use localx_llama.Args.Sampler.{
  qwen36_lines, qwen36_think_lines, qwen3coder_lines, flag_of, ollama_parameter_args,
  parameter_line, parser_lines, strict_sampler_args, unquote,
}
use localx_llama.Text.{
  Text, codes, contains_text, lower, split_at_whitespace, strip_prefix, trim, trim_start, ◌=ᵗ◌,
}
use localx_llama.Error.{unknown_parser}
use localx_llama.Model.{known_parsers}

-- The known parsers have a table of lines, and any other name is refused as such.
pub parser_lines_lem :
    (parser : Text)
    → ((contains_text known_parsers parser ≡ true)
        × (lines : List Text) × (parser_lines parser ≡ ok lines))
      ⊎ ((contains_text known_parsers parser ≡ false)
          × (parser_lines parser ≡ err (unknown_parser parser)))
unfolding parser_lines
parser_lines_lem parser = elim (Bool-cases (codes "none" =ᵗ parser)) [
  | inl a ↦ inl (rw a refl, [], rw (a, parser_lines) refl)
  | inr a ↦ elim (Bool-cases (codes "qwen3coder" =ᵗ parser)) [
    | inl b ↦ inl (rw (a, b) refl, qwen3coder_lines, rw (a, b, parser_lines) refl)
    | inr b ↦ elim (Bool-cases (codes "qwen36" =ᵗ parser)) [
      | inl c ↦ inl (rw (a, b, c) refl, qwen36_lines, rw (a, b, c, parser_lines) refl)
      | inr c ↦ elim (Bool-cases (codes "qwen36-think" =ᵗ parser)) [
        | inl d ↦ inl (rw (a, b, c, d) refl, qwen36_think_lines, rw (a, b, c, d, parser_lines) refl)
        | inr d ↦ inr (rw (a, b, c, d) refl, rw (a, b, c, d, parser_lines) refl)
      ]
    ]
  ]
]

-- The four tables.
pub data Table : List Text → Type 0 where
  plain : {l : List Text} → l ≡ [] → Table l
  coder : {l : List Text} → l ≡ qwen3coder_lines → Table l
  general : {l : List Text} → l ≡ qwen36_lines → Table l
  thinking : {l : List Text} → l ≡ qwen36_think_lines → Table l

parser_lines-Table :
    (parser : Text) (lines : List Text) → parser_lines parser ≡ ok lines → Table lines
unfolding parser_lines
parser_lines-Table parser lines h = elim (Bool-cases (codes "none" =ᵗ parser)) [
  | inl a ↦ plain (cc (rw (a, parser_lines) at h))
  | inr a ↦ elim (Bool-cases (codes "qwen3coder" =ᵗ parser)) [
    | inl b ↦ coder (cc (rw (a, b, parser_lines) at h))
    | inr b ↦ elim (Bool-cases (codes "qwen36" =ᵗ parser)) [
      | inl c ↦ general (cc (rw (a, b, c, parser_lines) at h))
      | inr c ↦ elim (Bool-cases (codes "qwen36-think" =ᵗ parser)) [
        | inl d ↦ thinking (cc (rw (a, b, c, d, parser_lines) at h))
        | inr d ↦ cc (rw (a, b, c, d, parser_lines) at h)
      ]
    ]
  ]
]

-- The value of a flag for a reader that takes the last one.
abbrev pub last_value : Text → List Text → Option Text
last_value flag [] = none
last_value flag (k ∷ []) = none
last_value flag (k ∷ v ∷ args) = or_else (last_value flag args) (if k =ᵗ flag then some v else none)

-- what the overlay sets
abbrev pub strict_values : List (Text × Text)
strict_values =
    (codes "--temp", codes "0.2")
    ∷ (codes "--top-p", codes "0.8")
    ∷ (codes "--top-k", codes "20")
    ∷ (codes "--min-p", codes "0.05")
    ∷ (codes "--presence-penalty", codes "0")
    ∷ (codes "--repeat-penalty", codes "1.15")
    ∷ (codes "--repeat-last-n", codes "4096")
    ∷ []

abbrev pub StrictWins : List Text → Type 0
StrictWins lines =
    All
      (λ (flag, value).
        last_value flag (ollama_parameter_args lines ++ strict_sampler_args) ≡ some value)
      strict_values

Table-StrictWins : (lines : List Text) → Table lines → StrictWins lines
unfolding ollama_parameter_args strict_sampler_args parameter_line unquote flag_of lower trim
    trim_start split_at_whitespace ◌=ᵗ◌ strip_prefix
Table-StrictWins lines (plain e) = rw e (refl, (refl, (refl, (refl, (refl, (refl, (refl, tt)))))))
Table-StrictWins lines (coder e) = rw e (refl, (refl, (refl, (refl, (refl, (refl, (refl, tt)))))))
Table-StrictWins lines (general e) = rw e (refl, (refl, (refl, (refl, (refl, (refl, (refl, tt)))))))
Table-StrictWins lines (thinking e) =
    rw e (refl, (refl, (refl, (refl, (refl, (refl, (refl, tt)))))))

-- Behind the flags of any known parser, the strict overlay decides each of its seven values.
pub strict_sampler_wins :
    (parser : Text) (lines : List Text) → parser_lines parser ≡ ok lines → StrictWins lines
strict_sampler_wins parser lines h = Table-StrictWins lines (parser_lines-Table parser lines h)
