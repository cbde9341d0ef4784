-- ===== src/Capabilities/Laws.antt =====
-- Which lines of a help text introduce options.
use localx_llama.Text.{starts_with, byte_len, codes, Text, strip_prefix}
use localx_llama.Capabilities.{entry_options, is_option, leading_options, separates, split_tokens}
use localx_llama.Text.Lines.{onto_first}
use localx_llama.Prelude.{
  ltb, none, ◌∙◌, ℕ, true, false, ◌≡◌, inl, inr, refl, List, [], ◌∷◌, ◌++◌, arith, All, Bool-cases,
  ◌==◌,
}

-- Indentation adds empty tokens only.
padded :
    (pad rest : Text)
    → All (λ c. separates c ≡ true) pad
    → leading_options (split_tokens (pad ++ rest)) ≡ leading_options (split_tokens rest)
unfolding split_tokens leading_options
padded [] rest h = refl
padded (c ∷ pad) rest h = rw (h.0) (padded pad rest h.1)

no_prefix : (c : ℕ) (t : Text) → (c == 45) ≡ false → strip_prefix (codes "-") (c ∷ t) ≡ none
unfolding strip_prefix
no_prefix c t h = elim (Bool-cases (45 == c)) [
  | inl same ↦ absurd (ground arith)
  | inr other ↦ rw (other, strip_prefix) refl
]

no_dash : (c : ℕ) (t : Text) → (c == 45) ≡ false → is_option (c ∷ t) ≡ false
unfolding is_option
no_dash c t h = elim (Bool-cases (ltb 1 (byte_len (c ∷ t)))) [
  | inl long ↦ rw (long, no_prefix c t h, starts_with) refl
  | inr shorter ↦ rw shorter refl
]

onto_word :
    (c : ℕ) (tokens : List Text) → (c == 45) ≡ false → leading_options (onto_first c tokens) ≡ []
unfolding onto_first leading_options
onto_word c [] d = rw (no_dash c [] d) refl
onto_word c (t ∷ tokens) d = rw (no_dash c t d) refl

word_first :
    (c : ℕ) (rest : Text)
    → separates c ≡ false
    → (c == 45) ≡ false
    → leading_options (split_tokens (c ∷ rest)) ≡ []
unfolding split_tokens onto_first
word_first c rest s d = rw s (onto_word c (split_tokens rest) d)

-- A line that starts, behind its indentation, with anything but a dash introduces no option,
-- whatever options it mentions.
pub entry_options_description :
    (pad : Text) (c : ℕ) (rest : Text)
    → All (λ d. separates d ≡ true) pad
    → separates c ≡ false
    → (c == 45) ≡ false
    → entry_options (pad ++ (c ∷ rest)) ≡ []
unfolding entry_options
entry_options_description pad c rest h s d = padded pad (c ∷ rest) h ∙ word_first c rest s d
