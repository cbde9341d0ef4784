-- ===== src/Gate/Laws.antt =====
-- Which lines pass for a live run.
use localx_llama.Prelude.{none, ℕ, true, false, ◌≡◌, refl, [], ◌∷◌, ◌++◌, All, ◌==◌}
use localx_llama.Text.{
  codes, starts_with, Text, is_whitespace, lower, lower_char, strip_prefix, trim_start,
}
use localx_llama.Gate.{offline, parse_provenance}

trim_start-padded :
    (pad : Text) (c : ℕ) (rest : Text)
    → All (λ d. is_whitespace d ≡ true) pad
    → is_whitespace c ≡ false
    → trim_start (pad ++ (c ∷ rest)) ≡ c ∷ rest
unfolding trim_start
trim_start-padded [] c rest h s = rw (s, trim_start) refl
trim_start-padded (d ∷ pad) c rest h s = rw (h.0, trim_start) (trim_start-padded pad c rest h.1 s)

not_live :
    (c : ℕ) (rest : Text)
    → (108 == lower_char c) ≡ false
    → strip_prefix (codes "live ") (lower (c ∷ rest)) ≡ none
unfolding lower strip_prefix
not_live c rest n = rw (n, strip_prefix) refl

-- A line whose first letter is no `l`, of either case, is offline, whatever follows.
pub parse_provenance-offline :
    (pad : Text) (c : ℕ) (rest : Text)
    → All (λ d. is_whitespace d ≡ true) pad
    → is_whitespace c ≡ false
    → (108 == lower_char c) ≡ false
    → parse_provenance (pad ++ (c ∷ rest)) ≡ offline
unfolding parse_provenance
parse_provenance-offline pad c rest h s n =
    rw (trim_start-padded pad c rest h s) (rw (not_live c rest n, starts_with) refl)
