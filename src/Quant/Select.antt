-- ===== src/Quant/Select.antt =====
-- Selecting a candidate: `select_quant` of quant.rs.
pub mod Chosen
use localx_llama.Prelude.{
  ℕ, zero, suc, Bool, ◌||◌, Option, none, some, List, [], ◌∷◌, map, if◌then◌else◌, all, find,
  is_some, length, or_else, unwrap_or, Result, err, ok, ◌>>=?◌, ◌+◌, ◌/◌,
}
use localx_llama.Text.{Text, codes, strip_prefix, join, eq_ignore_case, ◌=ᵗ◌}
use localx_llama.Quant.{QuantCandidate, QuantSelectError, none_available, unknown, compact}
use localx_llama.Quant.Sets.{sort_by}

unfoldable pub without_imatrix : Text → Text
unfolding strip_prefix
without_imatrix compact_key = unwrap_or (strip_prefix (codes "i1") compact_key) compact_key

-- The key without case, separators and imatrix marker.
unfoldable pub plain_key : Text → Text
unfolding without_imatrix compact
plain_key key = without_imatrix (compact key)

-- `iter().position(p)`, as the element there
abbrev pub keys_of : List QuantCandidate → List Text
keys_of candidates = map (λ c. c.key) candidates

abbrev pub all_sized : List QuantCandidate → Bool
all_sized candidates = all (λ c. is_some c.total_size) candidates

abbrev pub nth : {A : Type 0} → ℕ → List A → Option A
nth n [] = none
nth zero (x ∷ xs) = some x
nth (suc n) (x ∷ xs) = nth n xs

abbrev pub size_of : QuantCandidate → ℕ
size_of c = unwrap_or c.total_size 0

-- The candidate at `default_index`.
unfoldable pub default_candidate : List QuantCandidate → Option QuantCandidate
unfolding plain_key sort_by
default_candidate candidates = or_else (find (λ c. plain_key c.key =ᵗ codes "q4km") candidates) (
    if all_sized candidates
    then nth (length candidates / 2) (sort_by size_of candidates)
    else nth (length candidates / 2) candidates)

-- `fuzzy` of `match_quant`
unfoldable pub fuzzy : Text → List QuantCandidate → List QuantCandidate
unfolding plain_key
fuzzy requested [] = []
fuzzy requested (c ∷ candidates) =
    if plain_key c.key =ᵗ plain_key requested
    then c ∷ fuzzy requested candidates
    else fuzzy requested candidates

abbrev pub only : List QuantCandidate → Option QuantCandidate
only (c ∷ []) = some c
only _ = none

-- A candidate that the request names as it is, or but for case and separators.
unfoldable pub is_named : Text → QuantCandidate → Bool
unfolding compact
is_named requested c = eq_ignore_case c.key requested || compact c.key =ᵗ compact requested

-- The candidate at the index that `match_quant` finds.
unfoldable pub match_quant : List QuantCandidate → Text → Option QuantCandidate
unfolding is_named fuzzy
match_quant candidates requested =
    or_else (find (λ c. is_named requested c) candidates) (only (fuzzy requested candidates))

-- `swap_remove(index)` of a list that is dropped is the element at the index.
unfoldable pub select_quant :
    List QuantCandidate → Option Text → Result QuantSelectError QuantCandidate
unfolding match_quant default_candidate
select_quant [] requested = err none_available
select_quant (c ∷ candidates) (some requested) = elim (match_quant (c ∷ candidates) requested) [
  | some chosen ↦ ok chosen
  | none ↦ err (unknown requested (join (codes ", ") (keys_of (c ∷ candidates))))
]
select_quant (c ∷ candidates) none = elim (default_candidate (c ∷ candidates)) [
  | some chosen ↦ ok chosen
  | none ↦ err none_available
]
