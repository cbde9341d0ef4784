-- ===== src/Quant/Names.antt =====
-- What a file name says: its quant key, and the set and the place in it of a shard.
use localx_llama.Text.Numbers.{is_digit, number_onto}
use localx_llama.Prelude.{
  ℕ, ◌^◌, Bool, false, ◌&&◌, ◌||◌, Option, none, some, List, [], ◌∷◌, ◌++◌, if◌then◌else◌, ltb,
  ◌==◌, all, length, unwrap_or, ◌>>=?◌, ◌-◌,
}
use localx_llama.Text.{Text, codes, lower, strip_prefix, ◌=ᵗ◌, contains_text}
use localx_llama.Quant.{compact, is_quant_token}

-- `str::rfind`: the text before the last occurrence, and the text behind it.
unfoldable pub rsplit_once : Text → Text → Option (Text × Text)
unfolding strip_prefix
rsplit_once needle [] = none
rsplit_once needle (c ∷ s) = elim (rsplit_once needle s) [
  | some (p, q) ↦ some (c ∷ p, q)
  | none ↦ elim (strip_prefix needle (c ∷ s)) [ some after ↦ some ([], after) | none ↦ none ]
]

-- `s.strip_suffix(suffix)`: the last occurrence, with nothing behind it.
unfoldable pub strip_suffix : Text → Text → Option Text
unfolding rsplit_once
strip_suffix suffix s = elim (rsplit_once suffix s) [ some (p, []) ↦ some p | _ ↦ none ]

-- `!value.is_empty() && value.bytes().all(|c| c.is_ascii_digit())`
unfoldable pub is_digits : Text → Bool
unfolding is_digit
is_digits [] = false
is_digits (c ∷ s) = all is_digit (c ∷ s)

-- `value.parse::<u32>().ok()` of digits
unfoldable pub parse_u32 : Text → Option ℕ
parse_u32 s = let n = number_onto 0 s in if ltb n (2 ^ 32) then some n else none

unfoldable pub split_shard : Text → Text × Option (ℕ × ℕ)
unfolding rsplit_once is_digits parse_u32
split_shard stem = elim (rsplit_once (codes "-of-") stem) [
  | none ↦ (stem, none)
  | some (before, total) ↦ elim (rsplit_once (codes "-") before) [
    | none ↦ (stem, none)
    | some (base, index) ↦
        if is_digits index && is_digits total
        then (base, some (unwrap_or (parse_u32 index) 0, unwrap_or (parse_u32 total) 0))
        else (stem, none)
  ]
]

abbrev onto_piece : ℕ → List Text → List Text
onto_piece c [] = (c ∷ []) ∷ []
onto_piece c (p ∷ ps) = (c ∷ p) ∷ ps

-- `s.split(p)`
unfoldable pub split_on : (ℕ → Bool) → Text → List Text
split_on p [] = [] ∷ []
split_on p (c ∷ s) = let rest = split_on p s in if p c then [] ∷ rest else onto_piece c rest

abbrev not_empty : List Text → List Text
not_empty [] = []
not_empty ([] ∷ ts) = not_empty ts
not_empty ((c ∷ t) ∷ ts) = (c ∷ t) ∷ not_empty ts

-- The segments before the last quant token, the token, and the segments behind it.
unfoldable pub last_token : List Text → Option (List Text × Text × List Text)
unfolding is_quant_token
last_token [] = none
last_token (t ∷ ts) = elim (last_token ts) [
  | some (before, token, after) ↦ some (t ∷ before, token, after)
  | none ↦ if is_quant_token t then some ([], t, ts) else none
]

unfoldable pub quant_segments : Text → Option (List Text × Text × List Text)
unfolding split_on last_token
quant_segments base = last_token (not_empty (split_on (λ c. c == b'.' || c == b'-') base))

-- `segments[index - 1]` is an imatrix marker, where there is one.
unfoldable pub is_marked : List Text → Bool
unfolding ◌=ᵗ◌
is_marked [] = false
is_marked (t ∷ []) = contains_text (codes "i1" ∷ (codes "imat" ∷ (codes "imatrix" ∷ []))) t
is_marked (t ∷ u ∷ ts) = is_marked (u ∷ ts)

unfoldable pub quant_key_from_filename : Text → Option Text
unfolding lower strip_suffix split_shard quant_segments is_marked compact
quant_key_from_filename name = strip_suffix (codes ".gguf") (lower name) >>=? λ stem.
    quant_segments (split_shard stem).0 >>=? λ (before, token, after).
    some (if is_marked before then codes "i1-" ++ compact token else compact token)

unfoldable pub shard_parts : Text → Text × Option (ℕ × ℕ)
unfolding lower strip_suffix split_shard
shard_parts name = split_shard (unwrap_or (strip_suffix (codes ".gguf") (lower name)) (lower name))

unfoldable pub shard_index : Text → ℕ
unfolding shard_parts
shard_index name = elim (shard_parts name).1 [ none ↦ 1 | some (index, total) ↦ index ]

abbrev pub auxiliary_prefixes : List Text
auxiliary_prefixes = codes "mmproj" ∷ (codes "mtp" ∷ [])

abbrev last_piece : List Text → Text
last_piece [] = []
last_piece (p ∷ []) = p
last_piece (p ∷ q ∷ ps) = last_piece (q ∷ ps)

abbrev first_piece : List Text → Text
first_piece [] = []
first_piece (p ∷ ps) = p

unfoldable pub is_auxiliary : Text → Bool
unfolding lower split_on ◌=ᵗ◌
is_auxiliary name =
    let file_name = last_piece (split_on (λ c. c == b'/' || c == b'\\') (lower name)) in
    contains_text auxiliary_prefixes
      (first_piece (split_on (λ c. c == b'.' || c == b'-' || c == b'_') file_name))

-- `usize::MAX` where there is no token
unfoldable pub qualifier_count : Text → ℕ
unfolding quant_segments
qualifier_count base = elim (quant_segments base) [
  | none ↦ 2 ^ 64 - 1
  | some (before, token, after) ↦ length after
]
