-- ===== src/Quant/Shards.antt =====
-- `shard_files_from_primary` of quant.rs: the names of all shards from that of the first.
pub mod Laws
pub mod Found
mod Searches
use localx_llama.Prelude.{
  true, false, Bool-cases, ◌≤◌, sym, ap, ◌∙◌, ◌⊎◌, inl, inr, arith, Option-cases, bind-eq-some, ℕ,
  zero, suc, ◌≡◌, refl, ◌&&◌, Option, none, some, List, [], ◌∷◌, ◌++◌, if◌then◌else◌, leb, ◌==◌,
  length, ◌>>=?◌, ◌+◌, ◌-◌,
}
use localx_llama.Text.{Text, codes, lower, decimal}
use localx_llama.Quant.Names.{rsplit_once, strip_suffix, is_digits, parse_u32}

abbrev pub max_shard_count : ℕ
max_shard_count = 1024

abbrev pub take_chars : ℕ → Text → Text
take_chars zero s = []
take_chars (suc n) [] = []
take_chars (suc n) (c ∷ s) = c ∷ take_chars n s

abbrev pub drop_chars : ℕ → Text → Text
drop_chars zero s = s
drop_chars (suc n) [] = []
drop_chars (suc n) (c ∷ s) = drop_chars n s

abbrev pub zeros : ℕ → Text → Text
zeros zero s = s
zeros (suc n) s = b'0' ∷ zeros n s

-- `format!("{part:0width$}")`
unfoldable pub padded : ℕ → ℕ → Text
unfolding decimal
padded width part = zeros (width - length (decimal part)) (decimal part)

-- The names of the next `count` parts.
unfoldable pub part_names : ℕ → ℕ → (ℕ → Text) → List Text
part_names zero part name = []
part_names (suc count) part name = name part ∷ part_names count (suc part) name

-- The name before the index, the index and the total of a stem that ends in a shard suffix.
unfoldable pub shard_suffix : Text → Option (Text × Text × Text)
unfolding rsplit_once
shard_suffix stem = rsplit_once (codes "-of-") stem >>=? λ (before, total).
    rsplit_once (codes "-") before >>=? λ (base, index). some (base, index, total)

-- The total, if the index is that of the first shard and the total is reasonable.
unfoldable pub primary_total : Text → Text → Option ℕ
unfolding is_digits parse_u32
primary_total index total =
    if is_digits index && is_digits total
    then (parse_u32 index >>=? λ i. parse_u32 total >>=? λ n.
        if i == 1 && leb 2 n && leb n max_shard_count then some n else none)
    else none

-- What is to be expanded: the base, the index and the total.
unfoldable pub primary_shard : Text → Option (Text × Text × ℕ)
unfolding strip_suffix shard_suffix primary_total lower
primary_shard primary = strip_suffix (codes ".gguf") (lower primary) >>=? λ stem.
    shard_suffix stem >>=? λ (base, index, total).
    primary_total index total >>=? λ n. some (base, index, n)

-- The lower-case name has the characters of the name at the same places.
unfoldable pub shard_files_from_primary : Text → List Text
unfolding primary_shard part_names padded
shard_files_from_primary primary = elim (primary_shard primary) [
  | none ↦ primary ∷ []
  | some (base, index, total) ↦
      let index_start = suc (length base) in
      let prefix : Text = take_chars index_start primary in
      let suffix : Text = drop_chars (index_start + length index) primary in
      part_names total 1 (λ part. prefix ++ (padded (length index) part ++ suffix))
]
