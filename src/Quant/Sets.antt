-- ===== src/Quant/Sets.antt =====
-- The file sets of a listing, and the candidates that they make.
pub mod Laws
pub mod Sorted
use localx_llama.Prelude.{
  ℕ, suc, ◌%◌, ◌^◌, Bool, true, false, ◌&&◌, Option, none, some, List, [], ◌∷◌, ◌++◌, map,
  if◌then◌else◌, leb, ltb, ◌==◌, unwrap_or, ◌>>=?◌, ◌+◌,
}
use localx_llama.Text.{Text}
use localx_llama.Maps.{Map, get, insert}
use localx_llama.Quant.{QuantFile, QuantCandidate}
use localx_llama.Quant.Names.{
  is_auxiliary, quant_key_from_filename, shard_parts, shard_index, qualifier_count,
}

-- The indexes of shards that all have this total.
unfoldable pub same_total : ℕ → List (Option (ℕ × ℕ)) → Option (List ℕ)
same_total total [] = some []
same_total total (none ∷ shards) = none
same_total total (some (index, set_total) ∷ shards) =
    same_total total shards >>=? λ rest. if set_total == total then some (index ∷ rest) else none

-- `sort_by_key`: a stable sort.
unfoldable pub insert_by {ℓ} : {A : Type ℓ} → (A → ℕ) → A → List A → List A
insert_by k x [] = x ∷ []
insert_by k x (y ∷ ys) =
    let later = insert_by k x ys in if leb (k x) (k y) then x ∷ (y ∷ ys) else y ∷ later

unfoldable pub sort_by {ℓ} : {A : Type ℓ} → (A → ℕ) → List A → List A
unfolding insert_by
sort_by k [] = []
sort_by k (x ∷ xs) = insert_by k x (sort_by k xs)

-- `indexes.into_iter().eq(i..=total)`
unfoldable pub counts_up : ℕ → ℕ → List ℕ → Bool
counts_up i total [] = ltb total i
counts_up i total (x ∷ xs) = leb i total && x == i && counts_up (suc i) total xs

unfoldable pub complete_shards : List (Option (ℕ × ℕ)) → Bool
unfolding same_total sort_by counts_up
complete_shards [] = false
complete_shards (none ∷ []) = true
complete_shards (none ∷ s ∷ shards) = false
complete_shards (some (index, total) ∷ shards) =
    elim (same_total total (some (index, total) ∷ shards)) [
      | none ↦ false
      | some indexes ↦ counts_up 1 total (sort_by (λ i. i) indexes)
    ]

abbrev pub shards_of : List QuantFile → List (Option (ℕ × ℕ))
shards_of parts = map (λ file. (shard_parts file.name).1) parts

unfoldable pub is_complete_set : List QuantFile → Bool
unfolding complete_shards
is_complete_set parts = complete_shards (shards_of parts)

abbrev pub Sets : Type 0
Sets = Map (List QuantFile)

-- `groups.entry(key).or_default().entry(base).or_default().push(file)`
unfoldable pub push_file : Text → Text → QuantFile → Map Sets → Map Sets
push_file key base file groups =
    let sets : Sets = unwrap_or (get key groups) [] in
    let parts : List QuantFile = unwrap_or (get base sets) [] in
    insert key (insert base (parts ++ (file ∷ [])) sets) groups

unfoldable pub group_files : List QuantFile → Map Sets → Map Sets
unfolding push_file
group_files [] groups = groups
group_files (file ∷ files) groups = group_files files (
    if is_auxiliary file.name then groups else elim (quant_key_from_filename file.name) [
      | none ↦ groups
      | some key ↦ push_file key (shard_parts file.name).0 file groups
    ])

-- The first of the complete sets with the fewest qualifiers, behind the best one so far.
unfoldable pub best_set : Sets → Option (Text × List QuantFile) → Option (Text × List QuantFile)
unfolding is_complete_set
best_set [] best = best
best_set ((base, parts) ∷ sets) best = best_set sets (
    if is_complete_set parts
    then elim best [
      | none ↦ some (base, parts)
      | some (b, ps) ↦
          if ltb (qualifier_count base) (qualifier_count b)
          then some (base, parts)
          else some (b, ps)
    ]
    else best)

-- The sum of the sizes, where all are known; u64 wraps around.
unfoldable pub sum_sizes : ℕ → List QuantFile → Option ℕ
sum_sizes total [] = some total
sum_sizes total (file ∷ files) = file.size >>=? λ size. sum_sizes ((total + size) % 2 ^ 64) files

unfoldable pub candidate_of : Text → List QuantFile → QuantCandidate
unfolding sort_by sum_sizes
candidate_of key parts =
    let ordered : List QuantFile = sort_by (λ file. shard_index file.name) parts in
    record { key = key; files = map (λ file. file.name) ordered; total_size = sum_sizes 0 ordered }

unfoldable pub candidates_of : Map Sets → List QuantCandidate
unfolding best_set candidate_of
candidates_of [] = []
candidates_of ((key, sets) ∷ groups) = elim (best_set sets none) [
  | none ↦ candidates_of groups
  | some (base, parts) ↦ candidate_of key parts ∷ candidates_of groups
]

unfoldable pub quant_candidates : List QuantFile → List QuantCandidate
unfolding group_files candidates_of
quant_candidates files = candidates_of (group_files files [])
