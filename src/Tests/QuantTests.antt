-- ===== src/Tests/QuantTests.antt =====
-- The unit tests of quant.rs, and the theorems about it at concrete inputs.
use localx_llama.Quant.Names.{shard_index, quant_key_from_filename, shard_parts, is_auxiliary}
use localx_llama.Maps.{get, insert}
use localx_llama.Prelude.{◌≡◌, refl, ◌⊎◌, true, false, none, some, List, [], ◌∷◌, All, err, ok}
use localx_llama.Text.{◌=ᵗ◌, Text, codes, join}
use localx_llama.Quant.{QuantFile, QuantCandidate, unknown}
use localx_llama.Quant.Sets.{quant_candidates}
use localx_llama.Quant.Sets.Laws.{IsCandidate, quant_candidates-IsCandidate}
use localx_llama.Quant.Sets.Sorted.{Member}
use localx_llama.Quant.Select.{select_quant, plain_key, keys_of}
use localx_llama.Quant.Select.Chosen.{
  IsUnnamed, select_quant-requested, select_quant-default, is_q4km,
}
use localx_llama.Quant.Shards.{shard_files_from_primary}

quant_key_runs :
    (quant_key_from_filename (codes "Model-Q4_K_M.gguf") ≡ some (codes "q4km"))
    × (quant_key_from_filename (codes "Model.i1-IQ4_XS.gguf") ≡ some (codes "i1-iq4xs"))
    × (quant_key_from_filename (codes "readme.md") ≡ none)
unfolding quant_key_from_filename
quant_key_runs = (refl, refl, refl)

shard_runs :
    (shard_parts (codes "M-Q8_0-00002-of-00003.gguf") ≡ (codes "m-q8_0", some (2, 3)))
    × (is_auxiliary (codes "dir/mmproj-F16.gguf") ≡ true)
unfolding shard_parts is_auxiliary
shard_runs = (refl, refl)

abbrev file : Text → QuantFile
file name = record { name = name; size = some 5 }

abbrev listing : List QuantFile
listing =
    file (codes "A-Q8_0-2-of-2.gguf")
    ∷ (file (codes "mmproj-F16.gguf") ∷ (file (codes "A-Q8_0-1-of-2.gguf") ∷ []))

quant_candidates_runs :
    quant_candidates listing
    ≡ record {
      key = codes "q80";
      files = codes "A-Q8_0-1-of-2.gguf" ∷ (codes "A-Q8_0-2-of-2.gguf" ∷ []);
      total_size = some 10;
    }
      ∷ []
unfolding quant_candidates is_auxiliary quant_key_from_filename insert get shard_parts shard_index
quant_candidates_runs = refl

quant_candidates-IsCandidate_example : All (λ c. IsCandidate listing c) (quant_candidates listing)
quant_candidates-IsCandidate_example = quant_candidates-IsCandidate listing

abbrev candidate : Text → QuantCandidate
candidate key = record { key = key; files = []; total_size = none }

select_quant-requested_example :
    ((x : QuantCandidate) × (select_quant
          (candidate (codes "i1-q4km") ∷ (candidate (codes "q80") ∷ []))
          (some (codes "Q4_K_M"))
        ≡ ok x)
      × Member x (candidate (codes "i1-q4km") ∷ (candidate (codes "q80") ∷ []))
      × ((plain_key x.key =ᵗ plain_key (codes "Q4_K_M")) ≡ true))
    ⊎ ((select_quant
            (candidate (codes "i1-q4km") ∷ (candidate (codes "q80") ∷ []))
            (some (codes "Q4_K_M"))
          ≡ err (
              unknown (codes "Q4_K_M") (
                join
                  (codes ", ")
                  (keys_of (candidate (codes "i1-q4km") ∷ (candidate (codes "q80") ∷ []))))))
        × All
            (λ x. IsUnnamed (codes "Q4_K_M") x)
            (candidate (codes "i1-q4km") ∷ (candidate (codes "q80") ∷ [])))
select_quant-requested_example =
    select_quant-requested (candidate (codes "i1-q4km")) (candidate (codes "q80") ∷ [])
      (codes "Q4_K_M")

select_quant-default_example :
    (x : QuantCandidate) × (select_quant
        (candidate (codes "q80") ∷ (candidate (codes "q4km") ∷ []))
        none
      ≡ ok x)
    × Member x (candidate (codes "q80") ∷ (candidate (codes "q4km") ∷ []))
    × ((plain_key x.key =ᵗ codes "q4km" ≡ true)
        ⊎ All (λ y. is_q4km y ≡ false) (candidate (codes "q80") ∷ (candidate (codes "q4km") ∷ [])))
select_quant-default_example =
    select_quant-default (candidate (codes "q80")) (candidate (codes "q4km") ∷ [])

shard_files_runs :
    shard_files_from_primary (codes "M-00001-of-00002.gguf")
    ≡ codes "M-00001-of-00002.gguf" ∷ (codes "M-00002-of-00002.gguf" ∷ [])
unfolding shard_files_from_primary
shard_files_runs = refl
