-- ===== src/Quant/Notes.antt =====
-- The taxonomy of quants, their notes, and the contexts of an imported model.
pub mod Laws
use localx_llama.Prelude.{
  ℕ, Bool, Option, none, some, List, [], ◌∷◌, ◌++◌, map, if◌then◌else◌, find, ◌>>=?◌, or_else,
}
use localx_llama.Text.{Text, codes, join, is_empty, ◌=ᵗ◌}
use localx_llama.Quant.{comparable, upper_char}

-- A code, its family and its tier.
abbrev pub Semantics : Type 0
Semantics = Text × Text × Text

abbrev row : Text → Text → Text → Semantics
row code family tier = (code, family, tier)

abbrev pub semantics_table : List Semantics
semantics_table =
    row (codes "IQ1_S") (codes "1-bit imatrix") (codes "for the desperate")
    ∷ row (codes "IQ1_M") (codes "1-bit imatrix") (codes "mostly desperate")
    ∷ row (codes "IQ2_XXS") (codes "2-bit imatrix") (codes "very low quality")
    ∷ row (codes "IQ2_XS") (codes "2-bit imatrix") (codes "very low quality")
    ∷ row (codes "IQ2_S") (codes "2-bit imatrix") (codes "low quality")
    ∷ row (codes "IQ2_M") (codes "2-bit imatrix") (codes "low quality, long-context only")
    ∷ row (codes "Q2_K_S") (codes "2-bit k-quant small") (codes "very low quality")
    ∷ row (codes "Q2_K") (codes "2-bit k-quant") (codes "IQ3_XXS often better")
    ∷ row (codes "IQ3_XXS") (codes "3-bit imatrix") (codes "lower quality")
    ∷ row (codes "IQ3_XS") (codes "3-bit imatrix") (codes "lower quality")
    ∷ row (codes "Q3_K_S") (codes "3-bit k-quant small") (codes "IQ3_XS often better")
    ∷ row (codes "IQ3_S") (codes "3-bit imatrix") (codes "beats Q3_K*")
    ∷ row (codes "IQ3_M") (codes "3-bit imatrix") (codes "good 3-bit baseline")
    ∷ row (codes "Q3_K_M") (codes "3-bit k-quant medium") (codes "IQ3_S often better")
    ∷ row (codes "Q3_K_L") (codes "3-bit k-quant large") (codes "IQ3_M often better")
    ∷ row (codes "IQ4_XS") (codes "4-bit imatrix") (codes "good 4-bit, smallest 4-bit option")
    ∷ row (codes "IQ4_NL") (codes "4-bit imatrix non-linear") (codes "good 4-bit baseline")
    ∷ row (codes "Q4_0") (codes "4-bit legacy") (codes "fast, low quality")
    ∷ row (codes "Q4_1") (codes "4-bit legacy") []
    ∷ row (codes "Q4_K_S") (codes "4-bit k-quant small") (codes "optimal size/speed/quality")
    ∷ row (codes "Q4_K_M") (codes "4-bit k-quant medium") (codes "fast, recommended sweet spot")
    ∷ row (codes "Q4_K_P") (codes "4-bit k-quant") (codes "similar to Q4_K_M")
    ∷ row (codes "MXFP4") (codes "4-bit MoE-aware") (codes "similar to IQ4_NL")
    ∷ row (codes "MXFP4_MOE") (codes "4-bit MoE-aware") (codes "similar to IQ4_NL")
    ∷ row (codes "Q5_K_S") (codes "5-bit k-quant small") (codes "noticeable quality bump")
    ∷ row (codes "Q5_K_M") (codes "5-bit k-quant medium") (codes "noticeable quality bump")
    ∷ row (codes "Q6_K") (codes "6-bit k-quant") (codes "high quality")
    ∷ row (codes "Q6_K_P") (codes "6-bit k-quant") (codes "high quality")
    ∷ row (codes "Q8_0") (codes "8-bit") (codes "highest practical quality")
    ∷ row (codes "BF16") (codes "bfloat16 full precision") (codes "expect partial offload")
    ∷ row (codes "F16") (codes "float16 full precision") (codes "expect partial offload")
    ∷ row (codes "F32") (codes "float32 full precision") (codes "almost certainly partial offload")
    ∷ []

-- The search for a row; the table comes in as a parameter.
unfoldable pub find_semantics : List Semantics → Text → Option Semantics
unfolding comparable
find_semantics table code = find (λ r. comparable r.0 =ᵗ comparable code) table

unfoldable pub quant_semantics : Text → Option Semantics
unfolding find_semantics
quant_semantics code = find_semantics semantics_table code

-- `parts.push(part)` unless the part is empty.
abbrev pub note_part : Text → List Text
note_part part = if is_empty part then [] else part ∷ []

-- The parts of a note: the code, the family, the size and the tier. The size comes in as its text,
-- if it is positive.
unfoldable pub note_parts : Option Semantics → Text → List Text → List Text
unfolding upper_char
note_parts none code size = map upper_char code ∷ size
note_parts (some (name, family, tier)) code size =
    name ∷ (note_part family ++ (size ++ note_part tier))

module _ {F : Type 0} (positive : F → Bool) (rounded : F → Text) where
  -- `rounded` prints a size to one decimal.
  unfoldable pub quant_note_text : Text → Option F → Text
  unfolding quant_semantics note_parts
  quant_note_text code size_gb =
      let size : List Text = elim size_gb [
        | none ↦ []
        | some sz ↦ if positive sz then (codes "~" ++ (rounded sz ++ codes " GB")) ∷ [] else []
      ] in
      join (codes " · ") (note_parts (quant_semantics code) code size)

abbrev pub default_contexts : List (Text × ℕ)
default_contexts =
    ([], 65536)
    ∷ ((codes "32k", 32768)
        ∷ ((codes "64k", 65536) ∷ ((codes "128k", 131072) ∷ ((codes "256k", 262144) ∷ []))))
