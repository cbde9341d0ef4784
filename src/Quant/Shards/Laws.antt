-- ===== src/Quant/Shards/Laws.antt =====
-- The names of a set's shards.
use localx_llama.Prelude.{ℕ, zero, suc, ◌≡◌, List, [], ◌∷◌, ◌++◌, length, ◌+◌, ◌-◌, map}
use localx_llama.Text.{Text, decimal}
use localx_llama.Text.Numbers.{number_onto}

-- The numbers from `first` on, `count` of them.
abbrev pub numbers : ℕ → ℕ → List ℕ
numbers first zero = []
numbers first (suc count) = first ∷ numbers (suc first) count

-- Digits that stand for the number: as many as it has, or as the width where that is more.
abbrev pub IsNumeral : ℕ → ℕ → Text → Type 0
IsNumeral width number t =
    (number_onto 0 t ≡ number)
    × (length t ≡ length (decimal number) + (width - length (decimal number)))

-- The names of the `n` shards of a set, where `index` stands behind `base` and a dash: a name for
-- each number from 1 on, in that order, which has the number in place of the index.
abbrev pub IsExpanded : Text → Text → Text → ℕ → List Text → Type 0
IsExpanded primary base index n files =
    (prefix : Text) × (middle : Text) × (suffix : Text) × (numeral : ℕ → Text) × (length prefix
      ≡ suc (length base))
    × (length middle ≡ length index)
    × (prefix ++ (middle ++ suffix) ≡ primary)
    × ((part : ℕ) → IsNumeral (length index) part (numeral part))
    × (files ≡ map (λ part. prefix ++ (numeral part ++ suffix)) (numbers 1 n))
