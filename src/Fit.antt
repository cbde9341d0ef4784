-- ===== src/Fit.antt =====
-- The memory fitter's arguments: `fit_params_args` of crates/localx-llama-core/src/fit.rs.
pub mod Laws
pub mod Output
use localx_llama.Prelude.{ℕ, Bool, true, false, ◌||◌, ◌&&◌, not, List, [], ◌∷◌, ◌++◌, leb, ◌==◌}
use localx_llama.Text.{Text, codes, contains_text, decimal, ◌=ᵗ◌}

abbrev pub memory_flags_with_value : List Text
memory_flags_with_value =
    codes "-m"
    ∷ codes "--model"
    ∷ codes "-c"
    ∷ codes "--ctx-size"
    ∷ codes "-np"
    ∷ codes "--parallel"
    ∷ codes "-ctk"
    ∷ codes "--cache-type-k"
    ∷ codes "-ctv"
    ∷ codes "--cache-type-v"
    ∷ codes "-fa"
    ∷ codes "--flash-attn"
    ∷ codes "-ub"
    ∷ codes "--ubatch-size"
    ∷ codes "-b"
    ∷ codes "--batch-size"
    ∷ codes "-lm"
    ∷ codes "--load-mode"
    ∷ codes "-lzm"
    ∷ codes "--lazy-mode"
    ∷ codes "-sm"
    ∷ codes "--split-mode"
    ∷ codes "-ts"
    ∷ codes "--tensor-split"
    ∷ codes "-mg"
    ∷ codes "--main-gpu"
    ∷ []

abbrev pub memory_switches : List Text
memory_switches =
    codes "--swa-full"
    ∷ codes "--no-mmap"
    ∷ codes "--mlock"
    ∷ codes "-kvu"
    ∷ codes "--kv-unified"
    ∷ codes "-nkvo"
    ∷ codes "--no-kv-offload"
    ∷ []

abbrev pub placement_flags : List Text
placement_flags =
    codes "-ngl"
    ∷ codes "--gpu-layers"
    ∷ codes "--n-gpu-layers"
    ∷ codes "-ncmoe"
    ∷ codes "--n-cpu-moe"
    ∷ codes "-ot"
    ∷ codes "--override-tensor"
    ∷ []

-- `char::is_ascii_alphabetic`
unfoldable pub is_letter : ℕ → Bool
is_letter c = leb 65 c && leb c 90 || leb 97 c && leb c 122

unfoldable pub is_flag : Text → Bool
unfolding is_letter
is_flag [] = false
is_flag (c ∷ []) = false
is_flag (c ∷ (d ∷ rest)) = (c == 45) && ((d == 45) || is_letter d)

-- What the loop does with a token.
pub data Kept : Type 0 where
  with_value alone dropped skipped : Kept

unfoldable pub kept_as : Text → Kept
unfolding ◌=ᵗ◌ is_flag
kept_as flag = elim (contains_text memory_flags_with_value flag) [
  | true ↦ with_value
  | false ↦ elim (contains_text memory_switches flag) [
    | true ↦ alone
    | false ↦ elim (is_flag flag || contains_text placement_flags flag) [
      | true ↦ dropped
      | false ↦ skipped
    ]
  ]
]

-- The loop over the tokens: a value goes with its flag, and a dropped flag takes the next token
-- with it unless that is a flag.
unfoldable pub keep_memory : List Text → List Text
unfolding kept_as
keep_memory [] = []
keep_memory (t ∷ []) = elim (kept_as t) [
  | with_value ↦ t ∷ []
  | alone ↦ t ∷ []
  | dropped ↦ []
  | skipped ↦ []
]
keep_memory (t ∷ (next ∷ rest)) = elim (kept_as t) [
  | with_value ↦ t ∷ (next ∷ keep_memory rest)
  | alone ↦ t ∷ keep_memory (next ∷ rest)
  | dropped ↦ elim (is_flag next) [ true ↦ keep_memory (next ∷ rest) | false ↦ keep_memory rest ]
  | skipped ↦ keep_memory (next ∷ rest)
]

unfoldable pub fit_params_args : List Text → ℕ → List Text
unfolding keep_memory decimal
fit_params_args server_argv margin_mib =
    keep_memory server_argv ++ (codes "--fit-target" ∷ (decimal margin_mib ∷ []))
