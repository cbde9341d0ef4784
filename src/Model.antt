-- ===== src/Model.antt =====
-- Model definitions and key resolution, crates/localx-llama-core/src/model.rs. `F` is the type of `f64`,
-- of which the model takes only what the code calls.
pub mod Validate
pub mod Keys
use localx_llama.Prelude.{
  ◌>>=◌, Bool, ◌||◌, Option, some, [], ◌∷◌, map, if◌then◌else◌, filter_option, find, is_some,
  Result, err, ok, none, List, ℕ,
}
use localx_llama.Prelude.Int.{ℤ}
use localx_llama.Text.{Text, codes, eq_ignore_case, is_blank, is_empty, join, lower, trim, ◌=ᵗ◌}
use localx_llama.Maps.{Map, get, keys}
use localx_llama.Error.{CoreError, unknown_context, unknown_quant}

pub data Mode : Type 0 where
  native turboquant prism_ml : Mode

-- `Mode::as_str`
unfoldable pub mode_as_str : Mode → Text
mode_as_str native = codes "native"
mode_as_str turboquant = codes "turboquant"
mode_as_str prism_ml = codes "prismml"

pub record QuantEntry (F : Type 0) : Type 0 where
  pub file : Text
  pub size_gb : Option F
  pub note : Option Text

-- The two spellings in a catalog.
pub data QuantEntryRepr (F : Type 0) : Type 0 where
  file : Text → QuantEntryRepr F
  table : Text → Option F → Option Text → QuantEntryRepr F

-- `QuantEntry::from`
unfoldable pub from_repr : {F : Type 0} → QuantEntryRepr F → QuantEntry F
from_repr (file f) = record { file = f; size_gb = none; note = none }
from_repr (table f s n) = record { file = f; size_gb = s; note = n }

pub record ModelDef (F : Type 0) : Type 0 where
  pub repo : Text
  pub root : Option Text
  pub file : Option Text
  pub display_name : Option Text
  pub quants : Map (QuantEntry F)
  pub quant : Option Text
  pub contexts : Map ℤ
  pub parser : Option Text
  pub tier : Option Text
  pub strict : Option Bool
  pub kv_cache_k : Option Text
  pub kv_cache_v : Option Text
  pub n_gpu_layers : Option ℤ
  pub n_cpu_moe : Option ℤ
  pub mlock : Option Bool
  pub no_mmap : Option Bool
  pub flash_attn : Option Bool
  pub chat_template : Option Text
  pub thinking_policy : Option Text
  pub spec_type : Option Text
  pub extra_args : List Text
  pub vision_module : Option Text
  pub draft_module : Option Text
  pub description : Option Text

abbrev pub known_parsers : List Text
known_parsers = codes "none" ∷ codes "qwen3coder" ∷ codes "qwen36" ∷ codes "qwen36-think" ∷ []

abbrev pub separator : Text
separator = codes ", "

-- The key of a map that is spelled like `key` but for ASCII case, the first in order.
unfoldable pub find_key : {V : Type 0} → Text → Map V → Option Text
unfolding lower ◌=ᵗ◌
find_key key m = find (λ existing. eq_ignore_case existing key) (keys m)

-- The old names of three context keys.
unfoldable pub alias : Text → Option Text
unfolding ◌=ᵗ◌
alias lowered =
    if lowered =ᵗ codes "fast"
    then some (codes "32k")
    else if lowered =ᵗ codes "deep"
    then some (codes "64k")
    else if lowered =ᵗ codes "128"
    then some (codes "128k")
    else none

-- The names that an error lists.
unfoldable pub available_contexts : Map ℤ → Text
unfolding join
available_contexts contexts =
    join separator (map (λ k. if is_empty k then codes "default" else k) (keys contexts))

-- `if let Some(target) = alias { if contains_key(target) { return … } } Err(…)`
unfoldable pub resolve_alias : Map ℤ → Text → Result CoreError Text
resolve_alias contexts key =
    elim (filter_option (λ target. is_some (get target contexts)) (alias (lower key))) [
      | some target ↦ ok target
      | none ↦ err (unknown_context key (available_contexts contexts))
    ]

unfoldable pub canonical_context : Text → Text
unfolding trim lower ◌=ᵗ◌
canonical_context context_key =
    if is_blank context_key || eq_ignore_case context_key (codes "default") then [] else context_key

module _ {F : Type 0} (def : ModelDef F) where
  unfoldable pub resolve_context_key : Text → Result CoreError Text
  resolve_context_key context_key =
      let key : Text = canonical_context context_key in
      elim (get key def.contexts) [
        | some _ ↦ ok key
        | none ↦ elim (find_key key def.contexts) [
          | some existing ↦ ok existing
          | none ↦ resolve_alias def.contexts key
        ]
      ]

  unfoldable pub context_value : Text → Result CoreError (Option ℤ)
  context_value context_key = do key ← resolve_context_key context_key; ok (get key def.contexts)

  unfoldable pub resolve_quant_key : Text → Result CoreError Text
  resolve_quant_key quant = elim (find_key quant def.quants) [
    | some key ↦ ok key
    | none ↦ err (unknown_quant quant (join separator (keys def.quants)))
  ]
