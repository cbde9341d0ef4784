-- ===== src/Tests/ModelTests.antt =====
-- The theorems about model.rs at concrete inputs.
use localx_llama.Model.Validate.{
  size_errors, context_errors, parser_errors, quant_errors, repo_errors, field_errors,
  validate_model_def, IsValidDef,
}
use localx_llama.Model.{
  alias, resolve_alias, find_key, ModelDef, resolve_context_key, canonical_context, context_value,
  available_contexts,
}
use localx_llama.Text.{◌=ᵗ◌, Text, codes, decimal}
use localx_llama.Prelude.{ℕ, Bool, none, some, [], ◌∷◌, ◌≡◌, ◌↔◌, refl, ok, err, ◌==◌}
use localx_llama.Prelude.Int.{ℤ, pos}
use localx_llama.Maps.{get, keys}
use localx_llama.Error.{unknown_context}
use localx_llama.Model.Keys.{context_value-get}
use localx_llama.Model.Validate.Laws.{validate_model_def_iff}

-- A definition whose sizes are whole numbers.
abbrev pub sample : Text → ModelDef ℕ
sample parser = record {
  repo = codes "org/model";
  root = none;
  file = none;
  display_name = none;
  quants = (codes "Q4_K_M", record { file = codes "m.gguf"; size_gb = some 4; note = none }) ∷ [];
  quant = some (codes "q4_k_m");
  contexts = (codes "", pos 8192) ∷ (codes "256k", pos 262144) ∷ [];
  parser = some parser;
  tier = none;
  strict = none;
  kv_cache_k = none;
  kv_cache_v = none;
  n_gpu_layers = none;
  n_cpu_moe = none;
  mlock = none;
  no_mmap = none;
  flash_attn = none;
  chat_template = none;
  thinking_policy = none;
  spec_type = none;
  extra_args = [];
  vision_module = none;
  draft_module = none;
  description = none;
}

abbrev pub sample_def : ModelDef ℕ
sample_def = sample (codes "qwen36")

abbrev pub is_zero : ℕ → Bool
is_zero n = n == 0

pub sample_resolves : resolve_context_key sample_def (codes "256K") ≡ ok (codes "256k")
unfolding resolve_context_key get ◌=ᵗ◌ canonical_context find_key keys
sample_resolves = refl

context_value-get_example :
    (v : ℤ) × (get (codes "256k") sample_def.contexts ≡ some v)
    × (context_value sample_def (codes "256K") ≡ ok (some v))
context_value-get_example =
    context_value-get sample_def (codes "256K") (codes "256k") sample_resolves

unknown_refused :
    resolve_context_key sample_def (codes "tiny")
    ≡ err (unknown_context (codes "tiny") (available_contexts sample_def.contexts))
unfolding resolve_context_key get ◌=ᵗ◌ canonical_context find_key keys resolve_alias alias
unknown_refused = refl

validate_model_def_iff_example :
    (validate_model_def is_zero decimal (codes "sample") sample_def ≡ ok tt)
    ↔ IsValidDef is_zero sample_def
validate_model_def_iff_example = validate_model_def_iff is_zero decimal (codes "sample") sample_def

validate_model_def_runs : validate_model_def is_zero decimal (codes "sample") sample_def ≡ ok tt
unfolding validate_model_def field_errors repo_errors quant_errors keys parser_errors context_errors
    size_errors
validate_model_def_runs = refl

pub sample_valid : IsValidDef is_zero sample_def
sample_valid =
    (validate_model_def_iff is_zero decimal (codes "sample") sample_def).0 validate_model_def_runs

-- A parser in another case is valid.
miscased_valid :
    validate_model_def is_zero decimal (codes "sample") (sample (codes "Qwen36")) ≡ ok tt
unfolding validate_model_def field_errors repo_errors quant_errors keys parser_errors context_errors
    size_errors
miscased_valid = refl
