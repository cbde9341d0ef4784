-- ===== src/Tuner.antt =====
-- The tuner's store: crates/localx-llama-core/src/tuner.rs. A score, an f64, is of any type.
pub mod Laws
use localx_llama.Prelude.{ℕ, Bool, true, false, Option, none, some, List, [], ◌∷◌, ◌==◌, unwrap_or}
use localx_llama.Prelude.Int.{ℤ, pos, negsuc}
use localx_llama.Text.{Text}
use localx_llama.Model.{Mode}
use localx_llama.Args.Params.{LaunchParams, legacy}

abbrev pub tuner_schema : ℕ
tuner_schema = 1

abbrev pub current_tuner_version : ℕ
current_tuner_version = 5

pub data PromptLength : Type 0 where
  short long : PromptLength

pub data Profile : Type 0 where
  pure balanced : Profile

pub data SearchStrategy : Type 0 where
  greedy beam : SearchStrategy

pub record Overrides : Type 0 where
  pub n_gpu_layers : Option ℤ
  pub n_cpu_moe : Option ℤ
  pub ubatch_size : Option ℤ
  pub batch_size : Option ℤ
  pub threads : Option ℤ
  pub threads_batch : Option ℤ
  pub mlock : Option Bool
  pub no_mmap : Option Bool
  pub flash_attn : Option Bool
  pub split_mode : Option Text
  pub swa_full : Option Bool
  pub cache_prompt : Option Bool
  pub cache_reuse : Option ℤ
  pub kv_k : Option Text
  pub kv_v : Option Text
  pub spec_type : Option Text
  pub spec_draft_n_max : Option ℤ

unfoldable pub to_launch_params : Overrides → LaunchParams
to_launch_params o = record {
  parallel = none;
  cache_reuse = o.cache_reuse;
  kv_k = o.kv_k;
  kv_v = o.kv_v;
  n_gpu_layers = o.n_gpu_layers;
  n_cpu_moe = o.n_cpu_moe;
  mlock = o.mlock;
  no_mmap = o.no_mmap;
  load_flags = legacy;
  auto_fit = false;
  fit_target_mib = none;
  ubatch_size = o.ubatch_size;
  batch_size = o.batch_size;
  threads = o.threads;
  threads_batch = o.threads_batch;
  flash_attn = o.flash_attn;
  swa_full = unwrap_or o.swa_full false;
  cache_prompt = o.cache_prompt;
  split_mode = o.split_mode;
  chat_template_override = none;
  thinking_policy = none;
  strict = none;
  vision_module_path = none;
  draft_module_path = none;
  spec_type = o.spec_type;
  spec_draft_n_max = o.spec_draft_n_max;
  extra_args = [];
}

pub record TunerEntry (F : Type 0) : Type 0 where
  pub quant : Text
  pub context_key : Text
  pub context_tokens : Option ℤ
  pub mode : Mode
  pub vram_gb : ℤ
  pub prompt_length : PromptLength
  pub profile : Profile
  pub search_strategy : Option SearchStrategy
  pub beam_width : Option ℤ
  pub score : F
  pub score_unit : Text
  pub pure_score : Option F
  pub args : List Text
  pub overrides : Overrides
  pub measured_at : Text
  pub tuner_version : ℤ
  pub trial_count : Option ℤ
  pub gpu_names : Option (List Text)
  pub llamacpp_build : Option Text

-- `TunerEntry::measurement_supported`
unfoldable pub measurement_supported : {F : Type 0} → TunerEntry F → Bool
measurement_supported e = elim e.tuner_version [
  | pos v ↦ v == current_tuner_version
  | negsuc _ ↦ false
]

pub record TunerBestConfig (F : Type 0) : Type 0 where
  pub schema : ℕ
  pub key : Text
  pub vram_gb : Option ℤ
  pub entries : List (TunerEntry F)

-- `TunerBestConfig::schema_supported`
unfoldable pub schema_supported : {F : Type 0} → TunerBestConfig F → Bool
schema_supported store = store.schema == tuner_schema
