-- ===== src/Args/Params.antt =====
-- `LaunchParams` of args.rs, `LoadFlags` of capabilities.rs, and how one argument is emitted.
-- The spelling of memory-mapping and memory-locking; `LoadFlags::default()` is `legacy`.
use localx_llama.Prelude.{ℕ, Bool, false, Option, none, some, List, [], ◌∷◌, filter_option}
use localx_llama.Prelude.Int.{is_positive, ℤ}
use localx_llama.Text.{Text, decimal_ℤ}
use localx_llama.Args.Sampler.{ChatTemplateOverride}
use localx_llama.Args.Kv.{non_blank}

pub data LoadFlags : Type 0 where
  legacy load_mode : LoadFlags

pub record LaunchParams : Type 0 where
  pub parallel : Option ℤ
  pub cache_reuse : Option ℤ
  pub kv_k : Option Text
  pub kv_v : Option Text
  pub n_gpu_layers : Option ℤ
  pub n_cpu_moe : Option ℤ
  pub mlock : Option Bool
  pub no_mmap : Option Bool
  pub load_flags : LoadFlags
  pub auto_fit : Bool
  pub fit_target_mib : Option ℕ
  pub ubatch_size : Option ℤ
  pub batch_size : Option ℤ
  pub threads : Option ℤ
  pub threads_batch : Option ℤ
  pub flash_attn : Option Bool
  pub swa_full : Bool
  pub cache_prompt : Option Bool
  pub split_mode : Option Text
  pub chat_template_override : Option ChatTemplateOverride
  pub thinking_policy : Option Text
  pub strict : Option Bool
  pub vision_module_path : Option Text
  pub draft_module_path : Option Text
  pub spec_type : Option Text
  pub spec_draft_n_max : Option ℤ
  pub extra_args : List Text

-- `LaunchParams::default()`
abbrev pub default_params : LaunchParams
default_params = record {
  parallel = none;
  cache_reuse = none;
  kv_k = none;
  kv_v = none;
  n_gpu_layers = none;
  n_cpu_moe = none;
  mlock = none;
  no_mmap = none;
  load_flags = legacy;
  auto_fit = false;
  fit_target_mib = none;
  ubatch_size = none;
  batch_size = none;
  threads = none;
  threads_batch = none;
  flash_attn = none;
  swa_full = false;
  cache_prompt = none;
  split_mode = none;
  chat_template_override = none;
  thinking_policy = none;
  strict = none;
  vision_module_path = none;
  draft_module_path = none;
  spec_type = none;
  spec_draft_n_max = none;
  extra_args = [];
}

-- `push2`
abbrev pub push2 : Text → Text → List Text
push2 x y = x ∷ y ∷ []

-- `if let Some(n) = o { if n > 0 { push2(flag, n.to_string()) } }`
unfoldable pub positive_arg : Text → Option ℤ → List Text
positive_arg flag o = elim (filter_option is_positive o) [
  | none ↦ []
  | some n ↦ push2 flag (decimal_ℤ n)
]

-- The same for a text that is not blank.
unfoldable pub text_arg : Text → Option Text → List Text
text_arg flag o = elim (non_blank o) [ none ↦ [] | some t ↦ push2 flag t ]
