-- ===== src/Tests/HostTests.antt =====
-- The theorems about capabilities, the fitter's arguments, the tuner, VRAM, the launcher contract,
-- gates and judges at concrete inputs.
use localx_llama.Args.Sampler.{
  chat_template_args, flag_of, ollama_parameter_args, parameter_line, parser_template_args,
  reasoning_args, strict_sampler_args, strip_last, unquote, parser_lines,
}
use localx_llama.Model.{context_value, canonical_context, native, resolve_context_key}
use localx_llama.Args.Build.{
  kv_args, sampler_args, host_args, memory_args, routing_args, tuning_args, build_llama_server_args,
}
use localx_llama.Args.Kv.{
  resolve_kv_types, non_blank, is_turboquant, mode_supports_turbo_kv, validate_kv_type,
}
use localx_llama.Args.Params.{positive_arg, text_arg, push2}
use localx_llama.Args.Placement.{
  cpu_moe_count, overrides_tensors, load_args, server_places, ngl_args, moe_args, explicit_ngl,
}
use localx_llama.Text.{
  decimal, decimal_onto, is_whitespace, lower, lower_char, split_at_whitespace, strip_prefix, trim,
  trim_cons, trim_end, trim_start, ◌=ᵗ◌, Text, codes, contains_text, decimal_ℤ,
}
use localx_llama.Prelude.{
  ◌⊎◌, ◌++◌, ℕ, true, false, none, some, List, [], ◌∷◌, ◌≡◌, refl, ok, arith, ◌-◌, leb,
}
use localx_llama.Args.Speculation.{speculation_args}
use localx_llama.Prelude.Int.{pos, ℤ, negsuc}
use localx_llama.Maps.{get}
use localx_llama.Tuner.Laws.{replayed_layers, replay_placed}
use localx_llama.Fit.{fit_params_args, placement_flags, is_flag}
use localx_llama.Fit.Laws.{
  Argument, valued, switch, other, other_valued, stray, argv_of, fit_params_args_lem,
}
use localx_llama.Tuner.{Overrides, to_launch_params}
use localx_llama.Launcher.{LauncherVersion}
use localx_llama.Judge.{blind, resolve_preference, Preferred}
use localx_llama.Judge.Laws.{presented_at, solution_of, resolve_preference-blind}
use localx_llama.Tests.ModelTests.{sample_def}

abbrev tuned : Overrides
tuned = record {
  n_gpu_layers = some (pos 40);
  n_cpu_moe = none;
  ubatch_size = none;
  batch_size = none;
  threads = none;
  threads_batch = none;
  mlock = none;
  no_mmap = none;
  flash_attn = none;
  split_mode = none;
  swa_full = none;
  cache_prompt = none;
  cache_reuse = none;
  kv_k = none;
  kv_v = none;
  spec_type = none;
  spec_draft_n_max = none;
}

abbrev replayed_argv : List Text
replayed_argv =
    codes "-m"
    ∷ codes "m.gguf"
    ∷ codes "-c"
    ∷ codes "262144"
    ∷ codes "--host"
    ∷ codes "127.0.0.1"
    ∷ codes "--port"
    ∷ codes "8080"
    ∷ codes "-ngl"
    ∷ codes "40"
    ∷ codes "--cache-type-k"
    ∷ codes "q8_0"
    ∷ codes "--cache-type-v"
    ∷ codes "q8_0"
    ∷ codes "--jinja"
    ∷ codes "--reasoning"
    ∷ codes "off"
    ∷ codes "--reasoning-budget"
    ∷ codes "0"
    ∷ codes "--reasoning-format"
    ∷ codes "none"
    ∷ codes "--temp"
    ∷ codes "0.7"
    ∷ codes "--top-k"
    ∷ codes "20"
    ∷ codes "--top-p"
    ∷ codes "0.8"
    ∷ codes "--min-p"
    ∷ codes "0"
    ∷ codes "--presence-penalty"
    ∷ codes "0"
    ∷ codes "--repeat-penalty"
    ∷ codes "1.05"
    ∷ []

replay_built :
    build_llama_server_args sample_def
      (to_launch_params tuned)
      (codes "256k")
      native
      (codes "m.gguf")
      (pos 8080)
    ≡ ok replayed_argv
unfolding build_llama_server_args context_value resolve_context_key get ◌=ᵗ◌ canonical_context
    kv_args validate_kv_type resolve_kv_types non_blank sampler_args parser_lines speculation_args
    positive_arg decimal_ℤ host_args memory_args ngl_args routing_args tuning_args is_turboquant
    mode_supports_turbo_kv text_arg cpu_moe_count explicit_ngl load_args moe_args overrides_tensors
    server_places chat_template_args flag_of ollama_parameter_args parameter_line
    parser_template_args reasoning_args strict_sampler_args strip_last unquote decimal decimal_onto
    is_whitespace lower lower_char split_at_whitespace strip_prefix trim trim_cons trim_end
    trim_start to_launch_params
replay_built = refl

replay_placed_example :
    (before after : List Text) × (replayed_argv
      ≡ before ++ (push2 (codes "-ngl") (decimal_ℤ (replayed_layers sample_def tuned)) ++ after))
replay_placed_example =
    replay_placed sample_def tuned (codes "256k") native (codes "m.gguf") (pos 8080) replayed_argv
      replay_built

abbrev whole : ℤ → ℕ
whole (pos n) = n
whole (negsuc n) = 0

leb_trans : (a b c : ℕ) → leb a b ≡ true → leb b c ≡ true → leb a c ≡ true
leb_trans a b c h i = ground arith

headroom_grows : (k : ℕ) → leb (24 - k) (48 - k) ≡ true
headroom_grows k = ground arith

abbrev launcher : LauncherVersion
launcher = record {
  version = codes "1.0.0";
  api_version = 1;
  launcher_export_version = 1;
  supported_targets = codes "LocalBox" ∷ [];
  supported_runtimes = codes "llamacpp" ∷ [];
}

resolve_preference-blind_example :
    ((presented_at (blind (codes "a") (codes "b") 7) 1 ≡ none)
      × (resolve_preference (blind (codes "a") (codes "b") 7) 1 ≡ none))
    ⊎ ((arm : Preferred) × (resolve_preference (blind (codes "a") (codes "b") 7) 1 ≡ some arm)
        × (presented_at (blind (codes "a") (codes "b") 7) 1
            ≡ some (solution_of (codes "a") (codes "b") arm)))
resolve_preference-blind_example = resolve_preference-blind (codes "a") (codes "b") 7 1

abbrev server_argv : List Text
server_argv =
    codes "-m"
    ∷ codes "m.gguf"
    ∷ codes "-ngl"
    ∷ codes "999"
    ∷ codes "--swa-full"
    ∷ codes "--host"
    ∷ codes "127.0.0.1"
    ∷ []

fit_params_args_runs :
    fit_params_args server_argv 512
    ≡ codes "-m" ∷ codes "m.gguf" ∷ codes "--swa-full" ∷ codes "--fit-target" ∷ codes "512" ∷ []
unfolding fit_params_args
fit_params_args_runs = refl

abbrev server_arguments : List Argument
server_arguments =
    valued (codes "-m") (codes "m.gguf")
    ∷ (other (codes "--jinja")
        ∷ (other_valued (codes "-ngl") (codes "999")
            ∷ (switch (codes "--swa-full") ∷ (stray (codes "x") ∷ []))))

fit_params_args_lem_example :
    fit_params_args (argv_of server_arguments) 512
    ≡ codes "-m"
      ∷ (codes "m.gguf" ∷ (codes "--swa-full" ∷ (codes "--fit-target" ∷ (decimal 512 ∷ []))))
unfolding ◌=ᵗ◌ is_flag
fit_params_args_lem_example =
    fit_params_args_lem server_arguments 512 (
      refl,
      (((refl, refl), refl), (((refl, refl), refl, refl), (refl, (((refl, refl), refl), tt)))),
    )

ot_listed : contains_text placement_flags (codes "-ot") ≡ true
unfolding ◌=ᵗ◌
ot_listed = refl

ot_value : is_flag (codes "exps=CPU") ≡ false
unfolding is_flag
ot_value = refl
