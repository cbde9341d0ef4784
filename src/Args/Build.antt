-- ===== src/Args/Build.antt =====
-- `build_llama_server_args` of args.rs, in the order of its statements. `model_arg_path` and `port` are
-- the caller's.
pub mod Laws
pub mod Validated
use localx_llama.Prelude.{
  ◌∷◌, false, none, some, List, [], ◌++◌, if◌then◌else◌, or_else, unwrap_or, Result, ok, ◌>>=◌,
}
use localx_llama.Text.{decimal_ℤ, lower, Text, codes}
use localx_llama.Prelude.Int.{ℤ}
use localx_llama.Error.{CoreError}
use localx_llama.Model.{Mode, ModelDef, context_value}
use localx_llama.Args.Kv.{resolve_kv_types, validate_kv_type}
use localx_llama.Args.Params.{LaunchParams, positive_arg, push2, text_arg}
use localx_llama.Args.Sampler.{
  chat_template_args, ollama_parameter_args, parser_lines, reasoning_args, strict_sampler_args,
}
use localx_llama.Args.Placement.{load_args, moe_args, ngl_args}
use localx_llama.Args.Speculation.{speculation_args}

module _ {F : Type 0} (def : ModelDef F) (p : LaunchParams) where
  -- from `--host` to `--cache-reuse`
  unfoldable pub host_args : ℤ → List Text
  host_args port =
      push2 (codes "--host") (codes "127.0.0.1")
      ++ (push2 (codes "--port") (decimal_ℤ port)
          ++ (positive_arg (codes "--parallel") p.parallel
              ++ positive_arg (codes "--cache-reuse") p.cache_reuse))

  -- from `-ngl` to the load flags
  unfoldable pub memory_args : List Text
  memory_args =
      ngl_args def p
      ++ (moe_args def p
          ++ load_args (unwrap_or (or_else p.mlock def.mlock) false)
              (unwrap_or (or_else p.no_mmap def.no_mmap) false) p.load_flags)

  -- from `--ubatch-size` to `--split-mode`
  unfoldable pub tuning_args : List Text
  tuning_args =
      positive_arg (codes "--ubatch-size") p.ubatch_size
      ++ (positive_arg (codes "--batch-size") p.batch_size
          ++ (positive_arg (codes "--threads") p.threads
              ++ (positive_arg (codes "--threads-batch") p.threads_batch
                  ++ (elim (or_else p.flash_attn def.flash_attn) [
                    | none ↦ []
                    | some fa ↦
                        push2 (codes "--flash-attn") (if fa then codes "on" else codes "off")
                  ]
                      ++ ((if p.swa_full then codes "--swa-full" ∷ [] else [])
                          ++ ((if unwrap_or p.cache_prompt false
                                then codes "--cache-prompt" ∷ []
                                else [])
                              ++ text_arg (codes "--split-mode") p.split_mode))))))

  -- the KV cache types, validated against the mode
  unfoldable pub kv_args : Mode → Result CoreError (List Text)
  kv_args mode =
      let (kv_k, kv_v) = resolve_kv_types def.kv_cache_k def.kv_cache_v p.kv_k p.kv_v in
      validate_kv_type kv_k mode >>= λ _. validate_kv_type kv_v mode >>= λ _.
      ok
        (push2 (codes "--cache-type-k") (lower kv_k) ++ push2 (codes "--cache-type-v") (lower kv_v))

  abbrev pub parser_name : Text
  parser_name = unwrap_or def.parser (codes "none")

  -- the chat template, the projector and the reasoning flags
  unfoldable pub routing_args : List Text
  routing_args =
      chat_template_args parser_name p.chat_template_override
      ++ (text_arg (codes "--mmproj") p.vision_module_path
          ++ reasoning_args
              (unwrap_or (or_else p.thinking_policy def.thinking_policy) (codes "strip")))

  -- the parser's sampler flags and the strict overlay
  unfoldable pub sampler_args : Result CoreError (List Text)
  sampler_args = parser_lines parser_name >>= λ lines. ok (
      ollama_parameter_args lines
      ++ (if unwrap_or (or_else p.strict def.strict) false then strict_sampler_args else []))

  unfoldable pub build_llama_server_args : Text → Mode → Text → ℤ → Result CoreError (List Text)
  build_llama_server_args context_key mode model_arg_path port = do
    num_ctx ← context_value def context_key
    kv ← kv_args mode
    sampler ← sampler_args
    spec ←
        speculation_args mode (or_else p.spec_type def.spec_type) p.draft_module_path
          p.spec_draft_n_max
    ok (
        push2 (codes "-m") model_arg_path
        ++ (positive_arg (codes "-c") num_ctx
            ++ (host_args port
                ++ (memory_args
                    ++ (tuning_args
                        ++ (kv
                            ++ (routing_args
                                ++ (sampler ++ (spec ++ (def.extra_args ++ p.extra_args))))))))))
