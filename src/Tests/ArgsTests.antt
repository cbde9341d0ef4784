-- ===== src/Tests/ArgsTests.antt =====
-- The theorems about args.rs at concrete inputs.
use localx_llama.Args.Sampler.{
  qwen36_lines, chat_template_args, flag_of, ollama_parameter_args, parameter_line,
  parser_template_args, reasoning_args, strict_sampler_args, strip_last, unquote, parser_lines,
}
use localx_llama.Model.{context_value, canonical_context, native, turboquant, resolve_context_key}
use localx_llama.Args.Build.{
  kv_args, sampler_args, host_args, memory_args, routing_args, tuning_args, build_llama_server_args,
}
use localx_llama.Args.Kv.{
  resolve_kv_types, non_blank, is_turboquant, mode_supports_turbo_kv, validate_kv_type,
}
use localx_llama.Args.Params.{positive_arg, text_arg, default_params}
use localx_llama.Args.Placement.{
  cpu_moe_count, overrides_tensors, load_args, server_places, ngl_args, moe_args, explicit_ngl,
  placement_args,
}
use localx_llama.Text.{
  decimal, decimal_onto, is_whitespace, lower, lower_char, split_at_whitespace, strip_prefix, trim,
  trim_cons, trim_end, trim_start, ◌=ᵗ◌, Text, codes, contains_text, decimal_ℤ,
}
use localx_llama.Prelude.{
  ◌⊎◌, ◌++◌, ℕ, ◌≤◌, true, false, none, some, List, [], ◌∷◌, ◌≡◌, ◌≢◌, ◌↔◌, refl, any, ok,
  unwrap_or,
}
use localx_llama.Args.Speculation.{is_ngram_spec, spec_only_args, speculation_args}
use localx_llama.Prelude.Int.{pos}
use localx_llama.Maps.{get}
use localx_llama.Args.Placement.Laws.{
  placement_lem, IsFree, IsAsked, margin_arg, layers, blocks, blocks_arg,
}
use localx_llama.Args.Build.Laws.{build_ok_iff, Buildable}
use localx_llama.Args.Build.Validated.{build_num_ctx, parser_case_refused}
use localx_llama.Tests.ModelTests.{sample, sample_def, is_zero, sample_valid}

placement_lem_example :
    ((server_places sample_def default_params ≡ true)
      × IsFree sample_def default_params
      × (ngl_args sample_def default_params ++ moe_args sample_def default_params ≡ margin_arg none)
      × (any
            (contains_text placement_args)
            (ngl_args sample_def default_params ++ moe_args sample_def default_params)
          ≡ false))
    ⊎ ((server_places sample_def default_params ≡ false)
        × IsAsked sample_def default_params
        × (ngl_args sample_def default_params ++ moe_args sample_def default_params
            ≡ codes "-ngl"
              ∷ (decimal_ℤ (unwrap_or (layers sample_def default_params) (pos 999))
                  ∷ blocks_arg (blocks sample_def default_params))))
placement_lem_example = placement_lem sample_def default_params

spec_emitted :
    speculation_args turboquant (some (codes "ngram-simple")) none none
    ≡ ok (codes "--spec-type" ∷ (codes "ngram-simple" ∷ []))
unfolding speculation_args non_blank trim spec_only_args is_ngram_spec strip_prefix lower
spec_emitted = refl

qwen36_known : parser_lines (codes "qwen36") ≡ ok qwen36_lines
unfolding parser_lines ◌=ᵗ◌
qwen36_known = refl

build_ok_iff_example :
    ((argv : List Text) × (build_llama_server_args sample_def default_params
          (codes "256k")
          native
          (codes "m.gguf")
          (pos 8080)
        ≡ ok argv))
    ↔ Buildable sample_def default_params (codes "256k") native
build_ok_iff_example =
    build_ok_iff sample_def default_params (codes "256k") native (codes "m.gguf") (pos 8080)

parser_case_refused_example :
    build_llama_server_args
      (sample (codes "Qwen36"))
      default_params
      (codes "256k")
      native
      (codes "m.gguf")
      (pos 8080)
    ≢ ok (codes "-m" ∷ (codes "m.gguf" ∷ []))
unfolding ◌=ᵗ◌
parser_case_refused_example =
    parser_case_refused is_zero (sample (codes "Qwen36")) default_params (codes "Qwen36")
      (codes "256k") native (codes "m.gguf") (pos 8080) (codes "-m" ∷ (codes "m.gguf" ∷ [])) refl
      refl

-- the argv of a plain launch, as the unit test `minimal_argv_is_byte_exact` has it
abbrev sample_argv : List Text
sample_argv =
    codes "-m"
    ∷ codes "m.gguf"
    ∷ codes "-c"
    ∷ codes "262144"
    ∷ codes "--host"
    ∷ codes "127.0.0.1"
    ∷ codes "--port"
    ∷ codes "8080"
    ∷ codes "-ngl"
    ∷ codes "999"
    ∷ codes "--cache-type-k"
    ∷ codes "q8_0"
    ∷ codes "--cache-type-v"
    ∷ codes "q8_0"
    ∷ codes "--jinja"
    ∷ codes "--reasoning"
    ∷ codes "off"
    ∷ codes "--reasoning-budget"
    ∷ codes "0"
    ∷ codes "--reasoning-format"
    ∷ codes "none"
    ∷ codes "--temp"
    ∷ codes "0.7"
    ∷ codes "--top-k"
    ∷ codes "20"
    ∷ codes "--top-p"
    ∷ codes "0.8"
    ∷ codes "--min-p"
    ∷ codes "0"
    ∷ codes "--presence-penalty"
    ∷ codes "0"
    ∷ codes "--repeat-penalty"
    ∷ codes "1.05"
    ∷ []

sample_built :
    build_llama_server_args sample_def default_params
      (codes "256k")
      native
      (codes "m.gguf")
      (pos 8080)
    ≡ ok sample_argv
unfolding build_llama_server_args context_value resolve_context_key get ◌=ᵗ◌ canonical_context
    kv_args validate_kv_type resolve_kv_types non_blank sampler_args parser_lines speculation_args
    positive_arg decimal_ℤ host_args memory_args ngl_args routing_args tuning_args is_turboquant
    mode_supports_turbo_kv text_arg cpu_moe_count explicit_ngl load_args moe_args overrides_tensors
    server_places chat_template_args flag_of ollama_parameter_args parameter_line
    parser_template_args reasoning_args strict_sampler_args strip_last unquote decimal decimal_onto
    is_whitespace lower lower_char split_at_whitespace strip_prefix trim trim_cons trim_end
    trim_start
sample_built = refl

build_num_ctx_example :
    (k : Text) × (n : ℕ) × (resolve_context_key sample_def (codes "256k") ≡ ok k)
    × (get k sample_def.contexts ≡ some (pos n))
    × (1 ≤ n)
    × (rest : List Text) × (sample_argv
        ≡ codes "-m" ∷ (codes "m.gguf" ∷ (codes "-c" ∷ (decimal n ∷ rest))))
build_num_ctx_example =
    build_num_ctx is_zero sample_def default_params (codes "256k") native (codes "m.gguf")
      (pos 8080) sample_argv sample_valid sample_built
