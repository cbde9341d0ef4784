-- ===== src/Tuner/Laws.antt =====
-- What the replay of a tuned entry launches.
use localx_llama.Prelude.{
  ◌≡◌, refl, sym, ◌∙◌, List, ◌++◌, list_laws, or_else, unwrap_or, filter_option, ok,
}
use localx_llama.Prelude.Int.{ℤ, pos, is_positive}
use localx_llama.Text.{Text, codes, decimal_ℤ}
use localx_llama.Model.{Mode, ModelDef}
use localx_llama.Args.Params.{push2, positive_arg}
use localx_llama.Args.Placement.{server_places, ngl_args, explicit_ngl}
use localx_llama.Args.Build.{
  build_llama_server_args, host_args, memory_args, tuning_args, routing_args,
}
use localx_llama.Args.Build.Laws.{build_steps}
use localx_llama.Tuner.{Overrides, to_launch_params}

module _ {F : Type 0} (def : ModelDef F) (o : Overrides) where
  -- The layers that a replay asks for: the tuned number if it is positive, or else the model's, or
  -- else 999.
  abbrev pub replayed_layers : ℤ
  replayed_layers =
      unwrap_or (or_else (filter_option is_positive o.n_gpu_layers) def.n_gpu_layers) (pos 999)

  replay_memory :
      (more : List Text) × (memory_args def (to_launch_params o)
        ≡ push2 (codes "-ngl") (decimal_ℤ replayed_layers) ++ more)
  unfolding memory_args ngl_args server_places explicit_ngl to_launch_params
  replay_memory = (_, refl)

  -- A replayed launch is never left to the server to place: its argv states a number of layers, the
  -- tuned one if that is positive, or else the model's, or else 999.
  pub replay_placed :
      (context_key : Text) (mode : Mode) (path : Text) (port : ℤ) (argv : List Text)
      → build_llama_server_args def (to_launch_params o) context_key mode path port ≡ ok argv
      → (before after : List Text) × (argv
          ≡ before ++ (push2 (codes "-ngl") (decimal_ℤ replayed_layers) ++ after))
  replay_placed context_key mode path port argv h =
      let p = to_launch_params o in
      let (n, kv, sampler, spec, _, _, _, _, e) =
        build_steps def p context_key mode path port argv h in
      let (more, m) = replay_memory in
      (
        push2 (codes "-m") path ++ (positive_arg (codes "-c") n ++ host_args def p port),
        more
            ++ (tuning_args def p
                ++ (kv
                    ++ (routing_args def p
                        ++ (sampler ++ (spec ++ (def.extra_args ++ p.extra_args)))))),
        rw m at e ∙ sym (simp list_laws),
      )
