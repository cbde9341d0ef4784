-- ===== src/Args/Build/Laws.antt =====
-- When an argv is built, and what stands first and last in it.
-- The cache type `ty` may be used in `mode`.
use localx_llama.Prelude.{
  sym, ◌∙◌, ◌∷◌, list_laws, false, some, [], if◌then◌else◌, unwrap_or, ◌≡◌, ◌↔◌, ◌⊎◌, inl, inr,
  true, Option, List, ◌++◌, or_else, Result, bind-eq-ok, ok,
}
use localx_llama.Args.Sampler.{ollama_parameter_args, strict_sampler_args, parser_lines}
use localx_llama.Prelude.Int.{ℤ}
use localx_llama.Text.{Text, codes, contains_text, lower}
use localx_llama.Error.{CoreError}
use localx_llama.Model.{
  Mode, ModelDef, context_value, known_parsers, resolve_context_key, turboquant,
}
use localx_llama.Model.Keys.{context_value-get}
use localx_llama.Args.Kv.{mainline_kv_types, resolve_kv_types, turbo_kv_types, validate_kv_type}
use localx_llama.Args.Params.{LaunchParams, positive_arg, push2}
use localx_llama.Args.Speculation.{speculation_args}
use localx_llama.Args.Build.{
  build_llama_server_args, host_args, kv_args, memory_args, parser_name, routing_args, sampler_args,
  tuning_args,
}
use localx_llama.Args.Speculation.Laws.{IsConsistent, speculation_args_iff}
use localx_llama.Args.Kv.Laws.{validate_kv_type_iff}
use localx_llama.Args.Sampler.Laws.{parser_lines_lem}

abbrev pub Supports : Mode → Text → Type 0
Supports mode ty =
    (contains_text mainline_kv_types (lower ty) ≡ true)
    ⊎ ((contains_text turbo_kv_types (lower ty) ≡ true) × (mode ≡ turboquant))

module _ {F : Type 0} (def : ModelDef F) (p : LaunchParams) where
  -- the KV types of the launch
  abbrev pub launch_kv : Text × Text
  launch_kv = resolve_kv_types def.kv_cache_k def.kv_cache_v p.kv_k p.kv_v

  abbrev pub launch_speculation : Mode → Result CoreError (List Text)
  launch_speculation mode =
      speculation_args mode (or_else p.spec_type def.spec_type) p.draft_module_path
        p.spec_draft_n_max

  kv_args-ok :
      (mode : Mode) (kv : List Text)
      → kv_args def p mode ≡ ok kv
      → Supports mode launch_kv.0 × Supports mode launch_kv.1
  unfolding kv_args
  kv_args-ok mode kv h =
      let (u, k, rest) = bind-eq-ok (validate_kv_type launch_kv.0 mode) _ h in
      let (w, v, _) = bind-eq-ok (validate_kv_type launch_kv.1 mode) _ rest in
      ((validate_kv_type_iff launch_kv.0 mode).0 k, (validate_kv_type_iff launch_kv.1 mode).0 v)

  ok-kv_args :
      (mode : Mode)
      → Supports mode launch_kv.0
      → Supports mode launch_kv.1
      → (kv : List Text) × (kv_args def p mode ≡ ok kv)
  unfolding kv_args
  ok-kv_args mode k v = (
    push2 (codes "--cache-type-k") (lower launch_kv.0)
        ++ push2 (codes "--cache-type-v") (lower launch_kv.1),
    rw ((validate_kv_type_iff launch_kv.0 mode).1 k, (validate_kv_type_iff launch_kv.1 mode).1 v),
  )

  sampler_args-ok :
      (s : List Text)
      → sampler_args def p ≡ ok s
      → contains_text known_parsers (parser_name def p) ≡ true
  unfolding sampler_args
  sampler_args-ok s h =
      let (lines, e, _) = bind-eq-ok (parser_lines (parser_name def p)) _ h in
      elim (parser_lines_lem (parser_name def p)) [ inl (known, _, _) ↦ known | inr (_, bad) ↦ cc ]

  ok-sampler_args :
      contains_text known_parsers (parser_name def p) ≡ true
      → (s : List Text) × (sampler_args def p ≡ ok s)
  unfolding sampler_args
  ok-sampler_args h = elim (parser_lines_lem (parser_name def p)) [
    | inl (_, lines, e) ↦ (
      ollama_parameter_args lines
          ++ (if unwrap_or (or_else p.strict def.strict) false then strict_sampler_args else []),
      rw e,
    )
    | inr (unknown, _) ↦ cc
  ]

  pub context_value-ok :
      (context_key : Text) (n : Option ℤ)
      → context_value def context_key ≡ ok n
      → (k : Text) × (resolve_context_key def context_key ≡ ok k)
  unfolding context_value
  context_value-ok context_key n h =
      let (k, e, _) = bind-eq-ok (resolve_context_key def context_key) _ h in (k, e)

  -- the steps of a build that succeeds
  pub build_steps :
      (context_key : Text) (mode : Mode) (path : Text) (port : ℤ) (argv : List Text)
      → build_llama_server_args def p context_key mode path port ≡ ok argv
      → (n : Option ℤ) × (kv sampler spec : List Text) × (context_value def context_key ≡ ok n)
        × (kv_args def p mode ≡ ok kv)
        × (sampler_args def p ≡ ok sampler)
        × (launch_speculation mode ≡ ok spec)
        × (argv
            ≡ push2 (codes "-m") path
              ++ (positive_arg (codes "-c") n
                  ++ (host_args def p port
                      ++ (memory_args def p
                          ++ (tuning_args def p
                              ++ (kv
                                  ++ (routing_args def p
                                      ++ (sampler
                                          ++ (spec ++ (def.extra_args ++ p.extra_args))))))))))
  unfolding build_llama_server_args
  build_steps context_key mode path port argv h =
      let (n, a, h₁) = bind-eq-ok (context_value def context_key) _ h in
      let (kv, b, h₂) = bind-eq-ok (kv_args def p mode) _ h₁ in
      let (sampler, c, h₃) = bind-eq-ok (sampler_args def p) _ h₂ in
      let (spec, d, h₄) = bind-eq-ok (launch_speculation mode) _ h₃ in
      (n, kv, sampler, spec, a, b, c, d, cc)

  consistent :
      (mode : Mode)
      → ((spec : List Text) × (launch_speculation mode ≡ ok spec))
        ↔ IsConsistent mode
            (or_else p.spec_type def.spec_type)
            p.draft_module_path
            p.spec_draft_n_max
  consistent mode =
      speculation_args_iff mode (or_else p.spec_type def.spec_type) p.draft_module_path
        p.spec_draft_n_max

  -- The context key resolves, the mode takes both cache types, the parser is one of the known
  -- names, letter for letter, and the speculation is consistent.
  abbrev pub Buildable : Text → Mode → Type 0
  Buildable context_key mode =
      ((k : Text) × (resolve_context_key def context_key ≡ ok k))
      × Supports mode launch_kv.0
      × Supports mode launch_kv.1
      × (contains_text known_parsers (parser_name def p) ≡ true)
      × IsConsistent mode (or_else p.spec_type def.spec_type) p.draft_module_path p.spec_draft_n_max

  built-Buildable :
      (context_key : Text) (mode : Mode) (path : Text) (port : ℤ) (argv : List Text)
      → build_llama_server_args def p context_key mode path port ≡ ok argv
      → Buildable context_key mode
  built-Buildable context_key mode path port argv h =
      let (n, kv, sampler, spec, a, b, c, d, _) = build_steps context_key mode path port argv h in
      let (k, e) = context_value-ok context_key n a in
      let (kk, vv) = kv_args-ok mode kv b in
      ((k, e), kk, vv, sampler_args-ok sampler c, (consistent mode).0 (spec, d))

  Buildable-built :
      (context_key : Text) (mode : Mode) (path : Text) (port : ℤ)
      → Buildable context_key mode
      → (argv : List Text) × (build_llama_server_args def p context_key mode path port ≡ ok argv)
  Buildable-built context_key mode path port ((k, a), b, b', c, s) =
      let (v, _, e) = context_value-get def context_key k a in
      let (kv, f) = ok-kv_args mode b b' in
      let (sampler, g) = ok-sampler_args c in
      let (spec, d) = (consistent mode).1 s in
      (
        push2 (codes "-m") path
            ++ (positive_arg (codes "-c") (some v)
                ++ (host_args def p port
                    ++ (memory_args def p
                        ++ (tuning_args def p
                            ++ (kv
                                ++ (routing_args def p
                                    ++ (sampler
                                        ++ (spec ++ (def.extra_args ++ p.extra_args))))))))),
        unfold build_llama_server_args in rw (e, f, g, d),
      )

  -- An argv is built exactly if the context key resolves, the mode takes both cache types, the
  -- parser is one of the known names, letter for letter, and the speculation is consistent: beside a
  -- draft model there is no spec-type but `draft-simple`, in any ASCII case, and without one a
  -- spec-type with a positive draft length is none of MTP in turboquant mode.
  pub build_ok_iff :
      (context_key : Text) (mode : Mode) (path : Text) (port : ℤ)
      → ((argv : List Text) × (build_llama_server_args def p context_key mode path port ≡ ok argv))
        ↔ Buildable context_key mode
  build_ok_iff context_key mode path port = (
    λ built. built-Buildable context_key mode path port built.0 built.1,
    λ b. Buildable-built context_key mode path port b,
  )

  -- Every argv begins with the model, and ends with the model's extra arguments and then the
  -- call's: what the call adds is read last.
  pub build_ends :
      (context_key : Text) (mode : Mode) (path : Text) (port : ℤ) (argv : List Text)
      → build_llama_server_args def p context_key mode path port ≡ ok argv
      → (middle : List Text) × (argv
          ≡ codes "-m" ∷ (path ∷ (middle ++ (def.extra_args ++ p.extra_args))))
  build_ends context_key mode path port argv h =
      let (n, kv, sampler, spec, _, _, _, _, e) = build_steps context_key mode path port argv h in
      let c = positive_arg (codes "-c") n in
      (
        c
            ++ (host_args def p port
                ++ (memory_args def p
                    ++ (tuning_args def p ++ (kv ++ (routing_args def p ++ (sampler ++ spec)))))),
        e ∙ sym (simp list_laws),
      )
