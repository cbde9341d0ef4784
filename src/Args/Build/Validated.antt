-- ===== src/Args/Build/Validated.antt =====
-- What validation of a model definition means for its launches.
use localx_llama.Prelude.{
  ◌++◌, ℕ, zero, suc, ◌≤◌, ◌≡◌, refl, ap, ◌∙◌, ◌≢◌, inl, inr, Bool, true, false, some, List, [],
  ◌∷◌, arith, Bool-cases, all, ok,
}
use localx_llama.Args.Build.{
  host_args, memory_args, routing_args, tuning_args, build_llama_server_args,
}
use localx_llama.Args.Build.Laws.{build_steps, context_value-ok, build_ok_iff}
use localx_llama.Prelude.Int.{is_positive, negsuc, pos, ℤ}
use localx_llama.Text.{Text, codes, contains_text, decimal, decimal_ℤ, ◌=ᵗ◌}
use localx_llama.Maps.{Map, get}
use localx_llama.Model.{Mode, ModelDef, known_parsers, resolve_context_key}
use localx_llama.Model.Keys.{context_value-get}
use localx_llama.Model.Validate.{IsValidDef}
use localx_llama.Args.Params.{LaunchParams, positive_arg, push2}

module _ {V : Type 0} (p : V → Bool) where
  all-get :
      (m : Map V) (k : Text) (v : V) → all (λ e. p e.1) m ≡ true → get k m ≡ some v → p v ≡ true
  unfolding get
  all-get [] k v h g = cc
  all-get ((j, w) ∷ m) k v h g = elim (Bool-cases (j =ᵗ k)) [
    | inl same ↦ ground arith
    | inr other ↦ all-get m k v (ground arith) (ground arith)
  ]

positive-pos : (v : ℤ) → is_positive v ≡ true → (n : ℕ) × (v ≡ pos n) × (1 ≤ n)
positive-pos (pos zero) h = cc
positive-pos (pos (suc n)) h = (suc n, refl, omega arith)
positive-pos (negsuc n) h = cc

module _ {F : Type 0} (le_zero : F → Bool) (def : ModelDef F) (p : LaunchParams) where
  num_ctx_arg :
      (n : ℕ) → 1 ≤ n → positive_arg (codes "-c") (some (pos n)) ≡ push2 (codes "-c") (decimal n)
  unfolding positive_arg decimal_ℤ
  num_ctx_arg zero h = absurd (omega arith)
  num_ctx_arg (suc n) h = refl

  -- A launch of a valid definition that is built always states its context length: `-c` follows the model, with
  -- the positive number that the resolved key has.
  pub build_num_ctx :
      (context_key : Text) (mode : Mode) (path : Text) (port : ℤ) (argv : List Text)
      → IsValidDef le_zero def
      → build_llama_server_args def p context_key mode path port ≡ ok argv
      → (k : Text) × (n : ℕ) × (resolve_context_key def context_key ≡ ok k)
        × (get k def.contexts ≡ some (pos n))
        × (1 ≤ n)
        × (rest : List Text) × (argv ≡ codes "-m" ∷ (path ∷ (codes "-c" ∷ (decimal n ∷ rest))))
  build_num_ctx context_key mode path port argv valid h =
      let (o, kv, sampler, spec, a, _, _, _, e) =
        build_steps def p context_key mode path port argv h in
      let (k, r) = context_value-ok def p context_key o a in
      let (v, g, c) = context_value-get def context_key k r in
      let (n, v_pos, le) =
        positive-pos v (all-get is_positive def.contexts k v valid.contexts_positive g) in
      let o_pos : some (pos n) ≡ o = cc in
      let given : positive_arg (codes "-c") o ≡ push2 (codes "-c") (decimal n) =
        rw (← o_pos) (num_ctx_arg n le) in
      (
        k,
        n,
        r,
        g ∙ ap some v_pos,
        le,
        host_args def p port
            ++ (memory_args def p
                ++ (tuning_args def p
                    ++ (kv
                        ++ (routing_args def p
                            ++ (sampler ++ (spec ++ (def.extra_args ++ p.extra_args))))))),
        rw given at e,
      )

  -- No argv is ever built for a definition whose parser is not one of the known names, letter for
  -- letter.
  pub parser_case_refused :
      (name : Text) (context_key : Text) (mode : Mode) (path : Text) (port : ℤ) (argv : List Text)
      → def.parser ≡ some name
      → contains_text known_parsers name ≡ false
      → build_llama_server_args def p context_key mode path port ≢ ok argv
  parser_case_refused name context_key mode path port argv e unknown h =
      let b = (build_ok_iff def p context_key mode path port).0 (argv, h) in cc (rw e at b.3)
