-- ===== src/Args/Placement/Laws.antt =====
-- When the server places a model, and what the memory flags are.
use localx_llama.Prelude.{
  or_else, filter_option, is_some, append-nil, not, ◌&&◌, sym, ◌∙◌, Option, none, some, ℕ, zero,
  suc, ◌+◌, ◌/◌, ◌%◌, ◌≤◌, ◌≡◌, refl, ◌⊎◌, inl, inr, Bool, true, false, List, [], ◌∷◌, ◌++◌, arith,
  Bool-cases, if◌then◌else◌, ltb, any, unwrap_or,
}
use localx_llama.Prelude.Int.{is_positive, pos, ℤ}
use localx_llama.Args.Placement.{
  cpu_moe_count, explicit_ngl, moe_args, ngl_args, overrides_tensors, placement_args, server_places,
}
use localx_llama.Text.{Text, codes, contains_text, decimal, decimal_onto, decimal_ℤ, ◌=ᵗ◌}
use localx_llama.Model.{ModelDef}
use localx_llama.Args.Params.{LaunchParams}

-- A printed number begins with a digit.
decimal_onto-digit :
    (fuel n : ℕ) (acc : Text)
    → (c : ℕ) × (s : Text) × (decimal_onto (suc fuel) n acc ≡ c ∷ s) × (b'0' ≤ c)
unfolding decimal_onto
decimal_onto-digit zero n acc = elim (Bool-cases (ltb n 10)) [
  | inl h ↦ (b'0' + n % 10, acc, rw (h, decimal_onto), omega arith)
  | inr h ↦ (b'0' + n % 10, acc, rw (h, decimal_onto), omega arith)
]
decimal_onto-digit (suc fuel) n acc = elim (Bool-cases (ltb n 10)) [
  | inl h ↦ (b'0' + n % 10, acc, rw (h, decimal_onto), omega arith)
  | inr h ↦
      let (c, s, e, le) = decimal_onto-digit fuel (n / 10) ((b'0' + n % 10) ∷ acc) in
      (c, s, rw (h, decimal_onto) e, le)
]

digit-placement_args : (c : ℕ) (s : Text) → b'0' ≤ c → contains_text placement_args (c ∷ s) ≡ false
unfolding ◌=ᵗ◌
digit-placement_args c s le = ground arith

decimal-placement_args : (n : ℕ) → contains_text placement_args (decimal n) ≡ false
unfolding decimal
decimal-placement_args n =
    let (c, s, e, le) = decimal_onto-digit n n [] in rw e (digit-placement_args c s le)

fit_target-placement_args : contains_text placement_args (codes "--fit-target") ≡ false
unfolding ◌=ᵗ◌
fit_target-placement_args = refl

-- The layers that are asked for: a positive number of the call's, or else the model's number.
abbrev pub asked_layers : Option ℤ → Option ℤ → Option ℤ
asked_layers none model = model
asked_layers (some n) model = if is_positive n then some n else model

-- The experts' blocks for the CPU: the call's number, or else the model's, or else none.
abbrev pub asked_blocks : Option ℤ → Option ℤ → ℤ
asked_blocks (some n) model = n
asked_blocks none (some n) = n
asked_blocks none none = pos 0

abbrev pub blocks_arg : ℤ → List Text
blocks_arg n = if is_positive n then codes "--n-cpu-moe" ∷ (decimal_ℤ n ∷ []) else []

abbrev pub margin_arg : Option ℕ → List Text
margin_arg o = elim o [ none ↦ [] | some margin ↦ codes "--fit-target" ∷ (decimal margin ∷ []) ]

margin_arg-placement : (o : Option ℕ) → any (contains_text placement_args) (margin_arg o) ≡ false
margin_arg-placement none = refl
margin_arg-placement (some margin) =
    rw (fit_target-placement_args, decimal-placement_args margin) refl

layers-eq : (a b : Option ℤ) → or_else (filter_option is_positive a) b ≡ asked_layers a b
layers-eq none b = refl
layers-eq (some n) b = elim (Bool-cases (is_positive n)) [
  | inl y ↦ rw (y, filter_option) refl
  | inr n ↦ rw (n, filter_option) refl
]

blocks-eq : (a b : Option ℤ) → unwrap_or (or_else a b) (pos 0) ≡ asked_blocks a b
blocks-eq (some n) b = refl
blocks-eq none (some n) = refl
blocks-eq none none = refl

is_some-none {ℓ} : {A : Type ℓ} (o : Option A) → is_some o ≡ false → o ≡ none
is_some-none none h = refl
is_some-none (some a) h = cc

module _ {F : Type 0} (def : ModelDef F) (p : LaunchParams) where
  abbrev pub layers : Option ℤ
  layers = asked_layers p.n_gpu_layers def.n_gpu_layers

  abbrev pub blocks : ℤ
  blocks = asked_blocks p.n_cpu_moe def.n_cpu_moe

  -- The extra arguments hold a placement argument.
  abbrev pub extra_placement : Bool
  extra_placement = any (contains_text placement_args) (def.extra_args ++ p.extra_args)

  explicit_ngl-eq : explicit_ngl def p ≡ layers
  explicit_ngl-eq = unfold explicit_ngl in layers-eq p.n_gpu_layers def.n_gpu_layers

  cpu_moe_count-eq : cpu_moe_count def p ≡ blocks
  cpu_moe_count-eq = unfold cpu_moe_count in blocks-eq p.n_cpu_moe def.n_cpu_moe

  server_places-eq :
      server_places def p
      ≡ (p.auto_fit && (not (is_some layers) && (not (is_positive blocks) && not extra_placement)))
  server_places-eq =
      unfold server_places overrides_tensors in rw (explicit_ngl-eq, cpu_moe_count-eq) refl

  -- Nothing asks for a placement, and the build can place a model.
  abbrev pub IsFree : Type 0
  IsFree =
      (p.auto_fit ≡ true)
      × (layers ≡ none)
      × (is_positive blocks ≡ false)
      × (extra_placement ≡ false)

  abbrev pub IsAsked : Type 0
  IsAsked =
      (p.auto_fit ≡ false)
      ⊎ ((is_some layers ≡ true) ⊎ ((is_positive blocks ≡ true) ⊎ (extra_placement ≡ true)))

  free_args :
      server_places def p ≡ true
      → is_positive blocks ≡ false
      → ngl_args def p ++ moe_args def p ≡ margin_arg p.fit_target_mib
  free_args h b =
      let ngl : ngl_args def p ≡ margin_arg p.fit_target_mib =
        unfold ngl_args in rw (h, ngl_args) refl in
      let moe : moe_args def p ≡ [] = unfold moe_args in rw (cpu_moe_count-eq, b, moe_args) refl in
      rw (ngl, moe) (append-nil (margin_arg p.fit_target_mib))

  asked_args :
      server_places def p ≡ false
      → ngl_args def p ++ moe_args def p
        ≡ codes "-ngl" ∷ (decimal_ℤ (unwrap_or layers (pos 999)) ∷ blocks_arg blocks)
  asked_args h =
      let ngl : ngl_args def p ≡ codes "-ngl" ∷ (decimal_ℤ (unwrap_or layers (pos 999)) ∷ []) =
        unfold ngl_args in rw (h, ngl_args) (rw explicit_ngl-eq refl) in
      let moe : moe_args def p ≡ blocks_arg blocks =
        unfold moe_args in rw (cpu_moe_count-eq, moe_args) refl in
      rw (ngl, moe) refl

  -- The server places the model exactly if the build can and nothing asks for a placement: no
  -- positive number of layers of the call's and no number of the model's, no positive number of
  -- blocks, and no placement argument among the extra ones. Then the memory flags hold none either,
  -- but the margin of the call. Otherwise they are `-ngl` with the number of layers that is asked
  -- for, or 999, and `--n-cpu-moe` with the number of blocks, where it is positive.
  pub placement_lem :
      ((server_places def p ≡ true)
        × IsFree
        × (ngl_args def p ++ moe_args def p ≡ margin_arg p.fit_target_mib)
        × (any (contains_text placement_args) (ngl_args def p ++ moe_args def p) ≡ false))
      ⊎ ((server_places def p ≡ false)
          × IsAsked
          × (ngl_args def p ++ moe_args def p
              ≡ codes "-ngl" ∷ (decimal_ℤ (unwrap_or layers (pos 999)) ∷ blocks_arg blocks)))
  placement_lem = elim (Bool-cases (server_places def p)) [
    | inl placed ↦
        let (auto, l, b, x) =
          free p.auto_fit (is_some layers) (is_positive blocks) extra_placement
            (sym server_places-eq ∙ placed) in
        let args = free_args placed b in
        inl (
          placed,
          (auto, is_some-none layers l, b, x),
          args,
          rw args (margin_arg-placement p.fit_target_mib),
        )
    | inr chosen ↦ inr (
      chosen,
      asked p.auto_fit (is_some layers) (is_positive blocks) extra_placement
          (sym server_places-eq ∙ chosen),
      asked_args chosen,
    )
  ]
    where
      free :
          (a l b x : Bool)
          → (a && (not l && (not b && not x))) ≡ true
          → (a ≡ true) × (l ≡ false) × (b ≡ false) × (x ≡ false)
      free a l b x h = ground arith

      asked :
          (a l b x : Bool)
          → (a && (not l && (not b && not x))) ≡ false
          → (a ≡ false) ⊎ ((l ≡ true) ⊎ ((b ≡ true) ⊎ (x ≡ true)))
      asked a l b x h = ground arith
