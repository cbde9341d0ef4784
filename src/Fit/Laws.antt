-- ===== src/Fit/Laws.antt =====
-- What the fitter is given of an argv.
use localx_llama.Text.Case.{All-contains_text}
use localx_llama.Prelude.{
  ◌∙◌, sym, ℕ, true, false, ◌≡◌, refl, List, [], ◌∷◌, ◌++◌, Bool-cases, inl, inr, ap, All,
}
use localx_llama.Fit.{
  fit_params_args, placement_flags, alone, dropped, is_flag, keep_memory, kept_as, skipped,
  with_value, memory_flags_with_value, memory_switches,
}
use localx_llama.Text.{Text, codes, contains_text, decimal}

-- An argument of a server's argv: a memory flag with its value, a memory switch, another flag alone
-- or with its value, or a token on its own.
pub data Argument : Type 0 where
  valued : Text → Text → Argument
  switch : Text → Argument
  other : Text → Argument
  other_valued : Text → Text → Argument
  stray : Text → Argument

abbrev pub IsOther : Text → Type 0
IsOther t =
    (contains_text memory_flags_with_value t ≡ false) × (contains_text memory_switches t ≡ false)

abbrev pub IsArgument : Argument → Type 0
IsArgument (valued flag value) = contains_text memory_flags_with_value flag ≡ true
IsArgument (switch flag) = contains_text memory_switches flag ≡ true
IsArgument (other flag) = IsOther flag × (is_flag flag ≡ true)
IsArgument (other_valued flag value) =
    IsOther flag × (is_flag flag ≡ true) × (is_flag value ≡ false)
IsArgument (stray t) = IsOther t × (is_flag t ≡ false)

abbrev pub argv_of : List Argument → List Text
argv_of [] = []
argv_of (valued flag value ∷ args) = flag ∷ (value ∷ argv_of args)
argv_of (switch flag ∷ args) = flag ∷ argv_of args
argv_of (other flag ∷ args) = flag ∷ argv_of args
argv_of (other_valued flag value ∷ args) = flag ∷ (value ∷ argv_of args)
argv_of (stray t ∷ args) = t ∷ argv_of args

-- The memory flags with their values and the memory switches, in order.
abbrev pub memory_args : List Argument → List Text
memory_args [] = []
memory_args (valued flag value ∷ args) = flag ∷ (value ∷ memory_args args)
memory_args (switch flag ∷ args) = flag ∷ memory_args args
memory_args (other flag ∷ args) = memory_args args
memory_args (other_valued flag value ∷ args) = memory_args args
memory_args (stray t ∷ args) = memory_args args

kept_as-valued :
    (t : Text) → contains_text memory_flags_with_value t ≡ true → kept_as t ≡ with_value
unfolding kept_as
kept_as-valued t h = rw (h, kept_as) refl

kept_as-switch : (t : Text) → contains_text memory_switches t ≡ true → kept_as t ≡ alone
unfolding kept_as
kept_as-switch t h =
    All-contains_text (λ s. kept_as s ≡ alone) memory_switches t
      (refl, (refl, (refl, (refl, (refl, (refl, (refl, tt))))))) h

kept_as-flag : (t : Text) → IsOther t → is_flag t ≡ true → kept_as t ≡ dropped
unfolding kept_as
kept_as-flag t (v, s) f = rw (v, kept_as) (rw (s, kept_as) (rw (f, kept_as) refl))

placement_is_flag : (t : Text) → contains_text placement_flags t ≡ true → is_flag t ≡ true
unfolding is_flag
placement_is_flag t h =
    All-contains_text (λ f. is_flag f ≡ true) placement_flags t
      (refl, (refl, (refl, (refl, (refl, (refl, (refl, tt))))))) h

kept_as-stray : (t : Text) → IsOther t → is_flag t ≡ false → kept_as t ≡ skipped
unfolding kept_as
kept_as-stray t (v, s) f = elim (Bool-cases (contains_text placement_flags t)) [
  | inl placed ↦ absurd (cc (placement_is_flag t placed, f))
  | inr not_placed ↦
      rw (v, kept_as) (rw (s, kept_as) (rw (f, kept_as) (rw (not_placed, kept_as) refl)))
]

-- Every memory flag and every switch is a flag.
memory_is_flag : (t : Text) → contains_text memory_flags_with_value t ≡ true → is_flag t ≡ true
unfolding is_flag
memory_is_flag t h =
    All-contains_text (λ f. is_flag f ≡ true) memory_flags_with_value t
      (
        refl,
        (
          refl,
          (
            refl,
            (
              refl,
              (
                refl,
                (
                  refl,
                  (
                    refl,
                    (
                      refl,
                      (
                        refl,
                        (
                          refl,
                          (
                            refl,
                            (
                              refl,
                              (
                                refl,
                                (
                                  refl,
                                  (
                                    refl,
                                    (
                                      refl,
                                      (
                                        refl,
                                        (
                                          refl,
                                          (
                                            refl,
                                            (
                                              refl,
                                              (refl, (refl, (refl, (refl, (refl, (refl, tt)))))),
                                            ),
                                          ),
                                        ),
                                      ),
                                    ),
                                  ),
                                ),
                              ),
                            ),
                          ),
                        ),
                      ),
                    ),
                  ),
                ),
              ),
            ),
          ),
        ),
      )
      h

switch_is_flag : (t : Text) → contains_text memory_switches t ≡ true → is_flag t ≡ true
unfolding is_flag
switch_is_flag t h =
    All-contains_text (λ f. is_flag f ≡ true) memory_switches t
      (refl, (refl, (refl, (refl, (refl, (refl, (refl, tt))))))) h

keep_memory-alone :
    (flag : Text) (rest : List Text)
    → kept_as flag ≡ alone
    → keep_memory (flag ∷ rest) ≡ flag ∷ keep_memory rest
unfolding keep_memory
keep_memory-alone flag [] k = rw (k, keep_memory) refl
keep_memory-alone flag (next ∷ rest) k = rw (k, keep_memory) refl

keep_memory-skipped :
    (t : Text) (rest : List Text) → kept_as t ≡ skipped → keep_memory (t ∷ rest) ≡ keep_memory rest
unfolding keep_memory
keep_memory-skipped t [] k = rw (k, keep_memory) refl
keep_memory-skipped t (next ∷ rest) k = rw (k, keep_memory) refl

keep_memory-before_flag :
    (t next : Text) (rest : List Text)
    → kept_as t ≡ dropped
    → is_flag next ≡ true
    → keep_memory (t ∷ (next ∷ rest)) ≡ keep_memory (next ∷ rest)
unfolding keep_memory
keep_memory-before_flag t next rest k f = rw (k, keep_memory) (rw (f, keep_memory) refl)

keep_memory-before_value :
    (t next : Text) (rest : List Text)
    → kept_as t ≡ dropped
    → is_flag next ≡ false
    → keep_memory (t ∷ (next ∷ rest)) ≡ keep_memory rest
unfolding keep_memory
keep_memory-before_value t next rest k f = rw (k, keep_memory) (rw (f, keep_memory) refl)

-- A flag without a value takes nothing with it that would be kept.
keep_memory-other :
    (t : Text) (args : List Argument)
    → kept_as t ≡ dropped
    → All IsArgument args
    → keep_memory (t ∷ argv_of args) ≡ keep_memory (argv_of args)
unfolding keep_memory
keep_memory-other t [] k h = rw (k, keep_memory) refl
keep_memory-other t (valued flag value ∷ args) k (h, _) =
    keep_memory-before_flag t flag (value ∷ argv_of args) k (memory_is_flag flag h)
keep_memory-other t (switch flag ∷ args) k (h, _) =
    keep_memory-before_flag t flag (argv_of args) k (switch_is_flag flag h)
keep_memory-other t (other flag ∷ args) k ((_, f), _) =
    keep_memory-before_flag t flag (argv_of args) k f
keep_memory-other t (other_valued flag value ∷ args) k ((_, f, _), _) =
    keep_memory-before_flag t flag (value ∷ argv_of args) k f
keep_memory-other t (stray s ∷ args) k ((o, f), _) =
    keep_memory-before_value t s (argv_of args) k f
    ∙ sym (keep_memory-skipped s (argv_of args) (kept_as-stray s o f))

keep_memory-argv_of :
    (args : List Argument) → All IsArgument args → keep_memory (argv_of args) ≡ memory_args args
unfolding keep_memory
keep_memory-argv_of [] h = refl
keep_memory-argv_of (valued flag value ∷ args) (h, hs) =
    rw (kept_as-valued flag h, keep_memory)
      (ap (λ r. flag ∷ (value ∷ r)) (keep_memory-argv_of args hs))
keep_memory-argv_of (switch flag ∷ args) (h, hs) =
    keep_memory-alone flag (argv_of args) (kept_as-switch flag h)
    ∙ ap (λ r. flag ∷ r) (keep_memory-argv_of args hs)
keep_memory-argv_of (other flag ∷ args) ((o, f), hs) =
    keep_memory-other flag args (kept_as-flag flag o f) hs ∙ keep_memory-argv_of args hs
keep_memory-argv_of (other_valued flag value ∷ args) ((o, f, v), hs) =
    keep_memory-before_value flag value (argv_of args) (kept_as-flag flag o f) v
    ∙ keep_memory-argv_of args hs
keep_memory-argv_of (stray t ∷ args) ((o, f), hs) =
    keep_memory-skipped t (argv_of args) (kept_as-stray t o f) ∙ keep_memory-argv_of args hs

-- Of an argv in which each memory flag has its value, the fitter is given all memory flags with
-- their values and all memory switches, in their order, and behind them the margin; no other flag,
-- no value of one that is no flag itself, and no token on its own is given.
pub fit_params_args_lem :
    (args : List Argument) (margin_mib : ℕ)
    → All IsArgument args
    → fit_params_args (argv_of args) margin_mib
      ≡ memory_args args ++ (codes "--fit-target" ∷ (decimal margin_mib ∷ []))
unfolding fit_params_args
fit_params_args_lem args margin_mib h =
    ap (λ k. k ++ (codes "--fit-target" ∷ (decimal margin_mib ∷ []))) (keep_memory-argv_of args h)
