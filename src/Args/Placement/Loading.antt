-- ===== src/Args/Placement/Loading.antt =====
-- The load flags mean what was asked for.
use localx_llama.Prelude.{
  ◌≡◌, refl, ◌⊎◌, inl, inr, Bool, true, false, List, [], ◌∷◌, if◌then◌else◌, any,
}
use localx_llama.Args.Placement.{load_args}
use localx_llama.Text.{Text, codes, contains_text, ◌=ᵗ◌}
use localx_llama.Args.Params.{LoadFlags, legacy, load_mode}

-- What a build makes of the flags, as (mlock, no_mmap): the two switches, or the one mode.
abbrev mode_intent : Text → Bool × Bool
mode_intent mode =
    if mode =ᵗ codes "none"
    then (false, true)
    else if mode =ᵗ codes "mmap+mlock"
    then (true, false)
    else if mode =ᵗ codes "mlock"
    then (true, true)
    else (false, false)

pub load_intent : LoadFlags → List Text → Bool × Bool
load_intent legacy args =
    (contains_text args (codes "--mlock"), contains_text args (codes "--no-mmap"))
load_intent load_mode (flag ∷ mode ∷ []) =
    if flag =ᵗ codes "--load-mode" then mode_intent mode else (false, false)
load_intent load_mode args = (false, false)

-- Read the way the build reads them, the emitted flags give back the intent; and a build with
-- `--load-mode` is never given a switch that it rejects.
pub load_args_intent :
    (mlock no_mmap : Bool) (flags : LoadFlags)
    → (load_intent flags (load_args mlock no_mmap flags) ≡ (mlock, no_mmap))
      × ((flags ≡ legacy)
          ⊎ (any
                (contains_text (codes "--mlock" ∷ codes "--no-mmap" ∷ []))
                (load_args mlock no_mmap flags)
              ≡ false))
unfolding load_args load_intent ◌=ᵗ◌
load_args_intent false false legacy = (refl, inl refl)
load_args_intent true false legacy = (refl, inl refl)
load_args_intent false true legacy = (refl, inl refl)
load_args_intent true true legacy = (refl, inl refl)
load_args_intent false false load_mode = (refl, inr refl)
load_args_intent true false load_mode = (refl, inr refl)
load_args_intent false true load_mode = (refl, inr refl)
load_args_intent true true load_mode = (refl, inr refl)
