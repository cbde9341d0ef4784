-- ===== src/Args/Placement.antt =====
-- Where the model's layers go, and how it is loaded, args.rs.
pub mod Laws
pub mod Loading
use localx_llama.Text.{decimal, Text, codes, contains_text, decimal_ℤ}
use localx_llama.Prelude.{
  Bool, true, false, not, ◌&&◌, Option, none, some, List, [], ◌∷◌, ◌++◌, if◌then◌else◌, any,
  filter_option, is_some, or_else, unwrap_or,
}
use localx_llama.Prelude.Int.{is_positive, pos, ℤ}
use localx_llama.Model.{ModelDef}
use localx_llama.Args.Params.{LaunchParams, LoadFlags, legacy, load_mode, push2}

unfoldable pub load_args : Bool → Bool → LoadFlags → List Text
load_args false false flags = []
load_args true false legacy = codes "--mlock" ∷ []
load_args false true legacy = codes "--no-mmap" ∷ []
load_args true true legacy = codes "--mlock" ∷ codes "--no-mmap" ∷ []
load_args false true load_mode = codes "--load-mode" ∷ codes "none" ∷ []
load_args true false load_mode = codes "--load-mode" ∷ codes "mmap+mlock" ∷ []
load_args true true load_mode = codes "--load-mode" ∷ codes "mlock" ∷ []

-- `PLACEMENT_ARGS`
abbrev pub placement_args : List Text
placement_args =
    codes "-ngl"
    ∷ codes "--gpu-layers"
    ∷ codes "--n-gpu-layers"
    ∷ codes "-ncmoe"
    ∷ codes "--n-cpu-moe"
    ∷ codes "-ot"
    ∷ codes "--override-tensor"
    ∷ codes "--cpu-moe"
    ∷ codes "-cmoe"
    ∷ []

module _ {F : Type 0} (def : ModelDef F) (p : LaunchParams) where
  unfoldable pub explicit_ngl : Option ℤ
  explicit_ngl = or_else (filter_option is_positive p.n_gpu_layers) def.n_gpu_layers

  unfoldable pub cpu_moe_count : ℤ
  cpu_moe_count = unwrap_or (or_else p.n_cpu_moe def.n_cpu_moe) (pos 0)

  unfoldable pub overrides_tensors : Bool
  overrides_tensors = any (λ arg. contains_text placement_args arg) (def.extra_args ++ p.extra_args)

  -- Nothing chose a placement, and the build can: llama.cpp places the model.
  unfoldable pub server_places : Bool
  server_places =
      p.auto_fit
      && (not (is_some explicit_ngl) && (not (is_positive cpu_moe_count) && not overrides_tensors))

  unfoldable pub ngl_args : List Text
  ngl_args =
      if server_places
      then elim p.fit_target_mib [
        | none ↦ []
        | some margin ↦ push2 (codes "--fit-target") (decimal margin)
      ]
      else push2 (codes "-ngl") (decimal_ℤ (unwrap_or explicit_ngl (pos 999)))

  unfoldable pub moe_args : List Text
  moe_args =
      if is_positive cpu_moe_count
      then push2 (codes "--n-cpu-moe") (decimal_ℤ cpu_moe_count)
      else []
