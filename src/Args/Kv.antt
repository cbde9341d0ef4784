-- ===== src/Args/Kv.antt =====
-- KV cache types and spec-types: their validation and resolution, args.rs.
pub mod Laws
use localx_llama.Prelude.{
  Bool, true, false, not, ◌&&◌, Option, List, [], ◌∷◌, if◌then◌else◌, filter_option, or_else,
  unwrap_or, Result, err, ok,
}
use localx_llama.Text.{Text, codes, contains_text, is_blank, join, lower}
use localx_llama.Error.{CoreError, kv_type_needs_fork, spec_type_unsupported, unknown_kv_type}
use localx_llama.Model.{Mode, separator, turboquant}

abbrev pub mainline_kv_types : List Text
mainline_kv_types =
    codes "f16"
    ∷ codes "bf16"
    ∷ codes "f32"
    ∷ codes "q8_0"
    ∷ codes "q5_1"
    ∷ codes "q5_0"
    ∷ codes "q4_1"
    ∷ codes "q4_0"
    ∷ codes "iq4_nl"
    ∷ []

abbrev pub turbo_kv_types : List Text
turbo_kv_types = codes "turbo3" ∷ codes "turbo4" ∷ []

abbrev pub mtp_spec_types : List Text
mtp_spec_types = codes "draft-mtp" ∷ codes "mtp" ∷ codes "nextn" ∷ []

unfoldable pub mode_supports_turbo_kv : Mode → Bool
mode_supports_turbo_kv turboquant = true
mode_supports_turbo_kv _ = false

unfoldable pub validate_kv_type : Text → Mode → Result CoreError (Unit {0})
validate_kv_type ty mode =
    let t : Text = lower ty in
    if contains_text mainline_kv_types t
    then ok tt
    else if contains_text turbo_kv_types t
    then (if not (mode_supports_turbo_kv mode)
        then err (kv_type_needs_fork t (join separator mainline_kv_types))
        else ok tt)
    else err (unknown_kv_type t (join separator mainline_kv_types) (join separator turbo_kv_types))

-- `mode == Mode::Turboquant`
unfoldable pub is_turboquant : Mode → Bool
is_turboquant turboquant = true
is_turboquant _ = false

unfoldable pub validate_spec_type : Text → Mode → Result CoreError (Unit {0})
validate_spec_type spec mode =
    if is_blank spec
    then ok tt
    else if is_turboquant mode && contains_text mtp_spec_types (lower spec)
    then err (spec_type_unsupported (lower spec))
    else ok tt

-- `s.filter(|v| !v.trim().is_empty())`
unfoldable pub non_blank : Option Text → Option Text
non_blank o = filter_option (λ v. not (is_blank v)) o

-- Over the model's two fields and the two overrides.
unfoldable pub resolve_kv_types :
    Option Text → Option Text → Option Text → Option Text → Text × Text
resolve_kv_types def_k def_v kv_k kv_v =
    let k : Text = unwrap_or (or_else (non_blank kv_k) (non_blank def_k)) (codes "q8_0") in
    (k, unwrap_or (or_else (non_blank kv_v) (non_blank def_v)) k)
