-- ===== src/Vram.antt =====
-- VRAM and the fit of a quant: crates/localx-llama-core/src/vram.rs. The probe is the value that
-- it returns, and what the code does with f64 is a parameter.
pub mod Laws
use localx_llama.Prelude.{ℕ, Bool, true, false, Option, none, some, filter_option, if◌then◌else◌}
use localx_llama.Prelude.Int.{ℤ, pos, is_positive}
use localx_llama.Text.{Text, codes}

pub data VramSource : Type 0 where
  configured auto fallback : VramSource

pub record VramInfo : Type 0 where
  pub gb : ℤ
  pub source : VramSource

abbrev pub fallback_vram_gb : ℤ
fallback_vram_gb = pos 24

unfoldable pub resolve_vram : Option ℤ → Option ℤ → VramInfo
resolve_vram given probed = elim (filter_option is_positive given) [
  | some v ↦ record { gb = v; source = configured }
  | none ↦ elim (filter_option is_positive probed) [
    | some v ↦ record { gb = v; source = auto }
    | none ↦ record { gb = fallback_vram_gb; source = fallback }
  ]
]

pub data FitClass : Type 0 where
  fits tight over unknown : FitClass

-- `FitClass::as_str`
unfoldable pub fit_as_str : FitClass → Text
fit_as_str fits = codes "fits"
fit_as_str tight = codes "tight"
fit_as_str over = codes "over"
fit_as_str unknown = codes ""

-- `le`, `minus` and `from_int` are `<=`, `-` and `as f64`, and `seven` and `two` the literals.
module _ {F : Type 0} (le : F → F → Bool) (minus : F → F → F) (from_int : ℤ → F)
    (seven two : F) where
  unfoldable pub quant_fit_class : Option F → ℤ → FitClass
  quant_fit_class none vram_gb = unknown
  quant_fit_class (some size) vram_gb =
      let vram : F = from_int vram_gb in
      if le size (minus vram seven) then fits else if le size (minus vram two) then tight else over
