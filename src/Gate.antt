-- ===== src/Gate.antt =====
-- The gate on benchmark artifacts: crates/localx-eval-core/src/gate.rs. The composite, an f64, is of
-- any type.
pub mod Laws
use localx_llama.Prelude.{Bool, true, false, if◌then◌else◌}
use localx_llama.Text.{Text, codes, lower, starts_with, trim_start, strip_prefix}

pub data Provenance : Type 0 where
  live offline : Provenance

unfoldable pub parse_provenance : Text → Provenance
unfolding lower trim_start strip_prefix
parse_provenance line =
    if starts_with (codes "live ") (lower (trim_start line)) then live else offline

pub data Safety : Type 0 where
  safe breached : Safety

pub data Verdict : Type 0 where
  passed failed : Verdict

pub record GateCard (F : Type 0) : Type 0 where
  pub provenance : Provenance
  pub safety : Safety
  pub composite_delta : F

unfoldable pub satisfies_live_gate : {F : Type 0} → GateCard F → Bool
satisfies_live_gate card = elim card.provenance [ live ↦ true | offline ↦ false ]

unfoldable pub verdict : {F : Type 0} → GateCard F → Verdict
verdict card = elim card.safety [ breached ↦ failed | safe ↦ passed ]
