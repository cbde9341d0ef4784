-- ===== src/Health/Laws.antt =====
-- What the proxy's lifecycle may do to a listener, and what an operator is told.
use localx_llama.Prelude.{
  ap, ◌&&◌, arith, if◌then◌else◌, ℕ, Bool, true, false, Option, none, some, ◌≡◌, ◌↔◌, ◌⊎◌, inl, inr,
  refl, Bool-cases, [],
}
use localx_llama.Health.{
  ProxyTarget, absent, classify_proxy_target, matching, mismatch, plan_proxy_action, ProxyAction,
  Target, classify_health, health_description, plan_proxy_lifecycle, reap_then_start,
  refuse_foreign_listener, remediation, repoint, reuse, same_target, start,
}
use localx_llama.Text.Case.{=ᵗ_iff}

same_target_iff : (t w : Target) → (same_target t w ≡ true) ↔ (t ≡ w)
unfolding same_target
same_target_iff (h, p) (h', p') = ground (arith, =ᵗ_iff h h')

and_false : (b : Bool) → (b && false) ≡ false
and_false true = refl
and_false false = refl

-- The actions that end the process behind the port.
abbrev pub ends_process : ProxyAction → Bool
ends_process reuse = false
ends_process repoint = true
ends_process reap_then_start = true
ends_process start = false
ends_process refuse_foreign_listener = false

abbrev pub refuses : ProxyAction → Bool
refuses reuse = false
refuses repoint = false
refuses reap_then_start = false
refuses start = false
refuses refuse_foreign_listener = true

planned-refuses :
    (upstream_up : Bool) (target : ProxyTarget)
    → refuses (plan_proxy_action true upstream_up target) ≡ false
unfolding plan_proxy_action
planned-refuses false target = refl
planned-refuses true matching = refl
planned-refuses true mismatch = refl
planned-refuses true absent = refl

-- Only a verified proxy is ever ended; a listener that is not verified is refused.
pub only_verified_ended :
    (listener_present proxy_verified upstream_up : Bool) (reported : Option Target)
    (wanted : Target)
    → ((proxy_verified ≡ true)
        × (refuses
              (plan_proxy_lifecycle listener_present proxy_verified upstream_up reported wanted)
            ≡ false))
      ⊎ ((proxy_verified ≡ false)
          × (ends_process
                (plan_proxy_lifecycle listener_present proxy_verified upstream_up reported wanted)
              ≡ false)
          × (plan_proxy_lifecycle listener_present proxy_verified upstream_up reported wanted
              ≡ (if listener_present then refuse_foreign_listener else start)))
unfolding plan_proxy_lifecycle plan_proxy_action
only_verified_ended listener true upstream_up reported wanted = inl (
  refl,
  rw (and_false listener)
      (planned-refuses upstream_up (classify_proxy_target true reported wanted)),
)
only_verified_ended true false upstream_up reported wanted = inr (refl, refl, refl)
only_verified_ended false false upstream_up reported wanted = inr (refl, refl, refl)

planned_reuse :
    (upstream_up : Bool) (reported : Option Target) (wanted : Target)
    → (plan_proxy_action true upstream_up (classify_proxy_target true reported wanted) ≡ reuse)
      ↔ ((true ≡ true) × (upstream_up ≡ true) × (reported ≡ some wanted))
unfolding plan_proxy_action classify_proxy_target
planned_reuse false reported wanted = (λ h. absurd cc, λ h. absurd cc)
planned_reuse true none wanted = (λ h. absurd cc, λ h. absurd cc)
planned_reuse true (some t) wanted = elim (Bool-cases (same_target t wanted)) [
  | inl same ↦ (λ h. (refl, refl, ap some ((same_target_iff t wanted).0 same)), λ h. rw same refl)
  | inr other ↦ (
    λ h. absurd (cc (rw other at h)),
    λ h. let same : t ≡ wanted = cc in absurd (cc ((same_target_iff t wanted).1 same)),
  )
]

-- A proxy is used as it is exactly if it is verified, its upstream is up, and the target that it
-- reports is the wanted one.
pub reuse_iff :
    (listener_present proxy_verified upstream_up : Bool) (reported : Option Target)
    (wanted : Target)
    → (plan_proxy_lifecycle listener_present proxy_verified upstream_up reported wanted ≡ reuse)
      ↔ ((proxy_verified ≡ true) × (upstream_up ≡ true) × (reported ≡ some wanted))
unfolding plan_proxy_lifecycle plan_proxy_action
reuse_iff true false upstream_up reported wanted = (λ h. absurd cc, λ h. cc)
reuse_iff false false upstream_up reported wanted = (λ h. absurd cc, λ h. cc)
reuse_iff true true upstream_up reported wanted = planned_reuse upstream_up reported wanted
reuse_iff false true upstream_up reported wanted = planned_reuse upstream_up reported wanted

-- There is a remedy, and a description, exactly if the proxy or its upstream is down.
pub remediation_iff :
    (proxy_up upstream_up : Bool) (proxy_port upstream_port : ℕ)
    → ((remediation (classify_health proxy_up upstream_up) ≡ [])
        ↔ ((proxy_up ≡ true) × (upstream_up ≡ true)))
      × ((health_description (classify_health proxy_up upstream_up) proxy_port upstream_port ≡ [])
          ↔ ((proxy_up ≡ true) × (upstream_up ≡ true)))
unfolding classify_health remediation health_description
remediation_iff true true p u = ((λ h. (refl, refl), λ h. refl), (λ h. (refl, refl), λ h. refl))
remediation_iff true false p u = ((λ h. cc, λ h. cc), (λ h. cc, λ h. cc))
remediation_iff false true p u = ((λ h. cc, λ h. cc), (λ h. cc, λ h. cc))
remediation_iff false false p u = ((λ h. cc, λ h. cc), (λ h. cc, λ h. cc))
