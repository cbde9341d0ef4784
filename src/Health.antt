-- ===== src/Health.antt =====
-- The health of the proxy and its lifecycle: crates/localx-llama-runtime/src/health.rs, and
-- `plan_proxy_lifecycle` and `embed_server_args` of server.rs.
pub mod Laws
use localx_llama.Prelude.{
  ok, ℕ, Bool, true, false, not, ◌&&◌, ◌==◌, Option, none, some, List, [], ◌∷◌, ◌++◌, if◌then◌else◌,
}
use localx_llama.Text.{Text, codes, decimal, ◌=ᵗ◌}

pub data ProxyTarget : Type 0 where
  matching mismatch absent : ProxyTarget

-- Host and port, `(&str, u16)`, and their `==`.
abbrev pub Target : Type 0
Target = Text × ℕ

unfoldable pub same_target : Target → Target → Bool
unfolding ◌=ᵗ◌
same_target (host, port) (host', port') = host =ᵗ host' && (port == port')

unfoldable pub classify_proxy_target : Bool → Option Target → Target → ProxyTarget
classify_proxy_target false reported wanted = absent
classify_proxy_target true none wanted = absent
classify_proxy_target true (some t) wanted = if same_target t wanted then matching else mismatch

pub data ProxyAction : Type 0 where
  reuse repoint reap_then_start start refuse_foreign_listener : ProxyAction

unfoldable pub plan_proxy_action : Bool → Bool → ProxyTarget → ProxyAction
plan_proxy_action false upstream_up target = start
plan_proxy_action true false target = reap_then_start
plan_proxy_action true true matching = reuse
plan_proxy_action true true mismatch = repoint
plan_proxy_action true true absent = reap_then_start

unfoldable pub plan_proxy_lifecycle : Bool → Bool → Bool → Option Target → Target → ProxyAction
plan_proxy_lifecycle listener_present proxy_verified upstream_up reported_target wanted_target =
    if listener_present && not proxy_verified
    then refuse_foreign_listener
    else plan_proxy_action proxy_verified upstream_up
        (classify_proxy_target proxy_verified reported_target wanted_target)

pub data HealthState : Type 0 where
  ok_state stale_proxy proxy_down down : HealthState

unfoldable pub classify_health : Bool → Bool → HealthState
classify_health true true = ok_state
classify_health true false = stale_proxy
classify_health false true = proxy_down
classify_health false false = down

unfoldable pub remediation : HealthState → Text
remediation ok_state = []
remediation down = codes "localbox serve <model>"
remediation stale_proxy = codes "localbox stop, then localbox serve <model>"
remediation proxy_down = codes "localbox stop, then localbox serve <model>"

unfoldable pub health_description : HealthState → ℕ → ℕ → Text
unfolding decimal
health_description ok_state proxy_port upstream_port = []
health_description stale_proxy proxy_port upstream_port =
    codes "The no-think proxy is up on "
    ++ (decimal proxy_port
        ++ (codes " but the upstream model server on "
            ++ (decimal upstream_port ++ codes " is down, so requests return a bare 502.")))
health_description proxy_down proxy_port upstream_port =
    codes "The model server on "
    ++ (decimal upstream_port
        ++ (codes " is up but the no-think proxy on "
            ++ (decimal proxy_port ++ codes " is not running.")))
health_description down proxy_port upstream_port =
    codes "Neither the no-think proxy nor the model server is running."

unfoldable pub embed_server_args : Text → ℕ → List Text
unfolding decimal
embed_server_args model_path port =
    codes "-m"
    ∷ (model_path
        ∷ (codes "--host"
            ∷ (codes "127.0.0.1"
                ∷ (codes "--port"
                    ∷ (decimal port
                        ∷ (codes "--embedding"
                            ∷ (codes "--pooling"
                                ∷ (codes "last" ∷ (codes "-ngl" ∷ (codes "0" ∷ []))))))))))
