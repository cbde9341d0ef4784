-- ===== src/Uplift.antt =====
-- crates/localx-eval-core/src/uplift.rs: the identity that an uplift run is bound to. The digest of
-- an injection is a parameter.
pub mod Laws
use localx_llama.Verify.{sort_texts}
use localx_llama.Prelude.{
  ℕ, Bool, true, false, not, ◌&&◌, ◌||◌, Option, none, some, List, [], ◌∷◌, ◌++◌, if◌then◌else◌,
  ◌==◌, Result, err, ok,
}
use localx_llama.Text.{Text, codes, decimal, ◌=ᵗ◌}

pub record TaskSetIdentity : Type 0 where
  pub name : Text
  pub digest : Text
  pub task_count : ℕ

pub data InjectionMode : Type 0 where
  forced : InjectionMode
  retrieved : InjectionMode

pub record InjectionIdentity : Type 0 where
  pub mode : InjectionMode
  pub intended : List Text
  pub seed_pack_digest : Option Text

abbrev pub no_injection : InjectionIdentity
no_injection = record { mode = retrieved; intended = []; seed_pack_digest = none }

-- `dedup`
unfoldable pub dedup : List Text → List Text
dedup [] = []
dedup (t ∷ []) = t ∷ []
dedup (t ∷ u ∷ ts) = let later = dedup (u ∷ ts) in if t =ᵗ u then later else t ∷ later

unfoldable pub lessons_injection : InjectionMode → List Text → Text → InjectionIdentity
unfolding dedup sort_texts
lessons_injection mode intended seed_pack_digest = record {
  mode = mode;
  intended = dedup (sort_texts intended);
  seed_pack_digest = some seed_pack_digest;
}

pub record ArmIdentity : Type 0 where
  pub arm : Text
  pub is_lesson_arm : Bool
  pub config_digest : Text
  pub model : Text
  pub trials : ℕ
  pub timeout_secs : ℕ
  pub injection : InjectionIdentity

pub record ArmRunIdentity : Type 0 where
  pub binding : Text
  pub task_set : TaskSetIdentity
  pub arm : ArmIdentity

pub record UpliftIdentity : Type 0 where
  pub binding : Text
  pub task_set : TaskSetIdentity
  pub baseline : ArmIdentity
  pub lessons : ArmIdentity

pub data IdentityMismatch : Type 0 where
  binding_differs : Text → Text → IdentityMismatch
  task_set_differs : Text → Text → IdentityMismatch
  -- the arm, the field, the value expected and the actual one
  arm_differs : Text → Text → Text → Text → IdentityMismatch
  not_a_pair : IdentityMismatch
  arms_disagree : Text → IdentityMismatch

abbrev pub same_task_set : TaskSetIdentity → TaskSetIdentity → Bool
same_task_set t u = t.name =ᵗ u.name && t.digest =ᵗ u.digest && t.task_count == u.task_count

-- What the arms must have in common.
unfoldable pub disagree : Bool → Text → List IdentityMismatch
disagree same what = if same then [] else arms_disagree what ∷ []

unfoldable pub pair_problems : ArmRunIdentity → ArmRunIdentity → List IdentityMismatch
unfolding disagree
pair_problems baseline lessons =
    disagree (baseline.binding =ᵗ lessons.binding) (codes "binding")
    ++ (disagree (same_task_set baseline.task_set lessons.task_set) (codes "task set")
        ++ (disagree (baseline.arm.model =ᵗ lessons.arm.model) (codes "model")
            ++ (disagree (baseline.arm.trials == lessons.arm.trials) (codes "trials")
                ++ disagree (baseline.arm.timeout_secs == lessons.arm.timeout_secs)
                    (codes "timeout"))))

unfoldable pub join_arms :
    ArmRunIdentity → ArmRunIdentity → Result (List IdentityMismatch) UpliftIdentity
unfolding pair_problems
join_arms baseline lessons = elim (pair_problems baseline lessons) [
  | [] ↦ ok (record {
    binding = baseline.binding;
    task_set = baseline.task_set;
    baseline = baseline.arm;
    lessons = lessons.arm;
  })
  | problem ∷ problems ↦ err (problem ∷ problems)
]

unfoldable pub pair :
    ArmRunIdentity → ArmRunIdentity → Result (List IdentityMismatch) UpliftIdentity
unfolding join_arms
pair first second = elim first.arm.is_lesson_arm [
  | false ↦ elim second.arm.is_lesson_arm [
    | true ↦ join_arms first second
    | false ↦ err (not_a_pair ∷ [])
  ]
  | true ↦ elim second.arm.is_lesson_arm [
    | false ↦ join_arms second first
    | true ↦ err (not_a_pair ∷ [])
  ]
]

-- `bool::to_string`
abbrev pub shown_bool : Bool → Text
shown_bool true = codes "true"
shown_bool false = codes "false"

-- One field of an arm: the value wanted, then the one it has.
unfoldable pub differ : Text → Text → Text → Text → List IdentityMismatch
differ arm field wanted got = if wanted =ᵗ got then [] else arm_differs arm field wanted got ∷ []

module _ (content_digest : InjectionIdentity → Text) where
  unfoldable pub arm_mismatches : ArmIdentity → ArmIdentity → List IdentityMismatch
  unfolding differ decimal
  arm_mismatches actual wanted =
      differ actual.arm (codes "role") (shown_bool wanted.is_lesson_arm)
        (shown_bool actual.is_lesson_arm)
      ++ (differ actual.arm (codes "configuration") wanted.config_digest actual.config_digest
          ++ (differ actual.arm (codes "model") wanted.model actual.model
              ++ (differ actual.arm (codes "trials") (decimal wanted.trials) (decimal actual.trials)
                  ++ (differ actual.arm (codes "timeout") (decimal wanted.timeout_secs)
                        (decimal actual.timeout_secs)
                      ++ differ actual.arm (codes "injection") (content_digest wanted.injection)
                          (content_digest actual.injection)))))

  unfoldable pub mismatches : UpliftIdentity → UpliftIdentity → List IdentityMismatch
  unfolding arm_mismatches
  mismatches actual expected =
      (if actual.binding =ᵗ expected.binding
        then []
        else binding_differs expected.binding actual.binding ∷ [])
      ++ ((if not (actual.task_set.digest =ᵗ expected.task_set.digest)
              || not (actual.task_set.task_count == expected.task_set.task_count)
            then task_set_differs expected.task_set.digest actual.task_set.digest ∷ []
            else [])
          ++ (arm_mismatches actual.baseline expected.baseline
              ++ arm_mismatches actual.lessons expected.lessons))
