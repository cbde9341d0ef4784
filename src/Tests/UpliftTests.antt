-- ===== src/Tests/UpliftTests.antt =====
-- The pairs and the comparison of the runs in the tests of uplift.rs.
use localx_llama.Prelude.{◌≡◌, refl, Bool, true, false, [], ◌∷◌, ◌↔◌, ◌⊎◌, ok, err, if◌then◌else◌}
use localx_llama.Text.{Text, codes, concat, ◌=ᵗ◌}
use localx_llama.Uplift.{
  TaskSetIdentity, InjectionIdentity, ArmIdentity, ArmRunIdentity, UpliftIdentity, retrieved,
  no_injection, lessons_injection, pair, mismatches, not_a_pair, arms_disagree,
}
use localx_llama.Uplift.Laws.{IsPairOf, IsRequestedRun, bound_identity, mismatches_iff, pair_iff}

abbrev sample_tasks : TaskSetIdentity
sample_tasks = record { name = codes "headroom"; digest = codes "tasks"; task_count = 3 }

abbrev sample_arm : Bool → ArmIdentity
sample_arm lesson = record {
  arm = if lesson then codes "lessons" else codes "baseline";
  is_lesson_arm = lesson;
  config_digest = codes "config";
  model = codes "m";
  trials = 3;
  timeout_secs = 600;
  injection =
      if lesson
      then lessons_injection retrieved (codes "b" ∷ (codes "a" ∷ (codes "a" ∷ []))) (codes "pack")
      else no_injection;
}

abbrev sample_run : Bool → ArmRunIdentity
sample_run lesson = record {
  binding = codes "bind";
  task_set = sample_tasks;
  arm = sample_arm lesson;
}

abbrev toy_digest : InjectionIdentity → Text
toy_digest i = concat i.intended

abbrev sample_identity : UpliftIdentity
sample_identity = bound_identity (sample_run false) (sample_run true)

abbrev renamed_tasks : UpliftIdentity
renamed_tasks = record {
  binding = codes "bind";
  task_set = record { name = codes "another"; digest = codes "tasks"; task_count = 3 };
  baseline = sample_arm false;
  lessons = sample_arm true;
}

intended_runs : (sample_arm true).injection.intended ≡ codes "a" ∷ (codes "b" ∷ [])
unfolding lessons_injection ◌=ᵗ◌
intended_runs = refl

same_arm_runs : pair (sample_run true) (sample_run true) ≡ err (not_a_pair ∷ [])
unfolding pair
same_arm_runs = refl

swapped_runs : pair (sample_run true) (sample_run false) ≡ ok sample_identity
unfolding pair ◌=ᵗ◌
swapped_runs = refl

renamed_runs : mismatches toy_digest renamed_tasks sample_identity ≡ []
unfolding mismatches ◌=ᵗ◌ lessons_injection
renamed_runs = refl

-- Two arms that differ in the name of the task set alone are refused.
renamed_task_set_runs :
    pair (sample_run false) (record {
      binding = codes "bind";
      task_set = record { name = codes "another"; digest = codes "tasks"; task_count = 3 };
      arm = sample_arm true;
    })
    ≡ err (arms_disagree (codes "task set") ∷ [])
unfolding pair ◌=ᵗ◌
renamed_task_set_runs = refl

mismatches_iff_example :
    (mismatches toy_digest renamed_tasks sample_identity ≡ [])
    ↔ IsRequestedRun toy_digest renamed_tasks sample_identity
mismatches_iff_example = mismatches_iff toy_digest renamed_tasks sample_identity

pair_iff_example : (pair (sample_run true) (sample_run false) ≡ ok sample_identity) ↔ (
    IsPairOf (sample_run true) (sample_run false) sample_identity
    ⊎ IsPairOf (sample_run false) (sample_run true) sample_identity)
pair_iff_example = pair_iff (sample_run true) (sample_run false) sample_identity
