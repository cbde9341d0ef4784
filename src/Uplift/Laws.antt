-- ===== src/Uplift/Laws.antt =====
-- The pairing of two arms, and the comparison of a receipt with the run asked for.
use localx_llama.Prelude.{
  ok, ◌⊎◌, arith, ap, ◌∷◌, ◌==◌, ==_iff, ◌&&◌, ◌||◌, not, if◌then◌else◌, ◌≡◌, refl, sym, ◌↔◌, inl,
  inr, Bool, true, false, List, [], ◌++◌, Bool-cases, append-eq-nil,
}
use localx_llama.Text.{Text, ◌=ᵗ◌, codes, decimal}
use localx_llama.Text.Case.{=ᵗ_iff}
use localx_llama.Text.Numbers.{decimal_inj}
use localx_llama.Uplift.{
  IdentityMismatch, TaskSetIdentity, InjectionIdentity, ArmIdentity, ArmRunIdentity, UpliftIdentity,
  same_task_set, disagree, differ, shown_bool, pair_problems, join_arms, pair, binding_differs,
  task_set_differs, arm_mismatches, mismatches,
}

abbrev pub bound_identity : ArmRunIdentity → ArmRunIdentity → UpliftIdentity
bound_identity baseline lessons = record {
  binding = baseline.binding;
  task_set = baseline.task_set;
  baseline = baseline.arm;
  lessons = lessons.arm;
}

-- The two arms agree but for the lesson, and make up the identity.
pub record IsPairOf (baseline lessons : ArmRunIdentity) (u : UpliftIdentity) : Type 0 where
  pub baseline_role : baseline.arm.is_lesson_arm ≡ false
  pub lesson_role : lessons.arm.is_lesson_arm ≡ true
  pub same_binding : baseline.binding ≡ lessons.binding
  pub same_tasks : baseline.task_set ≡ lessons.task_set
  pub same_model : baseline.arm.model ≡ lessons.arm.model
  pub same_trials : baseline.arm.trials ≡ lessons.arm.trials
  pub same_timeout : baseline.arm.timeout_secs ≡ lessons.arm.timeout_secs
  pub bound_to : u ≡ bound_identity baseline lessons

-- The arm is configured as wanted; its name may differ.
pub record IsWantedArm (content_digest : InjectionIdentity → Text) (actual wanted : ArmIdentity)
    : Type 0 where
  pub role : actual.is_lesson_arm ≡ wanted.is_lesson_arm
  pub configuration : actual.config_digest ≡ wanted.config_digest
  pub model : actual.model ≡ wanted.model
  pub trials : actual.trials ≡ wanted.trials
  pub timeout : actual.timeout_secs ≡ wanted.timeout_secs
  pub injection : content_digest actual.injection ≡ content_digest wanted.injection

-- The run is the one asked for; the name of the task set may differ.
pub record IsRequestedRun (content_digest : InjectionIdentity → Text)
    (actual expected : UpliftIdentity) : Type 0 where
  pub binding : actual.binding ≡ expected.binding
  pub digest : actual.task_set.digest ≡ expected.task_set.digest
  pub task_count : actual.task_set.task_count ≡ expected.task_set.task_count
  pub baseline : IsWantedArm content_digest actual.baseline expected.baseline
  pub lessons : IsWantedArm content_digest actual.lessons expected.lessons

append_iff {ℓ κ μ} :
    {A : Type ℓ} {P : Type κ} {Q : Type μ} (xs ys : List A)
    → (xs ≡ []) ↔ P
    → (ys ≡ []) ↔ Q
    → (xs ++ ys ≡ []) ↔ (P × Q)
append_iff xs ys p q =
    (λ h. let a = append-eq-nil xs ys h in (p.0 a.0, q.0 a.1), λ h. simp (p.1 h.0, q.1 h.1))

agree_iff :
    {P : Type 0} (same : Bool) (what : Text) → (same ≡ true) ↔ P → (disagree same what ≡ []) ↔ P
unfolding disagree
agree_iff true what e = (λ h. e.0 refl, λ p. refl)
agree_iff false what e = (λ h. cc, λ p. cc (e.1 p))

same_task_set_iff : (t u : TaskSetIdentity) → (same_task_set t u ≡ true) ↔ (t ≡ u)
same_task_set_iff t u = (
  λ h.
      let b = and3 (t.name =ᵗ u.name) (t.digest =ᵗ u.digest) (t.task_count == u.task_count) h in
      let e = (=ᵗ_iff t.name u.name).0 b.0 in
      let f = (=ᵗ_iff t.digest u.digest).0 b.1 in
      let g = (==_iff t.task_count u.task_count).0 b.2 in
      λ i. record { name = e i; digest = f i; task_count = g i },
  λ h.
      let e = (=ᵗ_iff t.name u.name).1 (ap (λ r. r.name) h) in
      let f = (=ᵗ_iff t.digest u.digest).1 (ap (λ r. r.digest) h) in
      let g = (==_iff t.task_count u.task_count).1 (ap (λ r. r.task_count) h) in rw (e, f, g) refl,
)
  where
    and3 : (a b c : Bool) → a && b && c ≡ true → (a ≡ true) × (b ≡ true) × (c ≡ true)
    and3 a b c h = ground arith

differ_iff : (arm field wanted got : Text) → (differ arm field wanted got ≡ []) ↔ (got ≡ wanted)
unfolding differ
differ_iff arm field wanted got = elim (Bool-cases (wanted =ᵗ got)) [
  | inl b ↦ rw b (λ h. sym ((=ᵗ_iff wanted got).0 b), λ h. refl)
  | inr b ↦ rw b (λ h. cc, λ h. cc (rw (b) at (=ᵗ_iff wanted got).1 (sym h)))
]

shown_bool_inj : (a b : Bool) → shown_bool a ≡ shown_bool b → a ≡ b
shown_bool_inj true true h = refl
shown_bool_inj false false h = refl
shown_bool_inj true false h = cc
shown_bool_inj false true h = cc

-- The values are compared by what they are shown as.
differ_by_iff :
    {A : Type 0} (show : A → Text)
    → ((a b : A) → show a ≡ show b → a ≡ b)
    → (arm field : Text) (wanted got : A)
    → (differ arm field (show wanted) (show got) ≡ []) ↔ (got ≡ wanted)
differ_by_iff show inj arm field wanted got =
    let d = differ_iff arm field (show wanted) (show got) in
    (λ h. inj got wanted (d.0 h), λ e. d.1 (ap show e))

module _ (content_digest : InjectionIdentity → Text) where
  arm_mismatches_iff :
      (actual wanted : ArmIdentity)
      → (arm_mismatches content_digest actual wanted ≡ [])
        ↔ IsWantedArm content_digest actual wanted
  unfolding arm_mismatches
  arm_mismatches_iff actual wanted =
      let arm = actual.arm in
      let c =
        append_iff _ _
          (differ_by_iff shown_bool shown_bool_inj arm (codes "role") wanted.is_lesson_arm
            actual.is_lesson_arm)
          (append_iff _ _
            (differ_iff arm (codes "configuration") wanted.config_digest actual.config_digest)
            (append_iff _ _ (differ_iff arm (codes "model") wanted.model actual.model) (
              append_iff _ _
                (differ_by_iff decimal decimal_inj arm (codes "trials") wanted.trials actual.trials)
                (append_iff _ _
                  (differ_by_iff decimal decimal_inj arm (codes "timeout") wanted.timeout_secs
                    actual.timeout_secs)
                  (differ_iff arm (codes "injection") (content_digest wanted.injection)
                    (content_digest actual.injection)))))) in
      (
        λ h.
            let e = c.0 h in
            record {
              role = e.0;
              configuration = e.1.0;
              model = e.1.1.0;
              trials = e.1.1.1.0;
              timeout = e.1.1.1.1.0;
              injection = e.1.1.1.1.1;
            },
        λ v. c.1 (v.role, (v.configuration, (v.model, (v.trials, (v.timeout, v.injection))))),
      )

  binding_iff :
      (actual expected : Text)
      → ((if actual =ᵗ expected then [] else binding_differs expected actual ∷ []) ≡ [])
        ↔ (actual ≡ expected)
  binding_iff actual expected = elim (Bool-cases (actual =ᵗ expected)) [
    | inl b ↦ rw b (λ h. (=ᵗ_iff actual expected).0 b, λ h. refl)
    | inr b ↦ rw b (λ h. cc, λ h. cc (b, (=ᵗ_iff actual expected).1 h))
  ]

  task_set_iff :
      (actual expected : TaskSetIdentity)
      → ((if not (actual.digest =ᵗ expected.digest)
              || not (actual.task_count == expected.task_count)
            then task_set_differs expected.digest actual.digest ∷ []
            else [])
          ≡ [])
        ↔ ((actual.digest ≡ expected.digest) × (actual.task_count ≡ expected.task_count))
  task_set_iff actual expected =
      let d = =ᵗ_iff actual.digest expected.digest in
      let n = ==_iff actual.task_count expected.task_count in
      let b =
        both _ (actual.digest =ᵗ expected.digest) (actual.task_count == expected.task_count) in
      (λ h. let e = b.0 h in (d.0 e.0, n.0 e.1), λ e. b.1 (d.1 e.0, n.1 e.1))
    where
      both :
          (x : IdentityMismatch) (p q : Bool)
          → ((if not p || not q then x ∷ [] else []) ≡ []) ↔ ((p ≡ true) × (q ≡ true))
      both x true true = (λ h. (refl, refl), λ h. refl)
      both x true false = (λ h. cc, λ h. cc)
      both x false q = (λ h. cc, λ h. cc)

  -- A receipt has no mismatch with the identity that was asked for exactly if its binding, the
  -- digest and the number of its tasks, and the role, the configuration, the model, the trials, the
  -- timeout and the digest of the injection of each arm are those asked for: the names of the task
  -- set and of the arms do not count.
  pub mismatches_iff :
      (actual expected : UpliftIdentity)
      → (mismatches content_digest actual expected ≡ [])
        ↔ IsRequestedRun content_digest actual expected
  unfolding mismatches
  mismatches_iff actual expected =
      let c = append_iff _ _ (binding_iff actual.binding expected.binding) (
        append_iff _ _ (task_set_iff actual.task_set expected.task_set) (
          append_iff _ _ (arm_mismatches_iff actual.baseline expected.baseline)
            (arm_mismatches_iff actual.lessons expected.lessons))) in
      (
        λ h.
            let e = c.0 h in
            record {
              binding = e.0;
              digest = e.1.0.0;
              task_count = e.1.0.1;
              baseline = e.1.1.0;
              lessons = e.1.1.1;
            },
        λ v. c.1 (v.binding, ((v.digest, v.task_count), (v.baseline, v.lessons))),
      )

pair_problems_iff :
    (a b : ArmRunIdentity)
    → (pair_problems a b ≡ []) ↔ (
        (a.binding ≡ b.binding)
        × ((a.task_set ≡ b.task_set)
            × ((a.arm.model ≡ b.arm.model)
                × ((a.arm.trials ≡ b.arm.trials) × (a.arm.timeout_secs ≡ b.arm.timeout_secs)))))
unfolding pair_problems
pair_problems_iff a b =
    append_iff _ _ (agree_iff _ (codes "binding") (=ᵗ_iff a.binding b.binding)) (
      append_iff _ _ (agree_iff _ (codes "task set") (same_task_set_iff a.task_set b.task_set)) (
        append_iff _ _ (agree_iff _ (codes "model") (=ᵗ_iff a.arm.model b.arm.model)) (
          append_iff _ _ (agree_iff _ (codes "trials") (==_iff a.arm.trials b.arm.trials))
            (agree_iff _ (codes "timeout") (==_iff a.arm.timeout_secs b.arm.timeout_secs)))))

joined_iff :
    (a b : ArmRunIdentity) (u : UpliftIdentity)
    → (join_arms a b ≡ ok u) ↔ ((pair_problems a b ≡ []) × (u ≡ bound_identity a b))
unfolding join_arms
joined_iff a b u = on (pair_problems a b) refl
  where
    on :
        (ps : List IdentityMismatch)
        → pair_problems a b ≡ ps
        → (join_arms a b ≡ ok u) ↔ ((pair_problems a b ≡ []) × (u ≡ bound_identity a b))
    on [] e = rw (e, join_arms) (λ h. (refl, cc h), λ h. ap ok (sym h.1))
    on (p ∷ ps) e = rw (e, join_arms) (λ h. cc, λ h. cc)

joined-IsPairOf :
    (a b : ArmRunIdentity) (u : UpliftIdentity)
    → a.arm.is_lesson_arm ≡ false
    → b.arm.is_lesson_arm ≡ true
    → join_arms a b ≡ ok u
    → IsPairOf a b u
joined-IsPairOf a b u r s h =
    let j = (joined_iff a b u).0 h in
    let e = (pair_problems_iff a b).0 j.0 in
    record {
      baseline_role = r;
      lesson_role = s;
      same_binding = e.0;
      same_tasks = e.1.0;
      same_model = e.1.1.0;
      same_trials = e.1.1.1.0;
      same_timeout = e.1.1.1.1;
      bound_to = j.1;
    }

IsPairOf-joined :
    (a b : ArmRunIdentity) (u : UpliftIdentity) → IsPairOf a b u → join_arms a b ≡ ok u
IsPairOf-joined a b u v = (joined_iff a b u).1 (
  (pair_problems_iff a b).1
      (v.same_binding, (v.same_tasks, (v.same_model, (v.same_trials, v.same_timeout)))),
  v.bound_to,
)

-- Two arms make up an identity, in whichever order they are given, exactly if one is a baseline and
-- the other a lesson arm, both of the same binding, task set, model, trials and timeout; the identity
-- is then that of the two arms.
pub pair_iff :
    (first second : ArmRunIdentity) (u : UpliftIdentity)
    → (pair first second ≡ ok u) ↔ (IsPairOf first second u ⊎ IsPairOf second first u)
unfolding pair
pair_iff first second u =
    (on (Bool-cases first.arm.is_lesson_arm) (Bool-cases second.arm.is_lesson_arm), back)
  where
    on :
        ((first.arm.is_lesson_arm ≡ true) ⊎ (first.arm.is_lesson_arm ≡ false))
        → ((second.arm.is_lesson_arm ≡ true) ⊎ (second.arm.is_lesson_arm ≡ false))
        → pair first second ≡ ok u
        → IsPairOf first second u ⊎ IsPairOf second first u
    on (inr r) (inl s) h = inl (joined-IsPairOf first second u r s (rw (r, s, pair) at h))
    on (inl r) (inr s) h = inr (joined-IsPairOf second first u s r (rw (r, s, pair) at h))
    on (inl r) (inl s) h = cc (rw (r, s, pair) at h)
    on (inr r) (inr s) h = cc (rw (r, s, pair) at h)

    back : IsPairOf first second u ⊎ IsPairOf second first u → pair first second ≡ ok u
    back (inl v) = rw (v.baseline_role, v.lesson_role, pair) (IsPairOf-joined first second u v)
    back (inr v) = rw (v.lesson_role, v.baseline_role, pair) (IsPairOf-joined second first u v)
