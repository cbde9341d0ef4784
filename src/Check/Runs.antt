-- ===== src/Check/Runs.antt =====
-- Which commands a check runs, in which order, and which of them decides.
use localx_llama.Prelude.{
  ℕ, not, ◌≡◌, refl, ◌⊎◌, Bool, true, false, none, some, [], Option-cases, inl, inr,
}
use localx_llama.Text.{Text, codes}
use localx_llama.Check.{
  CheckCommand, CheckSpec, CheckOutcome, CheckStatus, passed, failed, denied, errored, CommandRun,
  RunResult, ran, run_denied, run_errored, run_command, run, maybe_fix, outcome, settled,
}

abbrev pub is_passed : CheckStatus → Bool
is_passed passed = true
is_passed _ = false

-- A command ran to its end without success.
abbrev pub is_failure : RunResult → Bool
is_failure (ran b detail) = not b
is_failure _ = false

-- The status of a check that a run decides.
abbrev pub status_of : RunResult → CheckStatus
status_of (ran true detail) = passed
status_of (ran false detail) = failed
status_of run_denied = denied
status_of (run_errored detail) = errored

module _ {W : Type 0} (execute : CheckCommand → W → CommandRun × W) (sanitize : Text → Text)
    (timeout : ℕ) where
  -- A command run in a state: what it gives, and the state behind it.
  abbrev pub result : CheckCommand → W → RunResult
  result command w = (run_command execute sanitize timeout command w).0

  abbrev pub behind : CheckCommand → W → W
  behind command w = (run_command execute sanitize timeout command w).1

  settled_status :
      (spec : CheckSpec) (refusal : Text) (fixed : Bool) (r : RunResult)
      → ((settled execute sanitize timeout spec refusal fixed r).status ≡ status_of r)
        × ((settled execute sanitize timeout spec refusal fixed r).fixed ≡ fixed)
  unfolding settled outcome
  settled_status spec refusal fixed (ran true detail) = (refl, refl)
  settled_status spec refusal fixed (ran false detail) = (refl, refl)
  settled_status spec refusal fixed run_denied = (refl, refl)
  settled_status spec refusal fixed (run_errored detail) = (refl, refl)

  -- The command ran once and decides; it has not failed, or there is no fixer. Or it failed, there
  -- is a fixer, and the second run of the command, behind the fixer's, decides.
  abbrev pub Once : CheckSpec → W → CheckOutcome × W → Type 0
  Once spec w r =
      ((is_failure (result spec.command w) ≡ false) ⊎ (spec.fixer ≡ none))
      × (r.1 ≡ behind spec.command w)
      × (r.0.status ≡ status_of (result spec.command w))
      × (r.0.fixed ≡ false)

  abbrev pub Twice : CheckSpec → W → CheckOutcome × W → Type 0
  Twice spec w r =
      (fixer : CheckCommand) × (spec.fixer ≡ some fixer)
      × (r.1 ≡ behind spec.command (behind fixer (behind spec.command w)))
      × (r.0.status ≡ status_of (result spec.command (behind fixer (behind spec.command w))))
      × (r.0.fixed ≡ true)
      × (is_failure (result spec.command w) ≡ true)

  unfixed :
      (spec : CheckSpec) (detail : Text) (w : W)
      → spec.fixer ≡ none
      → maybe_fix execute sanitize timeout spec detail w ≡ (outcome spec failed detail false, w)
  unfolding maybe_fix
  unfixed spec detail w h = rw (h, maybe_fix) refl

  fixed_by :
      (spec : CheckSpec) (detail : Text) (w : W) (fixer : CheckCommand)
      → spec.fixer ≡ some fixer
      → maybe_fix execute sanitize timeout spec detail w ≡ (
        settled execute sanitize timeout spec
            (codes "the gate refused the check re-run")
            true
            (result spec.command (behind fixer w)),
        behind spec.command (behind fixer w),
      )
  unfolding maybe_fix
  fixed_by spec detail w fixer h = rw (h, maybe_fix) refl

  ran_first :
      (spec : CheckSpec) (w : W) (r : RunResult)
      → result spec.command w ≡ r
      → run execute sanitize timeout spec w ≡ elim r [
        | ran true detail ↦ (outcome spec passed [] false, behind spec.command w)
        | ran false detail ↦ maybe_fix execute sanitize timeout spec detail (behind spec.command w)
        | run_denied ↦ (
          outcome spec denied (codes "the gate refused the check command") false,
          behind spec.command w,
        )
        | run_errored detail ↦ (outcome spec errored detail false, behind spec.command w)
      ]
  unfolding run
  ran_first spec w r h = rw (h, run) refl

  run_by :
      (spec : CheckSpec) (w : W) (r : RunResult)
      → result spec.command w ≡ r
      → Once spec w (run execute sanitize timeout spec w)
        ⊎ Twice spec w (run execute sanitize timeout spec w)
  run_by spec w (ran true detail) h = inl (
      rw (ran_first spec w (ran true detail) h)
        (inl (rw h refl), refl, rw h (unfold outcome in refl), unfold outcome in refl))
  run_by spec w run_denied h = inl (
      rw (ran_first spec w run_denied h)
        (inl (rw h refl), refl, rw h (unfold outcome in refl), unfold outcome in refl))
  run_by spec w (run_errored detail) h = inl (
      rw (ran_first spec w (run_errored detail) h)
        (inl (rw h refl), refl, rw h (unfold outcome in refl), unfold outcome in refl))
  run_by spec w (ran false detail) h = elim (Option-cases spec.fixer) [
    | inl e ↦ inl (
        rw (ran_first spec w (ran false detail) h) (
          rw (unfixed spec detail (behind spec.command w) e)
            (inr e, refl, rw h (unfold outcome in refl), unfold outcome in refl)))
    | inr (fixer, e) ↦
        let (status, mark) =
          settled_status spec (codes "the gate refused the check re-run") true
            (result spec.command (behind fixer (behind spec.command w))) in
        inr (
          rw (ran_first spec w (ran false detail) h) (
            rw (fixed_by spec detail (behind spec.command w) fixer e)
              (fixer, e, refl, status, mark, rw h refl)))
  ]

  -- A check's command runs once and decides the outcome, if it does not fail or the check has no
  -- fixer. If it fails and there is a fixer, the fixer, whether it succeeds or not, and then the
  -- command again are run, in this order, and the second run decides. The status is that of the
  -- run that decides, and `fixed` says whether the fixer's turn came.
  pub run_lem :
      (spec : CheckSpec) (w : W)
      → Once spec w (run execute sanitize timeout spec w)
        ⊎ Twice spec w (run execute sanitize timeout spec w)
  run_lem spec w = run_by spec w (result spec.command w) refl
