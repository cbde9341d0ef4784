-- ===== src/Check.antt =====
-- crates/localx-eval-core/src/check.rs: a check, its fixer, and the bound on what it reports. The
-- execution of one command, with its effect on the world, is a parameter.
pub mod Laws
pub mod Runs
use localx_llama.Prelude.{
  ℕ, Bool, true, false, Option, none, some, List, [], ◌∷◌, ◌++◌, if◌then◌else◌, leb, unwrap_or,
  ◌>>=?◌, ◌-◌, ◌*◌,
}
use localx_llama.Prelude.Int.{ℤ, negsuc}
use localx_llama.Text.{Text, codes, byte_len, utf8_width, is_whitespace, decimal, decimal_ℤ}

abbrev pub max_output_bytes : ℕ
max_output_bytes = 16 * 1024

pub record CheckCommand : Type 0 where
  pub program : Text
  pub args : List Text

-- A character of a word, in front of the words behind it.
unfoldable pub word_char : ℕ → Text → List Text → List Text
word_char c [] words = (c ∷ []) ∷ words
word_char c (d ∷ s) [] = (c ∷ []) ∷ []
word_char c (d ∷ s) (w ∷ words) =
    if is_whitespace d then (c ∷ []) ∷ (w ∷ words) else (c ∷ w) ∷ words

-- `str::split_whitespace`
unfoldable pub split_whitespace : Text → List Text
unfolding word_char is_whitespace
split_whitespace [] = []
split_whitespace (c ∷ s) =
    let words = split_whitespace s in if is_whitespace c then words else word_char c s words

unfoldable pub from_command_line : Text → Option CheckCommand
unfolding split_whitespace
from_command_line command = elim (split_whitespace command) [
  | [] ↦ none
  | program ∷ args ↦ some (record { program = program; args = args })
]

pub data CheckSeverity : Type 0 where
  off : CheckSeverity
  warn : CheckSeverity
  block : CheckSeverity

pub record CheckSpec : Type 0 where
  pub name : Text
  pub command : CheckCommand
  pub fixer : Option CheckCommand
  pub severity : Option CheckSeverity

pub data CheckStatus : Type 0 where
  passed : CheckStatus
  failed : CheckStatus
  denied : CheckStatus
  errored : CheckStatus

pub record CheckOutcome : Type 0 where
  pub name : Text
  pub status : CheckStatus
  pub detail : Text
  pub fixed : Bool
  pub severity : Option CheckSeverity

unfoldable pub outcome : CheckSpec → CheckStatus → Text → Bool → CheckOutcome
outcome spec status detail fixed = record {
  name = spec.name;
  status = status;
  detail = detail;
  fixed = fixed;
  severity = spec.severity;
}

-- The characters that fit into the bytes: up to the last character boundary at or before byte `n`.
unfoldable pub fitting : ℕ → Text → Text
unfolding utf8_width
fitting n [] = []
fitting n (c ∷ s) =
    let rest = fitting (n - utf8_width c) s in if leb (utf8_width c) n then c ∷ rest else []

abbrev pub truncated_mark : Text
truncated_mark = 10 ∷ codes "... [output truncated]"

unfoldable pub bound : Text → Text
unfolding fitting byte_len
bound text =
    if leb (byte_len text) max_output_bytes
    then text
    else fitting max_output_bytes text ++ truncated_mark

pub data CommandEnd : Type 0 where
  end_denied : CommandEnd
  exited : Option ℤ → Bool → CommandEnd
  not_started : Text → CommandEnd
  end_failed : Text → CommandEnd
  timed_out : CommandEnd
  cancelled : CommandEnd

pub data CleanupOutcome : Type 0 where
  cleanup_not_started : CleanupOutcome
  unverified : CleanupOutcome
  confirmed : CleanupOutcome

-- The time is in nanoseconds.
pub record CommandRun : Type 0 where
  pub end : CommandEnd
  pub stdout : Text
  pub stderr : Text
  pub truncated : Bool
  pub pipes_closed : Bool
  pub cleanup : CleanupOutcome
  pub pid : Option ℕ
  pub elapsed : ℕ

pub data RunResult : Type 0 where
  ran : Bool → Text → RunResult
  run_denied : RunResult
  run_errored : Text → RunResult

unfoldable pub captured : CommandRun → Text
captured run =
    10
    ∷ (codes "--- stdout ---"
        ++ (10 ∷ (run.stdout ++ (10 ∷ (codes "--- stderr ---" ++ (10 ∷ run.stderr))))))

module _ (sanitize : Text → Text) (timeout : ℕ) where
  -- `run_command`, behind the execution
  unfoldable pub run_result : CommandRun → RunResult
  unfolding bound captured
  run_result run = elim (run.end) [
    | end_denied ↦ run_denied
    | exited code success ↦ ran success (
        bound
          (sanitize (codes "exit: " ++ (decimal_ℤ (unwrap_or code (negsuc 0)) ++ captured run))))
    | not_started detail ↦ run_errored detail
    | end_failed detail ↦ run_errored detail
    | timed_out ↦ run_errored (
        bound (
          sanitize
            (codes "check timed out after " ++ (decimal timeout ++ (codes "s" ++ captured run)))))
    | cancelled ↦ run_errored (bound (sanitize (codes "check was cancelled" ++ captured run)))
  ]

module _ {W : Type 0} (execute : CheckCommand → W → CommandRun × W) (sanitize : Text → Text)
    (timeout : ℕ) where
  unfoldable pub run_command : CheckCommand → W → RunResult × W
  unfolding run_result
  run_command command w = let (run, w') = execute command w in (run_result sanitize timeout run, w')

  -- The outcome of the run of a check that is not run again.
  unfoldable pub settled : CheckSpec → Text → Bool → RunResult → CheckOutcome
  unfolding outcome
  settled spec refusal fixed (ran true detail) = outcome spec passed [] fixed
  settled spec refusal fixed (ran false detail) = outcome spec failed detail fixed
  settled spec refusal fixed run_denied = outcome spec denied refusal fixed
  settled spec refusal fixed (run_errored detail) = outcome spec errored detail fixed

  unfoldable pub maybe_fix : CheckSpec → Text → W → CheckOutcome × W
  unfolding run_command settled outcome
  maybe_fix spec first_detail w = elim (spec.fixer) [
    | none ↦ (outcome spec failed first_detail false, w)
    | some fixer ↦
        let (_, w₁) = run_command fixer w in
        let (again, w₂) = run_command spec.command w₁ in
        (settled spec (codes "the gate refused the check re-run") true again, w₂)
  ]

  unfoldable pub run : CheckSpec → W → CheckOutcome × W
  unfolding run_command settled maybe_fix
  run spec w =
      let (first, w') = run_command spec.command w in
      elim first [
        | ran true detail ↦ (outcome spec passed [] false, w')
        | ran false detail ↦ maybe_fix spec detail w'
        | run_denied ↦ (outcome spec denied (codes "the gate refused the check command") false, w')
        | run_errored detail ↦ (outcome spec errored detail false, w')
      ]
