-- ===== src/Tests/CheckTests.antt =====
-- Checks and the detection of a verify command on small inputs.
use localx_llama.Prelude.{
  true, ℕ, suc, ◌<◌, ◌+◌, ◌≤◌, ◌≡◌, refl, ◌⊎◌, Bool, false, ◌||◌, none, some, [], ◌∷◌, ◌++◌, leb,
  List, is_some,
}
use localx_llama.Check.{
  unverified, CheckCommand, CheckSpec, CommandRun, exited, bound, max_output_bytes, truncated_mark,
  from_command_line, run,
}
use localx_llama.Prelude.Int.{pos}
use localx_llama.Text.{◌=ᵗ◌, Text, codes, byte_len, is_whitespace}
use localx_llama.Check.Laws.{bound_lem}
use localx_llama.Check.Runs.{Once, Twice, run_lem}
use localx_llama.Verify.{resolve_verify_command, detect_verify_command}
use localx_llama.Verify.Laws.{resolve_verify_command_lem, can_detect, command_of, written}

from_command_line_runs :
    (from_command_line (codes " cargo  test ")
      ≡ some (record { program = codes "cargo"; args = codes "test" ∷ [] }))
    × (from_command_line (codes "  ") ≡ none)
unfolding from_command_line
from_command_line_runs = (refl, refl)

bound_lem_example :
    ((byte_len (codes "ok") ≤ max_output_bytes) × (bound (codes "ok") ≡ codes "ok"))
    ⊎ ((max_output_bytes < byte_len (codes "ok"))
        × (prefix : Text) × (rest : Text) × (codes "ok" ≡ prefix ++ rest)
        × (bound (codes "ok") ≡ prefix ++ truncated_mark)
        × (byte_len prefix ≤ max_output_bytes)
        × (max_output_bytes ≤ byte_len prefix + 3)
        × (byte_len (bound (codes "ok")) ≤ max_output_bytes + 23))
bound_lem_example = bound_lem (codes "ok")

abbrev check_command : CheckCommand
check_command = record { program = codes "lint"; args = [] }

abbrev spec : CheckSpec
spec = record {
  name = codes "lint";
  command = check_command;
  fixer = some (record { program = codes "fix"; args = [] });
  severity = none;
}

-- The first command fails, the later ones succeed.
abbrev execute : CheckCommand → ℕ → CommandRun × ℕ
execute command n = (
  record {
    end = exited (some (pos 1)) (leb 1 n);
    stdout = [];
    stderr = [];
    truncated = false;
    pipes_closed = true;
    cleanup = unverified;
    pid = some 1;
    elapsed = 0;
  },
  suc n,
)

run_lem_example :
    Once execute (λ t. t) 300 spec 0 (run execute (λ t. t) 300 spec 0)
    ⊎ Twice execute (λ t. t) 300 spec 0 (run execute (λ t. t) 300 spec 0)
run_lem_example = run_lem execute (λ t. t) 300 spec 0

abbrev has_file : Text → Bool
has_file name = name =ᵗ codes "go.mod" || name =ᵗ codes "Makefile"

detect_runs :
    detect_verify_command has_file none false
    ≡ some (record { program = codes "go"; args = codes "test" ∷ (codes "./..." ∷ []) })
unfolding detect_verify_command
detect_runs = refl

abbrev override : List (Text × Text)
override = (codes "cargo", codes "  ") ∷ []

resolve_verify_command_lem_example :
    (is_some (resolve_verify_command has_file none false none) ≡ can_detect has_file none false)
    × (resolve_verify_command has_file none false none ≡ command_of has_file none false [])
    × (resolve_verify_command has_file none false (some (written override (codes "test")))
        ≡ command_of has_file none false (codes "cargo" ∷ (codes "test" ∷ [])))
unfolding is_whitespace
resolve_verify_command_lem_example =
    resolve_verify_command_lem has_file none false [] override (codes "test") tt
      (((refl, (refl, (refl, (refl, (refl, tt))))), (refl, (refl, tt))), tt)
      (refl, (refl, (refl, (refl, tt))))
