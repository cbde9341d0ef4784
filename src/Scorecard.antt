-- ===== src/Scorecard.antt =====
-- crates/localx-eval-core/src/scorecard.rs: what is read of a unified diff and of the checks. A count
-- of lines stays below 2 ^ 32. f64 and `str::to_lowercase` are parameters.
pub mod Diffs
use localx_llama.Prelude.{
  ℕ, suc, Bool, true, false, not, ◌&&◌, ◌||◌, Option, none, some, List, [], ◌∷◌, if◌then◌else◌,
  ◌==◌, any, ◌+◌, ◌-◌,
}
use localx_llama.Prelude.Int.{ℤ, pos, negsuc}
use localx_llama.Text.{
  Text, codes, strip_prefix, starts_with, contains, trim_start, split_once, byte_len,
}
use localx_llama.Text.Lines.{lines}
use localx_llama.Check.{CheckOutcome, CheckStatus, passed}
use localx_llama.Check.Runs.{is_passed}

pub record DiffStat : Type 0 where
  pub added : ℕ
  pub removed : ℕ
  pub files : ℕ

pub record QualityBlock (F : Type 0) : Type 0 where
  pub diff_added : ℕ
  pub diff_removed : ℕ
  pub diff_files : ℕ
  pub vs_gold_ratio : Option F
  pub format_clean : Bool
  pub lint_clean : Bool
  pub typecheck_clean : Bool
  pub complexity_delta : Option ℤ
  pub tests_added : Bool

-- The process layer, `D` being the rollup of the discipline.
pub record ProcessBlock (D : Type 0) : Type 0 where
  pub tool_calls : ℕ
  pub redundant_calls : ℕ
  pub reproduce_before_fix : Bool
  pub test_before_done : Bool
  pub retrieval_used : Bool
  pub retrieval_count : ℕ
  pub exit_reason : Text
  pub recovered_after_failure : Bool
  pub interventions : ℕ
  pub discipline : Option D

-- What a line of a diff is.
pub data LineKind : Type 0 where
  file : LineKind
  header : LineKind
  plus : LineKind
  minus : LineKind
  context : LineKind

unfoldable pub line_kind : Text → LineKind
unfolding strip_prefix
line_kind line =
    if starts_with (codes "diff --git ") line
    then file
    else if starts_with (codes "+++") line || starts_with (codes "---") line
    then header
    else if starts_with (codes "+") line
    then plus
    else if starts_with (codes "-") line
    then minus
    else context

unfoldable pub count_kind : LineKind → DiffStat → DiffStat
count_kind file stat = record { added = stat.added; removed = stat.removed; files = suc stat.files }
count_kind plus stat = record { added = suc stat.added; removed = stat.removed; files = stat.files }
count_kind minus stat = record {
  added = stat.added;
  removed = suc stat.removed;
  files = stat.files;
}
count_kind _ stat = stat

unfoldable pub count_lines : List Text → DiffStat
unfolding line_kind count_kind
count_lines [] = record { added = 0; removed = 0; files = 0 }
count_lines (line ∷ rest) = count_kind (line_kind line) (count_lines rest)

unfoldable pub from_unified : Text → DiffStat
unfolding count_lines lines
from_unified diff = count_lines (lines diff)

-- `check_clean`: no check whose name holds one of the names failed.
unfoldable pub check_clean : List CheckOutcome → List Text → Bool
unfolding split_once strip_prefix
check_clean [] names = true
check_clean (c ∷ checks) names =
    (if any (λ n. contains n c.name) names then is_passed c.status else true)
    && check_clean checks names

module _ {F : Type 0} (ratio : ℕ → ℕ → F) where
  -- The churn relative to that of the gold diff, `ratio` being the quotient of two counts.
  unfoldable pub vs_gold : DiffStat → Option DiffStat → Option F
  vs_gold diff none = none
  vs_gold diff (some gold) =
      if gold.added + gold.removed == 0
      then none
      else some (ratio (diff.added + diff.removed) (gold.added + gold.removed))

  unfoldable pub from_signals :
      DiffStat → Option DiffStat → List CheckOutcome → Option ℤ → Bool → QualityBlock F
  unfolding vs_gold check_clean
  from_signals diff gold checks complexity_delta tests_added = record {
    diff_added = diff.added;
    diff_removed = diff.removed;
    diff_files = diff.files;
    vs_gold_ratio = vs_gold diff gold;
    format_clean = check_clean checks (codes "fmt" ∷ (codes "format" ∷ []));
    lint_clean = check_clean checks (codes "clippy" ∷ (codes "lint" ∷ []));
    typecheck_clean =
        check_clean checks (codes "check" ∷ (codes "typecheck" ∷ (codes "build" ∷ [])));
    complexity_delta = complexity_delta;
    tests_added = tests_added;
  }

-- A line that names a test file.
unfoldable pub names_test : Text → Bool
unfolding strip_prefix split_once
names_test line =
    starts_with (codes "diff --git") line
    && (contains (codes "/tests/") line
        || contains (codes "test_") line
        || contains (codes ".test.") line)

module _ (to_lowercase : Text → Text) where
  -- An added line that declares a test.
  unfoldable pub declares_test : Text → Bool
  unfolding strip_prefix split_once trim_start
  declares_test line = elim (strip_prefix (codes "+") line) [
    | none ↦ false
    | some added ↦
        let low = to_lowercase added in
        not (starts_with (codes "++") added)
        && (contains (codes "#[test]") low
            || contains (codes "@test") low
            || starts_with (codes "def test_") (trim_start low)
            || starts_with (codes "describe(") (trim_start low)
            || starts_with (codes "it(") (trim_start low)
            || starts_with (codes "test(") (trim_start low)
            || contains (codes "fn ") low && contains (codes "test") low)
  ]

  unfoldable pub tests_added_in_diff : Text → Bool
  unfolding declares_test names_test lines
  tests_added_in_diff diff = any declares_test (lines diff) || any names_test (lines diff)
