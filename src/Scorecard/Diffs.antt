-- ===== src/Scorecard/Diffs.antt =====
-- The counts of a diff.
use localx_llama.Prelude.{ℕ, suc, ◌≡◌, false, List, [], ◌∷◌, ◌++◌}
use localx_llama.Text.{Text, codes, starts_with}
use localx_llama.Text.Lines.{IsOneLine}
use localx_llama.Scorecard.{DiffStat, LineKind, file, header, plus, minus, context}

-- A line of a diff: the head of a file, the names of its sides, and the lines of its hunks.
pub data DiffLine : Type 0 where
  file_head : Text → DiffLine
  old_name : Text → DiffLine
  new_name : Text → DiffLine
  added_line : Text → DiffLine
  removed_line : Text → DiffLine
  kept_line : Text → DiffLine

abbrev pub shown_line : DiffLine → Text
shown_line (file_head t) = codes "diff --git " ++ t
shown_line (old_name t) = codes "--- " ++ t
shown_line (new_name t) = codes "+++ " ++ t
shown_line (added_line t) = b'+' ∷ t
shown_line (removed_line t) = b'-' ∷ t
shown_line (kept_line t) = b' ' ∷ t

abbrev pub kind_of_line : DiffLine → LineKind
kind_of_line (file_head t) = file
kind_of_line (old_name t) = header
kind_of_line (new_name t) = header
kind_of_line (added_line t) = plus
kind_of_line (removed_line t) = minus
kind_of_line (kept_line t) = context

abbrev pub shown_diff : List DiffLine → Text
shown_diff [] = []
shown_diff (l ∷ ls) = shown_line l ++ (10 ∷ shown_diff ls)

-- The line's text is one line, and is not taken for the name of a side.
abbrev pub IsPlainLine : DiffLine → Type 0
IsPlainLine (file_head t) = IsOneLine t
IsPlainLine (old_name t) = IsOneLine t
IsPlainLine (new_name t) = IsOneLine t
IsPlainLine (added_line t) = IsOneLine t × (starts_with (codes "++") t ≡ false)
IsPlainLine (removed_line t) = IsOneLine t × (starts_with (codes "--") t ≡ false)
IsPlainLine (kept_line t) = IsOneLine t

abbrev pub added_lines : List DiffLine → ℕ
added_lines [] = 0
added_lines (added_line t ∷ ls) = suc (added_lines ls)
added_lines (_ ∷ ls) = added_lines ls

abbrev pub removed_lines : List DiffLine → ℕ
removed_lines [] = 0
removed_lines (removed_line t ∷ ls) = suc (removed_lines ls)
removed_lines (_ ∷ ls) = removed_lines ls

abbrev pub file_heads : List DiffLine → ℕ
file_heads [] = 0
file_heads (file_head t ∷ ls) = suc (file_heads ls)
file_heads (_ ∷ ls) = file_heads ls

abbrev pub counted : List DiffLine → DiffStat
counted ls = record { added = added_lines ls; removed = removed_lines ls; files = file_heads ls }
