-- ===== src/Tests/ScorecardTests.antt =====
-- The counts of small diffs.
use localx_llama.Prelude.{◌≡◌, refl, false, List, [], ◌∷◌}
use localx_llama.Text.{codes}
use localx_llama.Scorecard.{from_unified}
use localx_llama.Scorecard.Diffs.{
  DiffLine, file_head, old_name, new_name, added_line, removed_line, kept_line, shown_diff,
}

abbrev small_diff : List DiffLine
small_diff =
    file_head (codes "a b")
    ∷ (old_name (codes "a")
        ∷ (new_name (codes "b")
            ∷ (kept_line (codes "k")
                ∷ (added_line (codes "x") ∷ (added_line [] ∷ (removed_line (codes "y") ∷ []))))))

from_unified_runs :
    from_unified (shown_diff small_diff) ≡ record { added = 2; removed = 1; files = 1 }
unfolding from_unified
from_unified_runs = refl

-- A removed line `-- y` is taken for the name of a side.
comment_runs :
    from_unified (shown_diff (removed_line (codes "-- y") ∷ []))
    ≡ record { added = 0; removed = 0; files = 0 }
unfolding from_unified
comment_runs = refl

-- A character that ends no line.
abbrev c : (false ≡ false) × (false ≡ false)
c = (refl, refl)
