-- ===== src/Tests/AblationTests.antt =====
-- Attribution from one arm alone.
use localx_llama.Prelude.{◌≡◌, refl, ℕ, Bool, true, false, not, none, [], ◌∷◌, ◌==◌}
use localx_llama.Text.{codes, ◌=ᵗ◌}
use localx_llama.Scorecard.{ProcessBlock}
use localx_llama.Ablation.{feature_signal, attribute, attribution_row}

-- A run with so many calls.
abbrev calls : ℕ → ProcessBlock ℕ
calls n = record {
  tool_calls = n;
  redundant_calls = 0;
  reproduce_before_fix = false;
  test_before_done = false;
  retrieval_used = true;
  retrieval_count = 0;
  exit_reason = codes "Done";
  recovered_after_failure = false;
  interventions = 0;
  discipline = none;
}

abbrev is_other : ℕ → ℕ → Bool
is_other a b = not (a == b)

unknown_feature_runs : feature_signal (codes "tool") ≡ none
unfolding feature_signal ◌=ᵗ◌
unknown_feature_runs = refl

-- The arms that are missing have no row.
attribute_runs :
    attribute (λ n. n) is_other (calls 3) ((codes "no-tool_budget", calls 5) ∷ [])
    ≡ attribution_row is_other (codes "tool_budget") (codes "tool_calls") 3 5 ∷ []
unfolding attribute ◌=ᵗ◌
attribute_runs = refl
