-- ===== src/Ablation.antt =====
-- crates/localx-eval-core/src/ablation.rs: the arms of an ablation, and what each feature moves. f64
-- is a parameter, with the conversion of a u32 and the test that two values are apart.
use localx_llama.Prelude.{
  ℕ, Bool, true, false, Option, none, some, List, [], ◌∷◌, ◌++◌, if◌then◌else◌, map, find, ◌≡◌,
  refl,
}
use localx_llama.Text.{Text, ◌=ᵗ◌, codes}
use localx_llama.Scorecard.{ProcessBlock}

pub record FeatureToggles : Type 0 where
  pub retrieval : Bool
  pub code_intelligence : Bool
  pub tool_budget : Bool
  pub check_before_launch : Bool
  pub tool_pull_discovery : Bool

abbrev pub all_on : FeatureToggles
all_on = record {
  retrieval = true;
  code_intelligence = true;
  tool_budget = true;
  check_before_launch = true;
  tool_pull_discovery = true;
}

abbrev pub all_off : FeatureToggles
all_off = record {
  retrieval = false;
  code_intelligence = false;
  tool_budget = false;
  check_before_launch = false;
  tool_pull_discovery = false;
}

pub record AblationArm : Type 0 where
  pub name : Text
  pub features : FeatureToggles

-- The features, each with the signal it moves.
abbrev pub features : List (Text × Text)
features =
    (codes "retrieval", codes "retrieval_used")
    ∷ ((codes "code_intelligence", codes "reproduce_before_fix")
        ∷ ((codes "tool_budget", codes "tool_calls")
            ∷ ((codes "check_before_launch", codes "reproduce_before_fix")
                ∷ ((codes "tool_pull_discovery", codes "redundant_calls") ∷ []))))

unfoldable pub set_feature : FeatureToggles → Text → Bool → FeatureToggles
unfolding ◌=ᵗ◌
set_feature t name value =
    if name =ᵗ codes "retrieval"
    then record {
      retrieval = value;
      code_intelligence = t.code_intelligence;
      tool_budget = t.tool_budget;
      check_before_launch = t.check_before_launch;
      tool_pull_discovery = t.tool_pull_discovery;
    }
    else if name =ᵗ codes "code_intelligence"
    then record {
      retrieval = t.retrieval;
      code_intelligence = value;
      tool_budget = t.tool_budget;
      check_before_launch = t.check_before_launch;
      tool_pull_discovery = t.tool_pull_discovery;
    }
    else if name =ᵗ codes "tool_budget"
    then record {
      retrieval = t.retrieval;
      code_intelligence = t.code_intelligence;
      tool_budget = value;
      check_before_launch = t.check_before_launch;
      tool_pull_discovery = t.tool_pull_discovery;
    }
    else if name =ᵗ codes "check_before_launch"
    then record {
      retrieval = t.retrieval;
      code_intelligence = t.code_intelligence;
      tool_budget = t.tool_budget;
      check_before_launch = value;
      tool_pull_discovery = t.tool_pull_discovery;
    }
    else if name =ᵗ codes "tool_pull_discovery"
    then record {
      retrieval = t.retrieval;
      code_intelligence = t.code_intelligence;
      tool_budget = t.tool_budget;
      check_before_launch = t.check_before_launch;
      tool_pull_discovery = value;
    }
    else t

abbrev pub without_feature : Text → AblationArm
without_feature feature = record {
  name = codes "no-" ++ feature;
  features = set_feature all_on feature false;
}

unfoldable pub ablation_matrix : List AblationArm
unfolding set_feature
ablation_matrix =
    record { name = codes "baseline"; features = all_off }
    ∷ (record { name = codes "full"; features = all_on } ∷ map (λ f. without_feature f.0) features)

unfoldable pub feature_signal : Text → Option Text
unfolding ◌=ᵗ◌
feature_signal feature = elim (find (λ f. f.0 =ᵗ feature) features) [
  | none ↦ none
  | some f ↦ some f.1
]

pub record AttributionRow (F : Type 0) : Type 0 where
  pub feature : Text
  pub signal : Text
  pub full_value : F
  pub ablated_value : F
  pub moved : Bool

-- `u8::from` of a flag
abbrev pub flag : Bool → ℕ
flag true = 1
flag false = 0

module _ {F : Type 0} (is_apart : F → F → Bool) where
  abbrev pub attribution_row : Text → Text → F → F → AttributionRow F
  attribution_row feature signal full_value ablated_value = record {
    feature = feature;
    signal = signal;
    full_value = full_value;
    ablated_value = ablated_value;
    moved = is_apart full_value ablated_value;
  }

module _ {F D : Type 0} (from : ℕ → F) (is_apart : F → F → Bool) where
  unfoldable pub signal_value : ProcessBlock D → Text → F
  unfolding ◌=ᵗ◌
  signal_value p signal = from (
      if signal =ᵗ codes "retrieval_used"
      then flag p.retrieval_used
      else if signal =ᵗ codes "reproduce_before_fix"
      then flag p.reproduce_before_fix
      else if signal =ᵗ codes "test_before_done"
      then flag p.test_before_done
      else if signal =ᵗ codes "tool_calls"
      then p.tool_calls
      else if signal =ᵗ codes "redundant_calls"
      then p.redundant_calls
      else if signal =ᵗ codes "retrieval_count"
      then p.retrieval_count
      else 0)

  -- A scorecard stands here as its process block, the one block that is read.
  unfoldable pub attribute_from :
      List (Text × Text) → ProcessBlock D → List (Text × ProcessBlock D) → List (AttributionRow F)
  unfolding signal_value
  attribute_from [] full ablated = []
  attribute_from ((feature, signal) ∷ fs) full ablated =
      let rows = attribute_from fs full ablated in
      elim (find (λ a. a.0 =ᵗ (codes "no-" ++ feature)) ablated) [
        | none ↦ rows
        | some a ↦
            attribution_row is_apart feature signal (signal_value full signal)
              (signal_value a.1 signal)
            ∷ rows
      ]

  unfoldable pub attribute : ProcessBlock D → List (Text × ProcessBlock D) → List (AttributionRow F)
  unfolding attribute_from
  attribute full ablated = attribute_from features full ablated

  -- The arms of the matrix give every feature one row, which compares its signal in the run with all
  -- features to that in the run without it.
  attribute-ablation_matrix :
      (run : FeatureToggles → ProcessBlock D)
      → attribute (run all_on) (map (λ arm. (arm.name, run arm.features)) ablation_matrix)
        ≡ map
            (λ f.
              attribution_row is_apart f.0 f.1
                (signal_value (run all_on) f.1)
                (signal_value (run (without_feature f.0).features) f.1))
            features
  unfolding attribute ablation_matrix
  attribute-ablation_matrix run = refl
