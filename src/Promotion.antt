-- ===== src/Promotion.antt =====
-- The promotion gate of src/loop/promotion.py and the guardrail test of src/loop/grading.py. The
-- experiment and the measured divergence are inputs: self-play and the voice probe produce them.
pub mod Bar
pub mod Approval
pub mod Rounds
use autonomous_sales_agent.Prelude.{
  ℕ, String, Bool, true, false, not, ◌&&◌, ◌||◌, Option, none, some, List, [], ◌∷◌, ◌++◌,
  if◌then◌else◌, ltb,
}
use autonomous_sales_agent.Float.{Floating}
use autonomous_sales_agent.Generator.{Challenger}
use autonomous_sales_agent.Versions.{VersionLineage, Lineage, record_version}

-- The gate reads the rate and the flags.
pub record GuardrailReport (F : Type 0) : Type 0 where
  pub pushiness_rate : F
  pub pushiness_violation_turns : List ℕ
  pub false_promise_flags : ℕ
  pub escalation_appropriate : Bool
  pub pushiness_over_cap : Bool
  pub agent_turns : ℕ

-- The parts of `ComparisonResult` that the gate and the lineage read.
pub record ComparisonResult (F : Type 0) : Type 0 where
  pub challenger_better : Bool
  pub champion_kpi : F
  pub challenger_kpi : F
  pub delta : F
  pub delta_ci : F × F

pub record ExperimentResult (F : Type 0) : Type 0 where
  pub dimension : String
  pub comparison : ComparisonResult F
  pub champion_guardrails : GuardrailReport F
  pub challenger_guardrails : GuardrailReport F
  pub champion_qual_acc : F
  pub challenger_qual_acc : F

pub data Status : Type 0 where
  promoted rejected pending_approval paused : Status

-- One constructor for each text that the gate writes, with the values it shows.
pub data Reason (F : Type 0) : Type 0 where
  diverged : F → F → Reason F
  no_lift guardrail_regression : Reason F
  qualification_dropped : F → F → Reason F
  held_for_review auto_promoted no_challenger : Reason F

pub record PromotionDecision (F : Type 0) : Type 0 where
  pub status : Status
  pub promote : Bool
  pub requires_human : Bool
  pub reasons : List (Reason F)

-- The columns of `kpi` that `promote` stores.
pub record Kpi (F : Type 0) : Type 0 where
  pub dimension : String
  pub comparison : ComparisonResult F
  pub champion_qual_acc : F
  pub challenger_qual_acc : F

module _ {F : Type 0} ⦃fl : Floating F⦄ where
  unfoldable pub guardrails_regressed : GuardrailReport F → GuardrailReport F → Bool
  guardrails_regressed champion challenger =
      fl.lt champion.pushiness_rate challenger.pushiness_rate
      || ltb champion.false_promise_flags challenger.false_promise_flags

  -- `QUAL_TOLERANCE` and the test of the qualification accuracy
  unfoldable pub qual_ok : ExperimentResult F → Bool
  qual_ok e = fl.le (fl.sub e.champion_qual_acc (fl.milli 20)) e.challenger_qual_acc

  -- `DIVERGENCE_THRESHOLD` and the pause; a divergence that was not measured does not pause
  unfoldable pub diverges : Option F → Bool
  diverges none = false
  diverges (some divergence) = fl.lt (fl.milli 200) divergence

  -- the reasons of a failed bar, in the order of its criteria
  unfoldable pub failures : ExperimentResult F → List (Reason F)
  unfolding guardrails_regressed qual_ok
  failures e =
      (if e.comparison.challenger_better then [] else no_lift ∷ [])
      ++ (if guardrails_regressed e.champion_guardrails e.challenger_guardrails
          then guardrail_regression ∷ []
          else [])
      ++ (if qual_ok e
          then []
          else qualification_dropped e.champion_qual_acc e.challenger_qual_acc ∷ [])

  -- `passed`
  unfoldable pub passed : ExperimentResult F → Bool
  unfolding guardrails_regressed qual_ok
  passed e =
      e.comparison.challenger_better
      && not (guardrails_regressed e.champion_guardrails e.challenger_guardrails)
      && qual_ok e

  -- steps 2 to 5 of `evaluate_promotion`
  unfoldable pub judge : ExperimentResult F → Bool → PromotionDecision F
  unfolding passed failures
  judge e is_extreme =
      if not (passed e)
      then record {
        status = rejected;
        promote = false;
        requires_human = false;
        reasons = failures e;
      }
      else if is_extreme
      then record {
        status = pending_approval;
        promote = false;
        requires_human = true;
        reasons = held_for_review ∷ [];
      }
      else record {
        status = promoted;
        promote = true;
        requires_human = false;
        reasons = auto_promoted ∷ [];
      }

  -- `evaluate_promotion`
  unfoldable pub evaluate_promotion : ExperimentResult F → Bool → Option F → PromotionDecision F
  unfolding judge diverges
  evaluate_promotion e is_extreme none = judge e is_extreme
  evaluate_promotion e is_extreme (some divergence) =
      if diverges (some divergence)
      then record {
        status = paused;
        promote = false;
        requires_human = false;
        reasons = diverged divergence (fl.milli 200) ∷ [];
      }
      else judge e is_extreme

  -- the node that `promote` records; `saved` is whether the configuration could be written
  abbrev pub champion_node : Challenger F → ExperimentResult F → Bool → VersionLineage (Kpi F)
  champion_node ch e saved = record {
    version = ch.challenger_version;
    parent_version = some ch.parent_version;
    config_ref = if saved then some ch.challenger_version else none;
    kb_version = ch.config.kb_version;
    kpi = record {
      dimension = e.dimension;
      comparison = e.comparison;
      champion_qual_acc = e.champion_qual_acc;
      challenger_qual_acc = e.challenger_qual_acc;
    };
    is_champion = true;
  }

  unfoldable pub promote :
      Challenger F → ExperimentResult F → Bool → Lineage (Kpi F) → Lineage (Kpi F)
  unfolding record_version
  promote ch e saved rows = record_version (champion_node ch e saved) rows

  -- The end of `run_improvement_round`, from the generated challenger with its experiment on, if there
  -- is one: the decision, and the table after it. `divergence` is the caller's or the measured one.
  unfoldable pub run_improvement_round :
      Option (Challenger F × ExperimentResult F)
      → Option F
      → Bool
      → Bool
      → Lineage (Kpi F)
      → PromotionDecision F × Lineage (Kpi F)
  unfolding evaluate_promotion promote
  run_improvement_round none divergence persist saved rows = (
    record {
      status = rejected;
      promote = false;
      requires_human = false;
      reasons = no_challenger ∷ [];
    },
    rows,
  )
  run_improvement_round (some (ch, e)) divergence persist saved rows =
      let d = evaluate_promotion e ch.is_extreme divergence in
      (d, if d.promote && persist then promote ch e saved rows else rows)
