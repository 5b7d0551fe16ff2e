-- ===== src/Promotion/Approval.antt =====
-- That the gate of src/loop/promotion.py promotes no challenger of src/loop/generator.py by itself that
-- concedes a price or changes the persona.
use autonomous_sales_agent.Prelude.{String, Bool, true, false, ◌≡◌, ◌⊎◌, Option, none, some}
use autonomous_sales_agent.Prelude.{arith}
use autonomous_sales_agent.Float.{Floating}
use autonomous_sales_agent.Config.{AgentConfig}
use autonomous_sales_agent.Knowledge.{Texts}
use autonomous_sales_agent.Versions.{Lineage}
use autonomous_sales_agent.Generator.{Challenger, build_challenger, build_multi_challenger}
use autonomous_sales_agent.Generator.Pricing.{SamePricing, build_challenger-SamePricing}
use autonomous_sales_agent.Promotion.{
  ExperimentResult, Kpi, judge, evaluate_promotion, run_improvement_round,
}

module _ {F : Type 0} ⦃fl : Floating F⦄ where
  -- what is promoted is not extreme
  evaluate_promotion-extreme :
      (e : ExperimentResult F) (is_extreme : Bool) (divergence : Option F)
      → (evaluate_promotion e is_extreme divergence).promote ≡ true
      → is_extreme ≡ false
  unfolding evaluate_promotion judge
  evaluate_promotion-extreme e true none h = ground arith
  evaluate_promotion-extreme e true (some d) h = ground arith
  evaluate_promotion-extreme e false d h = ground arith

  module _ ⦃texts : Texts⦄ where
    -- A challenger that is built from a champion, of one dimension or of many, and that a round promotes,
    -- has the champion's persona and pricing thresholds.
    pub run_improvement_round-SamePricing :
        (champion config : AgentConfig F) (seed : String) (ch : Challenger F)
        (e : ExperimentResult F) (divergence : Option F) (persist saved : Bool)
        (rows : Lineage (Kpi F))
        → (build_challenger champion config seed ≡ some ch)
          ⊎ (build_multi_challenger champion config seed ≡ some ch)
        → (run_improvement_round (some (ch, e)) divergence persist saved rows).0.promote ≡ true
        → SamePricing champion ch.config
    unfolding run_improvement_round
    run_improvement_round-SamePricing champion config seed ch e divergence persist saved rows b h =
        build_challenger-SamePricing champion config seed ch b
          (evaluate_promotion-extreme e ch.is_extreme divergence h)
