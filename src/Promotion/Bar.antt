-- ===== src/Promotion/Bar.antt =====
-- The bar of src/loop/promotion.py: what a promotion takes, and what a round does to the champion.
use autonomous_sales_agent.Prelude.{
  String, Bool, true, false, ◌&&◌, Option, some, [], if◌then◌else◌, ◌≡◌, ◌≢◌, refl, arith, ◌==◌,
}
use autonomous_sales_agent.Float.{Floating}
use autonomous_sales_agent.Generator.{Challenger}
use autonomous_sales_agent.Versions.{Lineage}
use autonomous_sales_agent.Versions.Champion.{is_champion_in, record_version-champion}
use autonomous_sales_agent.Promotion.{
  ExperimentResult, Kpi, evaluate_promotion, judge, passed, failures, promote, champion_node,
  run_improvement_round,
}

module _ {F : Type 0} ⦃fl : Floating F⦄ where
  -- The list of reasons of a decision is never empty, that of a rejection included.
  pub evaluate_promotion-reasons :
      (e : ExperimentResult F) (is_extreme : Bool) (divergence : Option F)
      → (evaluate_promotion e is_extreme divergence).reasons ≢ []
  unfolding evaluate_promotion judge passed failures
  evaluate_promotion-reasons e is_extreme divergence = ground arith

  promote-champion :
      (ch : Challenger F) (e : ExperimentResult F) (saved : Bool) (rows : Lineage (Kpi F))
      (w : String)
      → is_champion_in (promote ch e saved rows) w ≡ (ch.challenger_version == w)
  unfolding promote
  promote-champion ch e saved rows w = record_version-champion (champion_node ch e saved) rows w

  -- After a round with a challenger, the champions of the table are the challenger alone if the gate
  -- promotes it and promotions are persisted, and else those of before.
  pub run_improvement_round-champion :
      (ch : Challenger F) (e : ExperimentResult F) (divergence : Option F) (persist saved : Bool)
      (rows : Lineage (Kpi F)) (w : String)
      → let after = run_improvement_round (some (ch, e)) divergence persist saved rows in
        is_champion_in after.1 w ≡ (
          if (evaluate_promotion e ch.is_extreme divergence).promote && persist
          then ch.challenger_version == w
          else is_champion_in rows w)
  unfolding run_improvement_round
  run_improvement_round-champion ch e divergence persist saved rows w =
      elim ((evaluate_promotion e ch.is_extreme divergence).promote && persist)
        as (λ x.
          is_champion_in (if x then promote ch e saved rows else rows) w
          ≡ (if x then ch.challenger_version == w else is_champion_in rows w)) [
            | true ↦ promote-champion ch e saved rows w
            | false ↦ refl
          ]
