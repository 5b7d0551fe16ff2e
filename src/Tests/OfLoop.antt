-- ===== src/Tests/OfLoop.antt =====
-- The theorems on the promotion gate, at sample rows and at a challenger of one threshold.
use autonomous_sales_agent.Prelude.{◌≡◌, true, false, some, [], ◌∷◌, inl, refl, List}
use autonomous_sales_agent.Float.{Millis, millis_floating}
use autonomous_sales_agent.Config.{AgentConfig}
use autonomous_sales_agent.Dict.{lookup}
use autonomous_sales_agent.Generator.{
  Challenger, threshold, build_challenger, declared_diff, diff_keys, is_extreme_dimension,
  challenger_version,
}
use autonomous_sales_agent.Generator.Pricing.{SamePricing}
use autonomous_sales_agent.Promotion.{
  ExperimentResult, GuardrailReport, evaluate_promotion, diverges, guardrails_regressed, qual_ok,
  judge, passed, run_improvement_round, promote, Kpi,
}
use autonomous_sales_agent.Promotion.Rounds.{
  ImprovementRound, after_rounds, IsPromoted, after_rounds-IsPromoted,
}
use autonomous_sales_agent.Versions.{record_version, demote_others}
use autonomous_sales_agent.Versions.Champion.{is_champion_in}
use autonomous_sales_agent.Dict.{insert}
use autonomous_sales_agent.Promotion.Approval.{run_improvement_round-SamePricing}
use autonomous_sales_agent.Tests.Samples.{level, config, texts}

abbrev calm : GuardrailReport Millis
calm = record {
  pushiness_rate = level 100;
  pushiness_violation_turns = 4 ∷ [];
  false_promise_flags = 0;
  escalation_appropriate = true;
  pushiness_over_cap = true;
  agent_turns = 10;
}

abbrev lift : ExperimentResult Millis
lift = record {
  dimension = "thresholds.pushiness_cap";
  comparison = record {
    challenger_better = true;
    champion_kpi = level 400;
    challenger_kpi = level 600;
    delta = level 200;
    delta_ci = (level 50, level 350);
  };
  champion_guardrails = calm;
  challenger_guardrails = calm;
  champion_qual_acc = level 900;
  challenger_qual_acc = level 890;
}

-- a champion with two thresholds, and the configuration that raises one of them
abbrev limited : AgentConfig Millis
limited = record config {
  thresholds = ("pushiness_cap", level 600) ∷ ("max_concession_band", level 100) ∷ [];
}

abbrev pushier : AgentConfig Millis
pushier = record limited {
  thresholds = ("pushiness_cap", level 700) ∷ ("max_concession_band", level 100) ∷ [];
}

abbrev pushier_challenger : Challenger Millis
pushier_challenger = record {
  config = record pushier { version = "v1" };
  dimension = threshold "pushiness_cap";
  parent_version = "v1";
  challenger_version = "v1";
  is_extreme = false;
}

pushier_built : build_challenger limited pushier "7" ≡ some pushier_challenger
unfolding build_challenger declared_diff diff_keys is_extreme_dimension challenger_version lookup
pushier_built = refl

pushier_promoted :
    (run_improvement_round
      (some (pushier_challenger, lift))
      (some (level 100))
      true
      false
      []).0.promote
    ≡ true
unfolding run_improvement_round evaluate_promotion judge passed diverges guardrails_regressed
    qual_ok
pushier_promoted = refl

run_improvement_round-SamePricing_example : SamePricing limited pushier
run_improvement_round-SamePricing_example =
    run_improvement_round-SamePricing limited pushier "7" pushier_challenger lift (some (level 100))
      true false [] (inl pushier_built) pushier_promoted

abbrev one_round : List (ImprovementRound Millis)
one_round =
    record {
      challenger = some (pushier_challenger, lift);
      divergence = some (level 100);
      persist = true;
      saved = true;
    }
    ∷ []

promotes_v1 : is_champion_in (after_rounds [] one_round) "v1" ≡ true
unfolding after_rounds run_improvement_round evaluate_promotion judge passed diverges
    guardrails_regressed qual_ok promote record_version demote_others insert lookup is_champion_in
promotes_v1 = refl

no_champion : is_champion_in {K = Kpi Millis} [] "v1" ≡ false
unfolding is_champion_in lookup
no_champion = refl

after_rounds-IsPromoted_example : IsPromoted "v1" one_round
after_rounds-IsPromoted_example = after_rounds-IsPromoted one_round [] "v1" no_champion promotes_v1
