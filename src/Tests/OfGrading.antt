-- ===== src/Tests/OfGrading.antt =====
-- The theorem on the reports of two arms, at a champion that has invented a figure.
use autonomous_sales_agent.Prelude.{
  String, ◌≤◌, ◌≡◌, refl, true, false, none, some, List, [], ◌∷◌, count,
}
use autonomous_sales_agent.Float.{Millis, millis_floating}
use autonomous_sales_agent.Session.{CapturedTurn}
use autonomous_sales_agent.SelfPlay.{Episode, released_ending}
use autonomous_sales_agent.Knowledge.{Fact, plain, grounded}
use autonomous_sales_agent.Promotion.{ExperimentResult, passed}
use autonomous_sales_agent.Grading.{
  worst_case_guardrails, worst_case, join_all, guardrail_report, pushiness_violations, is_pushy,
  episode_groundedness, check_turns, turn_asserts_fact,
}
use autonomous_sales_agent.Grading.Arms.{turns_of, is_unbacked, passed-unbacked}
use autonomous_sales_agent.Tests.Samples.{level, texts}

abbrev pub pitched : String → CapturedTurn Millis
pitched text = record {
  turn_id = 1;
  speaker = "agent";
  text = text;
  decision = some "pitch";
  rationale = none;
  belief = none;
  kb_version = none;
  retrieved = none;
}

abbrev released : String → Episode Millis
released text = record {
  turns = pitched text ∷ [];
  ending = released_ending;
  qualified = true;
  disqualifier_reason = none;
  version = "v1";
  kb_version = "kb1";
  archetype = "anxious_parent";
  cohort = "train";
  turn_count = 1;
  prospect = record {
    trust = level 500;
    need = level 500;
    urgency = level 500;
    purchase_intent = level 500;
    patience = level 500;
    budget = level 500;
    turns_elapsed = 1;
    walked = false;
    committed_tier = none;
    objections_raised = [];
    disqualifier_exchanges = 0;
  };
}

abbrev notes : List (Fact Millis)
notes = plain "weekly plan" ∷ []

abbrev bold : List (Episode Millis)
bold = released "up by 300 points" ∷ []

abbrev sober : List (Episode Millis)
sober = released "weekly plan" ∷ []

abbrev measured : ExperimentResult Millis
measured = record {
  dimension = "prompts.system";
  comparison = record {
    challenger_better = true;
    champion_kpi = level 400;
    challenger_kpi = level 600;
    delta = level 200;
    delta_ci = (level 50, level 350);
  };
  champion_guardrails = worst_case_guardrails (some notes) bold;
  challenger_guardrails = worst_case_guardrails (some notes) sober;
  champion_qual_acc = level 900;
  challenger_qual_acc = level 890;
}

measured_passes : passed measured ≡ true
unfolding passed worst_case_guardrails worst_case join_all guardrail_report pushiness_violations
    is_pushy episode_groundedness check_turns turn_asserts_fact grounded
measured_passes = refl

passed-unbacked_example :
    count (is_unbacked notes) (turns_of sober) ≤ count (is_unbacked notes) (turns_of bold)
passed-unbacked_example = passed-unbacked notes measured bold sober refl refl measured_passes
