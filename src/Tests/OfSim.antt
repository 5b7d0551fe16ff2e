-- ===== src/Tests/OfSim.antt =====
-- The theorems on self-play, at a sample prospect and a sample episode.
use autonomous_sales_agent.Prelude.{
  ◌+◌, ◌*◌, ◌≤◌, ◌≡◌, refl, true, false, none, some, [], ◌∷◌, ◌⊎◌, says, or_else, length,
}
use autonomous_sales_agent.Float.{Millis, millis_floating}
use autonomous_sales_agent.Dict.{lookup}
use autonomous_sales_agent.Decision.{consultation, trial}
use autonomous_sales_agent.Belief.{clamp01}
use autonomous_sales_agent.Respond.{Input}
use autonomous_sales_agent.Prospect.{
  Persona, ProspectState, ProspectTurn, SimAnswer, replied, malformed, parse_soft, tier_thresholds,
  tier_rank, ceiling_rank, offered, acceptance, classify_objection_theme, mentions_disqualifier,
  feeling, set_feeling, measure, clamp_delta, initial, meets, within_ceiling, buy_gate, apply_delta,
  apply_deltas, conviction_target, couple_conviction, apply_soft_deltas, deplete_patience, is_spent,
  walk_away, settle, hear, signals, note_talk, converse, reply_turn, begin_turn, react,
}
use autonomous_sales_agent.Prospect.Commits.{react-commits}
use autonomous_sales_agent.SelfPlay.{Setup, finished, Episode, run_episode}
use autonomous_sales_agent.SelfPlay.Episodes.{Verdict, last_turns, run_episode-Verdict}
use autonomous_sales_agent.SelfPlay.Finishes.{run_episode-finishes}
use autonomous_sales_agent.Tests.Samples.{level, config, cues, patterns, texts}

abbrev parent : Persona Millis
parent = record {
  archetype = "anxious_parent";
  utility = ("budget", level 700) ∷ ("trust", level 600) ∷ ("need", level 800) ∷ [];
  qualified = true;
  disqualifier = none;
  max_commitment = "trial";
}

-- a prospect that the call has warmed
abbrev warmed : ProspectState Millis
warmed = record {
  trust = level 600;
  need = level 800;
  urgency = level 500;
  purchase_intent = level 500;
  patience = level 400;
  budget = level 700;
  turns_elapsed = 6;
  walked = false;
  committed_tier = none;
  objections_raised = [];
  disqualifier_exchanges = 0;
}

abbrev convinced : SimAnswer Millis
convinced = replied (record {
  utterance = "that sounds right";
  deltas = some (("purchase_intent", some (level 300)) ∷ ("budget", some (level 900)) ∷ []);
  disqualifier_signaled = false;
})

abbrev won : ProspectState Millis
won = record warmed {
  purchase_intent = level 640;
  patience = level 370;
  turns_elapsed = 7;
  committed_tier = some trial;
}

abbrev acceptance_turn : ProspectTurn Millis
acceptance_turn = record {
  text = "Alright, I'll try a trial session.";
  committed_tier = some trial;
  walked = false;
  disqualifier_signaled = false;
  state_snapshot = won;
}

react_runs :
    react parent warmed (some "attempt_close") (some trial) convinced ≡ some (acceptance_turn, won)
unfolding parse_soft tier_thresholds tier_rank ceiling_rank offered acceptance
    classify_objection_theme mentions_disqualifier feeling set_feeling measure clamp_delta meets
    within_ceiling buy_gate apply_delta apply_deltas conviction_target couple_conviction
    apply_soft_deltas deplete_patience is_spent walk_away settle hear signals note_talk converse
    reply_turn begin_turn react clamp01 lookup
react_runs = refl

react-commits_example :
    (says (some "attempt_close") "attempt_close" ≡ true)
    × (or_else (some trial) consultation ≡ trial)
    × (within_ceiling parent trial ≡ true)
    × (meets won (tier_thresholds trial) ≡ true)
react-commits_example =
    react-commits parent warmed (some "attempt_close") (some trial) convinced acceptance_turn won
      trial react_runs refl

abbrev silent : Input Millis
silent = record {
  utterance = "go on";
  extracted = λ asked. [];
  reply = none;
  upstream_act = none;
  proposal = none;
  facts = [];
}

-- a prospect that talks without moving, and an agent that always finds words
abbrev two_rounds : Setup Millis
two_rounds = record {
  persona = parent;
  config = config;
  cohort = "training";
  max_turns = 2;
  world = record {
    answer = λ n. malformed;
    garble = λ n s. s;
    input = λ n s. record silent { utterance = s };
    facts = λ n b s. [];
    realize = λ n mode d b own. some "we tutor algebra";
  };
}

abbrev two_rounds_run :
    (ep : Episode Millis) × (run_episode two_rounds ≡ finished ep)
    × (1 ≤ ep.turn_count)
    × ((ep.turn_count ≡ 1) ⊎ (ep.turn_count ≤ 2))
two_rounds_run = run_episode-finishes two_rounds (λ n. refl) (λ n d b own. refl)

run_episode-finishes_example :
    (ep : Episode Millis) × (run_episode two_rounds ≡ finished ep)
    × (1 ≤ ep.turn_count)
    × ((ep.turn_count ≡ 1) ⊎ (ep.turn_count ≤ 2))
run_episode-finishes_example = run_episode-finishes two_rounds (λ n. refl) (λ n d b own. refl)

run_episode-Verdict_example :
    Verdict parent two_rounds_run.0.prospect two_rounds_run.0.ending
    × (two_rounds_run.0.prospect.budget ≡ (initial parent).budget)
    × (length two_rounds_run.0.turns + 1
        ≡ 2 * two_rounds_run.0.turn_count + last_turns two_rounds_run.0.ending)
run_episode-Verdict_example = run_episode-Verdict two_rounds two_rounds_run.0 two_rounds_run.1
