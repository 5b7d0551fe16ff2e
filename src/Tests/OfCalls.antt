-- ===== src/Tests/OfCalls.antt =====
-- The theorems on the policy, the turn, the consent gate and the voice session, at sample calls.
use autonomous_sales_agent.Prelude.{◌≡◌, refl, true, false, none, some, List, [], ◌∷◌, ◌⊎◌, is_some}
use autonomous_sales_agent.Float.{Millis, millis_floating}
use autonomous_sales_agent.Dict.{lookup, insert}
use autonomous_sales_agent.Decision.{Decision, callback, ask, escalate}
use autonomous_sales_agent.Belief.{BeliefState, slot_confidence, driver}
use autonomous_sales_agent.Config.{threshold, required_discovery_slots}
use autonomous_sales_agent.Gates.Reads.{
  HistoryTurn, escalation_reason, paid_close_is_blind, price_context_live, beyond_band, is_locked,
  over_asked, hostile_or_extreme_bail, closeable_tier, low_confidence_streak, filled_discovery,
  asked_count, learner_known, third_party_read, is_no_authority, consecutive_pressure_count,
  prev_agent_act,
}
use autonomous_sales_agent.Gates.Recurrence.{recurring_question}
use autonomous_sales_agent.Gates.Discovery.{
  skip_known, no_repeat_discovery, establish_who_first, address_direct_input,
}
use autonomous_sales_agent.Gates.Pressure.{
  pushiness_cap, de_escalate, must_clear_objection, price_gate, price_gate_open, pressure_capped,
  pressure_signal,
}
use autonomous_sales_agent.Gates.Closing.{
  advance_to_close, close_floor, offer_low_commitment_on_budget, may_advance, budget_refused,
}
use autonomous_sales_agent.Gates.Escalation.{
  escalation_triggers, no_authority_prefers_callback, escalate_only_if_warranted,
}
use autonomous_sales_agent.Gates.LoopBreaker.{
  break_no_progress_loop, first_break, stalled_reactive_run, made_progress_since_prior, commit_tier,
  locked_slot_count,
}
use autonomous_sales_agent.Gates.Chain.{
  front_gates, back_gates, gate_chain, after_triggers, apply_gates, ground_concession,
}
use autonomous_sales_agent.Policy.{
  Proposal, numeric, null, decide, parse_act, parse_tier, parse_proposal, as_float,
}
use autonomous_sales_agent.Policy.Replies.{decide-close}
use autonomous_sales_agent.Respond.{Input, decide_turn}
use autonomous_sales_agent.Respond.Requests.{decide_turn-request}
use autonomous_sales_agent.Tracker.Intent.{read_intent, classify_intent, normalize_punct}
use autonomous_sales_agent.Tracker.Update.{intent_of}
use autonomous_sales_agent.Respond.Calls.{Advances, play, play-Advances}
use autonomous_sales_agent.Consent
use autonomous_sales_agent.Session.Commits
use autonomous_sales_agent.Consent.{
  acknowledge_ai, grant_recording, refuse_recording, flag_minor, ConsentGate, Event, new_gate,
  proceed_unrecorded, end_call, grants, refuses, minor, parent_grants, acknowledges, hangs_up,
  can_record, can_converse, is_ended,
}
use autonomous_sales_agent.Consent.Recording.{run-can_record, last_answer}
use autonomous_sales_agent.Consent.Minors.{run-minor}
use autonomous_sales_agent.Session.{Session, PendingTurn, commit_turn}
use autonomous_sales_agent.Session.Commits.{
  OnlyBuffers, SameCommitted, heard, discarded, barged_in, committed, commit_turn-dropped,
}
use autonomous_sales_agent.Session.Transcript.{
  IsRecorded, Committed, commit_turn-Committed, run-IsRecorded,
}
use autonomous_sales_agent.Tests.Samples.{
  level, config, at_levels, proposes, cues, patterns, retrieve_cues, redactors,
}

abbrev warm : BeliefState Millis
warm = at_levels 800 800 200

abbrev closes : Proposal Millis
closes = record {
  act = some "attempt_close";
  target_slot = none;
  tier = some "enrollment";
  rationale = none;
  confidence = numeric (level 900);
  concession = null;
}

decide-close_example :
    (is_some (decide warm [] config (some closes)).0.tier ≡ true)
    × (((decide warm [] config (some closes)).0.tier ≡ some callback)
        ⊎ (paid_close_is_blind warm config ≡ false))
unfolding decide parse_proposal parse_act parse_tier as_float apply_gates after_triggers gate_chain
    front_gates back_gates ground_concession skip_known no_repeat_discovery establish_who_first
    address_direct_input must_clear_objection price_gate price_gate_open advance_to_close
    may_advance close_floor pushiness_cap pressure_capped pressure_signal break_no_progress_loop
    first_break commit_tier stalled_reactive_run made_progress_since_prior locked_slot_count
    no_authority_prefers_callback escalate_only_if_warranted offer_low_commitment_on_budget
    budget_refused escalation_triggers de_escalate hostile_or_extreme_bail escalation_reason
    beyond_band low_confidence_streak price_context_live filled_discovery paid_close_is_blind
    closeable_tier asked_count over_asked learner_known third_party_read is_no_authority is_locked
    slot_confidence driver threshold required_discovery_slots lookup insert recurring_question
    consecutive_pressure_count prev_agent_act
decide-close_example = decide-close warm [] config (some closes) refl

abbrev asks_goal : Decision Millis
asks_goal = record (proposes ask) { target_slot = some "goal" }

abbrev says_no : Input Millis
says_no = record {
  utterance = "we cannot afford it";
  extracted = λ asked. [];
  reply = none;
  upstream_act = none;
  proposal = some closes;
  facts = [];
}

abbrev two_turns : List (List (HistoryTurn Millis) × Input Millis)
two_turns = ([], says_no) ∷ ([], says_no) ∷ []

play-Advances_example : Advances 2 warm (play config warm two_turns)
play-Advances_example = play-Advances config warm two_turns

-- the model's label fails, and the keywords find the request
abbrev wants_human : Input Millis
wants_human = record says_no { utterance = "can I talk to someone" }

heard_request : (intent_of wants_human.utterance wants_human.reply).user_act ≡ some "human_request"
unfolding intent_of read_intent classify_intent normalize_punct
heard_request = refl

decide_turn-request_example :
    let out = decide_turn warm [] wants_human config in
    (out.0.act ≡ escalate) × (out.0.tier ≡ none) × (out.1.escalation_imminent ≡ true)
decide_turn-request_example = decide_turn-request warm [] wants_human config heard_request

abbrev answers : List Event
answers = acknowledges ∷ refuses ∷ grants ∷ []

run-can_record_example : last_answer false answers ≡ true
unfolding Consent.run Consent.step can_record acknowledge_ai grant_recording refuse_recording
run-can_record_example = run-can_record "ca" proceed_unrecorded answers refl

abbrev disclosed : ConsentGate
disclosed = new_gate "ca" proceed_unrecorded

run-minor_example :
    (can_converse (Consent.run (flag_minor disclosed) (grants ∷ acknowledges ∷ [])) ≡ false)
    × (can_record (Consent.run (flag_minor disclosed) (grants ∷ acknowledges ∷ [])) ≡ false)
run-minor_example = run-minor disclosed (grants ∷ acknowledges ∷ []) (λ e. cc e, (λ e. cc e, tt))

abbrev strict : ConsentGate
strict = new_gate "ca" end_call

-- a session with one turn buffered
abbrev reply : PendingTurn Millis
reply = record {
  user_text = "a@b.co";
  decision = asks_goal;
  reply_text = "and your goal";
  new_belief = warm;
}

abbrev session : Session Millis
session = record {
  belief = warm;
  kb_version = "kb1";
  history = [];
  turns = [];
  pending = ("s1", reply) ∷ [];
  last_interrupted = none;
  speech_to_turn = [];
  turn_to_speech = [];
  next_turn_id = 0;
  consent_gate = some strict;
}

commit_turn-Committed_example : Committed session "s1" reply (commit_turn session "s1")
unfolding lookup
commit_turn-Committed_example = commit_turn-Committed session "s1" reply (tt, refl, tt) refl

run-IsRecorded_example : IsRecorded (Commits.run config none session (committed "s1" ∷ []))
run-IsRecorded_example = run-IsRecorded config none session (committed "s1" ∷ []) (tt, refl, tt)
