-- ===== src/Tests/OfReplies.antt =====
-- The theorems on the reply of a turn, at sample turns.
use autonomous_sales_agent.Prelude.{String, ◌≡◌, refl, true, none, some, List, [], ◌∷◌, ◌⊎◌}
use autonomous_sales_agent.Float.{Millis, millis_floating}
use autonomous_sales_agent.Decision.{Decision}
use autonomous_sales_agent.Belief.{
  BeliefState, clamp01, slot_confidence, driver, apply_driver_delta,
}
use autonomous_sales_agent.Config.{
  threshold_name, default_threshold, threshold, required_discovery_slots,
}
use autonomous_sales_agent.Dict.{lookup, insert}
use autonomous_sales_agent.Gates.Chain.{
  ground_concession, front_gates, back_gates, gate_chain, after_triggers, apply_gates,
}
use autonomous_sales_agent.Gates.Closing.{
  may_advance, advance_to_close, close_floor, budget_refused, offer_low_commitment_on_budget,
}
use autonomous_sales_agent.Gates.Discovery.{
  skip_known, no_repeat_discovery, establish_who_first, address_direct_input,
}
use autonomous_sales_agent.Gates.Escalation.{
  escalation_triggers, no_authority_prefers_callback, escalate_only_if_warranted,
}
use autonomous_sales_agent.Gates.LoopBreaker.{
  stalled_reactive_run, record_recent_act, locked_slot_count, progress_snapshot,
  made_progress_since_prior, commit_tier, first_break, break_no_progress_loop,
}
use autonomous_sales_agent.Gates.Pressure.{
  de_escalate, must_clear_objection, price_gate_open, price_gate, pressure_signal, pressure_capped,
  pushiness_cap,
}
use autonomous_sales_agent.Gates.Reads.{
  prev_agent_act, consecutive_pressure_count, is_locked, hostile_or_extreme_bail,
  low_confidence_streak, beyond_band, escalation_reason, price_context_live, filled_discovery,
  paid_close_is_blind, closeable_tier, asked_count, over_asked, learner_known, third_party_read,
  is_no_authority,
}
use autonomous_sales_agent.Gates.Recurrence.{
  content_words, has_prior_price_inquiry, question_recurs, recurring_question,
}
use autonomous_sales_agent.Policy.{
  Proposal, numeric, null, parse_act, parse_tier, as_float, parse_proposal, decide,
}
use autonomous_sales_agent.Respond.{
  Input, last_agent_act, note_question, record_asked_slot, record_confidence, latch, stamp_facts,
  keep_books, decide_turn,
}
use autonomous_sales_agent.Tracker.Intent.{
  normalize_punct, objection_of, classify_intent, ground_objection, ground_human_request,
  override_aside, override_memory, override_confirm, override_guarantee, ground_labels,
  ground_intent, read_intent,
}
use autonomous_sales_agent.Tracker.Slots.{
  merge_existing, merge_slot, extract_slots, update_drivers, derive_trends, derive_stage,
}
use autonomous_sales_agent.Tracker.Update.{
  non_blank, clipped, valid_objection, move_drivers, count_refusal, flag_callback, reply_intent,
  intent_of, flag_hostility, track_learner, flag_disclosure, decline_pending, track_decline,
  flag_contact, read_turn, keep_books as keep_tracker_books, update,
}
use autonomous_sales_agent.Knowledge.{
  Fact, plain, grounded, number_backed, term_backed, support_numbers, support_stems, support_text,
  terms_of, supported_ratio, normalize_number, stem, term_supported, is_claim,
}
use autonomous_sales_agent.Replies.{
  first_try, Realize, Spoken, safeguard, respond, respond_stream, ground_blocking_reply,
  derepetition_blocking_reply, say_anew, own_last_lines, near_verbatim_repetition, accepted,
  after_wording, regenerate, stream_outcome, is_claim_act, stream_stamp, is_fabrication,
  unsupported_promise, content_words_nlg, shared_words, fallback_stamp,
}
use autonomous_sales_agent.Replies.Safeguards.{is_honest, keeps}
use autonomous_sales_agent.Replies.Turns.{
  decided, is_flagged, respond-is_honest, respond-respond_stream,
}
use autonomous_sales_agent.Tests.Samples.{level, config, at_levels, cues, patterns, texts}

abbrev cool : BeliefState Millis
cool = at_levels 500 300 200

abbrev pitches : Proposal Millis
pitches = record {
  act = some "pitch";
  target_slot = none;
  tier = none;
  rationale = none;
  confidence = numeric (level 900);
  concession = null;
}

abbrev curious : Input Millis
curious = record {
  utterance = "tell me more";
  extracted = λ asked. [];
  reply = none;
  upstream_act = none;
  proposal = some pitches;
  facts = [];
}

abbrev facts : List (Fact Millis)
facts = plain "we tutor algebra" ∷ []

-- first a figure that the facts do not have, then a plain line
abbrev boasts : Realize Millis
boasts first_try d b own = some "up by 300 points"
boasts _ d b own = some "we tutor algebra"

abbrev honest : Spoken Millis
honest =
    let d = decided config cool [] curious facts boasts in
    safeguard d.0 d.1 boasts facts (own_last_lines {F = Millis} []) "up by 300 points"

honest_runs :
    (is_claim_act honest.decision.act ≡ true)
    × (keeps honest.repetition ≡ true)
    × (respond cool [] curious config boasts facts ≡ some honest)
    × (honest.reply ≡ "we tutor algebra")
unfolding clamp01 slot_confidence driver apply_driver_delta threshold_name default_threshold
    threshold required_discovery_slots lookup insert ground_concession front_gates back_gates
    gate_chain after_triggers apply_gates may_advance advance_to_close close_floor budget_refused
    offer_low_commitment_on_budget skip_known no_repeat_discovery establish_who_first
    address_direct_input escalation_triggers no_authority_prefers_callback
    escalate_only_if_warranted stalled_reactive_run record_recent_act locked_slot_count
    progress_snapshot made_progress_since_prior commit_tier first_break break_no_progress_loop
    de_escalate must_clear_objection price_gate_open price_gate pressure_signal pressure_capped
    pushiness_cap prev_agent_act consecutive_pressure_count is_locked hostile_or_extreme_bail
    low_confidence_streak beyond_band escalation_reason price_context_live filled_discovery
    paid_close_is_blind closeable_tier asked_count over_asked learner_known third_party_read
    is_no_authority content_words has_prior_price_inquiry question_recurs recurring_question
    parse_act parse_tier as_float parse_proposal decide last_agent_act note_question
    record_asked_slot record_confidence latch stamp_facts keep_books decide_turn normalize_punct
    objection_of classify_intent ground_objection ground_human_request override_aside
    override_memory override_confirm override_guarantee ground_labels ground_intent read_intent
    merge_existing merge_slot extract_slots update_drivers derive_trends derive_stage non_blank
    clipped valid_objection move_drivers count_refusal flag_callback reply_intent intent_of
    flag_hostility track_learner flag_disclosure decline_pending track_decline flag_contact
    read_turn keep_tracker_books update own_last_lines safeguard respond after_wording
    ground_blocking_reply derepetition_blocking_reply say_anew near_verbatim_repetition accepted
    regenerate stream_outcome stream_stamp grounded is_fabrication unsupported_promise number_backed
    term_backed support_numbers support_stems support_text terms_of supported_ratio normalize_number
    stem term_supported content_words_nlg shared_words is_claim is_honest fallback_stamp
honest_runs = (refl, refl, refl, refl)

respond-is_honest_example : is_honest facts honest.reply ≡ true
respond-is_honest_example =
    respond-is_honest config cool [] curious facts boasts honest honest_runs.2 honest_runs.0
      honest_runs.1

abbrev streams : Decision Millis → BeliefState Millis → List String → List String
streams d b own = "up by 300 points" ∷ []

respond-respond_stream_example :
    let streamed = (respond_stream cool [] curious config streams facts).1 in
    (streamed.decision ≡ honest.decision)
    × (streamed.belief ≡ honest.belief)
    × ((streamed.reply ≡ honest.reply) ⊎ (is_flagged streamed ≡ true))
respond-respond_stream_example =
    respond-respond_stream config cool [] curious facts boasts streams honest refl honest_runs.2
