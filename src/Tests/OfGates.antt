-- ===== src/Tests/OfGates.antt =====
-- The theorems on the gates (src/core/gates.py), at sample beliefs.
use autonomous_sales_agent.Prelude.{
  ◌≡◌, refl, true, false, none, some, [], ◌∷◌, ◌⊎◌, is_some, String, member,
}
use autonomous_sales_agent.Float.{Millis, millis_floating}
use autonomous_sales_agent.Decision.{
  Decision, attempt_close, callback, trial, escalate, ask, answer_via_kb, pitch, handle_objection,
}
use autonomous_sales_agent.Belief.{BeliefState, slot_confidence, driver}
use autonomous_sales_agent.Dict.{lookup, insert}
use autonomous_sales_agent.Config.{threshold, required_discovery_slots}
use autonomous_sales_agent.Gates.Reads.{
  escalation_reason, paid_close_is_blind, price_context_live, beyond_band, is_locked, over_asked,
  hostile_or_extreme_bail, closeable_tier, low_confidence_streak, filled_discovery, asked_count,
  learner_known, third_party_read, is_no_authority, consecutive_pressure_count, prev_agent_act,
}
use autonomous_sales_agent.Gates.Recurrence.{recurring_question}
use autonomous_sales_agent.Gates.Discovery.{
  skip_known, no_repeat_discovery, establish_who_first, address_direct_input,
}
use autonomous_sales_agent.Gates.Pressure.{
  pushiness_cap, de_escalate, must_clear_objection, price_gate, price_gate_open, pressure_capped,
  pressure_signal,
}
use autonomous_sales_agent.Gates.Closing.{
  advance_to_close, close_floor, offer_low_commitment_on_budget, may_advance, budget_refused,
}
use autonomous_sales_agent.Gates.Escalation.{
  escalation_triggers, no_authority_prefers_callback, escalate_only_if_warranted,
}
use autonomous_sales_agent.Gates.LoopBreaker.{
  break_no_progress_loop, first_break, stalled_reactive_run, made_progress_since_prior, commit_tier,
  locked_slot_count,
}
use autonomous_sales_agent.Gates.Chain.{
  front_gates, back_gates, gate_chain, after_triggers, apply_gates, ground_concession,
}
use autonomous_sales_agent.Gates.Chain.Closes.{apply_gates-not-blind}
use autonomous_sales_agent.Gates.Chain.Objections.{apply_gates_over_objection}
use autonomous_sales_agent.Gates.Chain.Escalates.{apply_gates_warranted}
use autonomous_sales_agent.Gates.Chain.Asks.{apply_gates-asks}
use autonomous_sales_agent.Gates.Chain.PriceTalk.{apply_gates-opens_price, presses_price}
use autonomous_sales_agent.Gates.Chain.Pressing.{apply_gates_capped}
use autonomous_sales_agent.Gates.Chain.Stalls.{apply_gates_stalled}
use autonomous_sales_agent.Gates.Chain.Concessions.{apply_gates-concession}
use autonomous_sales_agent.Tests.Samples.{level, config, at_levels, proposes, patterns}

-- warm enough for a trial
abbrev warm : BeliefState Millis
warm = at_levels 800 800 200

abbrev trial_close : Decision Millis
trial_close = record (proposes attempt_close) { tier = some trial }

apply_gates-not-blind_example :
    ((apply_gates trial_close warm config []).0.tier ≡ some callback)
    ⊎ (paid_close_is_blind warm config ≡ false)
unfolding apply_gates after_triggers gate_chain front_gates back_gates ground_concession skip_known
    no_repeat_discovery establish_who_first address_direct_input must_clear_objection price_gate
    price_gate_open advance_to_close may_advance close_floor pushiness_cap pressure_capped
    pressure_signal break_no_progress_loop first_break commit_tier stalled_reactive_run
    made_progress_since_prior locked_slot_count no_authority_prefers_callback
    escalate_only_if_warranted offer_low_commitment_on_budget budget_refused escalation_triggers
    de_escalate hostile_or_extreme_bail escalation_reason beyond_band low_confidence_streak
    price_context_live filled_discovery paid_close_is_blind closeable_tier asked_count over_asked
    learner_known third_party_read is_no_authority is_locked slot_confidence driver threshold
    required_discovery_slots lookup insert recurring_question consecutive_pressure_count
    prev_agent_act
apply_gates-not-blind_example = apply_gates-not-blind config [] trial_close warm refl

-- two firm refusals, and a price objection open
abbrev refusing : BeliefState Millis
refusing = record warm {
  active_objection = some "price";
  meta = record warm.meta { affordability_refusal_count = 2 };
}

apply_gates_over_objection_example :
    ((apply_gates (proposes handle_objection) refusing config []).0.tier ≡ some callback)
    ⊎ ((apply_gates (proposes handle_objection) refusing config []).0.meta.loop_break ≡ true)
unfolding apply_gates after_triggers gate_chain front_gates back_gates ground_concession skip_known
    no_repeat_discovery establish_who_first address_direct_input must_clear_objection price_gate
    price_gate_open advance_to_close may_advance close_floor pushiness_cap pressure_capped
    pressure_signal break_no_progress_loop first_break commit_tier stalled_reactive_run
    made_progress_since_prior locked_slot_count no_authority_prefers_callback
    escalate_only_if_warranted offer_low_commitment_on_budget budget_refused escalation_triggers
    de_escalate hostile_or_extreme_bail escalation_reason beyond_band low_confidence_streak
    price_context_live filled_discovery paid_close_is_blind closeable_tier asked_count over_asked
    learner_known third_party_read is_no_authority is_locked slot_confidence driver threshold
    required_discovery_slots lookup insert recurring_question consecutive_pressure_count
    prev_agent_act
apply_gates_over_objection_example =
    apply_gates_over_objection config [] (proposes handle_objection) refusing refl refl

abbrev asks_for_human : BeliefState Millis
asks_for_human = record warm { last_user_act = some "human_request" }

apply_gates_warranted_example :
    ((apply_gates trial_close asks_for_human config []).1.escalation_imminent ≡ true)
    × ((is_some (
            escalation_reason
              (ground_concession trial_close asks_for_human)
              asks_for_human
              config
              [])
          ≡ true)
        ⊎ (is_some (hostile_or_extreme_bail asks_for_human config) ≡ true)
        ⊎ ((apply_gates trial_close asks_for_human config []).0.meta.loop_terminal ≡ true))
unfolding apply_gates after_triggers gate_chain front_gates back_gates ground_concession skip_known
    no_repeat_discovery establish_who_first address_direct_input must_clear_objection price_gate
    price_gate_open advance_to_close may_advance close_floor pushiness_cap pressure_capped
    pressure_signal break_no_progress_loop first_break commit_tier stalled_reactive_run
    made_progress_since_prior locked_slot_count no_authority_prefers_callback
    escalate_only_if_warranted offer_low_commitment_on_budget budget_refused escalation_triggers
    de_escalate hostile_or_extreme_bail escalation_reason beyond_band low_confidence_streak
    price_context_live filled_discovery paid_close_is_blind closeable_tier asked_count over_asked
    learner_known third_party_read is_no_authority is_locked slot_confidence driver threshold
    required_discovery_slots lookup insert recurring_question consecutive_pressure_count
    prev_agent_act
apply_gates_warranted_example = apply_gates_warranted config [] trial_close asks_for_human refl refl

-- too cool to close
abbrev cool : BeliefState Millis
cool = at_levels 550 400 200

abbrev subject : String
subject = "subject"

abbrev asks_subject : Decision Millis
asks_subject = record (proposes ask) { target_slot = some "subject" }

apply_gates-asks_example :
    (subject ≡ "who_for")
    ⊎ ((is_locked cool "subject" ≡ false)
        × (member "subject" cool.meta.declined_slots ≡ false)
        × (over_asked cool config "subject" ≡ false))
unfolding apply_gates after_triggers gate_chain front_gates back_gates ground_concession skip_known
    no_repeat_discovery establish_who_first address_direct_input must_clear_objection price_gate
    price_gate_open advance_to_close may_advance close_floor pushiness_cap pressure_capped
    pressure_signal break_no_progress_loop first_break commit_tier stalled_reactive_run
    made_progress_since_prior locked_slot_count no_authority_prefers_callback
    escalate_only_if_warranted offer_low_commitment_on_budget budget_refused escalation_triggers
    de_escalate hostile_or_extreme_bail escalation_reason beyond_band low_confidence_streak
    price_context_live filled_discovery paid_close_is_blind closeable_tier asked_count over_asked
    learner_known third_party_read is_no_authority is_locked slot_confidence driver threshold
    required_discovery_slots lookup insert recurring_question consecutive_pressure_count
    prev_agent_act
apply_gates-asks_example =
    apply_gates-asks config [] asks_subject cool "subject" refl refl (λ e. cc e)

abbrev asks_budget : Decision Millis
asks_budget = record (proposes ask) { target_slot = some "budget" }

apply_gates-opens_price_example :
    (price_gate_open cool config ≡ true) ⊎ (presses_price asks_budget ≡ true)
unfolding apply_gates after_triggers gate_chain front_gates back_gates ground_concession skip_known
    no_repeat_discovery establish_who_first address_direct_input must_clear_objection price_gate
    price_gate_open advance_to_close may_advance close_floor pushiness_cap pressure_capped
    pressure_signal break_no_progress_loop first_break commit_tier stalled_reactive_run
    made_progress_since_prior locked_slot_count no_authority_prefers_callback
    escalate_only_if_warranted offer_low_commitment_on_budget budget_refused escalation_triggers
    de_escalate hostile_or_extreme_bail escalation_reason beyond_band low_confidence_streak
    price_context_live filled_discovery paid_close_is_blind closeable_tier asked_count over_asked
    learner_known third_party_read is_no_authority is_locked slot_confidence driver threshold
    required_discovery_slots lookup insert recurring_question consecutive_pressure_count
    prev_agent_act
apply_gates-opens_price_example = apply_gates-opens_price config [] asks_budget cool refl

-- the same refusals, by a caller about to leave
abbrev leaving : BeliefState Millis
leaving = record (at_levels 800 800 850) {
  meta = record warm.meta { affordability_refusal_count = 2 };
}

apply_gates_capped_example :
    (pitch ≡ escalate)
    ⊎ ((apply_gates (proposes pitch) leaving config []).0.tier ≡ some callback)
    ⊎ ((apply_gates (proposes pitch) leaving config []).0.meta.loop_break ≡ true)
unfolding apply_gates after_triggers gate_chain front_gates back_gates ground_concession skip_known
    no_repeat_discovery establish_who_first address_direct_input must_clear_objection price_gate
    price_gate_open advance_to_close may_advance close_floor pushiness_cap pressure_capped
    pressure_signal break_no_progress_loop first_break commit_tier stalled_reactive_run
    made_progress_since_prior locked_slot_count no_authority_prefers_callback
    escalate_only_if_warranted offer_low_commitment_on_budget budget_refused escalation_triggers
    de_escalate hostile_or_extreme_bail escalation_reason beyond_band low_confidence_streak
    price_context_live filled_discovery paid_close_is_blind closeable_tier asked_count over_asked
    learner_known third_party_read is_no_authority is_locked slot_confidence driver threshold
    required_discovery_slots lookup insert recurring_question consecutive_pressure_count
    prev_agent_act
apply_gates_capped_example = apply_gates_capped config [] (proposes pitch) leaving refl refl

-- three questions in a row, and nothing learned
abbrev stuck : BeliefState Millis
stuck = record cool {
  meta = record cool.meta {
    recent_acts = ask ∷ ask ∷ ask ∷ [];
    progress_snapshot =
        some (record { locked_slots = 0; active_objection = none; purchase_intent = level 400 });
  };
}

apply_gates_stalled_example :
    (ask ≡ escalate) ⊎ ((apply_gates asks_subject stuck config []).0.meta.loop_break ≡ true)
unfolding apply_gates after_triggers gate_chain front_gates back_gates ground_concession skip_known
    no_repeat_discovery establish_who_first address_direct_input must_clear_objection price_gate
    price_gate_open advance_to_close may_advance close_floor pushiness_cap pressure_capped
    pressure_signal break_no_progress_loop first_break commit_tier stalled_reactive_run
    made_progress_since_prior locked_slot_count no_authority_prefers_callback
    escalate_only_if_warranted offer_low_commitment_on_budget budget_refused escalation_triggers
    de_escalate hostile_or_extreme_bail escalation_reason beyond_band low_confidence_streak
    price_context_live filled_discovery paid_close_is_blind closeable_tier asked_count over_asked
    learner_known third_party_read is_no_authority is_locked slot_confidence driver threshold
    required_discovery_slots lookup insert recurring_question consecutive_pressure_count
    prev_agent_act
apply_gates_stalled_example = apply_gates_stalled config [] asks_subject stuck refl refl refl

abbrev offers_tenth : Decision Millis
offers_tenth = record (proposes answer_via_kb) { concession = some (level 100) }

abbrev asks_price : BeliefState Millis
asks_price = record cool { last_user_act = some "price_inquiry" }

apply_gates-concession_example :
    (offers_tenth.concession ≡ some (level 100))
    × (price_context_live asks_price ≡ true)
    × (((apply_gates offers_tenth asks_price config []).0.act ≡ escalate)
        ⊎ (beyond_band (some (level 100)) config ≡ false))
unfolding apply_gates after_triggers gate_chain front_gates back_gates ground_concession skip_known
    no_repeat_discovery establish_who_first address_direct_input must_clear_objection price_gate
    price_gate_open advance_to_close may_advance close_floor pushiness_cap pressure_capped
    pressure_signal break_no_progress_loop first_break commit_tier stalled_reactive_run
    made_progress_since_prior locked_slot_count no_authority_prefers_callback
    escalate_only_if_warranted offer_low_commitment_on_budget budget_refused escalation_triggers
    de_escalate hostile_or_extreme_bail escalation_reason beyond_band low_confidence_streak
    price_context_live filled_discovery paid_close_is_blind closeable_tier asked_count over_asked
    learner_known third_party_read is_no_authority is_locked slot_confidence driver threshold
    required_discovery_slots lookup insert recurring_question consecutive_pressure_count
    prev_agent_act
apply_gates-concession_example =
    apply_gates-concession config [] offers_tenth asks_price (level 100) refl
