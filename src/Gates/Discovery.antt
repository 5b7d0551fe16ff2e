-- ===== src/Gates/Discovery.antt =====
-- The gates of src/core/gates.py on discovery: what may be asked, and what the prospect just said
-- that must be addressed first.
use autonomous_sales_agent.Prelude.{
  String, Bool, false, not, ◌&&◌, ◌||◌, Option, none, some, List, if◌then◌else◌, says, truthy,
  member,
}
use autonomous_sales_agent.Float.{Floating}
use autonomous_sales_agent.Config.{AgentConfig, threshold, Threshold}
use autonomous_sales_agent.Decision.{
  Act, Decision, Rationale, confirm_known, ask, answer_via_kb, pitch, handle_objection, is_ask,
  is_pitch, is_close, is_deferrable, is_discovery,
}
use autonomous_sales_agent.Belief.{BeliefState, driver}
use autonomous_sales_agent.Gates.Reads.{
  HistoryTurn, Patterns, is_locked, over_asked, asked_count, learner_known, learner_slots,
  prev_agent_act,
}
use autonomous_sales_agent.Gates.Recurrence.{recurring_question}

-- `decision.target_slot in slots`
abbrev pub targets : Option String → List String → Bool
targets none slots = false
targets (some s) slots = member s slots

-- `x if belief.open_question else y`
abbrev pub answer_or : {F : Type 0} → BeliefState F → Act → Act
answer_or b act = if truthy b.open_question then answer_via_kb else act

module _ {F : Type 0} ⦃fl : Floating F⦄ where
  -- The slot of a proposed `ask`, if it names one.
  abbrev pub asks_slot : Decision F → Option String
  asks_slot d = if is_ask d.act && truthy d.target_slot then d.target_slot else none

  unfoldable pub skip_known : Decision F → BeliefState F → Decision F
  skip_known d b = elim (asks_slot d) [
    | none ↦ d
    | some slot ↦
        if is_locked b slot
        then record d { act = confirm_known; rationale = Rationale.skip_known slot }
        else d
  ]

  -- `_redirect_after_dropped_ask`
  abbrev pub redirect_after_dropped_ask : Decision F → BeliefState F → Rationale F → Decision F
  redirect_after_dropped_ask d b reason = record d {
    act = answer_or b pitch;
    target_slot = none;
    tier = none;
    rationale = reason;
  }

  unfoldable pub no_repeat_discovery : Decision F → BeliefState F → AgentConfig F → Decision F
  no_repeat_discovery d b c = elim (asks_slot d) [
    | none ↦ d
    | some slot ↦
        if is_locked b slot
        then d
        else if member slot b.meta.declined_slots
        then redirect_after_dropped_ask d b (Rationale.slot_declined slot)
        else if over_asked b c slot
        then redirect_after_dropped_ask d b (Rationale.slot_over_asked slot (asked_count b slot))
        else d
  ]

  unfoldable pub establish_who_first : Decision F → BeliefState F → AgentConfig F → Decision F
  establish_who_first d b c =
      let learner_ask = is_ask d.act && targets d.target_slot learner_slots in
      let sell_after_denial = (is_pitch d.act || is_close d.act) && b.meta.learner_denied in
      if learner_known b || not (learner_ask || sell_after_denial) || over_asked b c "who_for"
      then d
      else if truthy b.open_question
      then record d {
        act = answer_via_kb;
        target_slot = none;
        rationale = Rationale.who_first_answer;
      }
      else record d {
        act = ask;
        target_slot = some "who_for";
        tier = none;
        rationale = Rationale.who_first_ask d.target_slot d.act;
      }

  module _ ⦃pt : Patterns⦄ where
    unfoldable pub address_direct_input :
        Decision F → BeliefState F → AgentConfig F → List (HistoryTurn F) → Decision F
    address_direct_input d b c history =
        let recurring_q = recurring_question b history in
        let direct_question =
          truthy b.open_question
          && (says b.last_user_act "question" || says b.last_user_act "price_inquiry") in
        let bail = driver b "bail_risk" in
        if recurring_q && is_close d.act
        then record d {
          act = answer_via_kb;
          tier = none;
          target_slot = none;
          rationale = Rationale.recurring_question_first;
        }
        else if not (is_deferrable d.act)
        then d
        else if truthy b.active_objection
        then record d {
          act = handle_objection;
          target_slot = none;
          tier = none;
          rationale = Rationale.objection_first b.active_objection;
        }
        else if says b.last_user_act "confirm_request"
        then record d {
          act = confirm_known;
          tier = none;
          target_slot = if is_locked b "callback_window" then some "callback_window" else none;
          rationale = Rationale.confirm_echo;
        }
        else if direct_question
        then (if is_pitch d.act && says (prev_agent_act history) "answer_via_kb" && not recurring_q
            then d
            else record d {
              act = answer_via_kb;
              tier = none;
              rationale = Rationale.question_first;
            })
        else if is_discovery d.act && fl.le (threshold c Threshold.pushiness_cap) bail
        then record d {
          act = pitch;
          target_slot = none;
          tier = none;
          rationale = Rationale.impatient bail;
        }
        else d
