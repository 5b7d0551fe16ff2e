-- ===== src/Gates/Pressure.antt =====
-- The gates of src/core/gates.py on pressure: de-escalation, open objections, price talk and the
-- pushiness cap.
use autonomous_sales_agent.Prelude.{
  Bool, true, false, not, ◌&&◌, ◌||◌, none, some, List, if◌then◌else◌, says, truthy, leb, ltb,
  or_else,
}
use autonomous_sales_agent.Float.{Floating}
use autonomous_sales_agent.Config.{
  AgentConfig, threshold, threshold_count, price_slots, Threshold, pushiness_pressure_count_cap,
  trust_gate_open_price, discovery_slots_required,
}
use autonomous_sales_agent.Decision.{
  Act, Decision, Rationale, confirm_known, pitch, handle_objection, escalate, ask, answer_via_kb,
  is_close, is_pressure, is_deescalate_blocked,
}
use autonomous_sales_agent.Belief.{BeliefState, driver}
use autonomous_sales_agent.Gates.Reads.{
  HistoryTurn, Patterns, hostile_or_extreme_bail, consecutive_pressure_count, filled_discovery,
}
use autonomous_sales_agent.Gates.Discovery.{targets, answer_or}

-- `belief.escalation_imminent = True`
abbrev pub imminent : {F : Type 0} → BeliefState F → BeliefState F
imminent b = record b { escalation_imminent = true }

-- the acts that ask, answer or confirm
abbrev pub is_slot_talk : Act → Bool
is_slot_talk ask = true
is_slot_talk answer_via_kb = true
is_slot_talk confirm_known = true
is_slot_talk _ = false

-- `_opens_price`
abbrev pub opens_price : {F : Type 0} → Decision F → Bool
opens_price d = is_slot_talk d.act && targets d.target_slot price_slots

module _ {F : Type 0} ⦃fl : Floating F⦄ where
  unfoldable pub de_escalate :
      Decision F → BeliefState F → AgentConfig F → Decision F × BeliefState F
  de_escalate d b c = elim (hostile_or_extreme_bail b c) [
    | none ↦ (d, b)
    | some reason ↦
        if is_deescalate_blocked d.act
        then (
          record d {
            act = escalate;
            target_slot = none;
            tier = none;
            concession = none;
            rationale = Rationale.de_escalate reason;
          },
          imminent b,
        )
        else (d, b)
  ]

  unfoldable pub must_clear_objection : Decision F → BeliefState F → Decision F
  must_clear_objection d b =
      if is_close d.act && truthy b.active_objection
      then record d {
        act = handle_objection;
        tier = none;
        rationale = Rationale.objection_open b.active_objection;
      }
      else d

  module _ ⦃pt : Patterns⦄ where
    -- `_price_gate_open`
    unfoldable pub price_gate_open : BeliefState F → AgentConfig F → Bool
    price_gate_open b c =
        let need = threshold_count c discovery_slots_required in
        says b.last_user_act "price_inquiry"
        || truthy b.open_question && pt.mentions_price (or_else b.open_question "")
        || fl.le (threshold c trust_gate_open_price) (driver b "trust")
        || ltb 0 need && leb need (filled_discovery b c)

    unfoldable pub price_gate : Decision F → BeliefState F → AgentConfig F → Decision F
    price_gate d b c =
        if opens_price d && not (price_gate_open b c)
        then record d {
          act = pitch;
          target_slot = none;
          tier = none;
          rationale = Rationale.price_not_yet;
        }
        else d

  unfoldable pub pressure_signal : BeliefState F → AgentConfig F → Bool
  pressure_signal b c = fl.le (threshold c Threshold.pushiness_cap) (driver b "bail_risk")

  unfoldable pub pressure_capped : BeliefState F → AgentConfig F → List (HistoryTurn F) → Bool
  pressure_capped b c history =
      pressure_signal b c
      || leb (threshold_count c pushiness_pressure_count_cap) (consecutive_pressure_count history)

  unfoldable pub pushiness_cap :
      Decision F → BeliefState F → AgentConfig F → List (HistoryTurn F) → Decision F
  pushiness_cap d b c history =
      if is_pressure d.act && pressure_capped b c history
      then record d {
        act = answer_or b confirm_known;
        tier = none;
        rationale =
            if pressure_signal b c then Rationale.pressure_signal else Rationale.pressure_repeated;
      }
      else d
