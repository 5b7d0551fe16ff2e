-- ===== src/Gates/Chain.antt =====
-- `apply_gates` of src/core/gates.py: every gate in priority order.
pub mod Flag
pub mod Carries
pub mod Closes
pub mod Objections
pub mod Escalates
pub mod Asks
pub mod PriceTalk
pub mod Pressing
pub mod Stalls
pub mod Bypasses
pub mod Concessions
pub mod Beliefs
pub mod Tiers
use autonomous_sales_agent.Prelude.{
  Bool, true, false, not, ◌&&◌, Option, none, some, List, if◌then◌else◌, is_some,
}
use autonomous_sales_agent.Float.{Floating}
use autonomous_sales_agent.Config.{AgentConfig}
use autonomous_sales_agent.Decision.{Decision, is_escalate}
use autonomous_sales_agent.Belief.{BeliefState}
use autonomous_sales_agent.Gates.Reads.{
  HistoryTurn, Patterns, escalation_reason, hostile_or_extreme_bail, price_context_live,
}
use autonomous_sales_agent.Gates.Discovery.{
  skip_known, no_repeat_discovery, establish_who_first, address_direct_input,
}
use autonomous_sales_agent.Gates.Pressure.{
  de_escalate, must_clear_objection, price_gate, pushiness_cap, imminent,
}
use autonomous_sales_agent.Gates.Closing.{
  advance_to_close, close_floor, offer_low_commitment_on_budget,
}
use autonomous_sales_agent.Gates.Escalation.{
  escalation_triggers, no_authority_prefers_callback, escalate_only_if_warranted,
}
use autonomous_sales_agent.Gates.LoopBreaker.{break_no_progress_loop}

module _ {F : Type 0} ⦃fl : Floating F⦄ where
  -- A concession outside price talk is dropped before any gate reads it.
  unfoldable pub ground_concession : Decision F → BeliefState F → Decision F
  ground_concession d b =
      if is_some d.concession && not (price_context_live b)
      then record d { concession = none }
      else d

  module _ ⦃pt : Patterns⦄ where
    -- the gates up to the pushiness cap, which leave the belief alone
    unfoldable pub front_gates :
        Decision F → BeliefState F → AgentConfig F → List (HistoryTurn F) → Decision F
    front_gates d0 b c history =
        let d1 = skip_known d0 b in
        let d2 = no_repeat_discovery d1 b c in
        let d3 = establish_who_first d2 b c in
        let d4 = address_direct_input d3 b c history in
        let d5 = must_clear_objection d4 b in
        let d6 = price_gate d5 b c in
        let d7 = advance_to_close d6 b c history in
        let d8 = close_floor d7 b c in pushiness_cap d8 b c history

    -- the redirects after the loop-breaker, and the closing escalation check
    unfoldable pub back_gates :
        Decision F
        → BeliefState F
        → AgentConfig F
        → List (HistoryTurn F)
        → Decision F × BeliefState F
    back_gates d0 b c history =
        let d1 = no_authority_prefers_callback d0 b c history in
        let d2 = escalate_only_if_warranted d1 b c history in
        let d3 = offer_low_commitment_on_budget d2 b c in escalation_triggers d3 b c history

    unfoldable pub gate_chain :
        Decision F
        → BeliefState F
        → AgentConfig F
        → List (HistoryTurn F)
        → Decision F × BeliefState F
    gate_chain d b c history =
        let (d', b') = break_no_progress_loop (front_gates d b c history) b c history in
        back_gates d' b' c history

    -- after the first escalation check
    unfoldable pub after_triggers :
        Decision F
        → BeliefState F
        → AgentConfig F
        → List (HistoryTurn F)
        → Decision F × BeliefState F
    after_triggers d b c history =
        let (d', b') = de_escalate d b c in
        if is_some (hostile_or_extreme_bail b c) && is_escalate d'.act
        then (d', imminent b')
        else gate_chain d b c history

    unfoldable pub apply_gates :
        Decision F
        → BeliefState F
        → AgentConfig F
        → List (HistoryTurn F)
        → Decision F × BeliefState F
    apply_gates proposed b c history =
        let d = ground_concession proposed b in
        if is_some (escalation_reason d b c history)
        then escalation_triggers d b c history
        else after_triggers d b c history
