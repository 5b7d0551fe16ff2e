-- ===== src/Gates/Escalation.antt =====
-- The gates of src/core/gates.py on escalation: the final triggers, and the redirects of an escalate
-- that nothing warrants.
use autonomous_sales_agent.Prelude.{not, ◌&&◌, none, some, List, if◌then◌else◌, is_some}
use autonomous_sales_agent.Float.{Floating}
use autonomous_sales_agent.Config.{AgentConfig}
use autonomous_sales_agent.Decision.{
  Decision, Rationale, callback, attempt_close, pitch, escalate, is_escalate,
}
use autonomous_sales_agent.Belief.{BeliefState}
use autonomous_sales_agent.Gates.Reads.{HistoryTurn, Patterns, escalation_reason, is_no_authority}
use autonomous_sales_agent.Gates.Discovery.{answer_or}
use autonomous_sales_agent.Gates.Pressure.{imminent}

module _ {F : Type 0} ⦃fl : Floating F⦄ where
  unfoldable pub escalation_triggers :
      Decision F → BeliefState F → AgentConfig F → List (HistoryTurn F) → Decision F × BeliefState F
  escalation_triggers d b c history = elim (escalation_reason d b c history) [
    | none ↦ (d, b)
    | some reason ↦ (
      record d { act = escalate; tier = none; rationale = Rationale.escalation reason },
      imminent b,
    )
  ]

  module _ ⦃pt : Patterns⦄ where
    unfoldable pub no_authority_prefers_callback :
        Decision F → BeliefState F → AgentConfig F → List (HistoryTurn F) → Decision F
    no_authority_prefers_callback d b c history =
        if is_escalate d.act && is_no_authority b && not (is_some (escalation_reason d b c history))
        then record d {
          act = attempt_close;
          tier = some callback;
          target_slot = none;
          concession = none;
          rationale = Rationale.no_authority_callback;
        }
        else d

    unfoldable pub escalate_only_if_warranted :
        Decision F → BeliefState F → AgentConfig F → List (HistoryTurn F) → Decision F
    escalate_only_if_warranted d b c history =
        if is_escalate d.act
          && not d.meta.loop_terminal
          && not (is_some (escalation_reason d b c history))
        then (if is_no_authority b
            then record d {
              act = attempt_close;
              target_slot = none;
              tier = some callback;
              concession = none;
              rationale = Rationale.triggerless_callback;
            }
            else record d {
              act = answer_or b pitch;
              target_slot = none;
              tier = none;
              concession = none;
              rationale = Rationale.triggerless_selling;
            })
        else d
