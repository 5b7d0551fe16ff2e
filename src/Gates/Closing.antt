-- ===== src/Gates/Closing.antt =====
-- The gates of src/core/gates.py on closing: taking the initiative, the floor under a paid close,
-- and the free rung for a caller who cannot pay.
use autonomous_sales_agent.Prelude.{
  Bool, false, not, ◌&&◌, ◌||◌, none, some, List, if◌then◌else◌, says, truthy, leb,
}
use autonomous_sales_agent.Float.{Floating}
use autonomous_sales_agent.Config.{
  AgentConfig, threshold_count, min_turns_before_close, budget_refusals_before_callback,
}
use autonomous_sales_agent.Decision.{
  Decision, Rationale, callback, attempt_close, pitch, is_close, is_escalate, is_advanceable,
  is_callback, is_low_rung,
}
use autonomous_sales_agent.Belief.{BeliefState, driver}
use autonomous_sales_agent.Gates.Reads.{HistoryTurn, Patterns, closeable_tier, paid_close_is_blind}
use autonomous_sales_agent.Gates.Recurrence.{recurring_question}
use autonomous_sales_agent.Gates.Discovery.{answer_or}

module _ {F : Type 0} ⦃fl : Floating F⦄ where
  module _ ⦃pt : Patterns⦄ where
    -- the early returns of `advance_to_close`
    unfoldable pub may_advance :
        Decision F → BeliefState F → AgentConfig F → List (HistoryTurn F) → Bool
    may_advance d b c history =
        leb (threshold_count c min_turns_before_close) b.turn_count
        && not (says b.last_user_act "social_aside")
        && not (recurring_question b history)
        && is_advanceable d.act
        && not (truthy b.active_objection)

    unfoldable pub advance_to_close :
        Decision F → BeliefState F → AgentConfig F → List (HistoryTurn F) → Decision F
    advance_to_close d b c history =
        if may_advance d b c history
        then elim (closeable_tier b c false) [
          | none ↦ d
          | some tier ↦ record d {
            act = attempt_close;
            tier = some tier;
            target_slot = none;
            rationale =
                Rationale.advance tier (driver b "trust") (driver b "purchase_intent") b.turn_count;
          }
        ]
        else d

  unfoldable pub close_floor : Decision F → BeliefState F → AgentConfig F → Decision F
  close_floor d b c =
      if is_close d.act && not (is_callback d.tier) && paid_close_is_blind b c
      then record d {
        act = answer_or b pitch;
        tier = none;
        target_slot = none;
        rationale = Rationale.closing_blind d.tier;
      }
      else d

  unfoldable pub budget_refused : BeliefState F → AgentConfig F → Bool
  budget_refused b c =
      leb (threshold_count c budget_refusals_before_callback) b.meta.affordability_refusal_count

  unfoldable pub offer_low_commitment_on_budget :
      Decision F → BeliefState F → AgentConfig F → Decision F
  offer_low_commitment_on_budget d b c =
      if is_escalate d.act || is_close d.act && is_low_rung d.tier || not (budget_refused b c)
      then d
      else record d {
        act = attempt_close;
        tier = some callback;
        target_slot = none;
        concession = none;
        rationale = Rationale.budget_callback b.meta.affordability_refusal_count;
      }
