-- ===== src/Gates/Chain/Flag.antt =====
-- The escalation flag that the loop-breaker of src/core/gates.py may raise, and the reads of the belief.
use autonomous_sales_agent.Prelude.{◌≡◌, refl, List, arith, ◌⊎◌, inl, inr}
use autonomous_sales_agent.Float.{Floating}
use autonomous_sales_agent.Config.{AgentConfig}
use autonomous_sales_agent.Decision.{Decision}
use autonomous_sales_agent.Belief.{BeliefState, driver}
use autonomous_sales_agent.Gates.Reads.{
  HistoryTurn, escalation_reason, paid_close_is_blind, low_confidence_streak, is_locked,
  filled_discovery,
}
use autonomous_sales_agent.Gates.Pressure.{imminent}
use autonomous_sales_agent.Gates.LoopBreaker.{break_no_progress_loop, first_break}

module _ {F : Type 0} ⦃fl : Floating F⦄ where
  pub blind-imminent :
      (b : BeliefState F) (c : AgentConfig F)
      → paid_close_is_blind (imminent b) c ≡ paid_close_is_blind b c
  unfolding paid_close_is_blind filled_discovery is_locked driver
  blind-imminent b c = refl

  pub reason-imminent :
      (d : Decision F) (b : BeliefState F) (c : AgentConfig F) (h : List (HistoryTurn F))
      → escalation_reason d (imminent b) c h ≡ escalation_reason d b c h
  unfolding escalation_reason low_confidence_streak
  reason-imminent d b c h = refl

  pub break-belief :
      (d : Decision F) (b : BeliefState F) (c : AgentConfig F) (h : List (HistoryTurn F))
      → ((break_no_progress_loop d b c h).1 ≡ b) ⊎ ((break_no_progress_loop d b c h).1 ≡ imminent b)
  unfolding break_no_progress_loop first_break
  break-belief d b c h = ground arith

  pub break-blind :
      (d : Decision F) (b : BeliefState F) (c : AgentConfig F) (h : List (HistoryTurn F))
      → paid_close_is_blind (break_no_progress_loop d b c h).1 c ≡ paid_close_is_blind b c
  break-blind d b c h = elim (break-belief d b c h) [
    | inl e ↦ rw e
    | inr e ↦ rw e (blind-imminent b c)
  ]

  pub reason-break :
      (e d : Decision F) (b : BeliefState F) (c : AgentConfig F) (h : List (HistoryTurn F))
      → escalation_reason e (break_no_progress_loop d b c h).1 c h ≡ escalation_reason e b c h
  reason-break e d b c h = elim (break-belief d b c h) [
    | inl p ↦ rw p
    | inr p ↦ rw p (reason-imminent e b c h)
  ]
