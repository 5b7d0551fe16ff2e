-- ===== src/Gates/Chain/Stalls.antt =====
-- `apply_gates` (src/core/gates.py) on a stalled call.
use autonomous_sales_agent.Prelude.{◌≡◌, Bool, true, false, List, arith, ◌⊎◌}
use autonomous_sales_agent.Float.{Floating}
use autonomous_sales_agent.Config.{AgentConfig}
use autonomous_sales_agent.Decision.{Decision, is_escalate, is_reactive, escalate}
use autonomous_sales_agent.Belief.{BeliefState}
use autonomous_sales_agent.Gates.Reads.{HistoryTurn, Patterns}
use autonomous_sales_agent.Gates.Closing.{offer_low_commitment_on_budget}
use autonomous_sales_agent.Gates.Escalation.{
  escalation_triggers, no_authority_prefers_callback, escalate_only_if_warranted,
}
use autonomous_sales_agent.Gates.LoopBreaker.{
  break_no_progress_loop, first_break, stalled_reactive_run, made_progress_since_prior,
}
use autonomous_sales_agent.Gates.Chain.{
  back_gates, gate_chain, after_triggers, apply_gates, ground_concession,
}
use autonomous_sales_agent.Gates.Chain.Pressing.{front-escalate}

-- A reactive act is the loop-breaker's, or an escalate was proposed (`x`).
abbrev Broken : {F : Type 0} → Bool → Decision F → Type 0
Broken x d =
    (is_reactive d.act ≡ true → (x ≡ true) ⊎ (d.meta.loop_break ≡ true))
    × (is_escalate d.act ≡ true → (x ≡ true) ⊎ (d.meta.loop_terminal ≡ true))

module _ {F : Type 0} ⦃fl : Floating F⦄ (c : AgentConfig F) (h : List (HistoryTurn F)) where
  break-Broken :
      (d : Decision F) (b : BeliefState F) (x : Bool)
      → stalled_reactive_run b ≡ true
      → made_progress_since_prior b ≡ false
      → (is_escalate d.act ≡ true → x ≡ true)
      → Broken x (break_no_progress_loop d b c h).0
  unfolding break_no_progress_loop first_break
  break-Broken d b x s p f = ground arith

  module _ ⦃pt : Patterns⦄ where
    back-Broken :
        (d : Decision F) (b : BeliefState F) (x : Bool)
        → Broken x d
        → is_reactive (back_gates d b c h).0.act ≡ true
        → (x ≡ true) ⊎ ((back_gates d b c h).0.meta.loop_break ≡ true)
    unfolding back_gates no_authority_prefers_callback escalate_only_if_warranted
        offer_low_commitment_on_budget escalation_triggers
    back-Broken d b x ok e = ground arith

    chain-Broken :
        (d : Decision F) (b : BeliefState F)
        → stalled_reactive_run b ≡ true
        → made_progress_since_prior b ≡ false
        → is_reactive (gate_chain d b c h).0.act ≡ true
        → (is_escalate d.act ≡ true) ⊎ ((gate_chain d b c h).0.meta.loop_break ≡ true)
    unfolding gate_chain
    chain-Broken d b s p =
        back-Broken _ _ (is_escalate d.act)
          (break-Broken _ b (is_escalate d.act) s p (front-escalate c h d b))

    after-Broken :
        (d : Decision F) (b : BeliefState F)
        → stalled_reactive_run b ≡ true
        → made_progress_since_prior b ≡ false
        → is_reactive (after_triggers d b c h).0.act ≡ true
        → (is_escalate d.act ≡ true) ⊎ ((after_triggers d b c h).0.meta.loop_break ≡ true)
    unfolding after_triggers
    after-Broken d b s p e = ground (arith, chain-Broken d b s p)

    -- After three reactive acts with no progress the gated decision is not one more reactive act,
    -- unless it is the marked bottom line of the loop-breaker or stands in place of a proposed
    -- escalate.
    pub apply_gates_stalled :
        (d : Decision F) (b : BeliefState F)
        → stalled_reactive_run b ≡ true
        → made_progress_since_prior b ≡ false
        → is_reactive (apply_gates d b c h).0.act ≡ true
        → (d.act ≡ escalate) ⊎ ((apply_gates d b c h).0.meta.loop_break ≡ true)
    unfolding apply_gates escalation_triggers ground_concession
    apply_gates_stalled d b s p e = ground (arith, after-Broken (ground_concession d b) b s p)
