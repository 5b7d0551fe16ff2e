-- ===== src/Gates/Chain/Beliefs.antt =====
-- What the gates of src/core/gates.py write to the belief.
use autonomous_sales_agent.Prelude.{◌≡◌, List, arith, ◌⊎◌}
use autonomous_sales_agent.Float.{Floating}
use autonomous_sales_agent.Config.{AgentConfig}
use autonomous_sales_agent.Decision.{Decision}
use autonomous_sales_agent.Belief.{BeliefState}
use autonomous_sales_agent.Gates.Reads.{HistoryTurn, Patterns}
use autonomous_sales_agent.Gates.Pressure.{imminent, de_escalate}
use autonomous_sales_agent.Gates.Escalation.{escalation_triggers}
use autonomous_sales_agent.Gates.Chain.{
  front_gates, back_gates, gate_chain, after_triggers, apply_gates, ground_concession,
}
use autonomous_sales_agent.Gates.Chain.Flag.{break-belief}

-- A belief is another one, or that one with the flag raised.
abbrev pub Flagged : {F : Type 0} → BeliefState F → BeliefState F → Type 0
Flagged b e = (e ≡ b) ⊎ (e ≡ imminent b)

module _ {F : Type 0} ⦃fl : Floating F⦄ (c : AgentConfig F) (h : List (HistoryTurn F))
    (b : BeliefState F) where
  trigger-Flagged :
      (d : Decision F) (e : BeliefState F) → Flagged b e → Flagged b (escalation_triggers d e c h).1
  unfolding escalation_triggers
  trigger-Flagged d e f = ground arith

  module _ ⦃pt : Patterns⦄ where
    chain-Flagged : (d : Decision F) → Flagged b (gate_chain d b c h).1
    unfolding gate_chain back_gates
    chain-Flagged d = trigger-Flagged _ _ (break-belief (front_gates d b c h) b c h)

    after-Flagged : (d : Decision F) → Flagged b (after_triggers d b c h).1
    unfolding after_triggers de_escalate
    after-Flagged d = ground (arith, chain-Flagged d)

    -- The gates leave the belief as it is, or raise `escalation_imminent` in it and change no more.
    pub apply_gates-Flagged : (d : Decision F) → Flagged b (apply_gates d b c h).1
    unfolding apply_gates escalation_triggers
    apply_gates-Flagged d = ground (arith, after-Flagged (ground_concession d b))
