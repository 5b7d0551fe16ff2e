-- ===== src/Gates/Chain/Concessions.antt =====
-- The concession that leaves `apply_gates` (src/core/gates.py).
use autonomous_sales_agent.Prelude.{◌≡◌, true, false, none, some, List, arith, ◌⊎◌, inr}
use autonomous_sales_agent.Float.{Floating}
use autonomous_sales_agent.Config.{AgentConfig}
use autonomous_sales_agent.Decision.{Decision, escalate}
use autonomous_sales_agent.Belief.{BeliefState}
use autonomous_sales_agent.Gates.Reads.{
  HistoryTurn, Patterns, escalation_reason, price_context_live, beyond_band,
}
use autonomous_sales_agent.Gates.Pressure.{de_escalate}
use autonomous_sales_agent.Gates.Closing.{offer_low_commitment_on_budget}
use autonomous_sales_agent.Gates.Escalation.{
  escalation_triggers, no_authority_prefers_callback, escalate_only_if_warranted,
}
use autonomous_sales_agent.Gates.LoopBreaker.{break_no_progress_loop, first_break}
use autonomous_sales_agent.Gates.Chain.{
  back_gates, gate_chain, after_triggers, apply_gates, ground_concession,
}
use autonomous_sales_agent.Gates.Chain.Carries.{front_gates-Carries}

-- No concession, or the one of `d`.
abbrev Offers : {F : Type 0} → Decision F → Decision F → Type 0
Offers d d' = (d'.concession ≡ none) ⊎ (d'.concession ≡ d.concession)

module _ {F : Type 0} ⦃fl : Floating F⦄ (c : AgentConfig F) (h : List (HistoryTurn F)) where
  break-Offers :
      (d0 d : Decision F) (b : BeliefState F)
      → Offers d0 d
      → Offers d0 (break_no_progress_loop d b c h).0
  unfolding break_no_progress_loop first_break
  break-Offers d0 d b o = ground arith

  module _ ⦃pt : Patterns⦄ where
    back-Offers :
        (d0 d : Decision F) (b : BeliefState F) → Offers d0 d → Offers d0 (back_gates d b c h).0
    unfolding back_gates no_authority_prefers_callback escalate_only_if_warranted
        offer_low_commitment_on_budget escalation_triggers
    back-Offers d0 d b o = ground arith

    chain-Offers : (d : Decision F) (b : BeliefState F) → Offers d (gate_chain d b c h).0
    unfolding gate_chain
    chain-Offers d b =
        back-Offers d _ _ (break-Offers d _ b (inr (front_gates-Carries c h b d).concession))

    after-Offers : (d : Decision F) (b : BeliefState F) → Offers d (after_triggers d b c h).0
    unfolding after_triggers de_escalate
    after-Offers d b = ground (arith, chain-Offers d b)

    -- A concession that leaves the gates was proposed, stands in live price talk, and unless the
    -- decision is an escalate lies within the allowed band.
    pub apply_gates-concession :
        (d : Decision F) (b : BeliefState F) (x : F)
        → (apply_gates d b c h).0.concession ≡ some x
        → (d.concession ≡ some x)
          × (price_context_live b ≡ true)
          × (((apply_gates d b c h).0.act ≡ escalate) ⊎ (beyond_band (some x) c ≡ false))
    unfolding apply_gates ground_concession escalation_reason escalation_triggers
    apply_gates-concession d b x e = ground (arith, after-Offers (ground_concession d b) b)
