-- ===== src/Gates/Chain/Closes.antt =====
-- Which closes the chain lets through.
use autonomous_sales_agent.Prelude.{◌≡◌, Bool, true, false, some, List, arith, ◌⊎◌}
use autonomous_sales_agent.Float.{Floating}
use autonomous_sales_agent.Config.{AgentConfig}
use autonomous_sales_agent.Decision.{Decision, is_close, is_callback, attempt_close, callback}
use autonomous_sales_agent.Belief.{BeliefState}
use autonomous_sales_agent.Gates.Reads.{HistoryTurn, Patterns, paid_close_is_blind}
use autonomous_sales_agent.Gates.Pressure.{pushiness_cap}
use autonomous_sales_agent.Gates.Closing.{close_floor, offer_low_commitment_on_budget}
use autonomous_sales_agent.Gates.Escalation.{
  escalation_triggers, no_authority_prefers_callback, escalate_only_if_warranted,
}
use autonomous_sales_agent.Gates.LoopBreaker.{break_no_progress_loop, first_break}
use autonomous_sales_agent.Gates.Chain.{
  front_gates, back_gates, gate_chain, after_triggers, apply_gates, ground_concession,
}

-- A close is free, or is not blind (`blind` is the floor's test).
abbrev pub Earned : {F : Type 0} → Bool → Decision F → Type 0
Earned blind d = is_close d.act ≡ true → (is_callback d.tier ≡ true) ⊎ (blind ≡ false)

module _ {F : Type 0} ⦃fl : Floating F⦄ (c : AgentConfig F) (h : List (HistoryTurn F)) where
  close_floor-Earned :
      (d : Decision F) (b : BeliefState F) → Earned (paid_close_is_blind b c) (close_floor d b c)
  unfolding close_floor
  close_floor-Earned d b = ground arith

  pushiness_cap-Earned :
      (d : Decision F) (b : BeliefState F) (x : Bool)
      → Earned x d
      → Earned x (pushiness_cap d b c h)
  unfolding pushiness_cap
  pushiness_cap-Earned d b x e = ground arith

  break-Earned :
      (d : Decision F) (b : BeliefState F)
      → Earned (paid_close_is_blind b c) d
      → Earned (paid_close_is_blind b c) (break_no_progress_loop d b c h).0
  unfolding break_no_progress_loop first_break
  break-Earned d b e = ground arith

  module _ ⦃pt : Patterns⦄ where
    back-Earned :
        (d : Decision F) (b : BeliefState F) (x : Bool)
        → Earned x d
        → Earned x (back_gates d b c h).0
    unfolding back_gates no_authority_prefers_callback escalate_only_if_warranted
        offer_low_commitment_on_budget escalation_triggers
    back-Earned d b x e = ground arith

    front-Earned :
        (d : Decision F) (b : BeliefState F)
        → Earned (paid_close_is_blind b c) (front_gates d b c h)
    unfolding front_gates
    front-Earned d b = pushiness_cap-Earned _ b (paid_close_is_blind b c) (close_floor-Earned _ b)

    chain-Earned :
        (d : Decision F) (b : BeliefState F)
        → Earned (paid_close_is_blind b c) (gate_chain d b c h).0
    unfolding gate_chain
    chain-Earned d b =
        back-Earned _ _ (paid_close_is_blind b c) (break-Earned _ b (front-Earned d b))

    after-Earned :
        (d : Decision F) (b : BeliefState F)
        → Earned (paid_close_is_blind b c) (after_triggers d b c h).0
    unfolding after_triggers
    after-Earned d b = ground (arith, chain-Earned d b)

    -- Whatever is proposed, a close that leaves the gates is the free callback, or as many discovery
    -- slots are filled as the configuration asks for before a close (one by default), or the purchase
    -- intent is above neutral: no paid close is blind.
    pub apply_gates-not-blind :
        (d : Decision F) (b : BeliefState F)
        → (apply_gates d b c h).0.act ≡ attempt_close
        → ((apply_gates d b c h).0.tier ≡ some callback) ⊎ (paid_close_is_blind b c ≡ false)
    unfolding apply_gates escalation_triggers
    apply_gates-not-blind d b e = ground (arith, after-Earned (ground_concession d b) b)
