-- ===== src/Gates/Chain/Objections.antt =====
-- `apply_gates` (src/core/gates.py) and an open objection.
use autonomous_sales_agent.Prelude.{◌≡◌, true, false, some, List, arith, ◌⊎◌, truthy}
use autonomous_sales_agent.Float.{Floating}
use autonomous_sales_agent.Config.{AgentConfig}
use autonomous_sales_agent.Decision.{Decision, is_close, is_callback, attempt_close, callback}
use autonomous_sales_agent.Belief.{BeliefState}
use autonomous_sales_agent.Gates.Reads.{HistoryTurn, Patterns}
use autonomous_sales_agent.Gates.Pressure.{pushiness_cap, must_clear_objection, price_gate}
use autonomous_sales_agent.Gates.Closing.{
  advance_to_close, close_floor, offer_low_commitment_on_budget, may_advance,
}
use autonomous_sales_agent.Gates.Escalation.{
  escalation_triggers, no_authority_prefers_callback, escalate_only_if_warranted,
}
use autonomous_sales_agent.Gates.LoopBreaker.{break_no_progress_loop, first_break}
use autonomous_sales_agent.Gates.Chain.{
  front_gates, back_gates, gate_chain, after_triggers, apply_gates, ground_concession,
}

-- A close is the free callback, or comes of the loop-breaker.
abbrev pub OverObjection : {F : Type 0} → Decision F → Type 0
OverObjection d = is_close d.act ≡ true → (is_callback d.tier ≡ true) ⊎ (d.meta.loop_break ≡ true)

module _ {F : Type 0} ⦃fl : Floating F⦄ (c : AgentConfig F) (h : List (HistoryTurn F)) where
  break-OverObjection :
      (d : Decision F) (b : BeliefState F)
      → is_close d.act ≡ false
      → OverObjection (break_no_progress_loop d b c h).0
  unfolding break_no_progress_loop first_break
  break-OverObjection d b e = ground arith

  module _ ⦃pt : Patterns⦄ where
    back-OverObjection :
        (d : Decision F) (b : BeliefState F)
        → OverObjection d
        → OverObjection (back_gates d b c h).0
    unfolding back_gates no_authority_prefers_callback escalate_only_if_warranted
        offer_low_commitment_on_budget escalation_triggers
    back-OverObjection d b e = ground arith

    late-front-no-close :
        (d : Decision F) (b : BeliefState F)
        → truthy b.active_objection ≡ true
        → is_close d.act ≡ false
        → is_close
            (pushiness_cap (close_floor (advance_to_close (price_gate d b c) b c h) b c) b c h).act
          ≡ false
    unfolding pushiness_cap close_floor advance_to_close may_advance price_gate
    late-front-no-close d b o e = ground arith

    must_clear-no-close :
        (d : Decision F) (b : BeliefState F)
        → truthy b.active_objection ≡ true
        → is_close (must_clear_objection d b).act ≡ false
    unfolding must_clear_objection
    must_clear-no-close d b o = ground arith

    front-no-close :
        (d : Decision F) (b : BeliefState F)
        → truthy b.active_objection ≡ true
        → is_close (front_gates d b c h).act ≡ false
    unfolding front_gates
    front-no-close d b o = late-front-no-close _ b o (must_clear-no-close _ b o)

    chain-OverObjection :
        (d : Decision F) (b : BeliefState F)
        → truthy b.active_objection ≡ true
        → OverObjection (gate_chain d b c h).0
    unfolding gate_chain
    chain-OverObjection d b o =
        back-OverObjection _ _ (break-OverObjection _ b (front-no-close d b o))

    after-OverObjection :
        (d : Decision F) (b : BeliefState F)
        → truthy b.active_objection ≡ true
        → OverObjection (after_triggers d b c h).0
    unfolding after_triggers
    after-OverObjection d b o = ground (arith, chain-OverObjection d b o)

    -- With an objection open, a close that leaves the gates is the free callback or the forced
    -- commitment of the loop-breaker, whatever was proposed.
    pub apply_gates_over_objection :
        (d : Decision F) (b : BeliefState F)
        → truthy b.active_objection ≡ true
        → (apply_gates d b c h).0.act ≡ attempt_close
        → ((apply_gates d b c h).0.tier ≡ some callback)
          ⊎ ((apply_gates d b c h).0.meta.loop_break ≡ true)
    unfolding apply_gates escalation_triggers
    apply_gates_over_objection d b o e =
        ground (arith, after-OverObjection (ground_concession d b) b o)
