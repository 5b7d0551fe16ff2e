-- ===== src/Gates/Chain/Pressing.antt =====
-- The chain under the pushiness cap.
use autonomous_sales_agent.Prelude.{◌≡◌, Bool, true, false, some, List, arith, ◌⊎◌}
use autonomous_sales_agent.Float.{Floating}
use autonomous_sales_agent.Config.{AgentConfig}
use autonomous_sales_agent.Decision.{
  Decision, is_callback, is_escalate, is_pressure, callback, escalate,
}
use autonomous_sales_agent.Belief.{BeliefState}
use autonomous_sales_agent.Gates.Reads.{HistoryTurn, Patterns}
use autonomous_sales_agent.Gates.Discovery.{
  skip_known, no_repeat_discovery, establish_who_first, address_direct_input,
}
use autonomous_sales_agent.Gates.Pressure.{
  pushiness_cap, must_clear_objection, price_gate, pressure_capped,
}
use autonomous_sales_agent.Gates.Closing.{
  advance_to_close, close_floor, offer_low_commitment_on_budget,
}
use autonomous_sales_agent.Gates.Escalation.{
  escalation_triggers, no_authority_prefers_callback, escalate_only_if_warranted,
}
use autonomous_sales_agent.Gates.LoopBreaker.{break_no_progress_loop, first_break}
use autonomous_sales_agent.Gates.Chain.{
  front_gates, back_gates, gate_chain, after_triggers, apply_gates, ground_concession,
}

-- Pressure is the free callback or the loop-breaker's, and an escalate was proposed (`x`) or is
-- the loop-breaker's.
abbrev Backed : {F : Type 0} → Bool → Decision F → Type 0
Backed x d =
    (is_pressure d.act ≡ true
      → (x ≡ true) ⊎ (is_callback d.tier ≡ true) ⊎ (d.meta.loop_break ≡ true))
    × (is_escalate d.act ≡ true → (x ≡ true) ⊎ (d.meta.loop_terminal ≡ true))

module _ {F : Type 0} ⦃fl : Floating F⦄ (c : AgentConfig F) (h : List (HistoryTurn F)) where
  cap-no-pressure :
      (d : Decision F) (b : BeliefState F)
      → pressure_capped b c h ≡ true
      → is_pressure (pushiness_cap d b c h).act ≡ false
  unfolding pushiness_cap
  cap-no-pressure d b e = ground arith

  break-Backed :
      (d : Decision F) (b : BeliefState F) (x : Bool)
      → is_pressure d.act ≡ false
      → (is_escalate d.act ≡ true → x ≡ true)
      → Backed x (break_no_progress_loop d b c h).0
  unfolding break_no_progress_loop first_break
  break-Backed d b x e f = ground arith

  module _ ⦃pt : Patterns⦄ where
    early-escalate :
        (d : Decision F) (b : BeliefState F)
        → is_escalate (establish_who_first (no_repeat_discovery (skip_known d b) b c) b c).act
          ≡ true
        → is_escalate d.act ≡ true
    unfolding skip_known no_repeat_discovery establish_who_first
    early-escalate d b e = ground arith

    address-escalate :
        (d : Decision F) (b : BeliefState F)
        → is_escalate (address_direct_input d b c h).act ≡ true
        → is_escalate d.act ≡ true
    unfolding address_direct_input
    address-escalate d b e = ground arith

    late-escalate :
        (d : Decision F) (b : BeliefState F)
        → is_escalate
            (pushiness_cap
              (close_floor (advance_to_close (price_gate (must_clear_objection d b) b c) b c h) b c)
              b
              c
              h).act
          ≡ true
        → is_escalate d.act ≡ true
    unfolding must_clear_objection price_gate advance_to_close close_floor pushiness_cap
    late-escalate d b e = ground arith

    pub front-escalate :
        (d : Decision F) (b : BeliefState F)
        → is_escalate (front_gates d b c h).act ≡ true
        → is_escalate d.act ≡ true
    unfolding front_gates
    front-escalate d b e = early-escalate d b (address-escalate _ b (late-escalate _ b e))

    front-no-pressure :
        (d : Decision F) (b : BeliefState F)
        → pressure_capped b c h ≡ true
        → is_pressure (front_gates d b c h).act ≡ false
    unfolding front_gates
    front-no-pressure d b e = cap-no-pressure _ b e

    back-Backed :
        (d : Decision F) (b : BeliefState F) (x : Bool)
        → Backed x d
        → is_pressure (back_gates d b c h).0.act ≡ true
        → (x ≡ true)
          ⊎ (is_callback (back_gates d b c h).0.tier ≡ true)
          ⊎ ((back_gates d b c h).0.meta.loop_break ≡ true)
    unfolding back_gates no_authority_prefers_callback escalate_only_if_warranted
        offer_low_commitment_on_budget escalation_triggers
    back-Backed d b x ok e = ground arith

    chain-Backed :
        (d : Decision F) (b : BeliefState F)
        → pressure_capped b c h ≡ true
        → is_pressure (gate_chain d b c h).0.act ≡ true
        → (is_escalate d.act ≡ true)
          ⊎ (is_callback (gate_chain d b c h).0.tier ≡ true)
          ⊎ ((gate_chain d b c h).0.meta.loop_break ≡ true)
    unfolding gate_chain
    chain-Backed d b capped =
        back-Backed _ _ (is_escalate d.act)
          (break-Backed _ b (is_escalate d.act) (front-no-pressure d b capped) (front-escalate d b))

    after-Backed :
        (d : Decision F) (b : BeliefState F)
        → pressure_capped b c h ≡ true
        → is_pressure (after_triggers d b c h).0.act ≡ true
        → (is_escalate d.act ≡ true)
          ⊎ (is_callback (after_triggers d b c h).0.tier ≡ true)
          ⊎ ((after_triggers d b c h).0.meta.loop_break ≡ true)
    unfolding after_triggers
    after-Backed d b capped e = ground (arith, chain-Backed d b capped)

    -- Past the pushiness cap (high bail risk, or too many pressure acts in a row) a pitch or close
    -- leaves the gates only as the free callback, as the loop-breaker's forced commitment, or in
    -- place of a proposed escalate.
    pub apply_gates_capped :
        (d : Decision F) (b : BeliefState F)
        → pressure_capped b c h ≡ true
        → is_pressure (apply_gates d b c h).0.act ≡ true
        → (d.act ≡ escalate)
          ⊎ ((apply_gates d b c h).0.tier ≡ some callback)
          ⊎ ((apply_gates d b c h).0.meta.loop_break ≡ true)
    unfolding apply_gates escalation_triggers ground_concession
    apply_gates_capped d b capped e = ground (arith, after-Backed (ground_concession d b) b capped)
