-- ===== src/Gates/Chain/Tiers.antt =====
-- The commitment tier of a close, through the chain of src/core/gates.py.
use autonomous_sales_agent.Prelude.{◌≡◌, true, List, arith, is_some}
use autonomous_sales_agent.Float.{Floating}
use autonomous_sales_agent.Config.{AgentConfig}
use autonomous_sales_agent.Decision.{Decision, is_close}
use autonomous_sales_agent.Belief.{BeliefState}
use autonomous_sales_agent.Gates.Reads.{HistoryTurn, Patterns}
use autonomous_sales_agent.Gates.Discovery.{
  skip_known, no_repeat_discovery, establish_who_first, address_direct_input,
}
use autonomous_sales_agent.Gates.Pressure.{
  pushiness_cap, de_escalate, must_clear_objection, price_gate,
}
use autonomous_sales_agent.Gates.Closing.{
  advance_to_close, close_floor, offer_low_commitment_on_budget,
}
use autonomous_sales_agent.Gates.Escalation.{
  escalation_triggers, no_authority_prefers_callback, escalate_only_if_warranted,
}
use autonomous_sales_agent.Gates.LoopBreaker.{break_no_progress_loop, first_break}
use autonomous_sales_agent.Gates.Chain.{
  front_gates, back_gates, gate_chain, after_triggers, apply_gates, ground_concession,
}

-- A close says which rung of the ladder it is for.
abbrev pub Tiered : {F : Type 0} → Decision F → Type 0
Tiered d = is_close d.act ≡ true → is_some d.tier ≡ true

module _ {F : Type 0} ⦃fl : Floating F⦄ (c : AgentConfig F) (h : List (HistoryTurn F))
    (b : BeliefState F) where
  cap-Tiered : (d : Decision F) → Tiered d → Tiered (pushiness_cap d b c h)
  unfolding pushiness_cap
  cap-Tiered d e = ground arith

  floor-Tiered : (d : Decision F) → Tiered d → Tiered (close_floor d b c)
  unfolding close_floor
  floor-Tiered d e = ground arith

  break-Tiered : (d : Decision F) → Tiered d → Tiered (break_no_progress_loop d b c h).0
  unfolding break_no_progress_loop first_break
  break-Tiered d e = ground arith

  module _ ⦃pt : Patterns⦄ where
    skip-Tiered : (d : Decision F) → Tiered d → Tiered (skip_known d b)
    unfolding skip_known
    skip-Tiered d ok = ground arith

    repeat-Tiered : (d : Decision F) → Tiered d → Tiered (no_repeat_discovery d b c)
    unfolding no_repeat_discovery
    repeat-Tiered d ok = ground arith

    who_first-Tiered : (d : Decision F) → Tiered d → Tiered (establish_who_first d b c)
    unfolding establish_who_first
    who_first-Tiered d ok = ground arith

    address-Tiered : (d : Decision F) → Tiered d → Tiered (address_direct_input d b c h)
    unfolding address_direct_input
    address-Tiered d ok = ground arith

    clear-Tiered : (d : Decision F) → Tiered d → Tiered (must_clear_objection d b)
    unfolding must_clear_objection
    clear-Tiered d ok = ground arith

    price-Tiered : (d : Decision F) → Tiered d → Tiered (price_gate d b c)
    unfolding price_gate
    price-Tiered d ok = ground arith

    advance-Tiered : (d : Decision F) → Tiered d → Tiered (advance_to_close d b c h)
    unfolding advance_to_close
    advance-Tiered d e = ground arith

    front-Tiered : (d : Decision F) → Tiered d → Tiered (front_gates d b c h)
    unfolding front_gates
    front-Tiered d e = cap-Tiered _ (
        floor-Tiered _ (
          advance-Tiered _ (
            price-Tiered _ (
              clear-Tiered _
                (address-Tiered _ (who_first-Tiered _ (repeat-Tiered _ (skip-Tiered d e))))))))

    authority-Tiered :
        (d : Decision F) (b' : BeliefState F)
        → Tiered d
        → Tiered (no_authority_prefers_callback d b' c h)
    unfolding no_authority_prefers_callback
    authority-Tiered d b' ok = ground arith

    warranted-Tiered :
        (d : Decision F) (b' : BeliefState F)
        → Tiered d
        → Tiered (escalate_only_if_warranted d b' c h)
    unfolding escalate_only_if_warranted
    warranted-Tiered d b' ok = ground arith

    offer-Tiered :
        (d : Decision F) (b' : BeliefState F)
        → Tiered d
        → Tiered (offer_low_commitment_on_budget d b' c)
    unfolding offer_low_commitment_on_budget
    offer-Tiered d b' ok = ground arith

    trigger-Tiered :
        (d : Decision F) (b' : BeliefState F) → Tiered d → Tiered (escalation_triggers d b' c h).0
    unfolding escalation_triggers
    trigger-Tiered d b' ok = ground arith

    back-Tiered : (d : Decision F) (b' : BeliefState F) → Tiered d → Tiered (back_gates d b' c h).0
    unfolding back_gates
    back-Tiered d b' e =
        trigger-Tiered _ b' (offer-Tiered _ b' (warranted-Tiered _ b' (authority-Tiered d b' e)))

    chain-Tiered : (d : Decision F) → Tiered d → Tiered (gate_chain d b c h).0
    unfolding gate_chain
    chain-Tiered d e = back-Tiered _ _ (break-Tiered _ (front-Tiered d e))

    concession-Tiered : (d : Decision F) → Tiered d → Tiered (ground_concession d b)
    unfolding ground_concession
    concession-Tiered d e = ground arith

    -- If a proposed close has a tier, every close that leaves the gates has one.
    pub apply_gates-Tiered : (d : Decision F) → Tiered d → Tiered (apply_gates d b c h).0
    unfolding apply_gates after_triggers escalation_triggers de_escalate
    apply_gates-Tiered d e =
        ground (
          arith,
          concession-Tiered d e,
          chain-Tiered (ground_concession d b) (concession-Tiered d e),
        )
