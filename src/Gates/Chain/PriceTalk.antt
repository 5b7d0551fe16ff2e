-- ===== src/Gates/Chain/PriceTalk.antt =====
-- When the chain lets the agent open price talk.
use autonomous_sales_agent.Prelude.{◌≡◌, Bool, true, ◌&&◌, ◌||◌, List, arith, ◌⊎◌}
use autonomous_sales_agent.Float.{Floating}
use autonomous_sales_agent.Config.{AgentConfig, price_slots}
use autonomous_sales_agent.Decision.{Decision, is_pressure}
use autonomous_sales_agent.Belief.{BeliefState}
use autonomous_sales_agent.Gates.Reads.{HistoryTurn, Patterns}
use autonomous_sales_agent.Gates.Discovery.{
  skip_known, no_repeat_discovery, establish_who_first, address_direct_input, targets,
}
use autonomous_sales_agent.Gates.Pressure.{
  pushiness_cap, must_clear_objection, price_gate, price_gate_open, opens_price,
}
use autonomous_sales_agent.Gates.Closing.{
  advance_to_close, close_floor, offer_low_commitment_on_budget,
}
use autonomous_sales_agent.Gates.Escalation.{
  escalation_triggers, no_authority_prefers_callback, escalate_only_if_warranted,
}
use autonomous_sales_agent.Gates.LoopBreaker.{break_no_progress_loop, first_break}
use autonomous_sales_agent.Gates.Chain.{
  front_gates, back_gates, gate_chain, after_triggers, apply_gates, ground_concession,
}

-- A pressure act whose target is a price slot.
abbrev pub presses_price : {F : Type 0} → Decision F → Bool
presses_price d = is_pressure d.act && targets d.target_slot price_slots

-- Price talk has the leave `o`.
abbrev PriceOk : {F : Type 0} → Bool → Decision F → Type 0
PriceOk o d = opens_price d ≡ true → o ≡ true

-- The price is neither opened nor pressed without `o`.
abbrev Fenced : {F : Type 0} → Bool → Decision F → Type 0
Fenced o d = (opens_price d ≡ true → o ≡ true) × (presses_price d ≡ true → o ≡ true)

module _ {F : Type 0} ⦃fl : Floating F⦄ (c : AgentConfig F) (h : List (HistoryTurn F)) where
  module _ ⦃pt : Patterns⦄ where
    skip-presses :
        (d : Decision F) (b : BeliefState F)
        → presses_price (skip_known d b) ≡ true
        → presses_price d ≡ true
    unfolding skip_known
    skip-presses d b e = ground arith

    repeat-presses :
        (d : Decision F) (b : BeliefState F)
        → presses_price (no_repeat_discovery d b c) ≡ true
        → presses_price d ≡ true
    unfolding no_repeat_discovery
    repeat-presses d b e = ground arith

    who_first-presses :
        (d : Decision F) (b : BeliefState F)
        → presses_price (establish_who_first d b c) ≡ true
        → presses_price d ≡ true
    unfolding establish_who_first
    who_first-presses d b e = ground arith

    address-presses :
        (d : Decision F) (b : BeliefState F)
        → presses_price (address_direct_input d b c h) ≡ true
        → presses_price d ≡ true
    unfolding address_direct_input
    address-presses d b e = ground arith

    clear-presses :
        (d : Decision F) (b : BeliefState F)
        → presses_price (must_clear_objection d b) ≡ true
        → presses_price d ≡ true
    unfolding must_clear_objection
    clear-presses d b e = ground arith

    gate-Fenced :
        (d : Decision F) (b : BeliefState F)
        → Fenced (price_gate_open b c || presses_price d) (price_gate d b c)
    unfolding price_gate
    gate-Fenced d b = ground arith

    advance-Fenced :
        (d : Decision F) (b : BeliefState F) (o : Bool)
        → Fenced o d
        → Fenced o (advance_to_close d b c h)
    unfolding advance_to_close
    advance-Fenced d b o ok = ground arith

    floor-Fenced :
        (d : Decision F) (b : BeliefState F) (o : Bool) → Fenced o d → Fenced o (close_floor d b c)
    unfolding close_floor
    floor-Fenced d b o ok = ground arith

    cap-PriceOk :
        (d : Decision F) (b : BeliefState F) (o : Bool)
        → Fenced o d
        → PriceOk o (pushiness_cap d b c h)
    unfolding pushiness_cap
    cap-PriceOk d b o ok = ground arith

    late-PriceOk :
        (d : Decision F) (b : BeliefState F)
        → PriceOk
            (price_gate_open b c || presses_price d)
            (pushiness_cap (close_floor (advance_to_close (price_gate d b c) b c h) b c) b c h)
    late-PriceOk d b =
        cap-PriceOk _ b _ (floor-Fenced _ b _ (advance-Fenced _ b _ (gate-Fenced d b)))

    front-PriceOk :
        (d : Decision F) (b : BeliefState F)
        → PriceOk (price_gate_open b c || presses_price d) (front_gates d b c h)
    unfolding front_gates
    front-PriceOk d b e =
        let d1 = skip_known d b in
        let d2 = no_repeat_discovery d1 b c in
        let d3 = establish_who_first d2 b c in
        let d4 = address_direct_input d3 b c h in
        let d5 = must_clear_objection d4 b in
        ground (
          arith,
          late-PriceOk d5 b e,
          clear-presses d4 b,
          address-presses d3 b,
          who_first-presses d2 b,
          repeat-presses d1 b,
          skip-presses d b,
        )

    break-PriceOk :
        (d : Decision F) (b : BeliefState F) (o : Bool)
        → PriceOk o d
        → PriceOk o (break_no_progress_loop d b c h).0
    unfolding break_no_progress_loop first_break
    break-PriceOk d b o ok = ground arith

    back-PriceOk :
        (d : Decision F) (b : BeliefState F) (o : Bool)
        → PriceOk o d
        → PriceOk o (back_gates d b c h).0
    unfolding back_gates no_authority_prefers_callback escalate_only_if_warranted
        offer_low_commitment_on_budget escalation_triggers
    back-PriceOk d b o ok = ground arith

    chain-PriceOk :
        (d : Decision F) (b : BeliefState F)
        → PriceOk (price_gate_open b c || presses_price d) (gate_chain d b c h).0
    unfolding gate_chain
    chain-PriceOk d b = back-PriceOk _ _ _ (break-PriceOk _ b _ (front-PriceOk d b))

    after-PriceOk :
        (d : Decision F) (b : BeliefState F)
        → PriceOk (price_gate_open b c || presses_price d) (after_triggers d b c h).0
    unfolding after_triggers
    after-PriceOk d b = ground (arith, chain-PriceOk d b)

    -- The gated decision asks, answers or confirms a price slot only after a trust event, except
    -- that a proposed pitch or close which names the price slot may be backed off into it.
    pub apply_gates-opens_price :
        (d : Decision F) (b : BeliefState F)
        → opens_price (apply_gates d b c h).0 ≡ true
        → (price_gate_open b c ≡ true) ⊎ (presses_price d ≡ true)
    unfolding apply_gates escalation_triggers ground_concession
    apply_gates-opens_price d b e = ground (arith, after-PriceOk (ground_concession d b) b)
