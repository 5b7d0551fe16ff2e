-- ===== src/Gates/Chain/Asks.antt =====
-- What the chain lets the agent ask.
use autonomous_sales_agent.Prelude.{
  ◌≡◌, ◌≢◌, String, Bool, true, false, not, ◌||◌, ◌==◌, eq_iff, Option, none, some, List, arith,
  ◌⊎◌, member,
}
use autonomous_sales_agent.Float.{Floating}
use autonomous_sales_agent.Config.{AgentConfig}
use autonomous_sales_agent.Decision.{Decision, is_ask, ask}
use autonomous_sales_agent.Belief.{BeliefState}
use autonomous_sales_agent.Gates.Reads.{HistoryTurn, Patterns, is_locked, over_asked}
use autonomous_sales_agent.Gates.Discovery.{
  skip_known, no_repeat_discovery, establish_who_first, address_direct_input,
}
use autonomous_sales_agent.Gates.Pressure.{pushiness_cap, must_clear_objection, price_gate}
use autonomous_sales_agent.Gates.Closing.{
  advance_to_close, close_floor, offer_low_commitment_on_budget,
}
use autonomous_sales_agent.Gates.Escalation.{
  escalation_triggers, no_authority_prefers_callback, escalate_only_if_warranted,
}
use autonomous_sales_agent.Gates.LoopBreaker.{break_no_progress_loop, first_break}
use autonomous_sales_agent.Gates.Chain.{
  front_gates, back_gates, gate_chain, after_triggers, apply_gates, ground_concession,
}

module _ {F : Type 0} ⦃fl : Floating F⦄ where
  -- The slot is `who_for`, or it is neither locked, nor declined, nor asked too often; an ask that
  -- names no slot is free.
  pub askable : BeliefState F → AgentConfig F → Option String → Bool
  askable b c none = true
  askable b c (some s) =
      s == "who_for"
      || s == ""
      || not (is_locked b s || member s b.meta.declined_slots || over_asked b c s)

  abbrev pub AskOk : BeliefState F → AgentConfig F → Decision F → Type 0
  AskOk b c d = is_ask d.act ≡ true → askable b c d.target_slot ≡ true

module _ {F : Type 0} ⦃fl : Floating F⦄ (c : AgentConfig F) (h : List (HistoryTurn F)) where
  no_repeat-AskOk :
      (d : Decision F) (b : BeliefState F) → AskOk b c (no_repeat_discovery (skip_known d b) b c)
  unfolding skip_known no_repeat_discovery askable
  no_repeat-AskOk d b = ground arith

  who_first-AskOk :
      (d : Decision F) (b : BeliefState F) → AskOk b c d → AskOk b c (establish_who_first d b c)
  unfolding establish_who_first askable
  who_first-AskOk d b ok = ground arith

  module _ ⦃pt : Patterns⦄ where
    address-AskOk :
        (d : Decision F) (b : BeliefState F)
        → AskOk b c d
        → AskOk b c (address_direct_input d b c h)
    unfolding address_direct_input
    address-AskOk d b ok = ground arith

    clear-AskOk :
        (d : Decision F) (b : BeliefState F) → AskOk b c d → AskOk b c (must_clear_objection d b)
    unfolding must_clear_objection
    clear-AskOk d b ok = ground arith

    price-AskOk : (d : Decision F) (b : BeliefState F) → AskOk b c d → AskOk b c (price_gate d b c)
    unfolding price_gate
    price-AskOk d b ok = ground arith

    advance-AskOk :
        (d : Decision F) (b : BeliefState F) → AskOk b c d → AskOk b c (advance_to_close d b c h)
    unfolding advance_to_close
    advance-AskOk d b ok = ground arith

    floor-AskOk : (d : Decision F) (b : BeliefState F) → AskOk b c d → AskOk b c (close_floor d b c)
    unfolding close_floor
    floor-AskOk d b ok = ground arith

    cap-AskOk :
        (d : Decision F) (b : BeliefState F) → AskOk b c d → AskOk b c (pushiness_cap d b c h)
    unfolding pushiness_cap
    cap-AskOk d b ok = ground arith

    front-AskOk : (d : Decision F) (b : BeliefState F) → AskOk b c (front_gates d b c h)
    unfolding front_gates
    front-AskOk d b = cap-AskOk _ b (
        floor-AskOk _ b (
          advance-AskOk _ b (
            price-AskOk _ b
              (clear-AskOk _ b (address-AskOk _ b (who_first-AskOk _ b (no_repeat-AskOk d b)))))))

    break-AskOk :
        (d : Decision F) (b : BeliefState F)
        → AskOk b c d
        → AskOk b c (break_no_progress_loop d b c h).0
    unfolding break_no_progress_loop first_break
    break-AskOk d b ok = ground arith

    back-AskOk :
        (d : Decision F) (b b' : BeliefState F) → AskOk b c d → AskOk b c (back_gates d b' c h).0
    unfolding back_gates no_authority_prefers_callback escalate_only_if_warranted
        offer_low_commitment_on_budget escalation_triggers
    back-AskOk d b b' ok = ground arith

    chain-AskOk : (d : Decision F) (b : BeliefState F) → AskOk b c (gate_chain d b c h).0
    unfolding gate_chain
    chain-AskOk d b = back-AskOk _ b _ (break-AskOk _ b (front-AskOk d b))

    after-AskOk : (d : Decision F) (b : BeliefState F) → AskOk b c (after_triggers d b c h).0
    unfolding after_triggers
    after-AskOk d b = ground (arith, chain-AskOk d b)

    -- A slot, not the empty text, that the gated decision asks for is `who_for`, or is not yet known, was not declined,
    -- and has been asked fewer than `max_slot_asks` times.
    pub apply_gates-asks :
        (d : Decision F) (b : BeliefState F) (s : String)
        → (apply_gates d b c h).0.act ≡ ask
        → (apply_gates d b c h).0.target_slot ≡ some s
        → s ≢ ""
        → (s ≡ "who_for")
          ⊎ ((is_locked b s ≡ false)
              × (member s b.meta.declined_slots ≡ false)
              × (over_asked b c s ≡ false))
    unfolding apply_gates escalation_triggers askable
    apply_gates-asks d b s e t n =
        ground (arith, after-AskOk (ground_concession d b) b, eq_iff s "who_for", eq_iff s "")
