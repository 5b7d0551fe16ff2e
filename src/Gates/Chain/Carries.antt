-- ===== src/Gates/Chain/Carries.antt =====
-- What the gates before the loop-breaker carry through: the concession and the marks of the decision.
use autonomous_sales_agent.Prelude.{◌≡◌, List, arith, ◌∙◌}
use autonomous_sales_agent.Float.{Floating}
use autonomous_sales_agent.Config.{AgentConfig}
use autonomous_sales_agent.Decision.{Decision}
use autonomous_sales_agent.Belief.{BeliefState}
use autonomous_sales_agent.Gates.Reads.{HistoryTurn, Patterns}
use autonomous_sales_agent.Gates.Discovery.{
  skip_known, no_repeat_discovery, establish_who_first, address_direct_input,
}
use autonomous_sales_agent.Gates.Pressure.{pushiness_cap, must_clear_objection, price_gate}
use autonomous_sales_agent.Gates.Closing.{advance_to_close, close_floor}
use autonomous_sales_agent.Gates.Chain.{front_gates}

pub record Carries {F : Type 0} (d d' : Decision F) : Type 0 where
  pub concession : d'.concession ≡ d.concession
  pub meta : d'.meta ≡ d.meta
  pub confidence : d'.confidence ≡ d.confidence

Carries-trans : {F : Type 0} {d e f : Decision F} → Carries d e → Carries e f → Carries d f
Carries-trans p q = record {
  concession = q.concession ∙ p.concession;
  meta = q.meta ∙ p.meta;
  confidence = q.confidence ∙ p.confidence;
}

module _ {F : Type 0} ⦃fl : Floating F⦄ (c : AgentConfig F) (h : List (HistoryTurn F))
    (b : BeliefState F) where
  skip_known-Carries : (d : Decision F) → Carries d (skip_known d b)
  unfolding skip_known
  skip_known-Carries d = ground arith

  no_repeat-Carries : (d : Decision F) → Carries d (no_repeat_discovery d b c)
  unfolding no_repeat_discovery
  no_repeat-Carries d = ground arith

  who_first-Carries : (d : Decision F) → Carries d (establish_who_first d b c)
  unfolding establish_who_first
  who_first-Carries d = ground arith

  must_clear-Carries : (d : Decision F) → Carries d (must_clear_objection d b)
  unfolding must_clear_objection
  must_clear-Carries d = ground arith

  close_floor-Carries : (d : Decision F) → Carries d (close_floor d b c)
  unfolding close_floor
  close_floor-Carries d = ground arith

  pushiness_cap-Carries : (d : Decision F) → Carries d (pushiness_cap d b c h)
  unfolding pushiness_cap
  pushiness_cap-Carries d = ground arith

  module _ ⦃pt : Patterns⦄ where
    address-Carries : (d : Decision F) → Carries d (address_direct_input d b c h)
    unfolding address_direct_input
    address-Carries d = ground arith

    price_gate-Carries : (d : Decision F) → Carries d (price_gate d b c)
    unfolding price_gate
    price_gate-Carries d = ground arith

    advance-Carries : (d : Decision F) → Carries d (advance_to_close d b c h)
    unfolding advance_to_close
    advance-Carries d = ground arith

    pub front_gates-Carries : (d : Decision F) → Carries d (front_gates d b c h)
    unfolding front_gates
    front_gates-Carries d = Carries-trans (skip_known-Carries d) (
        Carries-trans (no_repeat-Carries _) (
          Carries-trans (who_first-Carries _) (
            Carries-trans (address-Carries _) (
              Carries-trans (must_clear-Carries _) (
                Carries-trans (price_gate-Carries _) (
                  Carries-trans (advance-Carries _)
                    (Carries-trans (close_floor-Carries _) (pushiness_cap-Carries _))))))))
