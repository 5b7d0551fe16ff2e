-- ===== src/Gates/Chain/Bypasses.antt =====
-- Calls on which a later gate undoes what an earlier one is there for.
use autonomous_sales_agent.Prelude.{◌≡◌, ◌∙◌, true, false, none, some, List, arith, is_some, truthy}
use autonomous_sales_agent.Float.{Floating}
use autonomous_sales_agent.Config.{AgentConfig}
use autonomous_sales_agent.Decision.{
  Tier, Decision, is_ask, is_pressure, is_deescalate_blocked, attempt_close, escalate,
  answer_via_kb, pitch,
}
use autonomous_sales_agent.Belief.{BeliefState}
use autonomous_sales_agent.Gates.Reads.{
  HistoryTurn, Patterns, escalation_reason, paid_close_is_blind, closeable_tier,
  hostile_or_extreme_bail, is_no_authority,
}
use autonomous_sales_agent.Gates.Discovery.{
  skip_known, no_repeat_discovery, establish_who_first, address_direct_input,
}
use autonomous_sales_agent.Gates.Pressure.{
  imminent, pushiness_cap, de_escalate, must_clear_objection, price_gate, pressure_capped,
}
use autonomous_sales_agent.Gates.Closing.{
  advance_to_close, close_floor, offer_low_commitment_on_budget, may_advance, budget_refused,
}
use autonomous_sales_agent.Gates.Escalation.{
  escalation_triggers, no_authority_prefers_callback, escalate_only_if_warranted,
}
use autonomous_sales_agent.Gates.LoopBreaker.{break_no_progress_loop}
use autonomous_sales_agent.Gates.Chain.{
  front_gates, back_gates, gate_chain, after_triggers, apply_gates, ground_concession,
}
use autonomous_sales_agent.Gates.Chain.Escalates.{reason-cong}

module _ {F : Type 0} ⦃fl : Floating F⦄ (c : AgentConfig F) (h : List (HistoryTurn F))
    ⦃pt : Patterns⦄ where
  early-plain :
      (d : Decision F) (b : BeliefState F)
      → is_ask d.act ≡ false
      → is_pressure d.act ≡ false
      → establish_who_first (no_repeat_discovery (skip_known d b) b c) b c ≡ d
  unfolding skip_known no_repeat_discovery establish_who_first
  early-plain d b e f = ground arith

  answer-early :
      (d : Decision F) (b : BeliefState F)
      → d.act ≡ answer_via_kb
      → d.target_slot ≡ none
      → price_gate (must_clear_objection (address_direct_input d b c h) b) b c ≡ d
  unfolding address_direct_input must_clear_objection price_gate
  answer-early d b e f = ground arith

  answer-late :
      (d : Decision F) (b : BeliefState F) (t : Tier)
      → may_advance d b c h ≡ true
      → closeable_tier b c false ≡ some t
      → paid_close_is_blind b c ≡ false
      → pressure_capped b c h ≡ false
      → let d' = pushiness_cap (close_floor (advance_to_close d b c h) b c) b c h in
        (d'.act ≡ attempt_close) × (d'.tier ≡ some t) × (d'.concession ≡ d.concession)
  unfolding advance_to_close close_floor pushiness_cap
  answer-late d b t m e p q = ground arith

  close-back :
      (d : Decision F) (b : BeliefState F) (t : Tier)
      → d.act ≡ attempt_close
      → d.tier ≡ some t
      → escalation_reason d b c h ≡ none
      → budget_refused b c ≡ false
      → let (d1, b1) = break_no_progress_loop d b c h in
        let d' = (back_gates d1 b1 c h).0 in (d'.act ≡ attempt_close) × (d'.tier ≡ some t)
  unfolding break_no_progress_loop back_gates no_authority_prefers_callback
      escalate_only_if_warranted offer_low_commitment_on_budget escalation_triggers
  close-back d b t e f q r = ground arith

  front-answer :
      (d : Decision F) (b : BeliefState F)
      → d.act ≡ answer_via_kb
      → d.target_slot ≡ none
      → front_gates d b c h ≡ pushiness_cap (close_floor (advance_to_close d b c h) b c) b c h
  unfolding front_gates
  front-answer d b e f =
      rw (early-plain d b (ground arith) (ground arith)) (rw (answer-early d b e f))

  chain-answer :
      (d : Decision F) (b : BeliefState F) (t : Tier)
      → d.act ≡ answer_via_kb
      → d.target_slot ≡ none
      → escalation_reason d b c h ≡ none
      → may_advance d b c h ≡ true
      → closeable_tier b c false ≡ some t
      → paid_close_is_blind b c ≡ false
      → pressure_capped b c h ≡ false
      → budget_refused b c ≡ false
      → ((gate_chain d b c h).0.act ≡ attempt_close) × ((gate_chain d b c h).0.tier ≡ some t)
  unfolding gate_chain
  chain-answer d b t e f quiet m k blind capped refused =
      let (act, tier, same) = answer-late d b t m k blind capped in
      rw (front-answer d b e f)
        (close-back _ b t act tier (reason-cong c h d _ b same ∙ quiet) refused)

  -- On a hostile call (the hostility flag, or extreme bail risk), with no escalation trigger, no
  -- pressure cap, no blind close and no budget refusals, a proposed answer with no slot and no
  -- concession, which `advance_to_close` may advance to a tier, leaves the gates as an attempt to
  -- close at that tier.
  apply_gates-hostile_answer :
      (d : Decision F) (b : BeliefState F) (t : Tier)
      → is_some (hostile_or_extreme_bail b c) ≡ true
      → d.act ≡ answer_via_kb
      → d.target_slot ≡ none
      → d.concession ≡ none
      → escalation_reason d b c h ≡ none
      → may_advance d b c h ≡ true
      → closeable_tier b c false ≡ some t
      → paid_close_is_blind b c ≡ false
      → pressure_capped b c h ≡ false
      → budget_refused b c ≡ false
      → ((apply_gates d b c h).0.act ≡ attempt_close) × ((apply_gates d b c h).0.tier ≡ some t)
  unfolding apply_gates after_triggers ground_concession de_escalate
  apply_gates-hostile_answer d b t hostile e f n quiet m k blind capped refused =
      ground (arith, chain-answer d b t e f quiet m k blind capped refused)

  -- A call that is hostile or about to end, and a proposal that sells or asks again, with no
  -- escalation trigger: the decision is an escalate with no slot, no tier and no concession, and the
  -- flag is raised.
  apply_gates-hostile :
      (d : Decision F) (b : BeliefState F)
      → is_some (hostile_or_extreme_bail b c) ≡ true
      → is_deescalate_blocked d.act ≡ true
      → escalation_reason (ground_concession d b) b c h ≡ none
      → ((apply_gates d b c h).0.act ≡ escalate)
        × ((apply_gates d b c h).0.target_slot ≡ none)
        × ((apply_gates d b c h).0.tier ≡ none)
        × ((apply_gates d b c h).0.concession ≡ none)
        × ((apply_gates d b c h).1 ≡ imminent b)
  unfolding apply_gates after_triggers ground_concession de_escalate
  apply_gates-hostile d b hostile blocked quiet = ground arith

  address-escalate-id :
      (d : Decision F) (b : BeliefState F)
      → d.act ≡ escalate
      → price_gate (must_clear_objection (address_direct_input d b c h) b) b c ≡ d
  unfolding address_direct_input must_clear_objection price_gate
  address-escalate-id d b e = ground arith

  late-escalate-id :
      (d : Decision F) (b : BeliefState F)
      → d.act ≡ escalate
      → pushiness_cap (close_floor (advance_to_close d b c h) b c) b c h ≡ d
  unfolding advance_to_close may_advance close_floor pushiness_cap
  late-escalate-id d b e = ground arith

  front-escalate-id :
      (d : Decision F) (b : BeliefState F) → d.act ≡ escalate → front_gates d b c h ≡ d
  unfolding front_gates
  front-escalate-id d b e =
      rw (early-plain d b (ground arith) (ground arith))
        (rw (address-escalate-id d b e) (late-escalate-id d b e))

  back-triggerless :
      (d : Decision F) (b : BeliefState F)
      → d.act ≡ escalate
      → d.meta.loop_terminal ≡ false
      → escalation_reason d b c h ≡ none
      → is_no_authority b ≡ false
      → truthy b.open_question ≡ false
      → budget_refused b c ≡ false
      → let (d1, b1) = break_no_progress_loop d b c h in (back_gates d1 b1 c h).0.act ≡ pitch
  unfolding break_no_progress_loop back_gates no_authority_prefers_callback
      escalate_only_if_warranted offer_low_commitment_on_budget escalation_triggers
      escalation_reason
  back-triggerless d b e m quiet auth q r = ground arith

  -- Whatever the run of pressure acts, and at any bail risk short of extreme, a proposed escalate that
  -- has no trigger, no concession and no mark of the loop-breaker, on a call that is not hostile, with
  -- no open question, no gatekeeper and no budget refusals, leaves the gates as a pitch.
  apply_gates-triggerless :
      (d : Decision F) (b : BeliefState F)
      → d.act ≡ escalate
      → d.meta.loop_terminal ≡ false
      → d.concession ≡ none
      → escalation_reason d b c h ≡ none
      → hostile_or_extreme_bail b c ≡ none
      → is_no_authority b ≡ false
      → truthy b.open_question ≡ false
      → budget_refused b c ≡ false
      → (apply_gates d b c h).0.act ≡ pitch
  unfolding apply_gates after_triggers gate_chain ground_concession
  apply_gates-triggerless d b e m n quiet calm auth q r =
      let same : front_gates d b c h ≡ d = front-escalate-id d b e in
      ground (arith, same, back-triggerless d b e m quiet auth q r)
