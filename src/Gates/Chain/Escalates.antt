-- ===== src/Gates/Chain/Escalates.antt =====
-- When the chain escalates, and when it does not.
use autonomous_sales_agent.Prelude.{
  ◌≡◌, ◌≢◌, sym, ap, ◌∙◌, true, false, none, some, List, arith, ◌⊎◌, is_some,
}
use autonomous_sales_agent.Float.{Floating}
use autonomous_sales_agent.Config.{AgentConfig}
use autonomous_sales_agent.Decision.{Decision, Rationale, EscalationReason, is_escalate, escalate}
use autonomous_sales_agent.Belief.{BeliefState}
use autonomous_sales_agent.Gates.Reads.{
  HistoryTurn, Patterns, escalation_reason, hostile_or_extreme_bail,
}
use autonomous_sales_agent.Gates.Closing.{offer_low_commitment_on_budget}
use autonomous_sales_agent.Gates.Escalation.{
  escalation_triggers, no_authority_prefers_callback, escalate_only_if_warranted,
}
use autonomous_sales_agent.Gates.LoopBreaker.{break_no_progress_loop, first_break}
use autonomous_sales_agent.Gates.Chain.{
  front_gates, back_gates, gate_chain, after_triggers, apply_gates, ground_concession,
}
use autonomous_sales_agent.Gates.Chain.Carries.{Carries, front_gates-Carries}
use autonomous_sales_agent.Gates.Chain.Flag.{reason-break}

-- An escalate carries the mark of the loop-breaker.
abbrev pub Terminal : {F : Type 0} → Decision F × BeliefState F → Type 0
Terminal (d, b) =
    is_escalate d.act ≡ true → (d.meta.loop_terminal ≡ true) × (b.escalation_imminent ≡ true)

module _ {F : Type 0} ⦃fl : Floating F⦄ (c : AgentConfig F) (h : List (HistoryTurn F)) where
  module _ ⦃pt : Patterns⦄ where
    -- An extreme moment (a trigger that fires on the grounded proposal) is deferred at once, with
    -- the trigger as the reason, no tier, and the flag raised.
    pub apply_gates_defers :
        (d : Decision F) (b : BeliefState F) (r : EscalationReason)
        → escalation_reason (ground_concession d b) b c h ≡ some r
        → ((apply_gates d b c h).0.act ≡ escalate)
          × ((apply_gates d b c h).0.tier ≡ none)
          × ((apply_gates d b c h).0.rationale ≡ Rationale.escalation r)
          × ((apply_gates d b c h).1.escalation_imminent ≡ true)
    unfolding apply_gates escalation_triggers
    apply_gates_defers d b r e = ground arith

    triggers-none :
        (d : Decision F) (b : BeliefState F)
        → is_escalate (escalation_triggers d b c h).0.act ≡ false
        → escalation_reason (escalation_triggers d b c h).0 b c h ≡ none
    unfolding escalation_triggers
    triggers-none d b e = ground arith

    back-none :
        (d : Decision F) (b : BeliefState F)
        → is_escalate (back_gates d b c h).0.act ≡ false
        → escalation_reason (back_gates d b c h).0 b c h ≡ none
    unfolding back_gates
    back-none d b e = triggers-none _ b e

    chain-none :
        (d : Decision F) (b : BeliefState F)
        → is_escalate (gate_chain d b c h).0.act ≡ false
        → escalation_reason (gate_chain d b c h).0 b c h ≡ none
    unfolding gate_chain
    chain-none d b e = sym (reason-break _ (front_gates d b c h) b c h) ∙ back-none _ _ e

    after-none :
        (d : Decision F) (b : BeliefState F)
        → is_escalate (after_triggers d b c h).0.act ≡ false
        → escalation_reason (after_triggers d b c h).0 b c h ≡ none
    unfolding after_triggers
    after-none d b e = ground (arith, chain-none d b)

    -- A decision that leaves the gates as anything but an escalate has no extreme trigger left on it.
    pub apply_gates-no-trigger :
        (d : Decision F) (b : BeliefState F)
        → (apply_gates d b c h).0.act ≢ escalate
        → escalation_reason (apply_gates d b c h).0 b c h ≡ none
    unfolding apply_gates
    apply_gates-no-trigger d b e =
        ground
          (arith, after-none (ground_concession d b) b, triggers-none (ground_concession d b) b)

  pub reason-cong :
      (d d' : Decision F) (b : BeliefState F)
      → d'.concession ≡ d.concession
      → escalation_reason d' b c h ≡ escalation_reason d b c h
  unfolding escalation_reason
  reason-cong d d' b e = rw e

  break-no-reason :
      (d : Decision F) (b : BeliefState F)
      → escalation_reason d b c h ≡ none
      → escalation_reason (break_no_progress_loop d b c h).0 b c h ≡ none
  unfolding break_no_progress_loop first_break escalation_reason
  break-no-reason d b e = ground arith

  break-imminent :
      (d : Decision F) (b : BeliefState F)
      → d.meta.loop_terminal ≡ false
      → (break_no_progress_loop d b c h).0.meta.loop_terminal ≡ true
      → (break_no_progress_loop d b c h).1.escalation_imminent ≡ true
  unfolding break_no_progress_loop first_break
  break-imminent d b e f = ground arith

  module _ ⦃pt : Patterns⦄ where
    back_escalates :
        (d : Decision F) (b : BeliefState F)
        → escalation_reason d b c h ≡ none
        → is_escalate (back_gates d b c h).0.act ≡ true
        → (d.meta.loop_terminal ≡ true)
          × ((back_gates d b c h).0.meta ≡ d.meta)
          × ((back_gates d b c h).1 ≡ b)
    unfolding back_gates no_authority_prefers_callback escalate_only_if_warranted
        offer_low_commitment_on_budget escalation_triggers escalation_reason
    back_escalates d b e f = ground arith

    chain_escalates :
        (d : Decision F) (b : BeliefState F)
        → d.meta.loop_terminal ≡ false
        → escalation_reason d b c h ≡ none
        → is_escalate (gate_chain d b c h).0.act ≡ true
        → ((gate_chain d b c h).0.meta.loop_terminal ≡ true)
          × ((gate_chain d b c h).1.escalation_imminent ≡ true)
    unfolding gate_chain
    chain_escalates d b plain quiet e =
        let e0 = front_gates d b c h in
        let kept : Carries d e0 = front_gates-Carries c h b d in
        let quiet' : escalation_reason e0 b c h ≡ none =
          reason-cong d e0 b kept.concession ∙ quiet in
        let plain' : e0.meta.loop_terminal ≡ false = ap (λ m. m.loop_terminal) kept.meta ∙ plain in
        let (x, y) = break_no_progress_loop e0 b c h in
        let (terminal, meta, belief) =
          back_escalates x y (reason-break x e0 b c h ∙ break-no-reason e0 b quiet') e in
        (
          ap (λ m. m.loop_terminal) meta ∙ terminal,
          ap (λ z. z.escalation_imminent) belief ∙ break-imminent e0 b plain' terminal,
        )

    after_escalates :
        (d : Decision F) (b : BeliefState F)
        → d.meta.loop_terminal ≡ false
        → escalation_reason d b c h ≡ none
        → is_escalate (after_triggers d b c h).0.act ≡ true
        → ((after_triggers d b c h).1.escalation_imminent ≡ true)
          × ((is_some (hostile_or_extreme_bail b c) ≡ true)
              ⊎ ((after_triggers d b c h).0.meta.loop_terminal ≡ true))
    unfolding after_triggers
    after_escalates d b plain quiet e = ground (arith, chain_escalates d b plain quiet)

    -- An unmarked proposal leaves the gates as an escalate only for a trigger, for hostility or
    -- extreme bail, or as the terminal hand-off of the loop-breaker; the flag is raised then.
    pub apply_gates_warranted :
        (d : Decision F) (b : BeliefState F)
        → d.meta.loop_terminal ≡ false
        → (apply_gates d b c h).0.act ≡ escalate
        → ((apply_gates d b c h).1.escalation_imminent ≡ true)
          × ((is_some (escalation_reason (ground_concession d b) b c h) ≡ true)
              ⊎ (is_some (hostile_or_extreme_bail b c) ≡ true)
              ⊎ ((apply_gates d b c h).0.meta.loop_terminal ≡ true))
    unfolding apply_gates escalation_triggers ground_concession
    apply_gates_warranted d b plain e = ground (arith, after_escalates (ground_concession d b) b)
