-- ===== src/Respond/Requests.antt =====
-- A caller who asks for a human, from the tracker to the books of `_decide_turn` (src/core/respond.py).
use autonomous_sales_agent.Prelude.{
  String, true, ◌≡◌, ◌∙◌, none, some, List, arith, if◌then◌else◌, is_some, Option-cases, inl, inr,
}
use autonomous_sales_agent.Float.{Floating}
use autonomous_sales_agent.Config.{AgentConfig}
use autonomous_sales_agent.Decision.{Decision, escalate}
use autonomous_sales_agent.Belief.{BeliefState}
use autonomous_sales_agent.Gates.Reads.{HistoryTurn, Patterns, escalation_reason}
use autonomous_sales_agent.Gates.LoopBreaker.{record_recent_act}
use autonomous_sales_agent.Gates.Chain.{ground_concession}
use autonomous_sales_agent.Gates.Chain.Escalates.{apply_gates_defers}
use autonomous_sales_agent.Tracker.Cues.{Cues}
use autonomous_sales_agent.Tracker.Update.{update, intent_of}
use autonomous_sales_agent.Tracker.Update.Labels.{update-labels}
use autonomous_sales_agent.Policy.{decide, parse_proposal}
use autonomous_sales_agent.Respond.{
  Input, decide_turn, keep_books, record_confidence, record_asked_slot, note_question, latch,
  stamp_facts, turn_of,
}

module _ {F : Type 0} ⦃fl : Floating F⦄ where
  keep_books-imminent :
      (b : BeliefState F) (d : Decision F)
      → (keep_books b d).escalation_imminent ≡ b.escalation_imminent
  unfolding keep_books record_confidence record_asked_slot note_question record_recent_act latch
  keep_books-imminent b d = ground arith

  stamp_facts-same :
      (d : Decision F) (facts : List String)
      → ((stamp_facts d facts).act ≡ d.act) × ((stamp_facts d facts).tier ≡ d.tier)
  unfolding stamp_facts
  stamp_facts-same d facts = ground arith

  request-reason :
      (d : Decision F) (b : BeliefState F) (c : AgentConfig F) (h : List (HistoryTurn F))
      → b.last_user_act ≡ some "human_request"
      → is_some (escalation_reason d b c h) ≡ true
  unfolding escalation_reason
  request-reason d b c h e = ground arith

  module _ ⦃pt : Patterns⦄ where
    decide-request :
        (b : BeliefState F) (h : List (HistoryTurn F)) (c : AgentConfig F) (input : Input F)
        → b.last_user_act ≡ some "human_request"
        → let out = decide b h c input.proposal in
          (out.0.act ≡ escalate) × (out.0.tier ≡ none) × (out.1.escalation_imminent ≡ true)
    unfolding decide
    decide-request b h c input e =
        let d = parse_proposal input.proposal in
        let fires = request-reason (ground_concession d b) b c h e in
        elim (Option-cases (escalation_reason (ground_concession d b) b c h)) [
          | inl quiet ↦ cc (fires, quiet)
          | inr (r, found) ↦ let out = apply_gates_defers c h d b r found in (out.0, out.1, out.3)
        ]

    -- A turn that the caller's channel, or else the tracker, takes for a request for a human is handed off:
    -- whatever the model proposes and whatever the call has come to, the decision is an escalate without a
    -- tier, and the belief that the turn leaves has the flag of an escalation raised.
    pub decide_turn-request :
        ⦃cues : Cues⦄ (belief : BeliefState F) (history : List (HistoryTurn F)) (input : Input F)
        (c : AgentConfig F)
        → (if is_some input.upstream_act
            then input.upstream_act
            else (intent_of input.utterance input.reply).user_act)
          ≡ some "human_request"
        → let out = decide_turn belief history input c in
          (out.0.act ≡ escalate) × (out.0.tier ≡ none) × (out.1.escalation_imminent ≡ true)
    unfolding decide_turn
    decide_turn-request belief history input c e =
        let b = update belief (turn_of history input) in
        let asks = (update-labels belief (turn_of history input)).0 ∙ e in
        let out = decide b history c input.proposal in
        let handed = decide-request b history c input asks in
        let stamped = stamp_facts-same out.0 input.facts in
        (stamped.0 ∙ handed.0, stamped.1 ∙ handed.1, keep_books-imminent out.1 out.0 ∙ handed.2)
