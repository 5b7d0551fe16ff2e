-- ===== src/Replies/Turns.antt =====
-- A whole turn of src/core/respond.py, wording and checks included, on the blocking and on the
-- streaming path.
use autonomous_sales_agent.Prelude.{
  String, Bool, true, false, not, ◌||◌, ◌≡◌, refl, ap, sym, subst, ◌∙◌, or_else, is_some, Option,
  none, some, List, arith, Option-cases, inl, inr, ◌⊎◌,
}
use autonomous_sales_agent.Float.{Floating}
use autonomous_sales_agent.Config.{AgentConfig}
use autonomous_sales_agent.Decision.{Decision}
use autonomous_sales_agent.Belief.{BeliefState}
use autonomous_sales_agent.Gates.Reads.{HistoryTurn, Patterns}
use autonomous_sales_agent.Tracker.Cues.{Cues}
use autonomous_sales_agent.Respond.{Input, decide_turn}
use autonomous_sales_agent.Knowledge.{Texts, Fact}
use autonomous_sales_agent.Replies.{
  is_claim_act, first_try, repetition_retry, Realize, flagged, near_verbatim_repetition,
  own_last_lines, accepted, ground_blocking_reply, say_anew, derepetition_blocking_reply, Spoken,
  with_facts, safeguard, after_wording, respond, stream_stamp, stream_outcome, respond_stream,
}
use autonomous_sales_agent.Replies.Safeguards.{
  is_honest, keeps, ground_blocking_reply-is_honest, derepetition-keeps,
}

-- the flags that a streamed reply leaves
abbrev pub is_flagged : {F : Type 0} → Spoken F → Bool
is_flagged s =
    (elim s.grounding [ none ↦ false | some stamp ↦ not stamp.grounded ])
    || elim s.repetition [ flagged ↦ true | _ ↦ false ]

say_anew-reply :
    ⦃texts : Texts⦄ (reply retried : String) (own_lines : List String)
    → (say_anew reply (some retried) own_lines).0 ≡ retried
unfolding say_anew
say_anew-reply reply retried own_lines = ground arith

module _ {F : Type 0} ⦃fl : Floating F⦄ ⦃texts : Texts⦄ ⦃cues : Cues⦄ ⦃pt : Patterns⦄ where
  safeguard-is_honest :
      (d : Decision F) (b : BeliefState F) (realize : Realize F) (facts : List (Fact F))
      (own_lines : List String) (reply : String)
      → is_claim_act d.act ≡ true
      → keeps (safeguard d b realize facts own_lines reply).repetition ≡ true
      → is_honest facts (safeguard d b realize facts own_lines reply).reply ≡ true
  unfolding safeguard
  safeguard-is_honest d b realize facts own_lines reply claims kept =
      let checked = (ground_blocking_reply reply d b realize facts own_lines).0 in
      rw (derepetition-keeps d b realize facts own_lines checked kept)
        (ground_blocking_reply-is_honest d b realize facts own_lines reply claims)

  module _ (c : AgentConfig F) (belief : BeliefState F) (history : List (HistoryTurn F))
      (input : Input F) (facts : List (Fact F)) (realize : Realize F) where
    -- the decision and the belief of the turn
    abbrev pub decided : Decision F × BeliefState F
    decided = decide_turn belief history (with_facts input facts) c

    -- the first wording of the turn
    abbrev pub first_wording : Option String
    first_wording = realize first_try decided.0 decided.1 (own_last_lines history)

    respond-safeguard :
        (reply : String)
        → first_wording ≡ some reply
        → respond belief history input c realize facts
          ≡ some (safeguard decided.0 decided.1 realize facts (own_last_lines history) reply)
    unfolding respond after_wording
    respond-safeguard reply e =
        ap (after_wording decided.0 decided.1 realize facts (own_last_lines history)) e

    pub respond-is_some :
        is_some first_wording ≡ true → is_some (respond belief history input c realize facts) ≡ true
    unfolding respond after_wording
    respond-is_some h = elim (Option-cases first_wording) [
      | inl n ↦ absurd (ground (arith, n, h))
      | inr (reply, p) ↦ subst (λ o. is_some o ≡ true) (sym (respond-safeguard reply p)) refl
    ]

    -- what a turn gives is the checks' outcome on its first wording
    respond-inverse :
        (out : Spoken F)
        → respond belief history input c realize facts ≡ some out
        → (reply : String) × (first_wording ≡ some reply)
          × (out ≡ safeguard decided.0 decided.1 realize facts (own_last_lines history) reply)
    unfolding respond after_wording
    respond-inverse out e = elim (Option-cases first_wording) [
      | inl n ↦
          let lost =
            ap (after_wording decided.0 decided.1 realize facts (own_last_lines history)) n in
          absurd (ground (arith, sym lost ∙ e))
      | inr (reply, p) ↦ (reply, p, ap (λ o. or_else o out) (sym e ∙ respond-safeguard reply p))
    ]

    -- A reply that a turn with a factual act gives, and that the check for a repetition has not
    -- reworded, is the fallback line, or has every number and every promise word (stopwords aside) in
    -- the retrieved facts, as the retriever normalises numbers and matches stems.
    pub respond-is_honest :
        (out : Spoken F)
        → respond belief history input c realize facts ≡ some out
        → is_claim_act out.decision.act ≡ true
        → keeps out.repetition ≡ true
        → is_honest facts out.reply ≡ true
    unfolding safeguard
    respond-is_honest out e claims kept =
        let (reply, p, q) = respond-inverse out e in
        subst (λ o. is_honest facts o.reply ≡ true) (sym q)
          (safeguard-is_honest decided.0 decided.1 realize facts (own_last_lines history) reply
            (subst (λ o. is_claim_act o.decision.act ≡ true) q claims)
            (subst (λ o. keeps o.repetition ≡ true) q kept))

    -- The check for a repetition runs last: where it finds one, the turn says the answer to its retry,
    -- whatever that is, one that the check of the facts would have rejected included.
    respond-unchecked :
        (reply retried : String)
        → first_wording ≡ some reply
        → near_verbatim_repetition
            (ground_blocking_reply reply decided.0 decided.1 realize facts
              (own_last_lines history)).0
            (own_last_lines history)
          ≡ true
        → realize repetition_retry decided.0 decided.1 (own_last_lines history) ≡ some retried
        → accepted retried facts ≡ false
        → (out : Spoken F) × (respond belief history input c realize facts ≡ some out)
          × (out.reply ≡ retried)
    unfolding safeguard derepetition_blocking_reply
    respond-unchecked reply retried e again answer rejected = (
      safeguard decided.0 decided.1 realize facts (own_last_lines history) reply,
      respond-safeguard reply e,
      rw (again, answer) (say_anew-reply _ retried (own_last_lines history)),
    )

    stream-flags :
        (d : Decision F) (b : BeliefState F) (own_lines : List String) (reply : String)
        → let out = safeguard d b realize facts own_lines reply in
          let flags = stream_outcome d b facts own_lines reply in
          (flags.decision ≡ out.decision)
          × (flags.belief ≡ out.belief)
          × ((flags.reply ≡ out.reply) ⊎ (is_flagged flags ≡ true))
    unfolding safeguard stream_outcome stream_stamp ground_blocking_reply
        derepetition_blocking_reply accepted
    stream-flags d b own_lines reply = ground arith

    -- Where the streamed tokens join to the first wording of the blocking path, both paths give the
    -- same decision and the same belief, and the same reply unless the stream flags its own.
    pub respond-respond_stream :
        (realize_stream : Decision F → BeliefState F → List String → List String) (out : Spoken F)
        → first_wording
          ≡ some (texts.concat (realize_stream decided.0 decided.1 (own_last_lines history)))
        → respond belief history input c realize facts ≡ some out
        → let streamed = (respond_stream belief history input c realize_stream facts).1 in
          (streamed.decision ≡ out.decision)
          × (streamed.belief ≡ out.belief)
          × ((streamed.reply ≡ out.reply) ⊎ (is_flagged streamed ≡ true))
    unfolding respond_stream
    respond-respond_stream realize_stream out first e =
        let reply = texts.concat (realize_stream decided.0 decided.1 (own_last_lines history)) in
        let same = ap (λ o. or_else o out) (sym e ∙ respond-safeguard reply first) in
        rw same (stream-flags decided.0 decided.1 (own_last_lines history) reply)
