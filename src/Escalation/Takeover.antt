-- ===== src/Escalation/Takeover.antt =====
-- An operator's takeover of a session (src/voice/escalation.py over src/voice/session.py).
use autonomous_sales_agent.Prelude.{
  ℕ, ◌+◌, none, String, false, sym, ◌∙◌, ap, some, ◌==◌, eq_iff, Option, ◌≡◌, refl, List,
}
use autonomous_sales_agent.Float.{Floating}
use autonomous_sales_agent.Config.{AgentConfig}
use autonomous_sales_agent.Decision.{Decision}
use autonomous_sales_agent.Gates.Reads.{Patterns}
use autonomous_sales_agent.Tracker.Cues.{Cues}
use autonomous_sales_agent.Respond.{Input}
use autonomous_sales_agent.Consent.Pii.{Redactors}
use autonomous_sales_agent.Session.{
  Session, PendingTurn, RetrieveCues, generate, capture, turn_for_speech_id, find_turn,
}
use autonomous_sales_agent.Dict.{lookup, insert, lookup-insert}
use autonomous_sales_agent.Escalation.{snapshot_for_takeover, restore_from_takeover}

module _ {F : Type 0} ⦃fl : Floating F⦄ where
  -- what a commit leaves that the operator reads
  abbrev pub SameCall : Session F → Session F → Type 0
  SameCall s t =
      (t.belief ≡ s.belief)
      × (t.history ≡ s.history)
      × (t.turns ≡ s.turns)
      × (t.kb_version ≡ s.kb_version)
      × (t.next_turn_id ≡ s.next_turn_id)

  -- A session that a snapshot is restored onto goes on as the session that was taken over would: the
  -- next turn is generated the same, and its commit leaves the same belief, history, transcript and
  -- numbering.
  pub restore_from_takeover-resumes :
      ⦃cues : Cues⦄ ⦃pt : Patterns⦄ ⦃rc : RetrieveCues⦄ ⦃r : Redactors⦄ (c : AgentConfig F)
      (hook : Option (String → List String)) (s target : Session F) (speech_id : String)
      (input : Input F) (realize : Decision F → String)
      → let resumed = restore_from_takeover target (snapshot_for_takeover s) in
        let turn = generate c hook s input realize in
        (generate c hook resumed input realize ≡ turn)
        × SameCall (capture s speech_id turn) (capture resumed speech_id turn)
  unfolding restore_from_takeover snapshot_for_takeover generate capture
  restore_from_takeover-resumes c hook s target speech_id input realize =
      (refl, (refl, refl, refl, refl, refl))

  joins :
      (s : Session F) (speech_id : String) (id : ℕ)
      → lookup speech_id s.speech_to_turn ≡ some id
      → turn_for_speech_id s speech_id ≡ find_turn id s.turns
  unfolding turn_for_speech_id
  joins s speech_id id e = ap (λ o. elim o [ none ↦ none | some i ↦ find_turn i s.turns ]) e

  -- A session that took a turn after a snapshot, and that the snapshot is restored onto, takes the next
  -- turn under the number of the lost one: the speech of the lost turn joins to the new turn.
  restore_from_takeover-stale :
      ⦃r : Redactors⦄ (s : Session F) (lost next : String) (lost_turn next_turn : PendingTurn F)
      → next == lost ≡ false
      → let rewound = restore_from_takeover (capture s lost lost_turn) (snapshot_for_takeover s) in
        let e = capture rewound next next_turn in
        turn_for_speech_id e lost ≡ turn_for_speech_id e next
  unfolding restore_from_takeover snapshot_for_takeover capture
  restore_from_takeover-stale s lost next lost_turn next_turn differ =
      let id = s.next_turn_id + 1 in
      let rewound = restore_from_takeover (capture s lost lost_turn) (snapshot_for_takeover s) in
      let joined = insert lost id s.speech_to_turn in
      let old : lookup lost (insert next id joined) ≡ some id =
        lookup-insert next lost id joined
        ∙ rw differ
            (lookup-insert lost lost id s.speech_to_turn ∙ rw ((eq_iff lost lost).1 refl) refl) in
      let new : lookup next (insert next id joined) ≡ some id =
        lookup-insert next next id joined ∙ rw ((eq_iff next next).1 refl) refl in
      joins (capture rewound next next_turn) lost id old
      ∙ sym (joins (capture rewound next next_turn) next id new)
