-- ===== src/Session/Commits.antt =====
-- What the operations of src/voice/session.py other than a commit do to the state of a call.
use autonomous_sales_agent.Prelude.{
  String, Bool, true, false, Option, none, some, List, [], ◌∷◌, ◌≡◌, refl, arith, All, eq_iff,
}
use autonomous_sales_agent.Float.{Floating}
use autonomous_sales_agent.Dict.{lookup, insert, lookup-insert, lookup-remove}
use autonomous_sales_agent.Config.{AgentConfig}
use autonomous_sales_agent.Decision.{Decision}
use autonomous_sales_agent.Gates.Reads.{Patterns}
use autonomous_sales_agent.Tracker.Cues.{Cues}
use autonomous_sales_agent.Respond.{Input}
use autonomous_sales_agent.Consent.{ConsentGate, Phase, can_converse}
use autonomous_sales_agent.Consent.Pii.{Redactors}
use autonomous_sales_agent.Session.{
  Session, PendingTurn, Outcome, RetrieveCues, consent_error, buffered, blocked_by, generate,
  handle_user_turn, commit_turn, discard_speculative, on_barge_in,
}

-- The state that only a commit may write.
abbrev pub SameCommitted : {F : Type 0} → Session F → Session F → Type 0
SameCommitted s t =
    (t.belief ≡ s.belief)
    × (t.history ≡ s.history)
    × (t.turns ≡ s.turns)
    × (t.speech_to_turn ≡ s.speech_to_turn)
    × (t.turn_to_speech ≡ s.turn_to_speech)
    × (t.next_turn_id ≡ s.next_turn_id)

-- What a handled user turn may do to a session.
abbrev pub OnlyBuffers : {F : Type 0} → Session F → String → Outcome F → Type 0
OnlyBuffers s speech_id (consent_error state) =
    (gate : ConsentGate) × (s.consent_gate ≡ some gate)
    × (can_converse gate ≡ false)
    × (gate.state ≡ state)
OnlyBuffers s speech_id (buffered turn t) =
    SameCommitted s t × (lookup speech_id t.pending ≡ some turn)

-- The state between two turns of the worker: a turn is handled, committed, or dropped.
pub data SessionEvent (F : Type 0) : Type 0 where
  heard : String → Input F → (Decision F → String) → SessionEvent F
  committed discarded barged_in : String → SessionEvent F

abbrev pub is_commit : {F : Type 0} → SessionEvent F → Bool
is_commit (committed speech_id) = true
is_commit _ = false

-- The session that a worker has after a call of `handle_user_turn`: a consent error changes nothing.
abbrev pub session_after : {F : Type 0} → Session F → Outcome F → Session F
session_after s (consent_error state) = s
session_after s (buffered turn t) = t

after-SameCommitted :
    {F : Type 0} (s : Session F) (speech_id : String) (o : Outcome F)
    → OnlyBuffers s speech_id o
    → SameCommitted s (session_after s o)
after-SameCommitted s speech_id (consent_error state) b = (refl, refl, refl, refl, refl, refl)
after-SameCommitted s speech_id (buffered turn t) b = b.0

SameCommitted-trans :
    {F : Type 0} (s t u : Session F) → SameCommitted s t → SameCommitted t u → SameCommitted s u
SameCommitted-trans s t u p q = ground arith

module _ {F : Type 0} (s : Session F) where
  blocked-gate :
      (state : Phase) (gate : Option ConsentGate)
      → s.consent_gate ≡ gate
      → blocked_by s ≡ some state
      → (g : ConsentGate) × (s.consent_gate ≡ some g) × (can_converse g ≡ false) × (g.state ≡ state)
  unfolding blocked_by
  blocked-gate state none e b = ground arith
  blocked-gate state (some g) e b = (g, e, ground arith, ground arith)

  handled-OnlyBuffers :
      (speech_id : String) (turn : PendingTurn F) (blocked : Option Phase)
      → blocked_by s ≡ blocked
      → OnlyBuffers s speech_id (elim blocked as (λ _. Outcome F) [
        | some state ↦ consent_error state
        | none ↦ buffered turn (record s { pending = insert speech_id turn s.pending })
      ])
  handled-OnlyBuffers speech_id turn none e = (
    (refl, refl, refl, refl, refl, refl),
    ground (arith, eq_iff speech_id speech_id, lookup-insert speech_id speech_id turn s.pending),
  )
  handled-OnlyBuffers speech_id turn (some state) e = blocked-gate state s.consent_gate refl e

  -- A turn that was discarded or interrupted cannot be committed any more, and the committed state
  -- is as it was.
  pub commit_turn-dropped :
      ⦃r : Redactors⦄ (speech_id : String)
      → (commit_turn (discard_speculative s speech_id) speech_id ≡ discard_speculative s speech_id)
        × SameCommitted s (discard_speculative s speech_id)
        × (commit_turn (on_barge_in s speech_id) speech_id ≡ on_barge_in s speech_id)
        × SameCommitted s (on_barge_in s speech_id)
  unfolding commit_turn discard_speculative on_barge_in
  commit_turn-dropped speech_id =
      ground (arith, eq_iff speech_id speech_id, lookup-remove speech_id speech_id s.pending)

module _ {F : Type 0} ⦃fl : Floating F⦄ ⦃cues : Cues⦄ ⦃pt : Patterns⦄ ⦃rc : RetrieveCues⦄
    (c : AgentConfig F) (hook : Option (String → List String)) where
  -- A user turn is refused exactly because the gate of the call does not let it converse, and then
  -- nothing is generated; or it is buffered under its speech id, and the committed state is as it was.
  handle_user_turn-OnlyBuffers :
      (s : Session F) (speech_id : String) (input : Input F) (realize : Decision F → String)
      → OnlyBuffers s speech_id (handle_user_turn c hook s speech_id input realize)
  unfolding handle_user_turn
  handle_user_turn-OnlyBuffers s speech_id input realize =
      handled-OnlyBuffers s speech_id (generate c hook s input realize) (blocked_by s) refl

  module _ ⦃r : Redactors⦄ where
    unfoldable pub step : Session F → SessionEvent F → Session F
    unfolding handle_user_turn commit_turn discard_speculative on_barge_in
    step s (heard speech_id input realize) =
        session_after s (handle_user_turn c hook s speech_id input realize)
    step s (committed speech_id) = commit_turn s speech_id
    step s (discarded speech_id) = discard_speculative s speech_id
    step s (barged_in speech_id) = on_barge_in s speech_id

    unfoldable pub run : Session F → List (SessionEvent F) → Session F
    unfolding step
    run s [] = s
    run s (e ∷ es) = run (step s e) es

    pub step-SameCommitted :
        (s : Session F) (e : SessionEvent F) → is_commit e ≡ false → SameCommitted s (step s e)
    unfolding step discard_speculative on_barge_in
    step-SameCommitted s (heard speech_id input realize) n =
        after-SameCommitted s speech_id (handle_user_turn c hook s speech_id input realize)
          (handle_user_turn-OnlyBuffers s speech_id input realize)
    step-SameCommitted s (committed speech_id) n = cc n
    step-SameCommitted s (discarded speech_id) n = (refl, refl, refl, refl, refl, refl)
    step-SameCommitted s (barged_in speech_id) n = (refl, refl, refl, refl, refl, refl)

    -- However many turns are heard, discarded and interrupted, the belief, the history, the transcript
    -- and the join maps stay as they were until a turn is committed.
    run-SameCommitted :
        (s : Session F) (es : List (SessionEvent F))
        → All (λ e. is_commit e ≡ false) es
        → SameCommitted s (run s es)
    unfolding run
    run-SameCommitted s [] n = (refl, refl, refl, refl, refl, refl)
    run-SameCommitted s (e ∷ es) (n, ns) =
        SameCommitted-trans s (step s e) (run (step s e) es) (step-SameCommitted s e n)
          (run-SameCommitted (step s e) es ns)
