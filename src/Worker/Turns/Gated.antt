-- ===== src/Worker/Turns/Gated.antt =====
-- That nothing is said by the brain, or kept, before the gate of src/voice/worker.py lets the call converse.
use autonomous_sales_agent.Prelude.{
  ℕ, String, Bool, true, false, not, ◌||◌, ◌≡◌, refl, sym, ap, ◌∙◌, Option, none, some, List, [],
  ◌∷◌, if◌then◌else◌, arith, truthy, Bool-cases, inl, inr,
}
use autonomous_sales_agent.Float.{Floating}
use autonomous_sales_agent.Dict.{lookup, remove}
use autonomous_sales_agent.Gates.Reads.{Patterns}
use autonomous_sales_agent.Tracker.Cues.{Cues}
use autonomous_sales_agent.Knowledge.{Texts}
use autonomous_sales_agent.Consent.{ConsentGate, Phase, MinorCues, can_converse}
use autonomous_sales_agent.Respond.{Input}
use autonomous_sales_agent.Consent.Pii.{Redactors}
use autonomous_sales_agent.Session.{
  RetrieveCues, Session, PendingTurn, blocked_by, commit_turn, capture, on_barge_in, new_session,
}
use autonomous_sales_agent.Session.Streams.{
  Streamed, stopped, yielded, stream_turn, handle_user_turn_stream,
}
use autonomous_sales_agent.Worker.{ReplyCues, classify_consent_reply}
use autonomous_sales_agent.Worker.Turns.{
  WorkerAgent, new_agent, done, after_hook, arm_spoken_consent, take_verdict, answer_gate,
  handle_consent_turn, stash_turn, on_user_turn_completed, is_minor_text, capture_post_commit,
  commit_pending, Brain, CallEvent, user_turn, llm_reply, speech_done, commit_streamed,
  stream_reply, llm_node, on_done, handle_event, handle_events,
}

abbrev may_of : Option ConsentGate → Bool
may_of none = true
may_of (some gate) = can_converse gate

module _ {F : Type 0} where
  -- whether the gate lets the call converse; a session without a gate does
  abbrev pub may_converse : Session F → Bool
  may_converse s = may_of s.consent_gate

  -- a call whose question is open, or whose gate is shut
  abbrev pub is_closed : WorkerAgent F → Bool
  is_closed a = a.awaiting_consent || not (may_converse a.session)

  -- nothing is stashed, buffered or kept
  abbrev pub IsQuiet : WorkerAgent F → Type 0
  IsQuiet a = (a.pending_user_text ≡ none) × (a.session.pending ≡ []) × (a.session.turns ≡ [])

  abbrev pub IsGated : WorkerAgent F → Type 0
  IsGated a = is_closed a ≡ true → IsQuiet a

  -- a hook that keeps what is stashed, buffered and kept
  abbrev KeepsQuiet : WorkerAgent F → WorkerAgent F → Type 0
  KeepsQuiet a b =
      (b.pending_user_text ≡ a.pending_user_text)
      × (b.session.pending ≡ a.session.pending)
      × (b.session.turns ≡ a.session.turns)

  take_verdict-KeepsQuiet :
      (a : WorkerAgent F) (gate : ConsentGate) (verdict : String)
      → KeepsQuiet a (after_hook (take_verdict a gate verdict))
  unfolding take_verdict
  take_verdict-KeepsQuiet a gate verdict = (ground arith, ground arith, ground arith)

  blocked_by-may : (s : Session F) → (blocked_by s ≡ none) → may_converse s ≡ true
  unfolding blocked_by
  blocked_by-may s h = ground arith

  module _ ⦃fl : Floating F⦄ ⦃replies : ReplyCues⦄ ⦃minors : MinorCues⦄ where
    answer_gate-KeepsQuiet :
        (a : WorkerAgent F) (text : String) (gate : ConsentGate)
        → KeepsQuiet a (after_hook (answer_gate a text gate))
    unfolding answer_gate
    answer_gate-KeepsQuiet a text gate = elim (Bool-cases (is_minor_text F minors text)) [
      | inl e ↦ rw e (refl, refl, refl)
      | inr e ↦ rw e (take_verdict-KeepsQuiet a gate (classify_consent_reply (some text)))
    ]

    by_gate-KeepsQuiet :
        (a : WorkerAgent F) (text : String) (g : Option ConsentGate)
        → KeepsQuiet a (
            after_hook (elim g [
              | none ↦ done (record a { awaiting_consent = false })
              | some gate ↦ answer_gate a text gate
            ]))
    by_gate-KeepsQuiet a text none = (refl, refl, refl)
    by_gate-KeepsQuiet a text (some gate) = answer_gate-KeepsQuiet a text gate

    handle_consent_turn-KeepsQuiet :
        (a : WorkerAgent F) (text : String) → KeepsQuiet a (after_hook (handle_consent_turn a text))
    unfolding handle_consent_turn
    handle_consent_turn-KeepsQuiet a text = by_gate-KeepsQuiet a text a.session.consent_gate

    -- a stash leaves a gated call gated: the gate was open
    stash_turn-IsGated :
        (a : WorkerAgent F) (text : String)
        → a.awaiting_consent ≡ false
        → IsGated a
        → IsGated (after_hook (stash_turn a text))
    unfolding stash_turn blocked_by
    stash_turn-IsGated a text w g c =
        let p = blocked_by-may a.session in (ground arith, ground arith, ground arith)

    turn_by-IsGated :
        (a : WorkerAgent F) (text : String) (full waits : Bool)
        → a.awaiting_consent ≡ waits
        → IsGated a
        → IsGated (
            after_hook (
              if not full
              then done a
              else if waits
              then handle_consent_turn a text
              else stash_turn a text))
    turn_by-IsGated a text false waits w g c = g c
    turn_by-IsGated a text true false w g c = stash_turn-IsGated a text w g c
    turn_by-IsGated a text true true w g c =
        let kept = handle_consent_turn-KeepsQuiet a text in
        let quiet = g (ground arith) in (kept.0 ∙ quiet.0, kept.1 ∙ quiet.1, kept.2 ∙ quiet.2)

    on_user_turn_completed-IsGated :
        (a : WorkerAgent F) (text : String)
        → IsGated a
        → IsGated (after_hook (on_user_turn_completed a text))
    unfolding on_user_turn_completed
    on_user_turn_completed-IsGated a text g =
        turn_by-IsGated a text (truthy (some text)) a.awaiting_consent refl g

  -- a stream that leaves the gate of its session
  abbrev KeepsGate : Session F → Streamed F → Type 0
  KeepsGate s (stopped state) = Unit
  KeepsGate s (yielded parts s') = s'.consent_gate ≡ s.consent_gate

  capture_post_commit-same :
      (a : WorkerAgent F) (speech_id : String) (p : Option (PendingTurn F))
      → ((capture_post_commit a speech_id p).session ≡ a.session)
        × ((capture_post_commit a speech_id p).awaiting_consent ≡ a.awaiting_consent)
        × ((capture_post_commit a speech_id p).pending_user_text ≡ a.pending_user_text)
  unfolding capture_post_commit
  capture_post_commit-same a speech_id none = (refl, refl, refl)
  capture_post_commit-same a speech_id (some p) = (ground arith, ground arith, ground arith)

  module _ ⦃r : Redactors⦄ where
    pub commit_turn-gate :
        (s : Session F) (speech_id : String)
        → (commit_turn s speech_id).consent_gate ≡ s.consent_gate
    unfolding commit_turn capture
    commit_turn-gate s speech_id = ground arith

    commit_turn-empty :
        (s : Session F) (speech_id : String) → s.pending ≡ [] → commit_turn s speech_id ≡ s
    unfolding commit_turn lookup
    commit_turn-empty s speech_id h = ground arith

    -- what a commit leaves of a gated call
    commit_pending-closed :
        (a : WorkerAgent F) (speech_id : String)
        → is_closed (commit_pending a speech_id) ≡ is_closed a
    unfolding commit_pending
    commit_pending-closed a speech_id =
        let same =
          capture_post_commit-same (record a { session = commit_turn a.session speech_id })
            speech_id (lookup speech_id a.session.pending) in
        let gate =
          ap may_of (ap (λ s. s.consent_gate) same.0 ∙ commit_turn-gate a.session speech_id) in
        cc (same.1, gate)

    commit_pending-IsGated :
        (a : WorkerAgent F) (speech_id : String) → IsGated a → IsGated (commit_pending a speech_id)
    unfolding commit_pending
    commit_pending-IsGated a speech_id g c =
        let same =
          capture_post_commit-same (record a { session = commit_turn a.session speech_id })
            speech_id (lookup speech_id a.session.pending) in
        let quiet = g (sym (commit_pending-closed a speech_id) ∙ c) in
        let kept = same.0 ∙ commit_turn-empty a.session speech_id quiet.1 in
        (same.2 ∙ quiet.0, ap (λ s. s.pending) kept ∙ quiet.1, ap (λ s. s.turns) kept ∙ quiet.2)

    on_done-IsGated :
        (a : WorkerAgent F) (speech_id : String) (interrupted : Bool)
        → IsGated a
        → IsGated (on_done a speech_id interrupted)
    unfolding on_done on_barge_in remove
    on_done-IsGated a speech_id false g c = commit_pending-IsGated a speech_id g c
    on_done-IsGated a speech_id true g c =
        let quiet = g c in (quiet.0, ap (λ pending. remove speech_id pending) quiet.1, quiet.2)

    -- a stream that leaves the session's gate leaves the call as it was, closed or not
    commit_streamed-closed :
        (a : WorkerAgent F) (id : String) (st : Streamed F)
        → KeepsGate a.session st
        → is_closed (after_hook (commit_streamed a id st)) ≡ is_closed a
    commit_streamed-closed a id (stopped state) h = refl
    commit_streamed-closed a id (yielded parts s) h =
        commit_pending-closed (record a { session = s }) id
        ∙ ap (λ g. a.awaiting_consent || not (may_of g)) h

  module _ ⦃fl : Floating F⦄ ⦃cues : Cues⦄ ⦃pt : Patterns⦄ ⦃texts : Texts⦄ ⦃rc : RetrieveCues⦄
      ⦃r : Redactors⦄ ⦃replies : ReplyCues⦄ ⦃minors : MinorCues⦄ where
    stream_turn-KeepsGate :
        (brain : Brain F) (s : Session F) (id : String) (input : Input F) (gate : Option Phase)
        → KeepsGate s (elim gate [
          | some state ↦ stopped state
          | none ↦ stream_turn brain.config brain.hook s id input brain.realize_stream
        ])
    unfolding stream_turn
    stream_turn-KeepsGate brain s id input none = refl
    stream_turn-KeepsGate brain s id input (some state) = tt

    handle_user_turn_stream-KeepsGate :
        (brain : Brain F) (s : Session F) (id : String) (input : Input F)
        → KeepsGate s
            (handle_user_turn_stream brain.config brain.hook s id input brain.realize_stream)
    unfolding handle_user_turn_stream
    handle_user_turn_stream-KeepsGate brain s id input =
        stream_turn-KeepsGate brain s id input (blocked_by s)

    stream_reply-IsGated :
        (brain : Brain F) (a : WorkerAgent F) (id : Option ℕ) (text : Option String)
        → a.pending_user_text ≡ text
        → IsGated a
        → IsGated (after_hook (stream_reply brain a id text))
    unfolding stream_reply
    stream_reply-IsGated brain a none text e g c = g c
    stream_reply-IsGated brain a (some id) none e g c = g c
    stream_reply-IsGated brain a (some id) (some text) e g c =
        let here = record a { pending_user_text = none } in
        let input = record (brain.input text) { utterance = text } in
        let kept = handle_user_turn_stream-KeepsGate brain a.session (brain.speech_id id) input in
        let closed =
          commit_streamed-closed here (brain.speech_id id)
            (handle_user_turn_stream brain.config brain.hook a.session (brain.speech_id id) input
              brain.realize_stream)
            kept in
        absurd (cc (e, (g (sym closed ∙ c)).0))

    handle_event-IsGated :
        (a : WorkerAgent F) (e : CallEvent F) → IsGated a → IsGated (handle_event a e)
    unfolding handle_event llm_node
    handle_event-IsGated a (user_turn text) g = on_user_turn_completed-IsGated a text g
    handle_event-IsGated a (llm_reply brain) g =
        stream_reply-IsGated brain a a.pending_speech_id a.pending_user_text refl g
    handle_event-IsGated a (speech_done id interrupted) g = on_done-IsGated a id interrupted g

    play-IsGated :
        (a : WorkerAgent F) (events : List (CallEvent F))
        → IsGated a
        → IsGated (handle_events a events)
    unfolding handle_events
    play-IsGated a [] g = g
    play-IsGated a (e ∷ events) g =
        play-IsGated (handle_event a e) events (handle_event-IsGated a e g)

    -- a call with a new session, its question armed or not
    abbrev pub new_call : String → Option ConsentGate → Bool → WorkerAgent F
    unfolding arm_spoken_consent new_session
    new_call kb_version gate armed =
        if armed
        then (arm_spoken_consent (new_agent (new_session kb_version gate))).0
        else new_agent (new_session kb_version gate)

    new_call-IsGated :
        (kb_version : String) (gate : Option ConsentGate) (armed : Bool)
        → IsGated (new_call kb_version gate armed)
    unfolding arm_spoken_consent new_session
    new_call-IsGated kb_version gate true c = (refl, refl, refl)
    new_call-IsGated kb_version gate false c = (refl, refl, refl)

    -- Whatever happens in a call that starts with a new session, its question for consent armed or not:
    -- where the question is open at the end, or the gate does not let the call converse, nothing is stashed
    -- for the brain, nothing is buffered, and nothing is in the transcript.
    pub handle_events-IsQuiet :
        (kb_version : String) (gate : Option ConsentGate) (armed : Bool)
        (events : List (CallEvent F))
        → is_closed (handle_events (new_call kb_version gate armed) events) ≡ true
        → IsQuiet (handle_events (new_call kb_version gate armed) events)
    handle_events-IsQuiet kb_version gate armed events c =
        play-IsGated (new_call kb_version gate armed) events
          (new_call-IsGated kb_version gate armed) c
