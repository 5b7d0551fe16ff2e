-- ===== src/Session/Transcript.antt =====
-- The transcript that commits leave (src/voice/session.py): its numbers, its scrubbed text, and the
-- way from a speech id to its turn and back.
use autonomous_sales_agent.Prelude.{
  ℕ, suc, ◌+◌, ◌≤◌, String, false, Option, none, some, List, [], ◌∷◌, ◌++◌, ◌≡◌, refl, sym, ap, ◌∙◌,
  arith, length, if◌then◌else◌, ◌==◌, eq_iff, length-append, subst,
}
use autonomous_sales_agent.Float.{Floating}
use autonomous_sales_agent.Dict.{lookup, lookup-insert, lookup-remove}
use autonomous_sales_agent.Config.{AgentConfig}
use autonomous_sales_agent.Gates.Reads.{HistoryTurn, Patterns, said}
use autonomous_sales_agent.Tracker.Cues.{Cues}
use autonomous_sales_agent.Consent.Pii.{Redactors, scrub_pii}
use autonomous_sales_agent.Session.{
  Session, PendingTurn, CapturedTurn, RetrieveCues, commit_turn, capture, find_turn, find_speech,
  turn_for_speech_id, speech_id_for_turn, user_turn, agent_turn,
}
use autonomous_sales_agent.Session.Commits.{
  SessionEvent, heard, committed, discarded, barged_in, is_commit, step, run, step-SameCommitted,
  SameCommitted,
}

-- The turns are numbered from `n`, without a gap.
abbrev pub Numbered : {F : Type 0} → ℕ → List (CapturedTurn F) → Type 0
Numbered n [] = Unit
Numbered n (t ∷ ts) = (t.turn_id ≡ n) × Numbered (suc n) ts

abbrev pub speaker_role : String → String
speaker_role role = if role == "user" then "prospect" else role

-- The transcript is the history, entry by entry, with its text scrubbed.
abbrev pub Mirrors :
    {F : Type 0} ⦃r : Redactors⦄ → List (CapturedTurn F) → List (HistoryTurn F) → Type 0
Mirrors [] [] = Unit
Mirrors [] (h ∷ hs) = ⊥
Mirrors (t ∷ ts) [] = ⊥
Mirrors (t ∷ ts) (h ∷ hs) =
    ((t.text ≡ scrub_pii (some (said h)))
      × (t.speaker ≡ speaker_role h.role)
      × (t.decision ≡ h.act))
    × Mirrors ts hs

-- A session whose transcript is numbered from 0, up to the next number, and mirrors the history.
abbrev pub IsRecorded : {F : Type 0} ⦃r : Redactors⦄ → Session F → Type 0
IsRecorded s = Numbered 0 s.turns × (s.next_turn_id ≡ length s.turns) × Mirrors s.turns s.history

module _ {F : Type 0} where
  Numbered-append :
      (n : ℕ) (ts us : List (CapturedTurn F))
      → Numbered n ts
      → Numbered (n + length ts) us
      → Numbered n (ts ++ us)
  Numbered-append n [] us p q = subst (λ m. Numbered m us) (omega arith) q
  Numbered-append n (t ∷ ts) us (p, ps) q =
      (p, Numbered-append (suc n) ts us ps (subst (λ m. Numbered m us) (omega arith) q))

  find-behind :
      (n id : ℕ) (ts us : List (CapturedTurn F))
      → Numbered n ts
      → n + length ts ≤ id
      → find_turn id (ts ++ us) ≡ find_turn id us
  unfolding find_turn
  find-behind n id [] us p le = refl
  find-behind n id (t ∷ ts) us (p, ps) le =
      ground (arith, find-behind (suc n) id ts us ps (omega arith))

  module _ ⦃r : Redactors⦄ where
    Mirrors-append :
        (ts us : List (CapturedTurn F)) (hs is : List (HistoryTurn F))
        → Mirrors ts hs
        → Mirrors us is
        → Mirrors (ts ++ us) (hs ++ is)
    Mirrors-append [] us [] is p q = q
    Mirrors-append [] us (h ∷ hs) is p q = absurd p
    Mirrors-append (t ∷ ts) us [] is p q = absurd p
    Mirrors-append (t ∷ ts) us (h ∷ hs) is (p, ps) q = (p, Mirrors-append ts us hs is ps q)

    capture-IsRecorded :
        (s : Session F) (speech_id : String) (p : PendingTurn F)
        → IsRecorded s
        → IsRecorded (capture s speech_id p)
    unfolding capture
    capture-IsRecorded s speech_id p (numbered, next, mirrors) = (
      Numbered-append 0 s.turns _ numbered (omega (arith, next), (omega (arith, next), tt)),
      omega (
        arith,
        next,
        length-append s.turns
            (user_turn s.next_turn_id p ∷ agent_turn (s.next_turn_id + 1) s.kb_version p ∷ []),
      ),
      Mirrors-append s.turns _ s.history _ mirrors ((refl, refl, refl), ((refl, refl, refl), tt)),
    )

    SameCommitted-IsRecorded : (s t : Session F) → SameCommitted s t → IsRecorded s → IsRecorded t
    SameCommitted-IsRecorded s t (b, h, ts, st, tu, n) (numbered, next, mirrors) = (
      subst (λ x. Numbered 0 x) (sym ts) numbered,
      n ∙ next ∙ ap length (sym ts),
      subst (λ x. Mirrors x t.history) (sym ts) (subst (λ x. Mirrors s.turns x) (sym h) mirrors),
    )

    commit_turn-IsRecorded :
        (s : Session F) (speech_id : String) → IsRecorded s → IsRecorded (commit_turn s speech_id)
    unfolding commit_turn
    commit_turn-IsRecorded s speech_id q =
        elim (lookup speech_id s.pending)
          as (λ o.
            IsRecorded (elim o as (λ _. Session F) [ none ↦ s | some p ↦ capture s speech_id p ])) [
              | none ↦ q
              | some p ↦ capture-IsRecorded s speech_id p q
            ]

    commit-capture :
        (s : Session F) (speech_id : String) (p : PendingTurn F)
        → lookup speech_id s.pending ≡ some p
        → commit_turn s speech_id ≡ capture s speech_id p
    unfolding commit_turn
    commit-capture s speech_id p e = ground arith

    -- What the commit of `p` must have left in `t`.
    abbrev pub Committed : Session F → String → PendingTurn F → Session F → Type 0
    Committed s speech_id p t =
        let turn = agent_turn (s.next_turn_id + 1) s.kb_version p in
        (t.belief ≡ p.new_belief)
        × (commit_turn t speech_id ≡ t)
        × (turn_for_speech_id t speech_id ≡ some turn)
        × (speech_id_for_turn t turn ≡ some speech_id)

    capture-again :
        (s : Session F) (speech_id : String) (p : PendingTurn F)
        → commit_turn (capture s speech_id p) speech_id ≡ capture s speech_id p
    unfolding commit_turn capture
    capture-again s speech_id p =
        ground (arith, eq_iff speech_id speech_id, lookup-remove speech_id speech_id s.pending)

    find-agent :
        (s : Session F) (p : PendingTurn F)
        → IsRecorded s
        → find_turn (s.next_turn_id + 1) (
            s.turns
            ++ (user_turn s.next_turn_id p ∷ agent_turn (s.next_turn_id + 1) s.kb_version p ∷ []))
          ≡ some (agent_turn (s.next_turn_id + 1) s.kb_version p)
    unfolding find_turn
    find-agent s p (numbered, next, mirrors) =
        find-behind 0 (s.next_turn_id + 1) s.turns _ numbered (omega (arith, next)) ∙ ground arith

    capture-found :
        (s : Session F) (speech_id : String) (p : PendingTurn F)
        → IsRecorded s
        → turn_for_speech_id (capture s speech_id p) speech_id
          ≡ some (agent_turn (s.next_turn_id + 1) s.kb_version p)
    unfolding turn_for_speech_id capture
    capture-found s speech_id p q = ground (
      arith,
      eq_iff speech_id speech_id,
      find-agent s p q,
      lookup-insert speech_id speech_id (s.next_turn_id + 1) s.speech_to_turn,
    )

    capture-speech :
        (s : Session F) (speech_id : String) (p : PendingTurn F)
        → speech_id_for_turn
            (capture s speech_id p)
            (agent_turn (s.next_turn_id + 1) s.kb_version p)
          ≡ some speech_id
    unfolding speech_id_for_turn capture find_speech
    capture-speech s speech_id p = ground arith

    -- A committed turn is in force at once: the belief is the turn's, it cannot be committed again,
    -- and in a recorded session the speech id finds the agent's turn, with its act, its scrubbed
    -- reply and its belief, and that turn finds the speech id.
    pub commit_turn-Committed :
        (s : Session F) (speech_id : String) (p : PendingTurn F)
        → IsRecorded s
        → lookup speech_id s.pending ≡ some p
        → Committed s speech_id p (commit_turn s speech_id)
    unfolding capture
    commit_turn-Committed s speech_id p q e =
        subst (λ t. Committed s speech_id p t) (sym (commit-capture s speech_id p e))
          (
            refl,
            capture-again s speech_id p,
            capture-found s speech_id p q,
            capture-speech s speech_id p,
          )

module _ {F : Type 0} ⦃fl : Floating F⦄ ⦃cues : Cues⦄ ⦃pt : Patterns⦄ ⦃rc : RetrieveCues⦄
    (c : AgentConfig F) (hook : Option (String → List String)) ⦃r : Redactors⦄ where
  uncommitted-IsRecorded :
      (s : Session F) (e : SessionEvent F)
      → is_commit e ≡ false
      → IsRecorded s
      → IsRecorded (step c hook s e)
  uncommitted-IsRecorded s e n q =
      SameCommitted-IsRecorded s (step c hook s e) (step-SameCommitted c hook s e n) q

  step-IsRecorded :
      (s : Session F) (e : SessionEvent F) → IsRecorded s → IsRecorded (step c hook s e)
  unfolding step
  step-IsRecorded s (heard speech_id input realize) q =
      uncommitted-IsRecorded s (heard speech_id input realize) refl q
  step-IsRecorded s (discarded speech_id) q = uncommitted-IsRecorded s (discarded speech_id) refl q
  step-IsRecorded s (barged_in speech_id) q = uncommitted-IsRecorded s (barged_in speech_id) refl q
  step-IsRecorded s (committed speech_id) q = commit_turn-IsRecorded s speech_id q

  -- Through any events of a call, a session stays recorded: its transcript is numbered from 0
  -- without a gap, up to the next number, and it is the history with every text scrubbed.
  pub run-IsRecorded :
      (s : Session F) (es : List (SessionEvent F)) → IsRecorded s → IsRecorded (run c hook s es)
  unfolding run
  run-IsRecorded s [] q = q
  run-IsRecorded s (e ∷ es) q = run-IsRecorded (step c hook s e) es (step-IsRecorded s e q)
