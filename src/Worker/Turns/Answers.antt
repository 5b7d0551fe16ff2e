-- ===== src/Worker/Turns/Answers.antt =====
-- What a caller's answer to the question for consent does, in src/voice/worker.py.
use autonomous_sales_agent.Prelude.{
  String, Bool, true, false, not, ◌&&◌, ◌≡◌, refl, ap, ◌∙◌, Option, none, some, some_injective,
  if◌then◌else◌, arith, truthy, ◌==◌, Bool-cases, inl, inr,
}
use autonomous_sales_agent.Float.{Floating}
use autonomous_sales_agent.Consent.{
  ConsentGate, MinorCues, pending, can_record, flag_minor, acknowledge_ai, grant_recording,
  refuse_recording, end,
}
use autonomous_sales_agent.Worker.{ReplyCues, classify_consent_reply}
use autonomous_sales_agent.Worker.Turns.{
  WorkerAgent, done, after_hook, take_verdict, answer_gate, handle_consent_turn, stash_turn,
  on_user_turn_completed, is_minor_text,
}

second_case {ℓ} :
    {A : Type ℓ} (full waits : Bool) (x y z : A)
    → full ≡ true
    → waits ≡ true
    → (if not full then x else if waits then y else z) ≡ y
second_case full waits x y z e f = rw (e, f)

module _ {F : Type 0} where
  -- whether the call may be recorded
  abbrev pub is_recorded : WorkerAgent F → Bool
  is_recorded a = elim a.session.consent_gate [ none ↦ false | some gate ↦ can_record gate ]

  -- an agent that waits for an answer, at a new gate
  pub record IsAsking (a : WorkerAgent F) (gate : ConsentGate) : Type 0 where
    pub gate_kept : a.session.consent_gate ≡ some gate
    pub waits : a.awaiting_consent ≡ true
    pub fresh_gate : gate.state ≡ pending
    pub ungranted : gate.recording_granted ≡ false

  take_verdict-recorded :
      (a : WorkerAgent F) (gate : ConsentGate) (verdict : String)
      → IsAsking a gate
      → (is_recorded (after_hook (take_verdict a gate verdict)) ≡ (verdict == "yes"))
        × ((after_hook (take_verdict a gate verdict)).awaiting_consent
            ≡ not (verdict == "yes") && not (verdict == "no") && not a.consent_reasked)
  unfolding take_verdict can_record grant_recording refuse_recording acknowledge_ai end
  take_verdict-recorded a gate verdict h = (ground arith, ground arith)

  module _ ⦃fl : Floating F⦄ ⦃replies : ReplyCues⦄ ⦃minors : MinorCues⦄ where
    answer_gate-recorded :
        (a : WorkerAgent F) (gate : ConsentGate) (text : String) (is_minor : Bool)
        → is_minor_text F minors text ≡ is_minor
        → IsAsking a gate
        → (is_recorded (after_hook (answer_gate a text gate))
            ≡ not is_minor && (classify_consent_reply (some text) == "yes"))
          × ((after_hook (answer_gate a text gate)).awaiting_consent
              ≡ not is_minor
                && (not (classify_consent_reply (some text) == "yes")
                    && not (classify_consent_reply (some text) == "no")
                    && not a.consent_reasked))
    unfolding answer_gate can_record flag_minor
    answer_gate-recorded a gate text true e h = rw e (ground arith, refl)
    answer_gate-recorded a gate text false e h =
        rw e (take_verdict-recorded a gate (classify_consent_reply (some text)) h)

    by_gate :
        (a : WorkerAgent F) (text : String) (gate : ConsentGate) (g : Option ConsentGate)
        → g ≡ some gate
        → elim g [
          | none ↦ done (record a { awaiting_consent = false })
          | some g' ↦ answer_gate a text g'
        ]
          ≡ answer_gate a text gate
    by_gate a text gate none e = cc
    by_gate a text gate (some g') e = ap (answer_gate a text) (some_injective e)

    -- the hook, where the agent waits for an answer
    on_user_turn_completed-asks :
        (a : WorkerAgent F) (gate : ConsentGate) (text : String)
        → truthy (some text) ≡ true
        → IsAsking a gate
        → on_user_turn_completed a text ≡ answer_gate a text gate
    unfolding on_user_turn_completed handle_consent_turn
    on_user_turn_completed-asks a gate text t h =
        second_case (truthy (some text)) a.awaiting_consent (done a) (handle_consent_turn a text)
          (stash_turn a text) t h.waits
        ∙ by_gate a text gate a.session.consent_gate h.gate_kept

    -- An answer to the question for consent at a new gate allows the recording exactly when it is read as
    -- a yes and has no sign of a minor. The question stays open exactly when the answer has no sign of a
    -- minor, is neither a yes nor a no, and was not asked for again before.
    pub on_user_turn_completed-answer :
        (a : WorkerAgent F) (gate : ConsentGate) (text : String)
        → truthy (some text) ≡ true
        → IsAsking a gate
        → let b = after_hook (on_user_turn_completed a text) in
          let verdict = classify_consent_reply (some text) in
          let is_minor = is_minor_text F minors text in
          (is_recorded b ≡ not is_minor && (verdict == "yes"))
          × (b.awaiting_consent
              ≡ not is_minor
                && (not (verdict == "yes") && not (verdict == "no") && not a.consent_reasked))
    on_user_turn_completed-answer a gate text t h =
        rw (on_user_turn_completed-asks a gate text t h)
          (answer_gate-recorded a gate text (is_minor_text F minors text) refl h)

    -- the second answer settles
    asked_again-settles :
        (a : WorkerAgent F) (gate : ConsentGate) (text : String)
        → truthy (some text) ≡ true
        → IsAsking a gate
        → a.consent_reasked ≡ true
        → (after_hook (on_user_turn_completed a text)).awaiting_consent ≡ false
    asked_again-settles a gate text t h e =
        let answer = on_user_turn_completed-answer a gate text t h in ground arith

    -- a question that stays open is asked again, at the same gate
    answer_gate-asks_again :
        (a : WorkerAgent F) (gate : ConsentGate) (text : String)
        → IsAsking a gate
        → (after_hook (answer_gate a text gate)).awaiting_consent ≡ true
        → IsAsking (after_hook (answer_gate a text gate)) gate
          × ((after_hook (answer_gate a text gate)).consent_reasked ≡ true)
    unfolding answer_gate take_verdict
    answer_gate-asks_again a gate text h w = (ground arith, ground arith)

    stash_turn-waits :
        (a : WorkerAgent F) (text : String)
        → (after_hook (stash_turn a text)).awaiting_consent ≡ a.awaiting_consent
    unfolding stash_turn
    stash_turn-waits a text = ground arith

    settled-stays :
        (a : WorkerAgent F) (text : String)
        → a.awaiting_consent ≡ false
        → (after_hook (on_user_turn_completed a text)).awaiting_consent ≡ false
    unfolding on_user_turn_completed
    settled-stays a text w = let kept = stash_turn-waits a text in ground arith

    -- Two answers settle the question, whatever they say: an agent that waits at a new gate does not wait
    -- after two turns with words in them.
    pub two_answers-settle :
        (a : WorkerAgent F) (gate : ConsentGate) (first second : String)
        → truthy (some first) ≡ true
        → truthy (some second) ≡ true
        → IsAsking a gate
        → let b = after_hook (on_user_turn_completed a first) in
          (after_hook (on_user_turn_completed b second)).awaiting_consent ≡ false
    two_answers-settle a gate first second t u h =
        let same = on_user_turn_completed-asks a gate first t h in
        let b = after_hook (answer_gate a first gate) in
        rw same (elim (Bool-cases b.awaiting_consent) [
          | inl w ↦
              let again = answer_gate-asks_again a gate first h w in
              asked_again-settles b gate second u again.0 again.1
          | inr w ↦ settled-stays b second w
        ])
