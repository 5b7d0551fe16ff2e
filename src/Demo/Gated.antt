-- ===== src/Demo/Gated.antt =====
-- The gate of a demo call in src/api/demo_routes.py, which the call and its voice session share.
use autonomous_sales_agent.Prelude.{
  ◌+◌, String, Bool, true, false, not, ◌&&◌, ◌≡◌, refl, ap, ◌∙◌, Option, none, some, List, [], ◌∷◌,
  arith, Bool-cases, inl, inr,
}
use autonomous_sales_agent.Float.{Floating}
use autonomous_sales_agent.Dict.{lookup, insert}
use autonomous_sales_agent.Gates.Reads.{Patterns}
use autonomous_sales_agent.Tracker.Cues.{Cues}
use autonomous_sales_agent.Knowledge.{Texts}
use autonomous_sales_agent.Respond.{Input}
use autonomous_sales_agent.Consent.{ConsentGate, MinorCues, can_converse, flag_minor}
use autonomous_sales_agent.Consent.Pii.{Redactors}
use autonomous_sales_agent.Session.{
  RetrieveCues, Session, PendingTurn, buffered, new_session, blocked_by, handle_user_turn,
  commit_turn, generate,
}
use autonomous_sales_agent.Worker.Turns.{is_minor_text}
use autonomous_sales_agent.Worker.Turns.Gated.{commit_turn-gate}
use autonomous_sales_agent.Demo.{
  DemoCall, ConsentAnswer, Response, consent_not_satisfied, Service, shared_gate, with_gate,
  bind_caller, answer_consent, consent_respond, screen_text, new_call,
}
use autonomous_sales_agent.Demo.Chats.{
  ensure_voice_session, log_escalation, after_commit, post_turn_hooks, reply_to, chat_turn, chat,
}

-- a response of status 409
abbrev pub is_refusal : Response → Bool
is_refusal (consent_not_satisfied state) = true
is_refusal _ = false

-- what is done with a call, in order
pub data CallStep : Type 0 where
  answers : ConsentAnswer → CallStep
  says : String → CallStep

module _ {F : Type 0} where
  -- the gate of a voice session, where there is one, is the gate
  abbrev SharesGate : ConsentGate → Option (Session F) → Type 0
  SharesGate gate none = Unit
  SharesGate gate (some vs) = vs.consent_gate ≡ some gate

  abbrev IsShared : DemoCall F → Type 0
  IsShared call = SharesGate call.gate call.voice_session

  shared_gate-SharesGate :
      (gate : ConsentGate) (vs : Option (Session F)) → SharesGate gate (shared_gate gate vs)
  shared_gate-SharesGate gate none = tt
  shared_gate-SharesGate gate (some vs) = refl

  with_gate-IsShared : (call : DemoCall F) (gate : ConsentGate) → IsShared (with_gate call gate)
  unfolding with_gate
  with_gate-IsShared call gate = shared_gate-SharesGate gate call.voice_session

  blocked_by-open :
      (vs : Session F) (gate : ConsentGate)
      → vs.consent_gate ≡ some gate
      → can_converse gate ≡ true
      → blocked_by vs ≡ none
  unfolding blocked_by
  blocked_by-open vs gate h k = rw (h, k)

  module _ ⦃fl : Floating F⦄ ⦃minors : MinorCues⦄ where
    screen_text-IsShared :
        (call : DemoCall F) (text : String) → IsShared call → IsShared (screen_text call text)
    unfolding screen_text
    screen_text-IsShared call text h =
        elim (Bool-cases (can_converse call.gate && is_minor_text F minors text)) [
          | inl e ↦ rw e (with_gate-IsShared call (flag_minor call.gate))
          | inr e ↦ rw e h
        ]

    screen_text-can_converse :
        (call : DemoCall F) (text : String)
        → can_converse (screen_text call text).gate
          ≡ can_converse call.gate && not (is_minor_text F minors text)
    unfolding screen_text with_gate flag_minor can_converse
    screen_text-can_converse call text = ground arith

  module _ ⦃fl : Floating F⦄ where
    ensure_voice_session-gate :
        (svc : Service F) (call : DemoCall F)
        → IsShared call
        → (ensure_voice_session svc call).consent_gate ≡ some call.gate
    unfolding ensure_voice_session new_session
    ensure_voice_session-gate svc call h = ground (arith, h)

    module _ ⦃texts : Texts⦄ ⦃r : Redactors⦄ where
      after_commit-IsShared :
          (svc : Service F) (call : DemoCall F) (vs : Session F) (speech_id : String)
          (p : Option (PendingTurn F))
          → vs.consent_gate ≡ some call.gate
          → IsShared (after_commit svc call vs speech_id p).0
      unfolding after_commit log_escalation
      after_commit-IsShared svc call vs speech_id none h = h
      after_commit-IsShared svc call vs speech_id (some p) h = ground arith

      -- no refusal, with the gate shared
      abbrev Replies : Response × DemoCall F → Type 0
      Replies out = (is_refusal out.0 ≡ false) × IsShared out.1

      reply_to-Replies :
          (svc : Service F) (call : DemoCall F) (speech_id : String) (turn : PendingTurn F)
          (vs : Session F)
          → vs.consent_gate ≡ some call.gate
          → Replies (reply_to svc call speech_id (buffered turn vs))
      unfolding reply_to post_turn_hooks
      reply_to-Replies svc call speech_id turn vs h = (
        refl,
        after_commit-IsShared svc call (commit_turn vs speech_id) speech_id
            (lookup speech_id vs.pending) (commit_turn-gate vs speech_id ∙ h),
      )

      module _ ⦃cues : Cues⦄ ⦃pt : Patterns⦄ ⦃rc : RetrieveCues⦄ where
        handle_user_turn-Replies :
            (svc : Service F) (call : DemoCall F) (vs : Session F) (speech_id : String)
            (input : Input F)
            → blocked_by vs ≡ none
            → vs.consent_gate ≡ some call.gate
            → Replies (
                reply_to svc call speech_id
                  (handle_user_turn svc.config svc.retrieve vs speech_id input svc.realize))
        unfolding handle_user_turn
        handle_user_turn-Replies svc call vs speech_id input free h =
            let turn = generate svc.config svc.retrieve vs input svc.realize in
            rw (handle_user_turn, free)
              (reply_to-Replies svc call speech_id turn
                (record vs { pending = insert speech_id turn vs.pending }) h)

        -- a chat past the gate
        chat_turn-Replies :
            (svc : Service F) (call : DemoCall F) (text : String)
            → IsShared call
            → can_converse call.gate ≡ true
            → Replies (chat_turn svc call text)
        unfolding chat_turn
        chat_turn-Replies svc call text h k =
            let vs = ensure_voice_session svc call in
            let gate = ensure_voice_session-gate svc call h in
            let n = call.speech_counter + 1 in
            handle_user_turn-Replies svc
              (record call { voice_session = some vs; speech_counter = n }) vs (svc.speech_id n)
              (record (svc.input text) { utterance = text }) (blocked_by-open vs call.gate gate k)
              gate

        module _ ⦃minors : MinorCues⦄ where
          chat-IsShared :
              (svc : Service F) (call : DemoCall F) (text : String)
              → IsShared call
              → IsShared (chat svc call text).1
          unfolding chat
          chat-IsShared svc call text h =
              let screened = screen_text call text in
              let shared = screen_text-IsShared call text h in
              elim (Bool-cases (can_converse screened.gate)) [
                | inl e ↦ rw e (chat_turn-Replies svc screened text shared e).1
                | inr e ↦ rw e shared
              ]

          chat-refusal :
              (svc : Service F) (call : DemoCall F) (text : String)
              → IsShared call
              → is_refusal (chat svc call text).0 ≡ not (can_converse (screen_text call text).gate)
          unfolding chat
          chat-refusal svc call text h =
              let screened = screen_text call text in
              elim (Bool-cases (can_converse screened.gate)) [
                | inl e ↦
                    rw e
                      (chat_turn-Replies svc screened text (screen_text-IsShared call text h) e).0
                | inr e ↦ rw e refl
              ]

          unfoldable pub take_step : Service F → DemoCall F → CallStep → DemoCall F
          take_step svc call (answers req) = (consent_respond svc call req).1
          take_step svc call (says text) = (chat svc call text).1

          -- the call after the steps
          unfoldable pub take_steps : Service F → DemoCall F → List CallStep → DemoCall F
          take_steps svc call [] = call
          take_steps svc call (s ∷ steps) = take_steps svc (take_step svc call s) steps

          take_step-IsShared :
              (svc : Service F) (call : DemoCall F) (s : CallStep)
              → IsShared call
              → IsShared (take_step svc call s)
          unfolding take_step consent_respond
          take_step-IsShared svc call (answers req) h =
              with_gate-IsShared (bind_caller svc call req.caller_hash)
                (answer_consent F call.gate req)
          take_step-IsShared svc call (says text) h = chat-IsShared svc call text h

          take_steps-IsShared :
              (svc : Service F) (call : DemoCall F) (steps : List CallStep)
              → IsShared call
              → IsShared (take_steps svc call steps)
          unfolding take_steps
          take_steps-IsShared svc call [] h = h
          take_steps-IsShared svc call (s ∷ steps) h =
              take_steps-IsShared svc (take_step svc call s) steps (take_step-IsShared svc call s h)

          -- After whatever answers and chats of a new call, a chat is refused exactly where its gate does not
          -- converse or the text has a sign of a minor.
          pub chat-is_refusal :
              (svc : Service F) (jurisdiction channel : String) (steps : List CallStep)
              (text : String)
              → let call = take_steps svc (new_call svc jurisdiction channel) steps in
                is_refusal (chat svc call text).0
                ≡ not (can_converse call.gate && not (is_minor_text F minors text))
          chat-is_refusal svc jurisdiction channel steps text =
              let call = take_steps svc (new_call svc jurisdiction channel) steps in
              chat-refusal svc call text
                (take_steps-IsShared svc (new_call svc jurisdiction channel) steps tt)
              ∙ ap not (screen_text-can_converse call text)
