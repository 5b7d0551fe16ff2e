-- ===== src/Demo/Chats.antt =====
-- src/api/demo_routes.py: a chat of a demo call, from the test for a minor to the hooks after the commit,
-- and the routes as steps on the stores.
use autonomous_sales_agent.Prelude.{
  ℕ, ◌+◌, String, Bool, true, false, not, Option, none, some, List, [], ◌∷◌, ◌++◌, if◌then◌else◌,
  or_else,
}
use autonomous_sales_agent.Float.{Floating}
use autonomous_sales_agent.Dict.{lookup}
use autonomous_sales_agent.Decision.{Tier, enrollment, attempt_close, escalate, disqualify}
use autonomous_sales_agent.Gates.Reads.{Patterns}
use autonomous_sales_agent.Tracker.Cues.{Cues}
use autonomous_sales_agent.Knowledge.{Texts}
use autonomous_sales_agent.Consent.{MinorCues, can_converse}
use autonomous_sales_agent.Consent.Pii.{Redactors, scrub_pii}
use autonomous_sales_agent.Session.{
  RetrieveCues, Session, PendingTurn, Outcome, consent_error, buffered, new_session,
  handle_user_turn, commit_turn, turn_for_speech_id,
}
use autonomous_sales_agent.Escalation.{handle_escalation}
use autonomous_sales_agent.Demo.{
  DemoCall, ConsentAnswer, Response, consent_not_satisfied, replied, Service, Stores, consent_start,
  consent_respond, screen_text, livekit_token, session_end, on_call, touch, changed,
}

-- `tier == "enrollment"`
abbrev pub is_enrollment : Option Tier → Bool
is_enrollment (some enrollment) = true
is_enrollment _ = false

module _ {F : Type 0} ⦃fl : Floating F⦄ where
  -- `_ensure_voice_session`
  unfoldable pub ensure_voice_session : Service F → DemoCall F → Session F
  unfolding new_session
  ensure_voice_session svc call = elim call.voice_session [
    | some vs ↦ vs
    | none ↦
        let vs = new_session svc.config.kb_version (some call.gate) in
        record vs { belief = or_else call.hydrated_belief vs.belief }
  ]

  module _ ⦃texts : Texts⦄ ⦃r : Redactors⦄ where
    -- the hand-off of `_post_turn_hooks`, at the session after the commit
    unfoldable pub log_escalation :
        Service F → DemoCall F → Session F → String → PendingTurn F → DemoCall F
    log_escalation svc call vs speech_id p =
        let turn_id : ℕ = elim (turn_for_speech_id vs speech_id) [
          | none ↦ 0
          | some turn ↦ turn.turn_id
        ] in
        let (outcome, queue, belief) =
          handle_escalation p.decision (svc.rationale_text p.decision.rationale) vs.belief ""
            turn_id svc.config (some (scrub_pii (some p.reply_text))) [] in
        record call {
          voice_session = some (record vs { belief = belief });
          escalations = call.escalations ++ (outcome.escalation_log ∷ []);
        }

    -- the hooks after the commit, of the turn that was committed: the call, and whether it is done
    unfoldable pub after_commit :
        Service F → DemoCall F → Session F → String → Option (PendingTurn F) → DemoCall F × Bool
    after_commit svc call vs speech_id none = (record call { voice_session = some vs }, false)
    after_commit svc call vs speech_id (some p) = elim p.decision.act [
      | escalate ↦ (log_escalation svc call vs speech_id p, true)
      | attempt_close ↦ (
        record call { voice_session = some vs; last_close_tier = p.decision.tier },
        is_enrollment p.decision.tier,
      )
      | disqualify ↦ (record call { voice_session = some vs }, true)
      | _ ↦ (record call { voice_session = some vs }, false)
    ]

    -- `_post_turn_hooks`
    unfoldable pub post_turn_hooks : Service F → DemoCall F → Session F → String → DemoCall F × Bool
    post_turn_hooks svc call vs speech_id =
        after_commit svc call (commit_turn vs speech_id) speech_id (lookup speech_id vs.pending)

    -- the reply to a turn that was generated
    unfoldable pub reply_to : Service F → DemoCall F → String → Outcome F → Response × DemoCall F
    reply_to svc call speech_id (consent_error state) = (consent_not_satisfied state, call)
    reply_to svc call speech_id (buffered turn vs) =
        let (next, done) = post_turn_hooks svc call vs speech_id in
        (replied turn.reply_text turn.decision.act done, next)

    module _ ⦃cues : Cues⦄ ⦃pt : Patterns⦄ ⦃rc : RetrieveCues⦄ where
      -- `chat` past the gate, by the buffered path
      unfoldable pub chat_turn : Service F → DemoCall F → String → Response × DemoCall F
      chat_turn svc call text =
          let vs = ensure_voice_session svc call in
          let speech_id = svc.speech_id (call.speech_counter + 1) in
          reply_to svc
            (record call { voice_session = some vs; speech_counter = call.speech_counter + 1 })
            speech_id
            (handle_user_turn svc.config svc.retrieve vs speech_id
              (record (svc.input text) { utterance = text }) svc.realize)

      -- `chat`, of the call
      unfoldable pub chat :
          ⦃minors : MinorCues⦄ → Service F → DemoCall F → String → Response × DemoCall F
      chat svc call text =
          let screened = screen_text call text in
          if not (can_converse screened.gate)
          then (consent_not_satisfied screened.gate.state, screened)
          else chat_turn svc screened text

-- A request to the routes, with the id of the call.
pub data Request : Type 0 where
  -- the id that `uuid` gives, the jurisdiction and the channel
  starts : String → String → String → Request
  responds : String → ConsentAnswer → Request
  chats asks_token : String → String → Request
  ends : String → Option String → Request

module _ {F : Type 0} ⦃fl : Floating F⦄ ⦃texts : Texts⦄ ⦃r : Redactors⦄ ⦃cues : Cues⦄
    ⦃pt : Patterns⦄ ⦃rc : RetrieveCues⦄ ⦃minors : MinorCues⦄ where
  unfoldable pub serve : Service F → Stores F → Request → Response × Stores F
  serve svc st (starts id jurisdiction channel) = consent_start svc st id jurisdiction channel
  serve svc st (responds id req) =
      on_call st id (λ call. changed (touch st id) id (consent_respond svc call req))
  serve svc st (chats id text) =
      on_call st id (λ call. changed (touch st id) id (chat svc call text))
  serve svc st (asks_token id identity) =
      on_call st id (λ call. (livekit_token svc call, touch st id))
  serve svc st (ends id raw_phone) = session_end svc st id raw_phone

  unfoldable pub serve_all : Service F → Stores F → List Request → Stores F
  serve_all svc st [] = st
  serve_all svc st (request ∷ requests) = serve_all svc (serve svc st request).1 requests
