-- ===== src/Worker/Turns.antt =====
-- src/voice/worker.py: the agent of a live call, `WorkerVoiceAgent`. A caller's turn answers the question
-- for consent, or is stashed; `llm_node` streams its reply and commits it; the end of the speech commits
-- once more, or drops what a barge-in interrupts. Timings and the filler are left out.
pub mod Answers
pub mod Gated
use autonomous_sales_agent.Prelude.{
  ℕ, ◌+◌, String, Bool, true, false, not, ◌&&◌, ◌||◌, Option, none, some, List, [], ◌∷◌, ◌++◌,
  if◌then◌else◌, truthy, or_else, ◌==◌,
}
use autonomous_sales_agent.Float.{Floating}
use autonomous_sales_agent.Dict.{lookup}
use autonomous_sales_agent.Config.{AgentConfig}
use autonomous_sales_agent.Decision.{Tier, Act, attempt_close, escalate}
use autonomous_sales_agent.Gates.Reads.{Patterns}
use autonomous_sales_agent.Tracker.Cues.{Cues}
use autonomous_sales_agent.Respond.{Input}
use autonomous_sales_agent.Knowledge.{Texts, Fact}
use autonomous_sales_agent.Consent.{
  ConsentGate, MinorCues, Signals, detect_minor, flag_minor, acknowledge_ai, grant_recording,
  refuse_recording, end, can_converse,
}
use autonomous_sales_agent.Consent.Pii.{Redactors}
use autonomous_sales_agent.Session.{
  RetrieveCues, Session, PendingTurn, blocked_by, commit_turn, on_barge_in,
}
use autonomous_sales_agent.Session.Streams.{
  Streamed, stopped, yielded, RealizeStream, handle_user_turn_stream,
}
use autonomous_sales_agent.Worker.{ReplyCues, classify_consent_reply}

-- the lines that are spoken about consent
pub data Line : Type 0 where
  sip_consent_prompt sip_consent_reask sip_consent_recorded : Line
  sip_consent_unrecorded sip_consent_ended sip_consent_minor : Line

pub record WorkerAgent (F : Type 0) : Type 0 where
  pub session : Session F
  pub pending_speech_id : Option ℕ
  pub pending_user_text : Option String
  pub turn_counter : ℕ
  pub awaiting_consent : Bool
  pub consent_reasked : Bool
  -- the speech ids whose escalation is being handled
  pub escalating : List String
  pub last_close_tier : Option Tier

-- `__init__`
abbrev pub new_agent : {F : Type 0} → Session F → WorkerAgent F
new_agent session = record {
  session = session;
  pending_speech_id = none;
  pending_user_text = none;
  turn_counter = 0;
  awaiting_consent = false;
  consent_reasked = false;
  escalating = [];
  last_close_tier = none;
}

-- What a hook gives: the agent after it, with a line that is spoken or with a `ConsentError`.
pub data Hook (F : Type 0) : Type 0 where
  raised : WorkerAgent F → Hook F
  says_line : Line → WorkerAgent F → Hook F
  done : WorkerAgent F → Hook F

abbrev pub after_hook : {F : Type 0} → Hook F → WorkerAgent F
after_hook (raised a) = a
after_hook (says_line line a) = a
after_hook (done a) = a

-- `detect_minor({"text": text})`
abbrev pub is_minor_text : (F : Type 0) ⦃fl : Floating F⦄ → MinorCues → String → Bool
is_minor_text F minors text =
    let signals : Signals F = record {
      self_reported_age = none;
      caller_is_student = none;
      text = text;
    } in
    detect_minor minors signals

module _ {F : Type 0} where
  -- `arm_spoken_consent`
  unfoldable pub arm_spoken_consent : WorkerAgent F → WorkerAgent F × Line
  arm_spoken_consent a =
      (record a { awaiting_consent = true; consent_reasked = false }, sip_consent_prompt)

  -- the agent with its gate moved on, and the question answered
  abbrev pub answered : WorkerAgent F → ConsentGate → WorkerAgent F
  answered a gate = record a {
    session = record (a.session) { consent_gate = some gate };
    awaiting_consent = false;
  }

  -- the answers of `handle_consent_turn`, by the verdict
  unfoldable pub take_verdict : WorkerAgent F → ConsentGate → String → Hook F
  unfolding acknowledge_ai grant_recording refuse_recording end can_converse
  take_verdict a gate verdict =
      if verdict == "yes"
      then says_line sip_consent_recorded (answered a (grant_recording (acknowledge_ai gate)))
      else if verdict == "no"
      then (let refused = refuse_recording (acknowledge_ai gate) in
          says_line (if can_converse refused then sip_consent_unrecorded else sip_consent_ended)
            (answered a refused))
      else if not a.consent_reasked
      then says_line sip_consent_reask (record a { consent_reasked = true })
      else says_line sip_consent_ended (answered a (end gate))

  module _ ⦃fl : Floating F⦄ ⦃replies : ReplyCues⦄ ⦃minors : MinorCues⦄ where
    -- `handle_consent_turn`, of the gate
    unfoldable pub answer_gate : WorkerAgent F → String → ConsentGate → Hook F
    answer_gate a text gate =
        if is_minor_text F minors text
        then says_line sip_consent_minor (answered a (flag_minor gate))
        else take_verdict a gate (classify_consent_reply (some text))

    unfoldable pub handle_consent_turn : WorkerAgent F → String → Hook F
    handle_consent_turn a text = elim a.session.consent_gate [
      | none ↦ done (record a { awaiting_consent = false })
      | some gate ↦ answer_gate a text gate
    ]

    -- a turn for the brain: the gate's test, then the stash
    unfoldable pub stash_turn : WorkerAgent F → String → Hook F
    stash_turn a text = elim (blocked_by a.session) [
      | some state ↦ raised a
      | none ↦ done (record a {
        turn_counter = a.turn_counter + 1;
        pending_speech_id = some (a.turn_counter + 1);
        pending_user_text = some text;
      })
    ]

    -- `on_user_turn_completed`, of the stripped text
    unfoldable pub on_user_turn_completed : WorkerAgent F → String → Hook F
    on_user_turn_completed a text =
        if not (truthy (some text))
        then done a
        else if a.awaiting_consent
        then handle_consent_turn a text
        else stash_turn a text

  -- `_capture_post_commit`, of the turn that was committed
  unfoldable pub capture_post_commit :
      WorkerAgent F → String → Option (PendingTurn F) → WorkerAgent F
  capture_post_commit a speech_id none = a
  capture_post_commit a speech_id (some p) = elim p.decision.act [
    | escalate ↦ record a { escalating = a.escalating ++ (speech_id ∷ []) }
    | attempt_close ↦ record a { last_close_tier = p.decision.tier }
    | _ ↦ a
  ]

  module _ ⦃r : Redactors⦄ where
    -- `commit_turn`, with what follows a commit
    unfoldable pub commit_pending : WorkerAgent F → String → WorkerAgent F
    commit_pending a speech_id =
        capture_post_commit (record a { session = commit_turn a.session speech_id }) speech_id
          (lookup speech_id a.session.pending)

-- What `llm_node` is called with from outside: the configuration, the retrieval, the models' replies, the
-- stream of tokens, and the texts of speech ids, `f"t-{n}"`.
pub record Brain (F : Type 0) : Type 0 where
  pub config : AgentConfig F
  pub hook : Option (String → List (Fact F))
  pub input : String → Input F
  pub realize_stream : RealizeStream F
  pub speech_id : ℕ → String

-- What happens in a call, in the order it happens.
pub data CallEvent (F : Type 0) : Type 0 where
  user_turn : String → CallEvent F
  llm_reply : Brain F → CallEvent F
  -- an agent's speech ends, of its id, interrupted or not
  speech_done : String → Bool → CallEvent F

module _ {F : Type 0} ⦃r : Redactors⦄ where
  -- the end of `llm_node`: the stash is consumed in either case
  abbrev pub commit_streamed : WorkerAgent F → String → Streamed F → Hook F
  commit_streamed a speech_id (stopped state) = raised a
  commit_streamed a speech_id (yielded parts session) =
      done (commit_pending (record a { session = session }) speech_id)

  -- `_on_done`
  unfoldable pub on_done : WorkerAgent F → String → Bool → WorkerAgent F
  on_done a speech_id interrupted =
      if interrupted
      then record a { session = on_barge_in a.session speech_id }
      else commit_pending a speech_id

module _ {F : Type 0} ⦃fl : Floating F⦄ ⦃cues : Cues⦄ ⦃pt : Patterns⦄ ⦃texts : Texts⦄
    ⦃rc : RetrieveCues⦄ ⦃r : Redactors⦄ ⦃replies : ReplyCues⦄ ⦃minors : MinorCues⦄ where
  -- `llm_node`, of the pending id and text
  unfoldable pub stream_reply : Brain F → WorkerAgent F → Option ℕ → Option String → Hook F
  stream_reply brain a (some id) (some text) =
      let speech_id = brain.speech_id id in
      commit_streamed (record a { pending_user_text = none }) speech_id
        (handle_user_turn_stream brain.config brain.hook a.session speech_id
          (record (brain.input text) { utterance = text }) brain.realize_stream)
  stream_reply brain a _ _ = done a

  unfoldable pub llm_node : Brain F → WorkerAgent F → Hook F
  llm_node brain a = stream_reply brain a a.pending_speech_id a.pending_user_text

  unfoldable pub handle_event : WorkerAgent F → CallEvent F → WorkerAgent F
  handle_event a (user_turn text) = after_hook (on_user_turn_completed a text)
  handle_event a (llm_reply brain) = after_hook (llm_node brain a)
  handle_event a (speech_done speech_id interrupted) = on_done a speech_id interrupted

  unfoldable pub handle_events : WorkerAgent F → List (CallEvent F) → WorkerAgent F
  handle_events a [] = a
  handle_events a (e ∷ events) = handle_events (handle_event a e) events
