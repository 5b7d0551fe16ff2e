-- ===== src/Demo.antt =====
-- src/api/demo_routes.py: the routes of a demo call, and the bounded stores behind them. A gate is one
-- object of the call and of its voice session, so a change of it is made at both. The sticky voice, the
-- live upsert, the streaming twin of a chat and the demo that plays itself are left out.
pub mod Chats
pub mod Bounds
pub mod Ends
pub mod Gated
pub mod Answers
use autonomous_sales_agent.Prelude.{
  ℕ, ◌+◌, String, Bool, true, false, not, ◌&&◌, ◌||◌, Option, none, some, List, [], ◌∷◌, ◌++◌,
  if◌then◌else◌, length, ltb, leb, or_else, is_some, ◌==◌,
}
use autonomous_sales_agent.Float.{Floating}
use autonomous_sales_agent.Dict.{lookup, insert, remove}
use autonomous_sales_agent.Config.{AgentConfig}
use autonomous_sales_agent.Decision.{
  Act, Tier, Decision, Rationale, enrollment, attempt_close, escalate, disqualify,
}
use autonomous_sales_agent.Belief.{BeliefState}
use autonomous_sales_agent.Gates.Reads.{Patterns}
use autonomous_sales_agent.Tracker.Cues.{Cues}
use autonomous_sales_agent.Respond.{Input}
use autonomous_sales_agent.Knowledge.{Texts}
use autonomous_sales_agent.Consent.{
  ConsentGate, Phase, RefusalPolicy, MinorCues, Signals, detect_minor, new_gate, can_converse,
  acknowledge_ai, grant_recording, refuse_recording, flag_minor, grant_parental, deny_parental,
}
use autonomous_sales_agent.Consent.Pii.{Redactors, scrub_pii}
use autonomous_sales_agent.Session.{
  RetrieveCues, Session, PendingTurn, Outcome, consent_error, buffered, new_session,
  handle_user_turn, commit_turn, turn_for_speech_id,
}
use autonomous_sales_agent.Escalation.{EscalationLog, handle_escalation}
use autonomous_sales_agent.Worker.Turns.{is_minor_text}
use autonomous_sales_agent.Worker.Seeding.{Metadata, consent_room_metadata}

-- `_Session`
pub record DemoCall (F : Type 0) : Type 0 where
  pub gate : ConsentGate
  pub channel : String
  pub voice_session : Option (Session F)
  pub phone_hash : Option String
  pub last_close_tier : Option Tier
  pub hydrated_belief : Option (BeliefState F)
  pub escalations : List EscalationLog
  pub speech_counter : ℕ

-- `RespondRequest`
pub record ConsentAnswer : Type 0 where
  pub ai_acknowledged : Bool
  pub recording_consent : Bool
  pub is_minor : Option Bool
  pub parental_consent : Option Bool
  pub caller_hash : Option String

-- `EndResponse`
pub record EndResult : Type 0 where
  pub episode_id : String
  pub outcome : String
  pub logged : ℕ
  pub persisted : Bool

-- what a route responds: an error of status 404, 503 or 409, or its body
pub data Response : Type 0 where
  not_found at_capacity not_configured : Response
  consent_not_satisfied : Phase → Response
  started : String → Response
  responded : Phase → Response
  replied : String → Act → Bool → Response
  joined : Metadata → Response
  call_ended : EndResult → Response

-- What the routes are built with: the configuration and the policy, the cap of the stores, the hooks, the
-- models' replies, the texts of numbered speech ids, and the secrets of the rooms being there.
pub record Service (F : Type 0) : Type 0 where
  pub config : AgentConfig F
  pub policy : RefusalPolicy
  pub max_sessions : ℕ
  pub retrieve : Option (String → List String)
  pub hydrate : String → Option (BeliefState F)
  pub input : String → Input F
  pub realize : Decision F → String
  pub rationale_text : Rationale F → String
  pub speech_id : ℕ → String
  -- `call_end_persist_hook`, the episode's id and outcome
  pub persist_call_end : DemoCall F → Option String → String × String
  pub has_secrets : Bool

module _ {ℓ} {V : Type ℓ} where
  -- `OrderedDict.move_to_end`
  unfoldable pub move_to_end : String → List (String × V) → List (String × V)
  unfolding lookup remove
  move_to_end key dict = elim (lookup key dict) [
    | none ↦ dict
    | some value ↦ remove key dict ++ ((key, value) ∷ [])
  ]

  -- `popitem(last=False)` while there are more than `max`
  unfoldable pub pop_over : ℕ → List (String × V) → List (String × V)
  pop_over max [] = []
  pop_over max (x ∷ dict) =
      let rest = pop_over max dict in if ltb max (length (x ∷ dict)) then rest else x ∷ dict

-- the `sessions` and the `ended_results`
pub record Stores (F : Type 0) : Type 0 where
  pub sessions : List (String × DemoCall F)
  pub ended_results : List (String × EndResult)

-- `_remember_ended`
unfoldable pub remember_ended :
    ℕ → String → EndResult → List (String × EndResult) → List (String × EndResult)
unfolding insert move_to_end pop_over
remember_ended max id result ended = pop_over max (move_to_end id (insert id result ended))

-- the parent's answer
abbrev pub parent_answers : Option Bool → ConsentGate → ConsentGate
parent_answers none gate = gate
parent_answers (some true) gate = grant_parental gate
parent_answers (some false) gate = deny_parental gate

abbrev pub already_ended : EndResult → EndResult
already_ended prior = record {
  episode_id = "";
  outcome = "already_ended";
  logged = prior.logged;
  persisted = false;
}

module _ {F : Type 0} where
  -- the gate's object is the voice session's, too
  abbrev pub shared_gate : ConsentGate → Option (Session F) → Option (Session F)
  shared_gate gate none = none
  shared_gate gate (some vs) = some (record vs { consent_gate = some gate })

  unfoldable pub with_gate : DemoCall F → ConsentGate → DemoCall F
  with_gate call gate = record call {
    gate = gate;
    voice_session = shared_gate gate call.voice_session;
  }

  -- a new call
  abbrev pub new_call : Service F → String → String → DemoCall F
  new_call svc jurisdiction channel = record {
    gate = new_gate jurisdiction svc.policy;
    channel = channel;
    voice_session = none;
    phone_hash = none;
    last_close_tier = none;
    hydrated_belief = none;
    escalations = [];
    speech_counter = 0;
  }

  -- `consent_start`, of the id that `uuid` gives
  unfoldable pub consent_start :
      Service F → Stores F → String → String → String → Response × Stores F
  unfolding insert
  consent_start svc st id jurisdiction channel =
      if leb svc.max_sessions (length st.sessions) then (at_capacity, st) else (
        started id,
        record st { sessions = insert id (new_call svc jurisdiction channel) st.sessions },
      )

  -- the binding of `consent_respond`, at the first hash
  unfoldable pub bind_caller : Service F → DemoCall F → Option String → DemoCall F
  bind_caller svc call none = call
  bind_caller svc call (some hash) =
      if is_some call.phone_hash || hash == ""
      then call
      else record call { phone_hash = some hash; hydrated_belief = svc.hydrate hash }

module _ (F : Type 0) ⦃fl : Floating F⦄ ⦃minors : MinorCues⦄ where
  -- `req.is_minor is True or detect_minor(minor_signals)`
  abbrev pub flags_minor : Option Bool → Bool
  flags_minor is_minor =
      let signals : Signals F = record {
        self_reported_age = none;
        caller_is_student = is_minor;
        text = "";
      } in
      or_else is_minor false || detect_minor minors signals

  -- the transitions of `consent_respond`
  unfoldable pub answer_consent : ConsentGate → ConsentAnswer → ConsentGate
  answer_consent gate req =
      let told = if req.ai_acknowledged then acknowledge_ai gate else gate in
      let answered =
        if req.recording_consent then grant_recording told else refuse_recording told in
      if flags_minor req.is_minor
      then parent_answers req.parental_consent (flag_minor answered)
      else answered

module _ {F : Type 0} ⦃fl : Floating F⦄ ⦃minors : MinorCues⦄ where
  -- `consent_respond`, of the call
  unfoldable pub consent_respond : Service F → DemoCall F → ConsentAnswer → Response × DemoCall F
  unfolding bind_caller with_gate
  consent_respond svc call req =
      let gate = answer_consent F call.gate req in
      (responded gate.state, with_gate (bind_caller svc call req.caller_hash) gate)

  -- the minor's test of `chat`
  unfoldable pub screen_text : DemoCall F → String → DemoCall F
  unfolding with_gate
  screen_text call text =
      if can_converse call.gate && is_minor_text F minors text
      then with_gate call (flag_minor call.gate)
      else call

module _ {F : Type 0} where
  -- `livekit_token`, of the call: the metadata of the room
  unfoldable pub livekit_token : Service F → DemoCall F → Response
  livekit_token svc call =
      if not (can_converse call.gate)
      then consent_not_satisfied call.gate.state
      else if not svc.has_secrets
      then not_configured
      else joined (consent_room_metadata call.gate call.phone_hash)

  -- what `session_end` responds of a call
  unfoldable pub end_result : Service F → DemoCall F → Option String → EndResult
  end_result svc call raw_phone = elim call.voice_session [
    | none ↦ record { episode_id = ""; outcome = "no_conversation"; logged = 0; persisted = false }
    | some vs ↦
        let (episode_id, outcome) = svc.persist_call_end call raw_phone in
        record {
          episode_id = episode_id;
          outcome = outcome;
          logged = length call.escalations;
          persisted = true;
        }
  ]

  -- the call is evicted, and its result remembered
  abbrev pub evict : Service F → Stores F → String → EndResult → Response × Stores F
  evict svc st id result = (
    call_ended result,
    record {
      sessions = remove id st.sessions;
      ended_results = remember_ended svc.max_sessions id result st.ended_results;
    },
  )

  -- `_get`, with the touch, and what follows it
  abbrev pub on_call : Stores F → String → (DemoCall F → Response × Stores F) → Response × Stores F
  on_call st id f = elim (lookup id st.sessions) [ none ↦ (not_found, st) | some call ↦ f call ]

  abbrev pub touch : Stores F → String → Stores F
  touch st id = record st { sessions = move_to_end id st.sessions }

  -- the call's object is changed in place
  abbrev pub changed : Stores F → String → Response × DemoCall F → Response × Stores F
  changed st id (response, call) = (response, record st { sessions = insert id call st.sessions })

  unfoldable pub session_end : Service F → Stores F → String → Option String → Response × Stores F
  unfolding lookup remove remember_ended move_to_end
  session_end svc st id raw_phone =
      let found =
        on_call st id (λ call. evict svc (touch st id) id (end_result svc call raw_phone)) in
      if is_some (lookup id st.sessions) then found else elim (lookup id st.ended_results) [
        | none ↦ found
        | some prior ↦ (call_ended (already_ended prior), st)
      ]
