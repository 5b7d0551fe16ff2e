-- ===== src/Session.antt =====
-- src/voice/session.py: the per-call state of a voice session. A turn is generated into a buffer under
-- its speech id, and a commit moves it into the call's state. The brain is `_decide_turn` of
-- Respond.antt; the wording of the reply is the language model's, an input here.
pub mod Commits
pub mod Transcript
pub mod Streams
use autonomous_sales_agent.Prelude.{
  ℕ, ◌+◌, String, Bool, true, false, not, ◌&&◌, ◌||◌, Option, none, some, List, [], ◌∷◌, ◌++◌,
  if◌then◌else◌, truthy, any, nat_eq,
}
use autonomous_sales_agent.Float.{Floating}
use autonomous_sales_agent.Dict.{lookup, insert, remove}
use autonomous_sales_agent.Config.{AgentConfig}
use autonomous_sales_agent.Decision.{Decision, Rationale, act_name}
use autonomous_sales_agent.Belief.{BeliefState, BeliefSnapshot, fresh, to_snapshot}
use autonomous_sales_agent.Gates.Reads.{HistoryTurn, Patterns}
use autonomous_sales_agent.Tracker.Cues.{Cues}
use autonomous_sales_agent.Respond.{Input, decide_turn}
use autonomous_sales_agent.Consent.{ConsentGate, Phase, can_converse}
use autonomous_sales_agent.Consent.Pii.{Redactors, scrub_pii}

-- The text tests of `should_retrieve`: `.strip()`, `.lower()`, `in`, `_ACK_RE` and `_QUESTION_RE`.
pub record RetrieveCues : Type 0 where
  pub strip : String → String
  pub lower : String → String
  pub contains : String → String → Bool
  pub acknowledges : String → Bool
  pub ends_in_question : String → Bool

-- `_FACTUAL_CUES`
abbrev pub factual_cues : List String
factual_cues =
    "how much" ∷ "cost" ∷ "price" ∷ "pricing" ∷ "fee" ∷ "charge" ∷ "expensive" ∷ "afford"
    ∷ "how long" ∷ "how many" ∷ "how often" ∷ "when" ∷ "where" ∷ "what time" ∷ "schedule" ∷ "result"
    ∷ "results" ∷ "guarantee" ∷ "refund" ∷ "work" ∷ "proof" ∷ "evidence" ∷ "qualif" ∷ "discount"
    ∷ "plan" ∷ "package" ∷ "subject" ∷ "grade" ∷ "tutor" ∷ []

unfoldable pub should_retrieve : ⦃rc : RetrieveCues⦄ → String → Bool
should_retrieve ⦃rc⦄ user_text =
    let text = rc.strip user_text in
    truthy (some text)
    && not (rc.acknowledges text)
    && (rc.ends_in_question text || any (rc.contains (rc.lower text)) factual_cues)

-- A captured turn, `src.memory.schema.Turn`, without the measured latency.
pub record CapturedTurn (F : Type 0) : Type 0 where
  pub turn_id : ℕ
  pub speaker : String
  pub text : String
  pub decision : Option String
  pub rationale : Option (Rationale F)
  pub belief : Option (BeliefSnapshot F)
  pub kb_version : Option String
  pub retrieved : Option (List String)

pub record PendingTurn (F : Type 0) : Type 0 where
  pub user_text : String
  pub decision : Decision F
  pub reply_text : String
  pub new_belief : BeliefState F

-- `VoiceSessionState` with the join maps of `VoiceSession`
pub record Session (F : Type 0) : Type 0 where
  pub belief : BeliefState F
  pub kb_version : String
  pub history : List (HistoryTurn F)
  pub turns : List (CapturedTurn F)
  pub pending : List (String × PendingTurn F)
  pub last_interrupted : Option String
  pub speech_to_turn : List (String × ℕ)
  pub turn_to_speech : List (ℕ × String)
  pub next_turn_id : ℕ
  pub consent_gate : Option ConsentGate

-- `__init__`
unfoldable pub new_session :
    {F : Type 0} ⦃fl : Floating F⦄ → String → Option ConsentGate → Session F
unfolding fresh
new_session kb_version gate = record {
  belief = fresh;
  kb_version = kb_version;
  history = [];
  turns = [];
  pending = [];
  last_interrupted = none;
  speech_to_turn = [];
  turn_to_speech = [];
  next_turn_id = 0;
  consent_gate = gate;
}

-- What a call of `handle_user_turn` gives: a buffered turn, or a `ConsentError`.
pub data Outcome (F : Type 0) : Type 0 where
  consent_error : Phase → Outcome F
  buffered : PendingTurn F → Session F → Outcome F

-- `_maybe_retrieve`; no facts and no lookup are the same to the turn
unfoldable pub maybe_retrieve :
    ⦃rc : RetrieveCues⦄ → Option (String → List String) → String → List String
unfolding should_retrieve
maybe_retrieve none user_text = []
maybe_retrieve (some hook) user_text = if should_retrieve user_text then hook user_text else []

-- `self._turn_to_speech.get(id)`
unfoldable pub find_speech : ℕ → List (ℕ × String) → Option String
find_speech id [] = none
find_speech id ((j, speech) ∷ m) =
    let rest = find_speech id m in if nat_eq j id then some speech else rest

module _ {F : Type 0} where
  -- the gate's test of `_require_consent`
  unfoldable pub blocked_by : Session F → Option Phase
  unfolding can_converse
  blocked_by s = elim s.consent_gate [
    | none ↦ none
    | some gate ↦ if can_converse gate then none else some gate.state
  ]

  -- the body of `handle_user_turn` once consent allows
  unfoldable pub generate :
      ⦃fl : Floating F⦄ ⦃cues : Cues⦄ ⦃pt : Patterns⦄ ⦃rc : RetrieveCues⦄
      → AgentConfig F
      → Option (String → List String)
      → Session F
      → Input F
      → (Decision F → String)
      → PendingTurn F
  unfolding decide_turn maybe_retrieve
  generate c hook s input realize =
      let (d, b) =
        decide_turn s.belief s.history
          (record input { facts = maybe_retrieve hook input.utterance }) c in
      record { user_text = input.utterance; decision = d; reply_text = realize d; new_belief = b }

  unfoldable pub handle_user_turn :
      ⦃fl : Floating F⦄ ⦃cues : Cues⦄ ⦃pt : Patterns⦄ ⦃rc : RetrieveCues⦄
      → AgentConfig F
      → Option (String → List String)
      → Session F
      → String
      → Input F
      → (Decision F → String)
      → Outcome F
  unfolding blocked_by generate insert
  handle_user_turn c hook s speech_id input realize = elim (blocked_by s) [
    | some state ↦ consent_error state
    | none ↦
        let turn = generate c hook s input realize in
        buffered turn (record s { pending = insert speech_id turn s.pending })
  ]

  abbrev pub user_entry : PendingTurn F → HistoryTurn F
  user_entry p = record {
    role = "user";
    act = none;
    confidence = none;
    text = some p.user_text;
    content = none;
  }

  abbrev pub agent_entry : PendingTurn F → HistoryTurn F
  agent_entry p = record {
    role = "agent";
    act = some (act_name p.decision.act);
    confidence = p.decision.confidence;
    text = some p.reply_text;
    content = none;
  }

  module _ ⦃r : Redactors⦄ where
    -- the transcript is scrubbed before it is stored
    abbrev pub user_turn : ℕ → PendingTurn F → CapturedTurn F
    user_turn id p = record {
      turn_id = id;
      speaker = "prospect";
      text = scrub_pii (some p.user_text);
      decision = none;
      rationale = none;
      belief = none;
      kb_version = none;
      retrieved = none;
    }

    abbrev pub agent_turn : ℕ → String → PendingTurn F → CapturedTurn F
    agent_turn id kb_version p = record {
      turn_id = id;
      speaker = "agent";
      text = scrub_pii (some p.reply_text);
      decision = some (act_name p.decision.act);
      rationale = some p.decision.rationale;
      belief = some (to_snapshot p.new_belief);
      kb_version = some kb_version;
      retrieved = p.decision.meta.retrieved;
    }

    -- the body of `commit_turn` for the turn that was buffered
    unfoldable pub capture : Session F → String → PendingTurn F → Session F
    unfolding remove insert
    capture s speech_id p =
        let user_id = s.next_turn_id in
        let agent_id = s.next_turn_id + 1 in
        record s {
          pending = remove speech_id s.pending;
          belief = p.new_belief;
          turns = s.turns ++ (user_turn user_id p ∷ agent_turn agent_id s.kb_version p ∷ []);
          history = s.history ++ (user_entry p ∷ agent_entry p ∷ []);
          speech_to_turn = insert speech_id agent_id s.speech_to_turn;
          turn_to_speech = (agent_id, speech_id) ∷ s.turn_to_speech;
          next_turn_id = s.next_turn_id + 2;
        }

    unfoldable pub commit_turn : Session F → String → Session F
    unfolding lookup capture
    commit_turn s speech_id = elim (lookup speech_id s.pending) [
      | none ↦ s
      | some p ↦ capture s speech_id p
    ]

  unfoldable pub discard_speculative : Session F → String → Session F
  unfolding remove
  discard_speculative s speech_id = record s { pending = remove speech_id s.pending }

  unfoldable pub on_barge_in : Session F → String → Session F
  unfolding remove
  on_barge_in s speech_id = record s {
    pending = remove speech_id s.pending;
    last_interrupted = some speech_id;
  }

  -- the search of `turn_for_speech_id`
  unfoldable pub find_turn : ℕ → List (CapturedTurn F) → Option (CapturedTurn F)
  find_turn id [] = none
  find_turn id (t ∷ ts) = let rest = find_turn id ts in if nat_eq t.turn_id id then some t else rest

  unfoldable pub turn_for_speech_id : Session F → String → Option (CapturedTurn F)
  unfolding lookup find_turn
  turn_for_speech_id s speech_id = elim (lookup speech_id s.speech_to_turn) [
    | none ↦ none
    | some id ↦ find_turn id s.turns
  ]

  unfoldable pub speech_id_for_turn : Session F → CapturedTurn F → Option String
  unfolding find_speech
  speech_id_for_turn s turn = find_speech turn.turn_id s.turn_to_speech
