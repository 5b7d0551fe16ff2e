-- ===== src/Escalation.antt =====
-- src/voice/escalation.py: the hand-off of an escalated moment to the review queue, and an operator's
-- takeover of a session. The identifier of a log entry is left out. A decision's rationale is its
-- text here, since the hand-off reads words in it.
pub mod HandOff
pub mod Takeover
mod Queue
use autonomous_sales_agent.Prelude.{
  ℕ, String, Bool, true, false, not, ◌&&◌, ◌||◌, Option, none, some, List, [], ◌∷◌, ◌++◌,
  if◌then◌else◌, says, truthy, or_else,
}
use autonomous_sales_agent.Float.{Floating}
use autonomous_sales_agent.Config.{AgentConfig, threshold, max_concession_band}
use autonomous_sales_agent.Decision.{Decision}
use autonomous_sales_agent.Belief.{BeliefState}
use autonomous_sales_agent.Gates.Reads.{HistoryTurn}
use autonomous_sales_agent.Session.{Session, CapturedTurn}
use autonomous_sales_agent.Knowledge.{Texts}

-- the categories of `_reason_category`
pub data Category : Type 0 where
  concession human_request compliance low_confidence : Category

-- `_DEFERRAL_TEMPLATES`
unfoldable pub deferral_template : Category → String
deferral_template concession =
    "That's a great question about pricing, and I want to get you the right answer — I'm {name}, and I'll have a specialist follow up with the exact options shortly. Can I grab the best number and time to reach you?"
deferral_template human_request =
    "Absolutely — this is {name}, and I'll connect you with a specialist who can take it from here. They'll follow up with you directly; what's the best number and time to reach you?"
deferral_template compliance =
    "I want to make sure you get an accurate, careful answer on that — I'm {name}, and a specialist will follow up to go over it properly. What's the best number and time for them to reach you?"
deferral_template low_confidence =
    "I want to make sure I give you the right guidance here — this is {name}, and I'll have a specialist follow up so we get it exactly right. What's the best number and time to reach you?"

-- `_NEXT_STEP_INTENT`
unfoldable pub next_step_intent : Category → String
next_step_intent concession = "specialist_pricing_followup"
next_step_intent human_request = "specialist_callback"
next_step_intent compliance = "specialist_followup"
next_step_intent low_confidence = "specialist_followup"

-- `_REASON_LABEL`
unfoldable pub reason_label : Category → String
reason_label concession = "pricing concession beyond allowed band"
reason_label human_request = "explicit human request"
reason_label compliance = "compliance territory"
reason_label low_confidence = "consecutive low-confidence turns"

pub record NextStep : Type 0 where
  pub intent : String
  pub contact_hint : Option String
  pub when : Option String
  pub note : String

pub record EscalationLog : Type 0 where
  pub episode_id : String
  pub reason : String
  pub moment : String
  pub turn_id : ℕ
  pub lifecycle : String

pub record EscalationOutcome : Type 0 where
  pub deferral_text : String
  pub next_step : NextStep
  pub escalation_log : EscalationLog

module _ ⦃texts : Texts⦄ where
  -- the category by the words of a rationale
  unfoldable pub category_of_words : String → Category
  category_of_words rationale =
      let low = texts.lower rationale in
      if texts.contains low "concession"
      then concession
      else if texts.contains low "human request"
      then human_request
      else if texts.contains low "compliance"
      then compliance
      else if texts.contains low "low-confidence" || texts.contains low "low confidence"
      then low_confidence
      else human_request

  -- `_deferral_text`
  unfoldable pub deferral_text : {F : Type 0} → Category → AgentConfig F → String
  deferral_text category c =
      let name = if truthy (some c.persona.name) then c.persona.name else "your advisor" in
      texts.replace (deferral_template category) "{name}" name

  -- `a or b` of texts
  abbrev or_text : String → String → String
  or_text a b = if truthy (some a) then a else b

  -- the moment that is logged
  unfoldable pub clean_moment : Option String → String → String → String
  clean_moment moment deferral reason =
      or_text (texts.strip (or_else moment ""))
        (or_text (texts.strip deferral) (texts.concat ("Escalation: " ∷ reason ∷ [])))

  module _ {F : Type 0} ⦃fl : Floating F⦄ where
    -- the first test of `_reason_category`
    unfoldable pub beyond_allowed : Decision F → AgentConfig F → Bool
    beyond_allowed d c = elim d.concession [
      | none ↦ false
      | some asked ↦ fl.lt (threshold c max_concession_band) asked
    ]

    -- `_reason_category`
    unfoldable pub reason_category : Decision F → String → BeliefState F → AgentConfig F → Category
    reason_category d rationale b c =
        if beyond_allowed d c
        then concession
        else if says b.last_user_act "human_request"
        then human_request
        else if says b.last_user_act "compliance"
        then compliance
        else category_of_words rationale

    -- `handle_escalation`: the outcome, the review queue after it, and the belief
    unfoldable pub handle_escalation :
        Decision F
        → String
        → BeliefState F
        → String
        → ℕ
        → AgentConfig F
        → Option String
        → List EscalationLog
        → EscalationOutcome × List EscalationLog × BeliefState F
    handle_escalation d rationale b episode_id turn_id c moment queue =
        let category = reason_category d rationale b c in
        let deferral = deferral_text category c in
        let reason = if truthy (some rationale) then rationale else reason_label category in
        let log : EscalationLog = record {
          episode_id = episode_id;
          reason = reason;
          moment = clean_moment moment deferral reason;
          turn_id = turn_id;
          lifecycle = "unreviewed";
        } in
        (
          record {
            deferral_text = deferral;
            next_step = record {
              intent = next_step_intent category;
              contact_hint = none;
              when = none;
              note = "captured at async deferral; specialist follows up (no live human required)";
            };
            escalation_log = log;
          },
          queue ++ (log ∷ []),
          record b { escalation_imminent = true },
        )

-- `TakeoverState`; a copy of a value is the value here
pub record TakeoverState (F : Type 0) : Type 0 where
  pub belief : BeliefState F
  pub history : List (HistoryTurn F)
  pub turns : List (CapturedTurn F)
  pub kb_version : String
  pub speech_id_cursor : ℕ

module _ {F : Type 0} where
  unfoldable pub snapshot_for_takeover : Session F → TakeoverState F
  snapshot_for_takeover s = record {
    belief = s.belief;
    history = s.history;
    turns = s.turns;
    kb_version = s.kb_version;
    speech_id_cursor = s.next_turn_id;
  }

  unfoldable pub restore_from_takeover : Session F → TakeoverState F → Session F
  restore_from_takeover s state = record s {
    belief = state.belief;
    history = state.history;
    turns = state.turns;
    kb_version = state.kb_version;
    next_turn_id = state.speech_id_cursor;
  }
