-- ===== src/Consent.antt =====
-- src/voice/consent.py: the consent gate of a call, a state machine, and the compliance helpers
-- beside it.
pub mod Recording
pub mod Minors
pub mod Pii
use autonomous_sales_agent.Prelude.{
  ℕ, ◌+◌, String, Bool, true, false, not, ◌&&◌, ◌||◌, Option, none, some, List, [], ◌∷◌,
  if◌then◌else◌, truthy, or_else, member, leb,
}
use autonomous_sales_agent.Float.{Floating}

-- the states of a call
pub data Phase : Type 0 where
  pending ai_disclosed ready unrecorded need_parental ended : Phase

pub data RefusalPolicy : Type 0 where
  proceed_unrecorded end_call : RefusalPolicy

pub record ConsentGate : Type 0 where
  pub jurisdiction : String
  pub refusal_policy : RefusalPolicy
  pub state : Phase
  pub recording_granted : Bool
  pub ai_acknowledged : Bool
  pub minor_suspected : Bool
  pub resume_state : Option Phase

-- a new gate
abbrev pub new_gate : String → RefusalPolicy → ConsentGate
new_gate jurisdiction policy = record {
  jurisdiction = jurisdiction;
  refusal_policy = policy;
  state = pending;
  recording_granted = false;
  ai_acknowledged = false;
  minor_suspected = false;
  resume_state = none;
}

abbrev pub is_ready : Phase → Bool
is_ready ready = true
is_ready _ = false

abbrev pub is_ended : Phase → Bool
is_ended ended = true
is_ended _ = false

-- `_CONVERSABLE`
abbrev pub is_conversable : Phase → Bool
is_conversable ready = true
is_conversable unrecorded = true
is_conversable _ = false

abbrev is_need_parental : Phase → Bool
is_need_parental need_parental = true
is_need_parental _ = false

-- the states that an answer about recording changes
abbrev takes_answer : Phase → Bool
takes_answer need_parental = false
takes_answer ended = false
takes_answer _ = true

unfoldable pub can_record : ConsentGate → Bool
can_record g = is_ready g.state && g.recording_granted

unfoldable pub can_converse : ConsentGate → Bool
can_converse g = is_conversable g.state

unfoldable pub is_active : ConsentGate → Bool
is_active g = not (is_ended g.state)

unfoldable pub acknowledge_ai : ConsentGate → ConsentGate
acknowledge_ai g = elim g.state [
  | pending ↦ record g { ai_acknowledged = true; state = ai_disclosed }
  | _ ↦ g
]

unfoldable pub grant_recording : ConsentGate → ConsentGate
grant_recording g = record g {
  ai_acknowledged = true;
  recording_granted = true;
  state = if takes_answer g.state then ready else g.state;
}

-- the state after a refusal
abbrev refused_state : RefusalPolicy → Phase
refused_state end_call = ended
refused_state proceed_unrecorded = unrecorded

unfoldable pub refuse_recording : ConsentGate → ConsentGate
refuse_recording g = record g {
  recording_granted = false;
  state = if takes_answer g.state then refused_state g.refusal_policy else g.state;
}

-- `READY if self._recording_granted else UNRECORDED`
abbrev resume_to : Bool → Phase
resume_to granted = if granted then ready else unrecorded

unfoldable pub flag_minor : ConsentGate → ConsentGate
flag_minor g = if is_ended g.state then g else record g {
  minor_suspected = true;
  resume_state = some (resume_to g.recording_granted);
  state = need_parental;
}

unfoldable pub grant_parental : ConsentGate → ConsentGate
grant_parental g =
    if is_need_parental g.state
    then record g { state = or_else g.resume_state (resume_to g.recording_granted) }
    else g

unfoldable pub deny_parental : ConsentGate → ConsentGate
deny_parental g = if is_need_parental g.state then record g { state = ended } else g

unfoldable pub end : ConsentGate → ConsentGate
end g = record g { state = ended }

-- The transitions, as events of a call.
pub data Event : Type 0 where
  acknowledges grants refuses minor parent_grants parent_denies hangs_up : Event

unfoldable pub step : ConsentGate → Event → ConsentGate
unfolding acknowledge_ai grant_recording refuse_recording flag_minor grant_parental deny_parental
    end
step g acknowledges = acknowledge_ai g
step g grants = grant_recording g
step g refuses = refuse_recording g
step g minor = flag_minor g
step g parent_grants = grant_parental g
step g parent_denies = deny_parental g
step g hangs_up = end g

unfoldable pub run : ConsentGate → List Event → ConsentGate
unfolding step
run g [] = g
run g (e ∷ es) = run (step g e) es

-- `_ALL_PARTY_STATES`
abbrev pub all_party_states : List String
all_party_states =
    "ca" ∷ "california" ∷ "fl" ∷ "florida" ∷ "il" ∷ "illinois" ∷ "md" ∷ "maryland" ∷ "ma"
    ∷ "massachusetts" ∷ "mt" ∷ "montana" ∷ "nh" ∷ "new hampshire" ∷ "pa" ∷ "pennsylvania" ∷ "wa"
    ∷ "washington" ∷ "ct" ∷ "connecticut" ∷ "de" ∷ "delaware" ∷ "or" ∷ "oregon" ∷ "nv" ∷ "nevada"
    ∷ "mi" ∷ "michigan" ∷ []

pub data ConsentMode : Type 0 where
  all_party one_party : ConsentMode

-- `consent_mode`, with `.strip().lower()` as a parameter
unfoldable pub consent_mode : (String → String) → Option String → ConsentMode
consent_mode normalize jurisdiction =
    if member (normalize (or_else jurisdiction "")) all_party_states then all_party else one_party

-- The regular expressions of `detect_minor`.
pub record MinorCues : Type 0 where
  pub parent_reference : String → Bool
  pub self_reference : String → Bool
  pub for_myself : String → Bool
  pub school_grade : String → Bool

-- The keys of `signals`; an age that is no number is a missing one.
pub record Signals (F : Type 0) : Type 0 where
  pub self_reported_age : Option F
  pub caller_is_student : Option Bool
  pub text : String

-- `0 < age < 18`
unfoldable pub is_minor_age : {F : Type 0} ⦃fl : Floating F⦄ → Option F → Bool
is_minor_age none = false
is_minor_age ⦃fl⦄ (some age) = fl.lt (fl.milli 0) age && fl.lt age (fl.milli 18000)

-- the free-text half of `detect_minor`
unfoldable pub text_flags_minor : MinorCues → String → Bool
text_flags_minor cues text =
    truthy (some text)
    && not (cues.parent_reference text)
    && cues.school_grade text
    && (cues.for_myself text || cues.self_reference text)

unfoldable pub detect_minor : {F : Type 0} ⦃fl : Floating F⦄ → MinorCues → Signals F → Bool
unfolding is_minor_age text_flags_minor
detect_minor cues s =
    if is_minor_age s.self_reported_age
    then true
    else elim s.caller_is_student [ some student ↦ student | none ↦ text_flags_minor cues s.text ]
