-- ===== src/Tests/Samples.antt =====
-- Sample data: a configuration at its default thresholds, beliefs with levels in thousandths, and
-- regular expressions that know a few phrases.
use autonomous_sales_agent.Prelude.{
  ℕ, String, true, false, none, some, List, [], ◌∷◌, ◌==◌, if◌then◌else◌,
}
use autonomous_sales_agent.Prelude.Int.{pos}
use autonomous_sales_agent.Float.{Millis}
use autonomous_sales_agent.Config.{AgentConfig}
use autonomous_sales_agent.Decision.{Act, Decision, Rationale, no_meta}
use autonomous_sales_agent.Belief.{BeliefState, Slot, empty_meta}
use autonomous_sales_agent.Gates.Reads.{HistoryTurn, Patterns}
use autonomous_sales_agent.Tracker.Cues.{Cues}
use autonomous_sales_agent.Session.{RetrieveCues}
use autonomous_sales_agent.Consent.{MinorCues}
use autonomous_sales_agent.Consent.Pii.{Redactors}
use autonomous_sales_agent.Knowledge.{Texts}

abbrev pub level : ℕ → Millis
level n = some (pos n)

abbrev pub config : AgentConfig Millis
config = record {
  version = "v1";
  kb_version = "kb1";
  persona = record { name = "Alex"; role = "advisor"; style = "warm" };
  prompts = [];
  discovery_sequence = some ("subject" ∷ "goal" ∷ []);
  other_playbooks = [];
  thresholds = [];
}

-- trust, purchase intent and bail risk; the others are neutral
abbrev pub drivers_at : ℕ → ℕ → ℕ → List (String × Millis)
drivers_at trust intent bail =
    ("trust", level trust)
    ∷ ("need_intensity", level 500)
    ∷ ("price_sensitivity", level 500)
    ∷ ("urgency", level 500)
    ∷ ("purchase_intent", level intent)
    ∷ ("bail_risk", level bail)
    ∷ []

abbrev pub known : String → List (String × Slot Millis)
known name = (name, record { value = some "algebra"; confidence = level 900 }) ∷ []

-- turn 5 of a call
abbrev pub at_levels : ℕ → ℕ → ℕ → BeliefState Millis
at_levels trust intent bail = record {
  slots = [];
  drivers = drivers_at trust intent bail;
  trends = [];
  stage = "discovery";
  active_objection = none;
  last_user_act = none;
  decision_confidence = none;
  open_question = none;
  turn_count = 5;
  escalation_imminent = false;
  meta = record empty_meta { learner_established = true };
}

abbrev pub proposes : Act → Decision Millis
proposes act = record {
  act = act;
  target_slot = none;
  tier = none;
  rationale = Rationale.proposed "";
  confidence = none;
  concession = none;
  meta = no_meta;
}

abbrev pub turn_by : String → String → String → HistoryTurn Millis
turn_by role act text = record {
  role = role;
  act = some act;
  confidence = none;
  text = some text;
  content = none;
}

instance abbrev pub patterns : Patterns
patterns = record {
  third_party = λ s. s == "for my sister";
  terse_price_reask = λ s. s == "how much";
  price_inquiry = λ s. s == "how much";
  words = λ s. s ∷ [];
  mentions_price = λ s. s == "what is the price";
}

instance abbrev pub cues : Cues
cues = record {
  strip = λ s. s;
  replace = λ s old new. s;
  clip = λ s. s;
  question = λ s. s == "can I talk to someone";
  human_request = λ s. s == "can I talk to someone";
  names_a_person = λ s. s == "can I talk to someone";
  confirm_request = λ s. false;
  memory_check = λ s. false;
  social_aside = λ s. false;
  product_keyword = λ s. false;
  guarantee_demand = λ s. false;
  diy_pattern = λ s. false;
  decider_pattern = λ s. false;
  efficacy_pattern = λ s. false;
  timing_pattern = λ s. false;
  price_pattern = λ s. s == "too expensive";
  grounds = λ objection s. s == "too expensive";
  price_inquiry = λ s. false;
  affordability_refusal = λ s. s == "we cannot afford it";
  hostility = λ s. s == "get lost";
  disclosure = λ s. false;
  learner_establish = λ s. false;
  learner_denial = λ s. false;
  decline = λ s. false;
  contact = λ s. false;
  contact_name = λ s. none;
}

instance abbrev pub retrieve_cues : RetrieveCues
retrieve_cues = record {
  strip = λ s. s;
  lower = λ s. s;
  contains = λ s cue. s == cue;
  acknowledges = λ s. s == "ok";
  ends_in_question = λ s. false;
}

instance abbrev pub redactors : Redactors
redactors = record {
  sub_ssn = λ s. s;
  sub_card = λ f s. s;
  sub_email = λ s. if s == "a@b.co" then "[EMAIL]" else s;
  sub_address = λ s. s;
  sub_name = λ f s. s;
  sub_phone = λ s. s;
  digits = λ s. 0;
  replace = λ s old new. s;
}

abbrev first_of : List String → String
first_of [] = ""
first_of (s ∷ rest) = s

-- one line has a figure, and any two lines share nine words
instance abbrev pub texts : Texts
texts = record {
  lower = λ s. s;
  strip = λ s. s;
  replace = λ s old new. s;
  starts_with = λ s prefix. false;
  ends_with = λ s suffix. false;
  contains = λ s part. s == part;
  len = λ s. 5;
  cut = λ s n. s;
  skip = λ s n. s;
  concat = first_of;
  join = first_of;
  numbers = λ s. if s == "up by 300 points" then "300" ∷ [] else [];
  words = λ s. s ∷ [];
  content_words = λ s. "a1" ∷ "b1" ∷ "c1" ∷ "d1" ∷ "e1" ∷ "f1" ∷ "g1" ∷ "h1" ∷ "i1" ∷ [];
  invented_outcome = λ s. false;
}

instance abbrev pub minor_cues : MinorCues
minor_cues = record {
  parent_reference = λ s. false;
  self_reference = λ s. s == "I am in 9th grade";
  for_myself = λ s. false;
  school_grade = λ s. s == "I am in 9th grade";
}
