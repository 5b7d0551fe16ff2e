-- ===== src/Tracker/Cues.antt =====
-- What the regular expressions of src/core/dst.py answer, and the text operations of Python that the
-- tracker calls. Both are parameters: the engine and the strings are the interpreter's.
use autonomous_sales_agent.Prelude.{String, Bool, Option}

pub record Cues : Type 0 where
  -- `.strip()`, `.replace(old, new)` and `[:300]`
  pub strip : String → String
  pub replace : String → String → String → String
  pub clip : String → String
  -- `_QUESTION_RE`, `_HUMAN_REQUEST_RE`, `_HUMAN_REQUEST_CUES_RE`
  pub question : String → Bool
  pub human_request : String → Bool
  pub names_a_person : String → Bool
  -- `_CONFIRM_REQUEST_RE`, `_MEMORY_CHECK_RE`, `_SOCIAL_ASIDE_CUES_RE`, `_PRODUCT_KEYWORDS_RE`
  pub confirm_request : String → Bool
  pub memory_check : String → Bool
  pub social_aside : String → Bool
  pub product_keyword : String → Bool
  -- the rows of `_OBJECTION_PATTERNS`; the first is `_GUARANTEE_DEMAND_RE`
  pub guarantee_demand : String → Bool
  pub diy_pattern : String → Bool
  pub decider_pattern : String → Bool
  pub efficacy_pattern : String → Bool
  pub timing_pattern : String → Bool
  pub price_pattern : String → Bool
  -- the values of `_OBJECTION_GROUNDING`, by its keys
  pub grounds : String → String → Bool
  -- `_PRICE_INQUIRY_RE`, `_AFFORDABILITY_REFUSAL_RE`, `_HOSTILITY_RE`, `_DISCLOSURE_RE`
  pub price_inquiry : String → Bool
  pub affordability_refusal : String → Bool
  pub hostility : String → Bool
  pub disclosure : String → Bool
  -- `_LEARNER_ESTABLISH_RE`, `_LEARNER_DENIAL_RE`, `_DECLINE_RE`
  pub learner_establish : String → Bool
  pub learner_denial : String → Bool
  pub decline : String → Bool
  -- `_CONTACT_PHONE_RE` or `_CONTACT_EMAIL_RE`, and the capitalised group of `_CONTACT_NAME_RE`
  pub contact : String → Bool
  pub contact_name : String → Option String
