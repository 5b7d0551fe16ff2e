-- ===== src/Tracker/Extract/Patterns.antt =====
-- What the slot extractors of src/core/dst.py look for: their regular expressions, and their tables.
use autonomous_sales_agent.Prelude.{ℕ, String, Bool, Option, List, [], ◌∷◌}

-- the groups of `_CALLBACK_WINDOW_RE`
pub data Window : Type 0 where
  plural_day day time_of_day : String → Window

-- a match of `_CALLBACK_DISJUNCTION_RE`: the days, and the 30 characters before and 20 after it
pub record DayPair : Type 0 where
  pub days : String
  pub before : String
  pub after : String

-- What the regular expressions find, with the groups in lower case.
pub record SlotPatterns : Type 0 where
  -- the two rows of `_GRADE_PATTERNS`
  pub nth_grade : String → Option ℕ
  pub grade_n : String → Option ℕ
  -- `\b{word}\b`, of the word and the text
  pub has_word : String → String → Bool
  -- `_GRADE_SPELLED_WITH_GRADE_RE`, `_GRADE_SPELLED_WORD_RE`
  pub spelled_with_grade : String → Option String
  pub spelled : String → Option String
  -- `_GRADE_BARE_ORDINAL_RE`, `_GRADE_BARE_NUMBER_RE`, `_AGE_CONTEXT_RE`
  pub bare_ordinal : String → Option ℕ
  pub bare_number : String → Option ℕ
  pub age_context : String → Bool
  -- `_GRADE_HEDGE_RE`, `_GRADE_DISJUNCTION_RE`
  pub grade_hedge : String → Bool
  pub grade_disjunction : String → Bool
  -- the rows of `_SUBJECT_PATTERNS`
  pub sat_math : String → Bool
  pub act_math : String → Bool
  pub sat : String → Bool
  pub act : String → Bool
  pub branch : String → Option String
  pub school_subject : String → Option String
  -- `_BUDGET_ANCHORED_RE` and `_BUDGET_BARE_RE`, the digits; `_BUDGET_CONTEXT_RE`
  pub anchored : String → Option String
  pub bare_amount : String → Option String
  pub budget_context : String → Bool
  -- `_TIMELINE_RE`, `_TIMELINE_HEDGE_RE`
  pub timeline : String → Option String
  pub timeline_hedge : String → Bool
  -- `_CALLBACK_DISJUNCTION_RE`, `_CALLBACK_WINDOW_RE`
  pub day_pair : String → Option DayPair
  pub window : String → Option Window
  -- `_AVAILABILITY_NEGATION_RE`, `_DEADLINE_CONTEXT_RE`, `_CALLBACK_HEDGE_RE`, `_SCHEDULING_CUES_RE`
  pub negation : String → Bool
  pub deadline : String → Bool
  pub callback_hedge : String → Bool
  pub scheduling : String → Bool
  -- `str(n)`, `s.lower().split()` and `" ".join`
  pub show : ℕ → String
  pub split : String → List String
  pub join : List String → String

-- a parsed grade
pub data RawGrade : Type 0 where
  kinder : RawGrade
  number : ℕ → RawGrade

-- `_GRADE_ORDINAL_WORDS`
abbrev pub grade_ordinal_words : List (String × RawGrade)
grade_ordinal_words =
    ("first", number 1)
    ∷ ("second", number 2)
    ∷ ("third", number 3)
    ∷ ("fourth", number 4)
    ∷ ("fifth", number 5)
    ∷ ("sixth", number 6)
    ∷ ("seventh", number 7)
    ∷ ("eighth", number 8)
    ∷ ("ninth", number 9)
    ∷ ("tenth", number 10)
    ∷ ("eleventh", number 11)
    ∷ ("twelfth", number 12)
    ∷ ("kinder", kinder)
    ∷ []

-- `_GRADE_WORDS`, with the confidences in thousandths
abbrev pub grade_words : List (String × String × ℕ)
grade_words =
    ("kindergarten", "K", 900)
    ∷ ("freshman", "9", 700)
    ∷ ("sophomore", "10", 700)
    ∷ ("junior", "11", 700)
    ∷ ("senior", "12", 700)
    ∷ []

-- `_PLURAL_TO_SINGULAR`
abbrev pub singular_days : List (String × String)
singular_days =
    ("mondays", "monday")
    ∷ ("tuesdays", "tuesday")
    ∷ ("wednesdays", "wednesday")
    ∷ ("thursdays", "thursday")
    ∷ ("fridays", "friday")
    ∷ ("saturdays", "saturday")
    ∷ ("sundays", "sunday")
    ∷ []

-- a value with its confidence, where one is found
abbrev pub Found : Type 0 → Type 0
Found F = Option (String × F)
