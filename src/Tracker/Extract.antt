-- ===== src/Tracker/Extract.antt =====
-- The slot extractors of src/core/dst.py. What each regular expression finds in a text is a parameter;
-- the ranges, the confidences and the guards are the code's.
mod Patterns
pub mod Locks
use autonomous_sales_agent.Prelude.{
  ℕ, String, Bool, true, false, not, ◌&&◌, ◌||◌, Option, none, some, List, [], ◌∷◌, map,
  if◌then◌else◌, leb, or_else, is_some,
}
use autonomous_sales_agent.Float.{Floating}
use autonomous_sales_agent.Dict.{lookup}
use autonomous_sales_agent.Tracker.Cues.{Cues}
use autonomous_sales_agent.Tracker.Intent.{normalize_punct}
use autonomous_sales_agent.Tracker.Slots.{Extracted}
unfoldable pub use Patterns.*

-- the first of two results
abbrev first_of {ℓ} : {A : Type ℓ} → Option A → Option A → Option A
first_of none b = b
first_of (some a) b = some a

module _ ⦃sp : SlotPatterns⦄ where
  -- `_coerce_grade`
  unfoldable pub coerce_grade : RawGrade → Option String
  coerce_grade kinder = some "K"
  coerce_grade (number n) = if leb 1 n && leb n 12 then some (sp.show n) else none

  -- `_is_hedged_grade`
  unfoldable pub is_hedged_grade : String → Bool
  is_hedged_grade text = sp.grade_hedge text || sp.grade_disjunction text

  -- `_normalize_plural_day`
  unfoldable pub normalize_plural_day : String → String
  normalize_plural_day text =
      sp.join (map (λ w. or_else (lookup w singular_days) w) (sp.split text))

  -- a grade with its confidence, where it is one
  abbrev graded : Option String → ℕ → Option (String × ℕ)
  graded none conf = none
  graded (some g) conf = some (g, conf)

  -- a number that an expression has found
  abbrev coerced : Option ℕ → ℕ → Option (String × ℕ)
  coerced none conf = none
  coerced (some n) conf = graded (coerce_grade (number n)) conf

  abbrev spelled_out : Option String → ℕ → Option (String × ℕ)
  spelled_out none conf = none
  spelled_out (some word) conf =
      graded (coerce_grade (or_else (lookup word grade_ordinal_words) kinder)) conf

  unfoldable pub grade_word : String → List (String × String × ℕ) → Option (String × ℕ)
  grade_word text [] = none
  grade_word text ((word, value, conf) ∷ rows) =
      let rest = grade_word text rows in if sp.has_word word text then some (value, conf) else rest

  -- the forms that are trusted in any context
  unfoldable pub explicit_grade : String → Option (String × ℕ)
  explicit_grade text = first_of (coerced (sp.nth_grade text) 950) (
      first_of (coerced (sp.grade_n text) 900)
        (first_of (grade_word text grade_words) (spelled_out (sp.spelled_with_grade text) 900)))

  -- the forms that answer a question for the grade
  unfoldable pub bare_grade : String → Option (String × ℕ)
  bare_grade text = first_of (spelled_out (sp.spelled text) 850) (
      first_of (coerced (sp.bare_ordinal text) 800)
        (if sp.age_context text then none else coerced (sp.bare_number text) 750))

  module _ {F : Type 0} ⦃fl : Floating F⦄ where
    abbrev pub scored : Option (String × ℕ) → (F → F) → Found F
    scored none f = none
    scored (some (value, conf)) f = some (value, f (fl.milli conf))

    -- `_conf` of `_extract_grade`: `min(c, _HEDGED_GRADE_CONFIDENCE)` where hedged
    unfoldable pub hedge_conf : Bool → F → F
    hedge_conf hedged c = if hedged then (if fl.lt (fl.milli 600) c then fl.milli 600 else c) else c

    -- `_extract_grade`
    unfoldable pub extract_grade : String → Bool → Found F
    extract_grade text asked_grade =
        first_of (scored (explicit_grade text) (λ c. c)) (
          if asked_grade
          then scored (bare_grade text) (hedge_conf (is_hedged_grade text))
          else none)

    -- `_extract_subject`
    unfoldable pub extract_subject : String → Found F
    extract_subject text =
        if sp.sat_math text
        then some ("SAT math", fl.milli 950)
        else if sp.act_math text
        then some ("ACT math", fl.milli 950)
        else if sp.sat text
        then some ("SAT", fl.milli 850)
        else if sp.act text
        then some ("ACT", fl.milli 850)
        else elim (sp.branch text) [
          | some s ↦ some (s, fl.milli 900)
          | none ↦ elim (sp.school_subject text) [ some s ↦ some (s, fl.milli 850) | none ↦ none ]
        ]

    -- `_extract_budget`
    unfoldable pub extract_budget : String → Found F
    extract_budget text = elim (sp.anchored text) [
      | some amount ↦ some (amount, fl.milli 950)
      | none ↦ if not (sp.budget_context text) then none else elim (sp.bare_amount text) [
        | some amount ↦ some (amount, fl.milli 700)
        | none ↦ none
      ]
    ]

    -- `_extract_timeline`
    unfoldable pub extract_timeline : String → Found F
    extract_timeline text = elim (sp.timeline text) [
      | none ↦ none
      | some value ↦ some (value, if sp.timeline_hedge text then fl.milli 700 else fl.milli 850)
    ]

    -- the confidence of a named day
    abbrev day_conf : String → F
    day_conf text = if sp.callback_hedge text then fl.milli 700 else fl.milli 900

    module _ ⦃cues : Cues⦄ where
      -- the branches of `_CALLBACK_WINDOW_RE`
      unfoldable pub single_window : String → Option Window → Found F
      single_window text none = none
      single_window text (some (plural_day d)) =
          if sp.deadline text || not (sp.scheduling text)
          then none
          else some (normalize_plural_day (cues.strip d), day_conf text)
      single_window text (some (day d)) =
          if sp.deadline text
          then none
          else some (normalize_plural_day (cues.strip d), day_conf text)
      single_window text (some (time_of_day t)) =
          if sp.scheduling text
          then some (cues.strip t, if sp.callback_hedge text then fl.milli 700 else fl.milli 750)
          else none

      -- the branch of a pair of days, and the rest
      unfoldable pub window_of : String → Option DayPair → Found F
      window_of text none = single_window text (sp.window text)
      window_of text (some pair) =
          if sp.negation pair.before || sp.negation pair.after
          then none
          else if not (sp.deadline text)
          then some (normalize_plural_day (cues.strip pair.days), day_conf text)
          else single_window text (sp.window text)

      -- `_extract_callback_window`
      unfoldable pub extract_callback_window : String → Found F
      extract_callback_window utterance =
          let text = normalize_punct utterance in window_of text (sp.day_pair text)

      abbrev named : String → Found F → Extracted F → Extracted F
      named name none rest = rest
      named name (some (value, conf)) rest = (name, value, conf) ∷ rest

      -- what `_EXTRACTORS` find in an utterance, in their order
      unfoldable pub extract_all : String → Bool → Extracted F
      extract_all utterance asked_grade =
          named "grade_level" (extract_grade utterance asked_grade) (
            named "subject" (extract_subject utterance) (
              named "budget" (extract_budget utterance) (
                named "timeline" (extract_timeline utterance)
                  (named "callback_window" (extract_callback_window utterance) []))))
