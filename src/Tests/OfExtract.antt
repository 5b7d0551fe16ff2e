-- ===== src/Tests/OfExtract.antt =====
-- The theorems on the slot extractors, at sample texts.
use autonomous_sales_agent.Prelude.{◌≡◌, refl, false, none, some, [], ◌∷◌, ◌==◌, if◌then◌else◌}
use autonomous_sales_agent.Float.{Millis, millis_floating, Millis-IsOrdered}
use autonomous_sales_agent.Tracker.Intent.{normalize_punct}
use autonomous_sales_agent.Tracker.Extract.{
  plural_day, SlotPatterns, normalize_plural_day, single_window, window_of, extract_callback_window,
}
use autonomous_sales_agent.Tracker.Extract.Locks.{extract_callback_window-IsFirm}
use autonomous_sales_agent.Tests.Samples.{level, cues}

instance abbrev slot_patterns : SlotPatterns
slot_patterns = record {
  nth_grade = λ s. none;
  grade_n = λ s. none;
  has_word = λ w s. false;
  spelled_with_grade = λ s. none;
  spelled = λ s. if s == "third" then some "third" else none;
  bare_ordinal = λ s. none;
  bare_number = λ s. none;
  age_context = λ s. false;
  grade_hedge = λ s. false;
  grade_disjunction = λ s. false;
  sat_math = λ s. false;
  act_math = λ s. false;
  sat = λ s. false;
  act = λ s. false;
  branch = λ s. none;
  school_subject = λ s. none;
  anchored = λ s. none;
  bare_amount = λ s. none;
  budget_context = λ s. false;
  timeline = λ s. none;
  timeline_hedge = λ s. false;
  day_pair = λ s. none;
  window = λ s. if s == "call me mondays" then some (plural_day "mondays") else none;
  negation = λ s. false;
  deadline = λ s. false;
  callback_hedge = λ s. s == "maybe";
  scheduling = λ s. s == "call me mondays";
  show = λ n. "3";
  split = λ s. s ∷ [];
  join = λ words. "monday";
}

finds_monday : extract_callback_window {F = Millis} "call me mondays" ≡ some ("monday", level 900)
unfolding extract_callback_window window_of single_window normalize_punct normalize_plural_day
finds_monday = refl

extract_callback_window-IsFirm_example :
    (slot_patterns.callback_hedge (normalize_punct "call me mondays") ≡ false)
    × (slot_patterns.deadline (normalize_punct "call me mondays") ≡ false)
extract_callback_window-IsFirm_example =
    extract_callback_window-IsFirm Millis-IsOrdered "call me mondays" "monday" (level 900)
      finds_monday refl
