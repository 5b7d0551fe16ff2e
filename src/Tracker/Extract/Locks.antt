-- ===== src/Tracker/Extract/Locks.antt =====
-- Which findings of the extractors of src/core/dst.py lock a slot.
use autonomous_sales_agent.Prelude.{
  ℕ, String, Bool, true, false, not, ◌&&◌, ◌||◌, ◌≡◌, refl, Option, none, some, if◌then◌else◌,
  arith, is_some,
}
use autonomous_sales_agent.Float.{Floating, IsOrdered}
use autonomous_sales_agent.Tracker.Cues.{Cues}
use autonomous_sales_agent.Tracker.Intent.{normalize_punct}
use autonomous_sales_agent.Tracker.Extract.{
  Window, plural_day, day, time_of_day, DayPair, SlotPatterns, explicit_grade, bare_grade,
  is_hedged_grade, hedge_conf, scored, extract_grade, single_window, window_of,
  extract_callback_window,
}

module _ {F : Type 0} ⦃fl : Floating F⦄ ⦃sp : SlotPatterns⦄ ⦃cues : Cues⦄ (ord : IsOrdered F) where
  -- a firm day: no hedge, and no deadline
  abbrev IsFirm : String → Type 0
  IsFirm text = (sp.callback_hedge text ≡ false) × (sp.deadline text ≡ false)

  -- the confidence of a named day locks only without a hedge
  day_conf-no_hedge :
      (text : String)
      → fl.le (fl.milli 800) (if sp.callback_hedge text then fl.milli 700 else fl.milli 900) ≡ true
      → sp.callback_hedge text ≡ false
  day_conf-no_hedge text h =
      let soft = ord.le-milli 800 700 (omega arith) (omega arith) in ground arith

  -- the confidence of a time of day never locks
  time_conf-soft :
      (hedged : Bool) → fl.le (fl.milli 800) (if hedged then fl.milli 700 else fl.milli 750) ≡ false
  time_conf-soft true = ord.le-milli 800 700 (omega arith) (omega arith)
  time_conf-soft false = ord.le-milli 800 750 (omega arith) (omega arith)

  single_window-IsFirm :
      (text value : String) (conf : F) (w : Option Window)
      → single_window text w ≡ some (value, conf)
      → fl.le (fl.milli 800) conf ≡ true
      → IsFirm text
  unfolding single_window
  single_window-IsFirm text value conf none e h = ground arith
  single_window-IsFirm text value conf (some (plural_day d)) e h =
      let c = day_conf-no_hedge text in ground arith
  single_window-IsFirm text value conf (some (day d)) e h =
      let c = day_conf-no_hedge text in ground arith
  single_window-IsFirm text value conf (some (time_of_day d)) e h =
      let c = time_conf-soft (sp.callback_hedge text) in ground arith

  window_of-IsFirm :
      (text value : String) (conf : F) (p : Option DayPair)
      → window_of text p ≡ some (value, conf)
      → fl.le (fl.milli 800) conf ≡ true
      → IsFirm text
  unfolding window_of
  window_of-IsFirm text value conf none e h =
      single_window-IsFirm text value conf (sp.window text) e h
  window_of-IsFirm text value conf (some pair) e h =
      let c = day_conf-no_hedge text in
      let s = single_window-IsFirm text value conf (sp.window text) in ground arith

  -- With floats compared as IEEE compares them: a callback window that is found with a confidence that
  -- locks it is firm, since the text has no hedge and names no deadline.
  pub extract_callback_window-IsFirm :
      (utterance value : String) (conf : F)
      → extract_callback_window utterance ≡ some (value, conf)
      → fl.le (fl.milli 800) conf ≡ true
      → IsFirm (normalize_punct utterance)
  unfolding extract_callback_window
  extract_callback_window-IsFirm utterance value conf =
      window_of-IsFirm (normalize_punct utterance) value conf
        (sp.day_pair (normalize_punct utterance))

  -- the capped confidence of a hedged answer never locks
  hedged_conf-soft : (x : F) → fl.le (fl.milli 800) (hedge_conf true x) ≡ false
  unfolding hedge_conf
  hedged_conf-soft x =
      let soft = ord.le-milli 800 600 (omega arith) (omega arith) in
      let known = ord.number_of_le (fl.milli 800) x in
      let less = ord.lt-eq-not-le (fl.milli 600) x (ord.milli_number 600 (omega arith)) in
      let through = ord.le_trans (fl.milli 800) x (fl.milli 600) in ground arith

  -- what the bare forms give
  bare-lock :
      (text : String) (found : Option (String × ℕ)) (hedged : Bool) (value : String) (conf : F)
      → scored found (hedge_conf hedged) ≡ some (value, conf)
      → fl.le (fl.milli 800) conf ≡ true
      → hedged ≡ false
  bare-lock text found false value conf e h = refl
  bare-lock text none true value conf e h = ground arith
  bare-lock text (some (v, n)) true value conf e h =
      let soft = hedged_conf-soft (fl.milli n) in ground arith

  -- A grade that is found with a confidence that locks it stands in an explicit form, or it answers a
  -- question for the grade without a hedge.
  extract_grade-locks :
      (text : String) (asked_grade : Bool) (value : String) (conf : F)
      → extract_grade text asked_grade ≡ some (value, conf)
      → fl.le (fl.milli 800) conf ≡ true
      → is_some (explicit_grade text) || asked_grade && not (is_hedged_grade text) ≡ true
  unfolding extract_grade
  extract_grade-locks text true value conf e h =
      let c = bare-lock text (bare_grade text) (is_hedged_grade text) value conf in ground arith
  extract_grade-locks text false value conf e h = ground arith
