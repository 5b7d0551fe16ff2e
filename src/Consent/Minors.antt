-- ===== src/Consent/Minors.antt =====
-- Suspected minors: the parental gate of src/voice/consent.py, and who is flagged.
use autonomous_sales_agent.Prelude.{
  true, false, none, some, List, [], ◌∷◌, ◌≡◌, ◌≢◌, arith, ◌⊎◌, All,
}
use autonomous_sales_agent.Float.{Floating}
use autonomous_sales_agent.Consent.{
  ConsentGate, Event, step, run, can_record, can_converse, is_ended, refuses, minor, parent_grants,
  ended, need_parental, acknowledge_ai, grant_recording, refuse_recording, flag_minor,
  grant_parental, deny_parental, end, Signals, MinorCues, detect_minor, is_minor_age,
  text_flags_minor,
}

-- A call that waits for a parent, or is over.
abbrev pub Blocked : ConsentGate → Type 0
Blocked g = (g.state ≡ need_parental) ⊎ (g.state ≡ ended)

step-Blocked : (g : ConsentGate) (e : Event) → e ≢ parent_grants → Blocked g → Blocked (step g e)
unfolding step acknowledge_ai grant_recording refuse_recording flag_minor grant_parental
    deny_parental end
step-Blocked g e n p = ground arith

run-Blocked :
    (g : ConsentGate) (es : List Event)
    → All (λ e. e ≢ parent_grants) es
    → Blocked g
    → Blocked (run g es)
unfolding run
run-Blocked g [] n p = p
run-Blocked g (e ∷ es) (n, ns) p = run-Blocked (step g e) es ns (step-Blocked g e n p)

flag-Blocked : (g : ConsentGate) → Blocked (flag_minor g)
unfolding flag_minor
flag-Blocked g = ground arith

Blocked-silent : (g : ConsentGate) → Blocked g → (can_converse g ≡ false) × (can_record g ≡ false)
unfolding can_converse can_record
Blocked-silent g p = ground arith

-- After a caller is flagged as a minor, the call is neither conversed nor recorded through any
-- events, until a parent grants consent.
pub run-minor :
    (g : ConsentGate) (es : List Event)
    → All (λ e. e ≢ parent_grants) es
    → (can_converse (run (flag_minor g) es) ≡ false) × (can_record (run (flag_minor g) es) ≡ false)
run-minor g es n =
    Blocked-silent (run (flag_minor g) es) (run-Blocked (flag_minor g) es n (flag-Blocked g))

-- In a call that has not ended, under either refusal policy, a refusal to be recorded between a
-- minor flag and a parent's grant does not end the call: it goes on, unrecorded.
refusal-parental :
    (g : ConsentGate)
    → is_ended g.state ≡ false
    → let after = run g (minor ∷ refuses ∷ parent_grants ∷ []) in
      (can_converse after ≡ true) × (can_record after ≡ false)
unfolding run step flag_minor refuse_recording grant_parental can_converse can_record
refusal-parental g p = ground arith

module _ {F : Type 0} ⦃fl : Floating F⦄ where
  -- A caller who is flagged without a minor's age and without being known as a student has said
  -- nothing of being one, and is flagged by a text with a school cue and no reference to a child.
  pub detect_minor_text :
      (cues : MinorCues) (s : Signals F)
      → detect_minor cues s ≡ true
      → is_minor_age s.self_reported_age ≡ false
      → s.caller_is_student ≢ some true
      → (s.caller_is_student ≡ none)
        × (cues.school_grade s.text ≡ true)
        × (cues.parent_reference s.text ≡ false)
  unfolding detect_minor text_flags_minor
  detect_minor_text cues s flagged age student = ground arith
