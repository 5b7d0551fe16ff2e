-- ===== src/Consent/Recording.antt =====
-- When a call may be recorded or go on: runs of the consent gate of src/voice/consent.py.
use autonomous_sales_agent.Prelude.{
  Bool, true, false, not, List, [], ◌∷◌, ◌≡◌, ◌≢◌, sym, refl, ap, ◌∙◌, arith, String,
}
use autonomous_sales_agent.Consent.{
  ConsentGate, Event, RefusalPolicy, new_gate, step, run, can_record, can_converse, is_ended,
  grants, refuses, ended, need_parental, proceed_unrecorded, end_call, acknowledge_ai,
  grant_recording, refuse_recording, flag_minor, grant_parental, deny_parental, end,
}

-- The last answer about recording, in order of time, or the one before the events.
abbrev pub last_answer : Bool → List Event → Bool
last_answer granted [] = granted
last_answer granted (grants ∷ es) = last_answer true es
last_answer granted (refuses ∷ es) = last_answer false es
last_answer granted (_ ∷ es) = last_answer granted es

abbrev pub answer_of : Bool → Event → Bool
answer_of granted grants = true
answer_of granted refuses = false
answer_of granted _ = granted

step-granted :
    (g : ConsentGate) (e : Event) → (step g e).recording_granted ≡ answer_of g.recording_granted e
unfolding step acknowledge_ai grant_recording refuse_recording flag_minor grant_parental
    deny_parental end
step-granted g e = ground arith

last_answer-cons :
    (granted : Bool) (e : Event) (es : List Event)
    → last_answer granted (e ∷ es) ≡ last_answer (answer_of granted e) es
last_answer-cons granted e es = ground arith

run-granted :
    (g : ConsentGate) (es : List Event)
    → (run g es).recording_granted ≡ last_answer g.recording_granted es
unfolding run
run-granted g [] = refl
run-granted g (e ∷ es) =
    run-granted (step g e) es
    ∙ ap (λ granted. last_answer granted es) (step-granted g e)
    ∙ sym (last_answer-cons g.recording_granted e es)

-- In every call that begins with a new gate, whatever happens in it, recording is possible at the
-- end only if the caller has answered about recording, and the last answer was a grant.
pub run-can_record :
    (jurisdiction : String) (policy : RefusalPolicy) (es : List Event)
    → can_record (run (new_gate jurisdiction policy) es) ≡ true
    → last_answer false es ≡ true
unfolding can_record
run-can_record jurisdiction policy es e =
    ground (arith, run-granted (new_gate jurisdiction policy) es)

step-ended : (g : ConsentGate) (e : Event) → g.state ≡ ended → (step g e).state ≡ ended
unfolding step acknowledge_ai grant_recording refuse_recording flag_minor grant_parental
    deny_parental end
step-ended g e p = ground arith

-- A call that has ended stays ended, whatever happens after: it is neither recorded nor conversed.
pub run-ended :
    (g : ConsentGate) (es : List Event)
    → g.state ≡ ended
    → ((run g es).state ≡ ended)
      × (can_record (run g es) ≡ false)
      × (can_converse (run g es) ≡ false)
unfolding run can_record can_converse
run-ended g [] p = ground arith
run-ended g (e ∷ es) p = run-ended (step g e) es (step-ended g e p)

abbrev pub proceeds : RefusalPolicy → Bool
proceeds proceed_unrecorded = true
proceeds end_call = false

-- An answer about recording in an active call without a minor gate: a grant makes the call
-- recordable; a refusal ends it under the policy to end, and else lets it go on unrecorded.
pub step-answer :
    (g : ConsentGate)
    → not (is_ended g.state) ≡ true
    → g.state ≢ need_parental
    → (can_record (step g grants) ≡ true)
      × (can_record (step g refuses) ≡ false)
      × (can_converse (step g refuses) ≡ proceeds g.refusal_policy)
      × (is_ended (step g refuses).state ≡ not (proceeds g.refusal_policy))
unfolding step grant_recording refuse_recording can_record can_converse
step-answer g p q = ground arith
