-- ===== src/Demo/Answers.antt =====
-- What an answer about consent does to a new call, and what the gate lets a chat do, in
-- src/api/demo_routes.py.
use autonomous_sales_agent.Prelude.{
  String, Bool, true, false, not, ◌&&◌, ◌||◌, ◌≡◌, refl, Option, none, some, if◌then◌else◌, or_else,
  arith, Bool-cases, inl, inr,
}
use autonomous_sales_agent.Float.{Floating}
use autonomous_sales_agent.Consent.{
  RefusalPolicy, MinorCues, detect_minor, is_minor_age, text_flags_minor, new_gate, can_record,
  can_converse, acknowledge_ai, grant_recording, refuse_recording, flag_minor, grant_parental,
  deny_parental,
}
use autonomous_sales_agent.Worker.Seeding.{proceeds}
use autonomous_sales_agent.Demo.{
  DemoCall, ConsentAnswer, Service, parent_answers, flags_minor, answer_consent, consent_respond,
  with_gate,
}

-- `x is True`
abbrev pub is_true : Option Bool → Bool
is_true b = or_else b false

parent_allows :
    (policy : RefusalPolicy) (jurisdiction : String) (told records : Bool) (parental : Option Bool)
    → let gate = new_gate jurisdiction policy in
      let heard = if told then acknowledge_ai gate else gate in
      let answered = if records then grant_recording heard else refuse_recording heard in
      let b = parent_answers parental (flag_minor answered) in
      (can_record b ≡ records && is_true parental)
      × (can_converse b ≡ (records || proceeds policy) && is_true parental)
unfolding can_record can_converse acknowledge_ai grant_recording refuse_recording flag_minor
    grant_parental deny_parental
parent_allows policy jurisdiction told records none = (ground arith, ground arith)
parent_allows policy jurisdiction told records (some true) = (ground arith, ground arith)
parent_allows policy jurisdiction told records (some false) = (ground arith, ground arith)

answer_allows :
    (policy : RefusalPolicy) (jurisdiction : String) (told records : Bool)
    → let gate = new_gate jurisdiction policy in
      let heard = if told then acknowledge_ai gate else gate in
      let b = if records then grant_recording heard else refuse_recording heard in
      (can_record b ≡ records) × (can_converse b ≡ records || proceeds policy)
unfolding can_record can_converse acknowledge_ai grant_recording refuse_recording
answer_allows policy jurisdiction told records = (ground arith, ground arith)

flags_minor-is_true :
    (F : Type 0) ⦃fl : Floating F⦄ ⦃minors : MinorCues⦄ (b : Option Bool)
    → flags_minor F b ≡ is_true b
unfolding detect_minor is_minor_age text_flags_minor
flags_minor-is_true F none = refl
flags_minor-is_true F (some true) = refl
flags_minor-is_true F (some false) = refl

module _ {F : Type 0} ⦃fl : Floating F⦄ ⦃minors : MinorCues⦄ where
  -- The first answer about consent to a new call allows the recording exactly when it grants it and is
  -- not a minor's without the parent's consent. It lets the call converse exactly when it grants the
  -- recording or the policy goes on without one, and it is not a minor's without the parent's consent.
  pub consent_respond-allows :
      (svc : Service F) (call : DemoCall F) (jurisdiction : String) (req : ConsentAnswer)
      → call.gate ≡ new_gate jurisdiction svc.policy
      → let gate = (consent_respond svc call req).1.gate in
        let unopposed = not (is_true req.is_minor) || is_true req.parental_consent in
        (can_record gate ≡ req.recording_consent && unopposed)
        × (can_converse gate ≡ (req.recording_consent || proceeds svc.policy) && unopposed)
  unfolding consent_respond answer_consent with_gate
  consent_respond-allows svc call jurisdiction req h =
      rw (h, flags_minor-is_true F req.is_minor)
        (elim (Bool-cases (is_true req.is_minor)) [
          | inl e ↦ rw e (
              parent_allows svc.policy jurisdiction req.ai_acknowledged req.recording_consent
                req.parental_consent)
          | inr e ↦
              let allowed =
                answer_allows svc.policy jurisdiction req.ai_acknowledged req.recording_consent in
              rw e (ground (arith, allowed.0), ground (arith, allowed.1))
        ])
