-- ===== src/Escalation/HandOff.antt =====
-- What the hand-off of src/voice/escalation.py leaves in the review queue.
use autonomous_sales_agent.Prelude.{
  ℕ, String, true, ◌≡◌, refl, Option, some, List, [], ◌∷◌, ◌++◌, truthy, if◌then◌else◌, arith,
  or_else, Bool-cases, inl, inr,
}
use autonomous_sales_agent.Float.{Floating}
use autonomous_sales_agent.Config.{AgentConfig}
use autonomous_sales_agent.Decision.{
  Decision, EscalationReason, concession_beyond_band, compliance_territory, low_confidence_turns,
}
use autonomous_sales_agent.Belief.{BeliefState}
use autonomous_sales_agent.Gates.Reads.{HistoryTurn, escalation_reason, beyond_band}
use autonomous_sales_agent.Knowledge.{Texts}
use autonomous_sales_agent.Escalation.{
  Category, concession, compliance, low_confidence, category_of_words, reason_label, EscalationLog,
  deferral_text, clean_moment, beyond_allowed, reason_category, handle_escalation,
}

label-truthy : (category : Category) → truthy (some (reason_label category)) ≡ true
unfolding reason_label
label-truthy concession = refl
label-truthy Category.human_request = refl
label-truthy compliance = refl
label-truthy low_confidence = refl

reason-truthy :
    (rationale : String) (category : Category)
    → truthy (some (if truthy (some rationale) then rationale else reason_label category)) ≡ true
reason-truthy rationale category = elim (Bool-cases (truthy (some rationale))) [
  | inl y ↦ rw y y
  | inr n ↦ rw n (label-truthy category)
]

-- the category that a gate's reason stands for
abbrev pub category_of : EscalationReason → Category
category_of concession_beyond_band = concession
category_of EscalationReason.human_request = Category.human_request
category_of compliance_territory = compliance
category_of (low_confidence_turns n) = low_confidence

module _ ⦃texts : Texts⦄ where
  clean_moment-truthy :
      (moment : Option String) (deferral reason : String)
      → truthy (some (texts.concat ("Escalation: " ∷ reason ∷ []))) ≡ true
      → truthy (some (clean_moment moment deferral reason)) ≡ true
  unfolding clean_moment
  clean_moment-truthy moment deferral reason h =
      elim (Bool-cases (truthy (some (texts.strip (or_else moment ""))))) [
        | inl y ↦ rw y y
        | inr n ↦ elim (Bool-cases (truthy (some (texts.strip deferral)))) [
          | inl y ↦ rw (n, y) y
          | inr m ↦ rw (n, m) h
        ]
      ]

  module _ {F : Type 0} ⦃fl : Floating F⦄ (d : Decision F) (rationale : String) (b : BeliefState F)
      (c : AgentConfig F) where
    -- A hand-off queues one entry, unreviewed, with a reason and a moment that are not blank, and marks
    -- the belief; the next step that it secures is that of the category. That `"".join` with a prefix
    -- is not blank is assumed.
    pub handle_escalation-queued :
        (episode_id : String) (turn_id : ℕ) (moment : Option String) (queue : List EscalationLog)
        → ((reason : String) → truthy (some (texts.concat ("Escalation: " ∷ reason ∷ []))) ≡ true)
        → let r = handle_escalation d rationale b episode_id turn_id c moment queue in
          (r.1 ≡ queue ++ (r.0.escalation_log ∷ []))
          × (truthy (some r.0.escalation_log.moment) ≡ true)
          × (truthy (some r.0.escalation_log.reason) ≡ true)
          × (r.0.escalation_log.lifecycle ≡ "unreviewed")
          × (r.2 ≡ record b { escalation_imminent = true })
    unfolding handle_escalation
    handle_escalation-queued episode_id turn_id moment queue prefixed =
        let category = reason_category d rationale b c in
        let deferral = deferral_text category c in
        (
          refl,
          clean_moment-truthy moment deferral _ (prefixed _),
          reason-truthy rationale category,
          refl,
          refl,
        )

    same_test : beyond_allowed d c ≡ beyond_band d.concession c
    unfolding beyond_allowed beyond_band
    same_test = ground arith

    -- The hand-off of a decision that the escalation gate has a reason for takes the category of that
    -- reason, where the gate's rationale for a low-confidence streak reads as one.
    pub reason_category-escalation_reason :
        (history : List (HistoryTurn F)) (reason : EscalationReason)
        → ((n : ℕ) → reason ≡ low_confidence_turns n → category_of_words rationale ≡ low_confidence)
        → escalation_reason d b c history ≡ some reason
        → reason_category d rationale b c ≡ category_of reason
    unfolding reason_category escalation_reason beyond_allowed beyond_band
    reason_category-escalation_reason history concession_beyond_band reads e =
        ground (arith, e, same_test)
    reason_category-escalation_reason history EscalationReason.human_request reads e =
        ground (arith, e, same_test)
    reason_category-escalation_reason history compliance_territory reads e =
        ground (arith, e, same_test)
    reason_category-escalation_reason history (low_confidence_turns n) reads e =
        ground (arith, e, same_test, reads n refl)
