-- ===== src/Replies/Safeguards.antt =====
-- What the checks of src/core/respond.py let a turn say, blocking and streamed.
use autonomous_sales_agent.Prelude.{
  String, Bool, true, false, not, ◌&&◌, ◌||◌, ◌≡◌, refl, Option, none, some, List, all, ◌==◌, arith,
  Bool-cases, inl, inr, eq_iff, member,
}
use autonomous_sales_agent.Float.{Floating}
use autonomous_sales_agent.Decision.{Decision}
use autonomous_sales_agent.Belief.{BeliefState}
use autonomous_sales_agent.Knowledge.{
  Texts, Fact, is_claim, is_empty, terms_of, number_backed, term_backed, grounded, stopwords,
}
use autonomous_sales_agent.Knowledge.Support.{
  backed, grounded-backed, grounded-names, keep-is_empty, keep-member, member-any, all-member,
}
use autonomous_sales_agent.Replies.{
  is_claim_act, ungrounded_fallback, grounding_retry, Realize, RepetitionAction, not_repeated,
  regenerate_failed, reply_words, unsupported_promise, is_fabrication, accepted, regenerate,
  ground_blocking_reply, say_anew, derepetition_blocking_reply,
}

-- the check for a repetition keeps the reply
abbrev pub keeps : RepetitionAction → Bool
keeps not_repeated = true
keeps regenerate_failed = true
keeps _ = false

module _ {F : Type 0} ⦃fl : Floating F⦄ ⦃texts : Texts⦄ where
  module _ (facts : List (Fact F)) (reply : String) where
    honest_numbers :
        is_empty (grounded reply facts).unsupported_numbers ≡ true
        → all (number_backed facts) (texts.numbers reply) ≡ true
    unfolding grounded
    honest_numbers h = keep-is_empty (number_backed facts) (texts.numbers reply) h

    honest_promise :
        (t : String)
        → unsupported_promise reply (grounded reply facts) facts ≡ false
        → member t (terms_of reply) ≡ true
        → is_claim t ≡ true
        → term_backed facts t ≡ true
    unfolding unsupported_promise terms_of
    honest_promise t h m c = elim (Bool-cases (term_backed facts t)) [
      | inl y ↦ y
      | inr n ↦
          let named = grounded-names facts reply t m c n in
          let spoken = keep-member (λ w. not (member w stopwords)) t (reply_words reply) m in
          let clean =
            member-any (λ w. is_claim w && member w (grounded reply facts).unsupported_terms) t
              (reply_words reply) (ground (arith, h)) spoken in
          absurd (ground (arith, named, clean, c))
    ]

    honest-backed :
        is_fabrication reply (grounded reply facts) facts ≡ false → backed facts reply ≡ true
    unfolding is_fabrication
    honest-backed h =
        let numbers = honest_numbers (ground (arith, h)) in
        let claims : all (λ t. not (is_claim t) || term_backed facts t) (terms_of reply) ≡ true =
          all-member _ (terms_of reply) (λ t m. elim (Bool-cases (is_claim t)) [
            | inl y ↦ ground (arith, honest_promise t (ground (arith, h)) m y)
            | inr n ↦ ground (arith, n)
          ]) in
        ground (arith, numbers, claims)

    accepted-backed : accepted reply facts ≡ true → backed facts reply ≡ true
    unfolding accepted
    accepted-backed h = elim (Bool-cases (grounded reply facts).grounded) [
      | inl y ↦ grounded-backed facts reply y
      | inr n ↦ honest-backed (ground (arith, n, h))
    ]

  -- the fallback, or a text that the facts back
  unfoldable pub is_honest : List (Fact F) → String → Bool
  is_honest facts reply = (reply == ungrounded_fallback) || backed facts reply

  fallback-is_honest : (facts : List (Fact F)) → is_honest facts ungrounded_fallback ≡ true
  unfolding is_honest
  fallback-is_honest facts = ground (arith, (eq_iff ungrounded_fallback ungrounded_fallback).1 refl)

  backed-is_honest :
      (facts : List (Fact F)) (reply : String)
      → backed facts reply ≡ true
      → is_honest facts reply ≡ true
  unfolding is_honest
  backed-is_honest facts reply h = elim (Bool-cases (reply == ungrounded_fallback)) [
    | inl y ↦ ground (arith, y)
    | inr n ↦ rw (n, h) refl
  ]

  regenerate-is_honest :
      (facts : List (Fact F)) (reply : String) (answer : Option String)
      → is_honest facts (regenerate reply answer facts).0 ≡ true
  unfolding regenerate
  regenerate-is_honest facts reply none = fallback-is_honest facts
  regenerate-is_honest facts reply (some retried) = elim (Bool-cases (accepted retried facts)) [
    | inl y ↦ rw y (backed-is_honest facts retried (accepted-backed facts retried y))
    | inr n ↦ rw n (fallback-is_honest facts)
  ]

  module _ (d : Decision F) (b : BeliefState F) (realize : Realize F) (facts : List (Fact F))
      (own_lines : List String) where
    pub ground_blocking_reply-is_honest :
        (reply : String)
        → is_claim_act d.act ≡ true
        → is_honest facts (ground_blocking_reply reply d b realize facts own_lines).0 ≡ true
    unfolding ground_blocking_reply
    ground_blocking_reply-is_honest reply claims = elim (Bool-cases (accepted reply facts)) [
      | inl y ↦ rw (claims, y) (backed-is_honest facts reply (accepted-backed facts reply y))
      | inr n ↦
          rw (claims, n) (regenerate-is_honest facts reply (realize grounding_retry d b own_lines))
    ]

    pub derepetition-keeps :
        (reply : String)
        → let r = derepetition_blocking_reply reply d b realize own_lines in
          keeps r.1 ≡ true → r.0 ≡ reply
    unfolding derepetition_blocking_reply say_anew
    derepetition-keeps reply h = ground arith
