-- ===== src/Gates/Recurrence.antt =====
-- The recurrence test of src/core/gates.py: does the open question repeat an earlier one?
use Prim.Native.Nat.{max}
use Prim.Native.String.{len}
use autonomous_sales_agent.Prelude.{
  ◌-◌, String, Bool, true, false, not, ◌&&◌, ◌||◌, some, List, [], ◌∷◌, ◌==◌, if◌then◌else◌, leb,
  ltb, says, truthy, or_else, member, keep, count, length,
}
use autonomous_sales_agent.Belief.{BeliefState}
use autonomous_sales_agent.Gates.Reads.{HistoryTurn, Patterns, said}

-- `_RECUR_STOPWORDS`
abbrev pub recur_stopwords : List String
recur_stopwords =
    "the" ∷ "a" ∷ "an" ∷ "to" ∷ "of" ∷ "in" ∷ "on" ∷ "for" ∷ "and" ∷ "or" ∷ "is" ∷ "are" ∷ "do"
    ∷ "does" ∷ "did" ∷ "can" ∷ "could" ∷ "you" ∷ "your" ∷ "i" ∷ "we" ∷ "he" ∷ "she" ∷ "it" ∷ "they"
    ∷ "me" ∷ "my" ∷ "him" ∷ "her" ∷ "this" ∷ "that" ∷ "what" ∷ "how" ∷ "when" ∷ "why" ∷ "who"
    ∷ "which" ∷ "will" ∷ "would" ∷ "so" ∷ "just" ∷ "not" ∷ "or" ∷ "really" ∷ "actually" ∷ "tell"
    ∷ "give" ∷ "with" ∷ "at" ∷ "be" ∷ "have" ∷ "has" ∷ "out" ∷ []

-- a set of texts, from a list
dedupe : List String → List String
dedupe [] = []
dedupe (x ∷ xs) = let rest = dedupe xs in if member x rest then rest else x ∷ rest

-- `xs[:-1]`
init : {A : Type 0} → List A → List A
init [] = []
init (x ∷ []) = []
init (x ∷ y ∷ ys) = x ∷ init (y ∷ ys)

module _ ⦃pt : Patterns⦄ where
  -- `_content_words`
  unfoldable pub content_words : String → List String
  unfolding dedupe
  content_words text =
      if truthy (some text)
      then dedupe (keep (λ w. not (member w recur_stopwords) && ltb 1 (len w)) (pt.words text))
      else []

  module _ {F : Type 0} where
    -- the user turns before the last one
    prior_user_turns : List (HistoryTurn F) → List (HistoryTurn F)
    unfolding init
    prior_user_turns history = init (keep (λ t. t.role == "user") history)

    price_inquired : List (HistoryTurn F) → Bool
    price_inquired [] = false
    price_inquired (t ∷ ts) =
        says t.act "price_inquiry" || pt.price_inquiry (said t) || price_inquired ts

    -- `_has_prior_price_inquiry`
    unfoldable pub has_prior_price_inquiry : List (HistoryTurn F) → Bool
    unfolding prior_user_turns price_inquired
    has_prior_price_inquiry history = price_inquired (prior_user_turns history)

    -- the loop of `_question_recurs` over the earlier user turns
    repeats_one : List String → List (HistoryTurn F) → Bool
    repeats_one current [] = false
    repeats_one current (t ∷ ts) =
        let prior = content_words (said t) in
        let shared = count (λ w. member w prior) current in
        (leb 2 shared || ltb 0 shared && leb (max 1 (length current - 1)) shared)
        || repeats_one current ts

    -- `_question_recurs`
    unfoldable pub question_recurs : BeliefState F → List (HistoryTurn F) → Bool
    unfolding has_prior_price_inquiry prior_user_turns repeats_one content_words
    question_recurs b [] = false
    question_recurs b (t ∷ ts) =
        let history = t ∷ ts in
        let is_price = says b.last_user_act "price_inquiry" in
        let current = content_words (or_else b.open_question "") in
        if is_price
          && pt.terse_price_reask (or_else b.open_question "")
          && has_prior_price_inquiry history
        then true
        else if ltb (length current) 2
        then is_price && has_prior_price_inquiry history
        else repeats_one current (prior_user_turns history)

    -- an open question that repeats an earlier one: `recurring_q` of `address_direct_input`
    unfoldable pub recurring_question : BeliefState F → List (HistoryTurn F) → Bool
    recurring_question b history =
        truthy b.open_question
        && (says b.last_user_act "question" || says b.last_user_act "price_inquiry")
        && question_recurs b history
