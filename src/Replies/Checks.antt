-- ===== src/Replies/Checks.antt =====
-- src/core/respond.py: the two checks that may rewrite a reply, and src/core/nlg.py: the test for a
-- repetition.
use autonomous_sales_agent.Prelude.{
  ℕ, String, Bool, true, false, not, ◌&&◌, ◌||◌, Option, none, some, List, [], ◌∷◌, map, reverse,
  if◌then◌else◌, leb, ltb, any, keep, count, member, length, take, truthy, ◌++◌,
}
use autonomous_sales_agent.Float.{Floating}
use autonomous_sales_agent.Decision.{Act, Decision, answer_via_kb, handle_objection, pitch}
use autonomous_sales_agent.Belief.{BeliefState}
use autonomous_sales_agent.Gates.Reads.{HistoryTurn, is_agent_role, said}
use autonomous_sales_agent.Knowledge.{Texts, Fact, GroundednessReport, is_claim, is_empty, grounded}

-- `_CLAIM_ACTS`
abbrev pub is_claim_act : Act → Bool
is_claim_act answer_via_kb = true
is_claim_act handle_objection = true
is_claim_act pitch = true
is_claim_act _ = false

-- `_UNGROUNDED_FALLBACK`
abbrev pub ungrounded_fallback : String
ungrounded_fallback =
    "I don't have a specific figure I can quote you on that, but I can connect you with the exact details and a plan that fits — would that help?"

-- `_REPETITION_STOPWORDS`
abbrev pub repetition_stopwords : List String
repetition_stopwords =
    "the" ∷ "a" ∷ "an" ∷ "to" ∷ "of" ∷ "in" ∷ "on" ∷ "for" ∷ "and" ∷ "or" ∷ "is" ∷ "are" ∷ "do"
    ∷ "does" ∷ "did" ∷ "can" ∷ "could" ∷ "you" ∷ "your" ∷ "i" ∷ "we" ∷ "he" ∷ "she" ∷ "it" ∷ "they"
    ∷ "me" ∷ "my" ∷ "him" ∷ "her" ∷ "this" ∷ "that" ∷ "what" ∷ "how" ∷ "when" ∷ "why" ∷ "who"
    ∷ "which" ∷ "will" ∷ "would" ∷ "so" ∷ "just" ∷ "not" ∷ "or" ∷ "really" ∷ "actually" ∷ "tell"
    ∷ "give" ∷ "with" ∷ "at" ∷ "be" ∷ "have" ∷ "has" ∷ "out" ∷ "ll" ∷ "re" ∷ "ve" ∷ "s" ∷ "t"
    ∷ "let" ∷ "get" ∷ []

-- `_REPETITION_WORD_THRESHOLD`
abbrev pub repetition_word_threshold : ℕ
repetition_word_threshold = 8

-- the elements of a list as a set, each once
abbrev pub distinct : List String → List String
distinct [] = []
distinct (w ∷ ws) = let rest = distinct ws in if member w rest then rest else w ∷ rest

-- how `realize` is asked to word the decision
pub data Mode : Type 0 where
  first_try grounding_retry repetition_retry : Mode

-- `realize`, by mode, decision, belief and the agent's own last lines
abbrev pub Realize : Type 0 → Type 0
Realize F = Mode → Decision F → BeliefState F → List String → Option String

-- the `action` of `meta["grounding"]`
pub data GroundingAction : Type 0 where
  passthrough regenerated fallback stream_flag_only : GroundingAction

-- `meta["grounding"]`; no stamp is left on a turn that claims nothing
pub record GroundingStamp : Type 0 where
  pub grounded : Bool
  pub action : GroundingAction
  pub unsupported : List String

-- the `action` of `meta["repetition"]`
pub data RepetitionAction : Type 0 where
  not_repeated regenerate_failed rewritten retry_accepted flagged : RepetitionAction

module _ ⦃texts : Texts⦄ where
  -- `_content_words_nlg`
  unfoldable pub content_words_nlg : String → List String
  content_words_nlg text = distinct (
      keep (λ w. not (member w repetition_stopwords) && ltb 1 (texts.len w))
        (texts.content_words (texts.lower text)))

  -- the number of words that two lines share
  unfoldable pub shared_words : String → String → ℕ
  unfolding content_words_nlg
  shared_words reply prior =
      let prior_words = content_words_nlg prior in
      count (λ w. member w prior_words) (content_words_nlg reply)

  -- `_near_verbatim_repetition`
  unfoldable pub near_verbatim_repetition : String → List String → Bool
  unfolding content_words_nlg shared_words
  near_verbatim_repetition reply own_last_lines =
      not (is_empty own_last_lines)
      && not (leb (length (content_words_nlg reply)) repetition_word_threshold)
      && any (λ prior. ltb repetition_word_threshold (shared_words reply prior)) own_last_lines

  -- the words of a reply, in lower case
  abbrev pub reply_words : String → List String
  reply_words reply = map texts.lower (texts.words reply)

  -- the part of `_derepetition_blocking_reply` after a repetition, by the answer to the retry
  unfoldable pub say_anew : String → Option String → List String → String × RepetitionAction
  say_anew reply none own_lines = (reply, regenerate_failed)
  say_anew reply (some retried) own_lines =
      if not (near_verbatim_repetition retried own_lines)
      then (retried, rewritten)
      else (retried, retry_accepted)

  module _ {F : Type 0} where
    -- the strict promise words of `_is_fabrication`
    unfoldable pub unsupported_promise : String → GroundednessReport → List (Fact F) → Bool
    unsupported_promise reply report facts =
        any (λ w. is_claim w && member w report.unsupported_terms) (reply_words reply)
        || (any is_claim (reply_words reply) && elim facts [ [] ↦ true | _ ∷ _ ↦ false ])

    -- `_is_fabrication`
    unfoldable pub is_fabrication : String → GroundednessReport → List (Fact F) → Bool
    unfolding unsupported_promise
    is_fabrication reply report facts =
        not (is_empty report.unsupported_numbers)
        || unsupported_promise reply report facts
        || texts.invented_outcome reply

    own_lines_from : List (HistoryTurn F) → List String
    own_lines_from [] = []
    own_lines_from (t ∷ ts) =
        let rest = own_lines_from ts in
        let line = texts.strip (said t) in
        if is_agent_role t.role && truthy (some line) then line ∷ rest else rest

    -- `_own_last_lines`, the last four, oldest first
    unfoldable pub own_last_lines : List (HistoryTurn F) → List String
    unfolding own_lines_from
    own_last_lines history = reverse (take 4 (own_lines_from (reverse history)))

    module _ ⦃fl : Floating F⦄ where
      -- the test by which a wording is spoken
      unfoldable pub accepted : String → List (Fact F) → Bool
      unfolding grounded is_fabrication
      accepted reply facts =
          let report = grounded reply facts in
          report.grounded || not (is_fabrication reply report facts)

      unfoldable pub fallback_stamp : String → List (Fact F) → GroundingStamp
      fallback_stamp reply facts =
          let report = grounded reply facts in
          record {
            grounded = false;
            action = fallback;
            unsupported = report.unsupported_numbers ++ report.unsupported_terms;
          }

      -- the part of `_ground_blocking_reply` after a fabrication, by the answer to the retry
      unfoldable pub regenerate :
          String → Option String → List (Fact F) → String × Option GroundingStamp
      regenerate reply none facts = (ungrounded_fallback, some (fallback_stamp reply facts))
      regenerate reply (some retried) facts =
          if accepted retried facts
          then (retried, some (record { grounded = false; action = regenerated; unsupported = [] }))
          else (ungrounded_fallback, some (fallback_stamp retried facts))

      -- `_ground_blocking_reply`
      unfoldable pub ground_blocking_reply :
          String
          → Decision F
          → BeliefState F
          → Realize F
          → List (Fact F)
          → List String
          → String × Option GroundingStamp
      ground_blocking_reply reply d b realize facts own_lines =
          if not (is_claim_act d.act)
          then (reply, none)
          else if accepted reply facts
          then (
            reply,
            some (record {
              grounded = (grounded reply facts).grounded;
              action = passthrough;
              unsupported = [];
            }),
          )
          else regenerate reply (realize grounding_retry d b own_lines) facts

    -- `_derepetition_blocking_reply`
    unfoldable pub derepetition_blocking_reply :
        String → Decision F → BeliefState F → Realize F → List String → String × RepetitionAction
    derepetition_blocking_reply reply d b realize own_lines =
        if not (near_verbatim_repetition reply own_lines)
        then (reply, not_repeated)
        else say_anew reply (realize repetition_retry d b own_lines) own_lines
