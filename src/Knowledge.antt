-- ===== src/Knowledge.antt =====
-- src/kb/retriever.py: the groundedness check of an answer against the retrieved facts. The regular
-- expressions and Python's methods of `str` are parameters; the embeddings and the database that
-- rank the facts are outside the model.
pub mod Support
use autonomous_sales_agent.Prelude.{
  ℕ, ◌+◌, String, Bool, true, false, not, ◌&&◌, ◌||◌, List, [], ◌∷◌, map, if◌then◌else◌, leb, any,
  keep, member, length, ltb,
}
use autonomous_sales_agent.Float.{Floating, of_count}

-- Python's `str` and the searches that the check of a reply uses.
pub record Texts : Type 0 where
  pub lower : String → String
  pub strip : String → String
  -- `s.replace(old, new)`
  pub replace : String → String → String → String
  pub starts_with : String → String → Bool
  pub ends_with : String → String → Bool
  -- `part in s`, of `s` and the part
  pub contains : String → String → Bool
  pub len : String → ℕ
  -- `s[:-n]`
  pub cut : String → ℕ → String
  -- `s[n:]`
  pub skip : String → ℕ → String
  -- `"".join` and `" ".join`
  pub concat : List String → String
  pub join : List String → String
  -- `_NUMBER_RE.findall` and `_WORD_RE.findall`
  pub numbers : String → List String
  pub words : String → List String
  -- `_CONTENT_WORD_RE.findall` of src/core/nlg.py
  pub content_words : String → List String
  -- `any(rx.search(s) for rx in _OUTCOME_FABRICATION_RES)` of src/core/respond.py
  pub invented_outcome : String → Bool

-- A retrieved snippet with its citation.
pub record Chunk (F : Type 0) : Type 0 where
  pub id : String
  pub kb_version : String
  pub source : String
  pub text : String
  pub score : F

-- A fact of a turn: a chunk, or anything else, as its text.
pub data Fact (F : Type 0) : Type 0 where
  chunk : Chunk F → Fact F
  plain : String → Fact F

-- `_STOPWORDS`
abbrev pub stopwords : List String
stopwords =
    "a" ∷ "an" ∷ "the" ∷ "and" ∷ "or" ∷ "but" ∷ "if" ∷ "then" ∷ "else" ∷ "of" ∷ "to" ∷ "in" ∷ "on"
    ∷ "at" ∷ "for" ∷ "with" ∷ "without" ∷ "from" ∷ "by" ∷ "as" ∷ "is" ∷ "are" ∷ "was" ∷ "were"
    ∷ "be" ∷ "been" ∷ "being" ∷ "do" ∷ "does" ∷ "did" ∷ "this" ∷ "that" ∷ "these" ∷ "those" ∷ "it"
    ∷ "its" ∷ "their" ∷ "our" ∷ "your" ∷ "my" ∷ "his" ∷ "her" ∷ "you" ∷ "we" ∷ "they" ∷ "i" ∷ "me"
    ∷ "us" ∷ "them" ∷ "he" ∷ "she" ∷ "him" ∷ "so" ∷ "not" ∷ "no" ∷ "yes" ∷ "can" ∷ "could" ∷ "would"
    ∷ "should" ∷ "will" ∷ "shall" ∷ "may" ∷ "might" ∷ "must" ∷ "have" ∷ "has" ∷ "had" ∷ "into"
    ∷ "about" ∷ "over" ∷ "under" ∷ "up" ∷ "down" ∷ "out" ∷ "off" ∷ "than" ∷ "too" ∷ "very" ∷ "just"
    ∷ "also" ∷ "more" ∷ "most" ∷ "some" ∷ "any" ∷ "each" ∷ "per" ∷ "about" ∷ "your" ∷ "over"
    ∷ "only" ∷ "about" ∷ "what" ∷ "when" ∷ "where" ∷ "which" ∷ "who" ∷ "whom" ∷ "how" ∷ "why"
    ∷ "here" ∷ "there" ∷ "now" ∷ "today" ∷ "get" ∷ "got" ∷ "make" ∷ "made" ∷ "take" ∷ []

abbrev pub claim_tokens : List String
claim_tokens =
    "guarantee" ∷ "guaranteed" ∷ "accredited" ∷ "certified" ∷ "refund" ∷ "free" ∷ "proven"
    ∷ "results" ∷ "money-back" ∷ "best" ∷ []

-- `w in CLAIM_TOKENS`
unfoldable pub is_claim : String → Bool
is_claim w = member w claim_tokens

-- the suffixes that `_stem` drops, in its order
abbrev pub suffixes : List String
suffixes = "ing" ∷ "ned" ∷ "ged" ∷ "ly" ∷ "es" ∷ "ed" ∷ "s" ∷ "y" ∷ "e" ∷ []

pub record GroundednessReport : Type 0 where
  pub grounded : Bool
  pub unsupported_numbers : List String
  pub unsupported_terms : List String

-- `not xs` of a list
abbrev pub is_empty : List String → Bool
is_empty [] = true
is_empty (x ∷ xs) = false

module _ ⦃texts : Texts⦄ where
  -- `str(fact)`
  abbrev pub shown : {F : Type 0} → Fact F → String
  shown (chunk c) = texts.concat ("[" ∷ c.source ∷ "] " ∷ c.text ∷ [])
  shown (plain s) = s

  abbrev pub supporting : {F : Type 0} → Fact F → String
  supporting (chunk c) = c.text
  supporting (plain s) = s

  -- `_support_text`
  unfoldable pub support_text : {F : Type 0} → List (Fact F) → String
  support_text facts = texts.lower (texts.join (map supporting facts))

  -- `_normalize_number`
  unfoldable pub normalize_number : String → String
  normalize_number tok = texts.replace (texts.replace (texts.replace tok "$" "") "," "") "%" ""

  stem_by : String → List String → String
  stem_by w [] = w
  stem_by w (suffix ∷ more) =
      let rest = stem_by w more in
      if texts.ends_with w suffix && leb (texts.len suffix + 4) (texts.len w)
      then texts.cut w (texts.len suffix)
      else rest

  -- `_stem`
  unfoldable pub stem : String → String
  unfolding stem_by
  stem word = stem_by (texts.lower word) suffixes

  -- `_term_supported`
  unfoldable pub term_supported : String → List String → Bool
  unfolding stem
  term_supported term support_stems =
      let s = stem term in
      member s support_stems
      || any
          (λ ss.
            (leb 4 (texts.len s) && texts.starts_with ss s)
            || (leb 4 (texts.len ss) && texts.starts_with s ss))
          support_stems

  -- the support sets of an answer
  unfoldable pub support_numbers : {F : Type 0} → List (Fact F) → List String
  unfolding normalize_number support_text
  support_numbers facts = map normalize_number (texts.numbers (support_text facts))

  unfoldable pub support_stems : {F : Type 0} → List (Fact F) → List String
  unfolding stem support_text
  support_stems facts = map stem (texts.words (support_text facts))

  -- the content words of an answer
  unfoldable pub terms_of : String → List String
  terms_of answer = keep (λ w. not (member w stopwords)) (map texts.lower (texts.words answer))

  unfoldable pub number_backed : {F : Type 0} → List (Fact F) → String → Bool
  unfolding normalize_number support_numbers
  number_backed facts tok = member (normalize_number tok) (support_numbers facts)

  unfoldable pub term_backed : {F : Type 0} → List (Fact F) → String → Bool
  unfolding term_supported support_stems
  term_backed facts term = term_supported term (support_stems facts)

  module _ {F : Type 0} ⦃fl : Floating F⦄ where
    -- `supported_ratio`, of the number of unsupported terms and of all
    unfoldable pub supported_ratio : ℕ → ℕ → F
    supported_ratio unsupported all =
        if ltb 0 all
        then fl.sub (fl.milli 1000) (fl.div (of_count unsupported) (of_count all))
        else fl.milli 1000

    -- `grounded`, at the default bar of 0.6
    unfoldable pub grounded : String → List (Fact F) → GroundednessReport
    unfolding number_backed term_backed terms_of supported_ratio
    grounded answer facts =
        let unsupported_numbers =
          keep (λ tok. not (number_backed facts tok)) (texts.numbers answer) in
        let terms = terms_of answer in
        let unsupported_terms = keep (λ t. not (term_backed facts t)) terms in
        let unsupported_claims = keep is_claim unsupported_terms in
        let ratio_failed =
          fl.lt (supported_ratio (length unsupported_terms) (length terms)) (fl.milli 600) in
        record {
          grounded =
              is_empty unsupported_numbers && is_empty unsupported_claims && not ratio_failed;
          unsupported_numbers = unsupported_numbers;
          unsupported_terms = if ratio_failed then unsupported_terms else unsupported_claims;
        }
