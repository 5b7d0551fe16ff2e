-- ===== src/Tracker/Intent.antt =====
-- Intent classification of src/core/dst.py: the keyword classifier, and the grounding of the labels
-- that the language model proposes.
use autonomous_sales_agent.Prelude.{
  String, Bool, true, false, not, ◌&&◌, ◌||◌, Option, none, some, List, [], ◌∷◌, if◌then◌else◌,
  says, truthy, is_some, member, ◌==◌, or_else,
}
use autonomous_sales_agent.Tracker.Cues.{Cues}

-- An utterance's act, objection and open question.
pub record Intent : Type 0 where
  pub user_act : Option String
  pub objection : Option String
  pub open_question : Option String
  pub affordability_refusal : Bool

-- the keys of `_OBJECTION_GROUNDING`
abbrev pub canonical_objections : List String
canonical_objections = "price" ∷ "timing" ∷ "efficacy_doubt" ∷ "diy_free" ∷ "decision_maker" ∷ []

-- `act in {"question", "statement", None}`
abbrev pub is_weak : Option String → Bool
is_weak none = true
is_weak (some act) = act == "question" || act == "statement"

module _ ⦃cues : Cues⦄ where
  -- `_normalize_punct`
  unfoldable pub normalize_punct : String → String
  normalize_punct text =
      if truthy (some text)
      then cues.replace (cues.replace (cues.replace (cues.replace text "’" "'") "‘" "'") "“" "\"")
          "”" "\""
      else text

  -- the first row of `_OBJECTION_PATTERNS` that matches
  unfoldable pub objection_of : String → Option String
  objection_of text =
      if cues.guarantee_demand text
      then some "efficacy_doubt"
      else if cues.diy_pattern text
      then some "diy_free"
      else if cues.decider_pattern text
      then some "decision_maker"
      else if cues.efficacy_pattern text
      then some "efficacy_doubt"
      else if cues.timing_pattern text
      then some "timing"
      else if cues.price_pattern text
      then some "price"
      else none

  classify_text : String → Intent
  unfolding objection_of
  classify_text text =
      let is_question = cues.question text in
      let open_question = if is_question then some (cues.clip text) else none in
      let objection = objection_of text in
      let label = λ (act objection question : Option String).
        let i : Intent = record {
          user_act = act;
          objection = objection;
          open_question = question;
          affordability_refusal = false;
        } in
        i in
      if cues.human_request text
      then label (some "human_request") none open_question
      else if cues.confirm_request text
      then label (some "confirm_request") none (some (cues.clip text))
      else if cues.memory_check text
      then label (some "memory_check") none (some (cues.clip text))
      else if is_question && cues.social_aside text && not (cues.product_keyword text)
      then label (some "social_aside") none (some (cues.clip text))
      else if not (is_some objection) && cues.price_inquiry text
      then label (some "price_inquiry") none
          (some (if truthy open_question then or_else open_question "" else cues.clip text))
      else if is_some objection
      then label (if says objection "price" then some "price_inquiry" else some "objection")
          objection open_question
      else if is_question
      then label (some "question") none open_question
      else label none none none

  -- `_classify_intent`
  unfoldable pub classify_intent : String → Intent
  unfolding classify_text normalize_punct
  classify_intent utterance =
      let text = normalize_punct (cues.strip utterance) in
      if truthy (some text) then classify_text text else record {
        user_act = none;
        objection = none;
        open_question = none;
        affordability_refusal = false;
      }

  -- `_ground_objection`
  unfoldable pub ground_objection : Option String → String → Option String
  unfolding normalize_punct
  ground_objection none utterance = none
  ground_objection (some objection) utterance =
      if truthy (some objection) && member objection canonical_objections
      then (if cues.grounds objection (normalize_punct utterance) then some objection else none)
      else some objection

  -- `_ground_human_request`
  unfoldable pub ground_human_request : Option String → String → Option String
  unfolding normalize_punct
  ground_human_request act utterance =
      let text = normalize_punct utterance in
      if not (says act "human_request") || cues.names_a_person text
      then act
      else if cues.question text
      then some "question"
      else some "statement"

  -- The overrides of `update` on a label of the language model, in order.
  unfoldable pub override_aside : String → Intent → Intent
  override_aside text i =
      if is_weak i.user_act
        && cues.question text
        && cues.social_aside text
        && not (cues.product_keyword text)
      then record i {
        user_act = some "social_aside";
        open_question = if is_some i.open_question then i.open_question else some (cues.clip text);
      }
      else i

  unfoldable pub override_memory : String → Intent → Intent
  override_memory text i =
      if is_weak i.user_act && cues.memory_check text
      then record i {
        user_act = some "memory_check";
        open_question = if is_some i.open_question then i.open_question else some (cues.clip text);
      }
      else i

  unfoldable pub override_confirm : String → Intent → Intent
  override_confirm text i =
      if is_weak i.user_act && not (is_some i.objection) && cues.confirm_request text
      then record i {
        user_act = some "confirm_request";
        open_question = if is_some i.open_question then i.open_question else some (cues.clip text);
      }
      else i

  unfoldable pub override_guarantee : String → Intent → Intent
  override_guarantee text i =
      if is_weak i.user_act && not (is_some i.objection) && cues.guarantee_demand text
      then record i { user_act = some "objection"; objection = some "efficacy_doubt" }
      else i

  -- the grounded labels, before the overrides
  unfoldable pub ground_labels : String → Intent → Intent
  unfolding ground_objection ground_human_request
  ground_labels utterance i =
      let act = ground_human_request i.user_act utterance in
      let objection = ground_objection i.objection utterance in
      record i {
        user_act =
            if says act "objection" && not (is_some objection) then some "statement" else act;
        objection = objection;
      }

  -- the branch of `update` for a label of the language model
  unfoldable pub ground_intent : String → Intent → Intent
  unfolding ground_labels override_aside override_memory override_confirm override_guarantee
      normalize_punct
  ground_intent utterance i =
      let text = normalize_punct utterance in
      override_guarantee text (
        override_confirm text
          (override_memory text (override_aside text (ground_labels utterance i))))

  -- the two branches of `update`: the model's label if there is one, else the keywords
  unfoldable pub read_intent : String → Option Intent → Intent
  unfolding ground_intent classify_intent normalize_punct
  read_intent utterance none = record (classify_intent utterance) {
    affordability_refusal = cues.affordability_refusal (normalize_punct utterance);
  }
  read_intent utterance (some i) = ground_intent utterance i
