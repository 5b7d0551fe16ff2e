-- ===== src/Tracker/Update.antt =====
-- The per-turn update of src/core/dst.py. The utterance's extractions and the model's reply are
-- inputs: the extractors run regular expressions, and the reply is the network's.
pub mod Books
pub mod Labels
pub mod Grounding
use autonomous_sales_agent.Prelude.{
  ℕ, ◌+◌, String, Bool, true, false, not, ◌&&◌, ◌||◌, Option, none, some, List, [], ◌∷◌, ◌++◌, ◌==◌,
  if◌then◌else◌, truthy, says, is_some, or_else, member,
}
use autonomous_sales_agent.Float.{Floating}
use autonomous_sales_agent.Dict.{lookup}
use autonomous_sales_agent.Belief.{BeliefState, Meta, slot_confidence}
use autonomous_sales_agent.Tracker.Cues.{Cues}
use autonomous_sales_agent.Tracker.Intent.{
  Intent, canonical_objections, normalize_punct, read_intent,
}
use autonomous_sales_agent.Tracker.Slots.{
  Extracted, extract_slots, update_drivers, derive_trends, derive_stage,
}

-- The dictionary that the model answers: the driver deltas, in order and with `none` for a value
-- that is no number, and the keys `_INTENT_KEYS`, each at its default where it is missing.
pub record Reply (F : Type 0) : Type 0 where
  pub deltas : List (String × Option F)
  pub has_intent : Bool
  pub user_act : Option String
  pub objection : Option String
  pub open_question : Option String
  pub affordability_refusal : Bool

-- One turn's input to `update`.
pub record Turn (F : Type 0) : Type 0 where
  pub last_agent_act : Option String
  pub utterance : String
  -- what `_EXTRACTORS` find, by `asked_grade`
  pub extracted : Bool → Extracted F
  -- `none`: the call failed or its reply is no dictionary
  pub reply : Option (Reply F)
  -- the keyword argument `last_user_act`
  pub upstream_act : Option String

-- `last_agent_act in ("ask", "confirm_known")`
abbrev pub asks_or_confirms : Option String → Bool
asks_or_confirms act = says act "ask" || says act "confirm_known"

abbrev pub asked_grade : {F : Type 0} → BeliefState F → Option String → Bool
asked_grade b act = asks_or_confirms act && says b.meta.pending_ask_slot "grade_level"

module _ ⦃cues : Cues⦄ where
  -- `x if isinstance(x, str) and x.strip() else None`
  unfoldable pub non_blank : Option String → Option String
  non_blank none = none
  non_blank (some s) = if truthy (some (cues.strip s)) then some s else none

  -- `str(open_q)[:300] if ... else None`
  unfoldable pub clipped : Option String → Option String
  unfolding non_blank
  clipped s = elim (non_blank s) [ none ↦ none | some q ↦ some (cues.clip q) ]

  unfoldable pub valid_objection : Option String → Option String
  valid_objection none = none
  valid_objection (some o) = if member o canonical_objections then some o else none

module _ {F : Type 0} ⦃fl : Floating F⦄ where
  -- steps 2 and 3 of `update`
  unfoldable pub move_drivers : BeliefState F → BeliefState F → Option (Reply F) → BeliefState F
  unfolding update_drivers derive_trends
  move_drivers prior b none = derive_trends prior b
  move_drivers prior b (some r) = derive_trends prior (update_drivers b r.deltas)

  -- the refusal count, and the price objection of a refusal
  unfoldable pub count_refusal : BeliefState F → BeliefState F → Bool → BeliefState F
  count_refusal prior b refused =
      if refused
      then record b {
        meta = record b.meta {
          affordability_refusal_count = prior.meta.affordability_refusal_count + 1;
        };
        active_objection = if is_some b.active_objection then b.active_objection else some "price";
      }
      else record b {
        meta = record b.meta {
          affordability_refusal_count = prior.meta.affordability_refusal_count;
        };
      }

  callback_value : BeliefState F → String
  unfolding lookup
  callback_value b = elim (lookup "callback_window" b.slots) [
    | none ↦ ""
    | some slot ↦ or_else slot.value ""
  ]

  unfoldable pub flag_callback : BeliefState F → BeliefState F → BeliefState F
  unfolding slot_confidence callback_value
  flag_callback prior b =
      if fl.le (fl.milli 800) (slot_confidence b "callback_window")
        && fl.lt (slot_confidence prior "callback_window") (fl.milli 800)
      then record b {
        meta = record b.meta {
          callback_window_just_captured = true;
          callback_window_value = callback_value b;
        };
      }
      else record b { meta = record b.meta { callback_window_just_captured = false } }

module _ {F : Type 0} ⦃fl : Floating F⦄ ⦃cues : Cues⦄ where
  -- the second half of `_update_drivers`
  unfoldable pub reply_intent : Reply F → Option Intent
  unfolding clipped non_blank valid_objection
  reply_intent r =
      if r.has_intent
      then some (record {
        user_act = non_blank r.user_act;
        objection = valid_objection r.objection;
        open_question = clipped r.open_question;
        affordability_refusal = r.affordability_refusal;
      })
      else none

  unfoldable pub intent_of : String → Option (Reply F) → Intent
  unfolding reply_intent read_intent
  intent_of utterance none = read_intent utterance none
  intent_of utterance (some r) = read_intent utterance (reply_intent r)

  unfoldable pub flag_hostility : String → BeliefState F → BeliefState F
  flag_hostility norm b =
      if cues.hostility norm then record b { meta = record b.meta { hostility = true } } else b

  unfoldable pub track_learner : String → BeliefState F → BeliefState F
  unfolding slot_confidence
  track_learner norm b =
      if cues.learner_establish norm
      then record b {
        meta = record b.meta { learner_established = true; learner_denied = false; who_for = true };
      }
      else if cues.learner_denial norm
      then record b { meta = record b.meta { learner_denied = true; learner_established = false } }
      else if fl.le (fl.milli 800) (slot_confidence b "grade_level")
          || fl.le (fl.milli 800) (slot_confidence b "subject")
          || b.meta.who_for
      then record b { meta = record b.meta { learner_established = true } }
      else b

  unfoldable pub flag_disclosure : String → Bool → BeliefState F → BeliefState F
  flag_disclosure norm refused b =
      if cues.disclosure norm
      then record b {
        meta = record b.meta { disclosure = true };
        active_objection = if refused then b.active_objection else some "concern";
      }
      else record b { meta = record b.meta { disclosure = false } }

  unfoldable pub decline_pending : String → String → BeliefState F → BeliefState F
  unfolding slot_confidence
  decline_pending norm slot b =
      let answered = fl.le (fl.milli 800) (slot_confidence b slot) in
      let declined = cues.learner_denial norm || cues.decline norm in
      if not answered && declined && not (member slot b.meta.declined_slots)
      then record b {
        meta = record b.meta { declined_slots = b.meta.declined_slots ++ (slot ∷ []) };
      }
      else b

  unfoldable pub track_decline :
      String → Option String → BeliefState F → BeliefState F → BeliefState F
  unfolding decline_pending
  track_decline norm last_agent_act prior b =
      if truthy prior.meta.pending_ask_slot && asks_or_confirms last_agent_act
      then decline_pending norm (or_else prior.meta.pending_ask_slot "") b
      else b

  unfoldable pub flag_contact : String → BeliefState F → BeliefState F
  flag_contact norm b =
      let name = cues.contact_name norm in
      if cues.contact norm || is_some name
      then record b {
        meta = record b.meta {
          contact_just_captured = true;
          contact_name = if is_some name then name else b.meta.contact_name;
        };
      }
      else record b { meta = record b.meta { contact_just_captured = false } }

  -- steps 1 to 3 of `update`, and the labels of step 4
  unfoldable pub read_turn : BeliefState F → Turn F → Intent → BeliefState F
  unfolding extract_slots move_drivers
  read_turn prior t i =
      let slotted = extract_slots prior (t.extracted (asked_grade prior t.last_agent_act)) in
      let moved = move_drivers prior slotted t.reply in
      record moved {
        turn_count = prior.turn_count + 1;
        last_user_act = if is_some t.upstream_act then t.upstream_act else i.user_act;
        active_objection = i.objection;
        open_question = i.open_question;
      }

  -- the meta bookkeeping of step 4
  unfoldable pub keep_books : BeliefState F → Turn F → Bool → BeliefState F → BeliefState F
  unfolding normalize_punct count_refusal flag_hostility track_learner flag_disclosure track_decline
      flag_contact flag_callback
  keep_books prior t refused read =
      let norm = normalize_punct t.utterance in
      flag_callback prior (
        flag_contact norm (
          track_decline norm t.last_agent_act prior (
            flag_disclosure norm refused
              (track_learner norm (flag_hostility norm (count_refusal prior read refused))))))

  -- `update`
  unfoldable pub update : BeliefState F → Turn F → BeliefState F
  unfolding read_turn keep_books intent_of derive_stage
  update prior t =
      let i = intent_of t.utterance t.reply in
      let b = keep_books prior t i.affordability_refusal (read_turn prior t i) in
      record b { stage = derive_stage b }
