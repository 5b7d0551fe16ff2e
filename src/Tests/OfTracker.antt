-- ===== src/Tests/OfTracker.antt =====
-- The theorems on the belief and the tracker (src/core/belief_state.py, src/core/dst.py), at sample
-- utterances.
use autonomous_sales_agent.Prelude.{
  ◌≡◌, refl, true, false, Option, none, some, List, [], ◌∷◌, ◌⊎◌, String, arith,
}
use autonomous_sales_agent.Float.{Millis, millis_floating, Millis-IsOrdered, IsNumber}
use autonomous_sales_agent.Prelude.Int.{ℤ, leb_ℤ, ◌+ℤ◌}
use autonomous_sales_agent.Dict.{lookup}
use autonomous_sales_agent.Belief.{
  BeliefState, Slot, empty_meta, to_snapshot, from_snapshot, driver_names, velocity_names,
}
use autonomous_sales_agent.Belief.Drivers.{
  Bounded, InUnit, update_drivers-Bounded, from_snapshot-to_snapshot, tabulate,
}
use autonomous_sales_agent.Tracker.Intent.{
  normalize_punct, read_intent, ground_intent, ground_labels, ground_objection,
  ground_human_request, override_aside, override_memory, override_confirm, override_guarantee,
}
use autonomous_sales_agent.Tracker.Slots.{Extracted, extract_slots, update_drivers}
use autonomous_sales_agent.Tracker.Slots.Arbitration.{extract_slots-keeps_locked}
use autonomous_sales_agent.Tracker.Update.{
  Reply, Turn, update, intent_of, reply_intent, non_blank, valid_objection, clipped,
}
use autonomous_sales_agent.Tracker.Update.Labels.{update-labels}
use autonomous_sales_agent.Tracker.Update.Grounding.{update-objection}
use autonomous_sales_agent.Tests.Samples.{level, at_levels, known, cues}

abbrev algebra : Slot Millis
algebra = record { value = some "algebra"; confidence = level 900 }

abbrev knows_subject : BeliefState Millis
knows_subject = record (at_levels 500 500 200) { slots = known "subject" }

-- a weaker reading of the subject, and a new slot
abbrev found : Extracted Millis
found = ("subject", "biology", level 850) ∷ ("budget", "low", level 950) ∷ []

extract_slots-keeps_locked_example :
    lookup "subject" (extract_slots knows_subject found).slots ≡ some algebra
unfolding lookup
extract_slots-keeps_locked_example =
    extract_slots-keeps_locked "subject" algebra knows_subject found refl refl
      (λ e. refl, (λ e. cc e, tt))

abbrev price : String
price = "price"

-- the model's label for a turn about the price
abbrev labelled : Reply Millis
labelled = record {
  deltas = [];
  has_intent = true;
  user_act = some "objection";
  objection = some "price";
  open_question = none;
  affordability_refusal = false;
}

abbrev about_price : Turn Millis
about_price = record {
  last_agent_act = none;
  utterance = "too expensive";
  extracted = λ asked. [];
  reply = some labelled;
  upstream_act = none;
}

ends_with_price : (update knows_subject about_price).active_objection ≡ some "price"
unfolding intent_of reply_intent read_intent ground_intent ground_labels ground_objection
    ground_human_request override_aside override_memory override_confirm override_guarantee
    normalize_punct non_blank valid_objection clipped
ends_with_price = (update-labels knows_subject about_price).1

update-objection_example :
    (cues.grounds "price" (normalize_punct "too expensive") ≡ true)
    ⊎ ((price ≡ "efficacy_doubt")
        × (cues.guarantee_demand (normalize_punct "too expensive") ≡ true))
    ⊎ ((price ≡ "price") × (labelled.affordability_refusal ≡ true))
update-objection_example =
    update-objection knows_subject about_price labelled price refl refl ends_with_price refl

abbrev deltas : List (String × Option Millis)
deltas = ("trust", some (level 700)) ∷ ("urgency", none) ∷ ("charm", some (level 100)) ∷ []

leb_ℤ-refl : (a : ℤ) → leb_ℤ a a ≡ true
leb_ℤ-refl a = ground arith

sum-IsNumber :
    (x delta e : Millis)
    → InUnit x
    → some delta ≡ some e
    → IsNumber delta
    → IsNumber (millis_floating.add x e)
sum-IsNumber none delta e (u, v) p n = cc u
sum-IsNumber (some a) delta none u p n = ground arith
sum-IsNumber (some a) delta (some b) u p n = leb_ℤ-refl (a +ℤ b)

update_drivers-Bounded_example : Bounded (update_drivers knows_subject deltas).drivers
update_drivers-Bounded_example =
    update_drivers-Bounded Millis-IsOrdered knows_subject deltas
      (
        λ x e u p. sum-IsNumber x (level 700) e u p refl,
        (λ x e u p. cc p, (λ x e u p. sum-IsNumber x (level 100) e u p refl, tt)),
      )
      (
        (refl, refl),
        ((refl, refl), ((refl, refl), ((refl, refl), ((refl, refl), ((refl, refl), tt))))),
      )

abbrev all_drivers : BeliefState Millis
all_drivers = record knows_subject {
  drivers = tabulate (λ d. level 600) driver_names;
  trends = tabulate (λ d. level 0) velocity_names;
}

from_snapshot-to_snapshot_example : from_snapshot (to_snapshot all_drivers) ≡ record all_drivers {
  last_user_act = none;
  open_question = none;
  turn_count = 0;
  meta = empty_meta;
}
from_snapshot-to_snapshot_example =
    from_snapshot-to_snapshot all_drivers (λ d. level 600) (λ d. level 0) refl refl refl
