-- ===== src/Tracker/Slots.antt =====
-- The numeric updates of src/core/dst.py: the merge of extracted slots, the driver deltas, the
-- derived trends and the stage.
pub mod Arbitration
use autonomous_sales_agent.Prelude.{
  ℕ, suc, String, Bool, true, false, not, ◌&&◌, ◌||◌, Option, none, some, List, [], ◌∷◌,
  if◌then◌else◌, truthy, or_else, leb, count, ◌==◌, is_some, map,
}
use autonomous_sales_agent.Float.{Floating}
use autonomous_sales_agent.Dict.{lookup, insert}
use autonomous_sales_agent.Belief.{
  BeliefState, Slot, set_slot, driver, apply_driver_delta, driver_names, neutral_prior,
}

-- What the extractors found in an utterance, slot by slot in the order of `_EXTRACTORS`.
abbrev pub Extracted : Type 0 → Type 0
Extracted F = List (String × String × F)

-- `existing.get("value") == value`
abbrev pub same_value : Option String → String → Bool
same_value none v = false
same_value (some w) v = w == v

module _ {F : Type 0} ⦃fl : Floating F⦄ where
  -- `max(a, b)` on floats: the first unless the second is greater
  abbrev pub max_float : F → F → F
  max_float a b = if fl.lt a b then b else a

  unfoldable pub merge_existing : BeliefState F → String → String → F → Slot F → BeliefState F
  unfolding set_slot
  merge_existing b name value new_conf existing =
      if fl.le (fl.milli 800) existing.confidence && fl.le new_conf existing.confidence
      then b
      else if same_value existing.value value
      then set_slot b name (some value) (max_float existing.confidence new_conf)
      else if fl.lt existing.confidence new_conf
      then set_slot b name (some value) new_conf
      else b

  -- one round of the loop of `_extract_slots`
  unfoldable pub merge_slot : BeliefState F → String → String → F → BeliefState F
  unfolding merge_existing lookup set_slot
  merge_slot b name value new_conf = elim (lookup name b.slots) [
    | none ↦ set_slot b name (some value) new_conf
    | some existing ↦ merge_existing b name value new_conf existing
  ]

  -- `_extract_slots`, given what the extractors found
  unfoldable pub extract_slots : BeliefState F → Extracted F → BeliefState F
  unfolding merge_slot
  extract_slots b [] = b
  extract_slots b ((name, value, conf) ∷ rest) = extract_slots (merge_slot b name value conf) rest

  -- the loop of `_update_drivers`; `none` is a value that is not numeric
  unfoldable pub update_drivers : BeliefState F → List (String × Option F) → BeliefState F
  unfolding apply_driver_delta
  update_drivers b [] = b
  update_drivers b ((name, none) ∷ rest) = update_drivers b rest
  update_drivers b ((name, some delta) ∷ rest) =
      update_drivers (apply_driver_delta b name delta) rest

  -- `prior.drivers.get(d, 0.5)`
  level_or_neutral : BeliefState F → String → F
  unfolding lookup
  level_or_neutral b d = or_else (lookup d b.drivers) neutral_prior

  abbrev velocity : BeliefState F → BeliefState F → String → F
  velocity prior updated d =
      fl.round6 (fl.sub (level_or_neutral updated d) (level_or_neutral prior d))

  -- `_derive_trends`
  unfoldable pub derive_trends : BeliefState F → BeliefState F → BeliefState F
  unfolding insert level_or_neutral
  derive_trends prior updated =
      let v = velocity prior updated in
      record updated {
        trends = insert "bail_risk_velocity" (v "bail_risk") (
            insert "purchase_intent_velocity" (v "purchase_intent") (
              insert "urgency_velocity" (v "urgency") (
                insert "price_sensitivity_velocity" (v "price_sensitivity") (
                  insert "need_intensity_velocity" (v "need_intensity")
                    (insert "trust_velocity" (v "trust") updated.trends)))));
      }

  -- `_derive_stage`
  unfoldable pub derive_stage : BeliefState F → String
  derive_stage b =
      let trust = driver b "trust" in
      let known =
        count (λ ((name, slot) : String × Slot F). fl.le (fl.milli 800) slot.confidence) b.slots in
      if leb b.turn_count 0
      then "greeting"
      else if truthy b.active_objection
      then "objection"
      else if fl.le (fl.milli 600) trust && fl.le (fl.milli 450) (driver b "purchase_intent")
      then "close"
      else if fl.le (fl.milli 550) trust || leb 2 known
      then "pitch"
      else "discovery"
