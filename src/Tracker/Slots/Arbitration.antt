-- ===== src/Tracker/Slots/Arbitration.antt =====
-- Confidence arbitration: what the merge of src/core/dst.py leaves of a slot that is locked.
use autonomous_sales_agent.Prelude.{
  String, ◌≡◌, true, false, Option, none, some, [], ◌∷◌, ◌==◌, eq_iff, arith, All, inl, inr,
  Bool-cases, ◌∙◌,
}
use autonomous_sales_agent.Float.{Floating}
use autonomous_sales_agent.Dict.{lookup, lookup-insert}
use autonomous_sales_agent.Belief.{BeliefState, Slot, set_slot, clamp01}
use autonomous_sales_agent.Tracker.Slots.{
  Extracted, merge_slot, merge_existing, extract_slots, max_float,
}

-- Every extraction for the slot `name` is at most as confident as the entry.
abbrev pub NotStronger : {F : Type 0} ⦃fl : Floating F⦄ → String → Slot F → Extracted F → Type 0
NotStronger ⦃fl⦄ name slot found =
    All (λ (k, v, c). k == name ≡ true → fl.le c slot.confidence ≡ true) found

module _ {F : Type 0} ⦃fl : Floating F⦄ (name : String) (slot : Slot F) where
  set_slot-elsewhere :
      (b : BeliefState F) (k : String) (v : Option String) (c : F)
      → k == name ≡ false
      → lookup name (set_slot b k v c).slots ≡ lookup name b.slots
  unfolding set_slot
  set_slot-elsewhere b k v c e =
      ground (arith, lookup-insert k name (record { value = v; confidence = clamp01 c }) b.slots)

  merge_existing-elsewhere :
      (b : BeliefState F) (k value : String) (c : F) (existing : Slot F)
      → k == name ≡ false
      → lookup name (merge_existing b k value c existing).slots ≡ lookup name b.slots
  unfolding merge_existing
  merge_existing-elsewhere b k value c existing e = ground (
    arith,
    set_slot-elsewhere b k (some value) c e,
    set_slot-elsewhere b k (some value) (max_float existing.confidence c) e,
  )

  merge-elsewhere :
      (b : BeliefState F) (k value : String) (c : F)
      → k == name ≡ false
      → lookup name (merge_slot b k value c).slots ≡ lookup name b.slots
  unfolding merge_slot
  merge-elsewhere b k value c e =
      elim (lookup k b.slots)
        as (λ o.
          lookup name
            (elim o as (λ _. BeliefState F) [
              | none ↦ set_slot b k (some value) c
              | some existing ↦ merge_existing b k value c existing
            ]).slots
          ≡ lookup name b.slots) [
            | none ↦ set_slot-elsewhere b k (some value) c e
            | some existing ↦ merge_existing-elsewhere b k value c existing e
          ]

  merge-here :
      (b : BeliefState F) (value : String) (c : F)
      → lookup name b.slots ≡ some slot
      → fl.le (fl.milli 800) slot.confidence ≡ true
      → fl.le c slot.confidence ≡ true
      → merge_slot b name value c ≡ b
  unfolding merge_slot merge_existing
  merge-here b value c e locked weak = ground arith

  merge-keeps :
      (b : BeliefState F) (k value : String) (c : F)
      → lookup name b.slots ≡ some slot
      → fl.le (fl.milli 800) slot.confidence ≡ true
      → (k == name ≡ true → fl.le c slot.confidence ≡ true)
      → lookup name (merge_slot b k value c).slots ≡ some slot
  merge-keeps b k value c e locked weak = elim (Bool-cases (k == name)) [
    | inl same ↦ grind (arith, eq_iff k name, merge-here b value c e locked (weak same))
    | inr other ↦ merge-elsewhere b k value c other ∙ e
  ]

  -- A slot that is locked keeps its entry, value and confidence, through every extraction of an
  -- utterance, as long as no extraction for that slot is more confident than the entry.
  pub extract_slots-keeps_locked :
      (b : BeliefState F) (found : Extracted F)
      → lookup name b.slots ≡ some slot
      → fl.le (fl.milli 800) slot.confidence ≡ true
      → NotStronger name slot found
      → lookup name (extract_slots b found).slots ≡ some slot
  unfolding extract_slots
  extract_slots-keeps_locked b [] e locked weak = e
  extract_slots-keeps_locked b ((k, v, c) ∷ found) e locked (w, weak) =
      extract_slots-keeps_locked (merge_slot b k v c) found (merge-keeps b k v c e locked w) locked
        weak
