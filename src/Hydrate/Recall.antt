-- ===== src/Hydrate/Recall.antt =====
-- What a call learns of a caller, and the next call knows (src/memory/hydrate.py over
-- src/memory/store.py).
use autonomous_sales_agent.Prelude.{
  String, true, false, ◌≡◌, refl, ◌∙◌, ap, Option, none, some, List, [], ◌∷◌, ◌==◌, eq_iff, arith,
  member, Bool-cases, Option-cases, some_injective, inl, inr,
}
use autonomous_sales_agent.Float.{Floating, IsOrdered}
use autonomous_sales_agent.Dict.{lookup, keys, lookup-insert}
use autonomous_sales_agent.Belief.{BeliefState, Slot, fresh, set_slot, clamp01, slot_confidence}
use autonomous_sales_agent.Gates.Reads.{is_locked}
use autonomous_sales_agent.Leads.{Lead, merge_lead, upsert_lead_by_phone}
use autonomous_sales_agent.Leads.Merge.{upsert_lead_by_phone-lookup}
use autonomous_sales_agent.Hydrate.{
  bare, Storage, Phones, phone_hash, filled_slot_values, unwrap_slot, seed_slot, seed_slots,
  remember, hydrate_hash, hydrate_belief, lead_after_call, persist_hash, persist_lead_after_call,
}
use autonomous_sales_agent.Hydrate.Memory.{
  is_dict, first_only, merge_slots-is_dict, lookup-merge_slots,
}

module _ {F : Type 0} where
  lookup-filled_slot_values :
      (slot value : String) (slots : List (String × Slot F)) (known : Slot F)
      → lookup slot slots ≡ some known
      → known.value ≡ some value
      → lookup slot (filled_slot_values slots) ≡ some value
  unfolding filled_slot_values lookup
  lookup-filled_slot_values slot value [] known e v = absurd (ground (arith, e))
  lookup-filled_slot_values slot value ((name, s) ∷ slots) known e v =
      elim (Bool-cases (name == slot)) [
        | inl y ↦
            let same : s.value ≡ some value = ap (λ k. k.value) (some_injective (rw y at e)) ∙ v in
            rw same (rw y refl)
        | inr n ↦
            let later = lookup-filled_slot_values slot value slots known (rw n at e) v in
            elim (Option-cases s.value) [ inl m ↦ rw m later | inr (w, p) ↦ rw p (rw n later) ]
      ]

  member-filled_slot_values :
      (name : String) (slots : List (String × Slot F))
      → member name (keys slots) ≡ false
      → member name (keys (filled_slot_values slots)) ≡ false
  unfolding filled_slot_values
  member-filled_slot_values name [] m = refl
  member-filled_slot_values name ((other, s) ∷ slots) m = elim (Option-cases s.value) [
    | inl n ↦ rw n (member-filled_slot_values name slots (ground (arith, m)))
    | inr (v, p) ↦ rw p (ground (arith, m, member-filled_slot_values name slots))
  ]

  filled_slot_values-is_dict :
      (slots : List (String × Slot F))
      → is_dict slots ≡ true
      → is_dict (filled_slot_values slots) ≡ true
  unfolding filled_slot_values
  filled_slot_values-is_dict [] h = refl
  filled_slot_values-is_dict ((name, s) ∷ slots) h = elim (Option-cases s.value) [
    | inl n ↦ rw n (filled_slot_values-is_dict slots (ground (arith, h)))
    | inr (v, p) ↦
        rw p (
          ground (arith, h, filled_slot_values-is_dict slots, member-filled_slot_values name slots))
  ]

-- the lead that the table holds after the call
persisted_slot :
    (table : List (String × Lead)) (phash slot value : String) (lead : Lead)
    → is_dict lead.slots ≡ true
    → ((old : Lead) → lookup phash table ≡ some old → is_dict old.slots ≡ true)
    → lookup slot lead.slots ≡ some value
    → (new : Lead) × (lookup phash (upsert_lead_by_phone phash lead table) ≡ some new)
      × (is_dict new.slots ≡ true)
      × (lookup slot new.slots ≡ some value)
unfolding merge_lead
persisted_slot table phash slot value lead h old_dict e =
    let found = upsert_lead_by_phone-lookup phash phash lead table in
    let itself = (eq_iff phash phash).1 refl in
    elim (Option-cases (lookup phash table)) [
      | inl n ↦ (lead, found ∙ rw (itself, n) refl, h, e)
      | inr (old, p) ↦ (
        merge_lead old lead,
        found ∙ rw (itself, p) refl,
        merge_slots-is_dict old.slots lead.slots (old_dict old p),
        lookup-merge_slots slot value old.slots lead.slots h e,
      )
    ]

module _ {F : Type 0} ⦃fl : Floating F⦄ ⦃storage : Storage F⦄ where
  seed_slot-others :
      (slot name : String) (b : BeliefState F) (p : Option String × F)
      → name == slot ≡ false
      → lookup slot (seed_slot b name p).slots ≡ lookup slot b.slots
  unfolding seed_slot set_slot
  seed_slot-others slot name b (none, conf) n = refl
  seed_slot-others slot name b (some value, conf) n = lookup-insert name slot _ b.slots ∙ rw n refl

  seed_slot-set :
      (slot name value : String) (b : BeliefState F) (conf : F)
      → name == slot ≡ true
      → lookup slot (seed_slot b name (unwrap_slot (bare (some value)) conf)).slots
        ≡ some (record { value = some value; confidence = clamp01 conf })
  unfolding seed_slot set_slot unwrap_slot
  seed_slot-set slot name value b conf y = lookup-insert name slot _ b.slots ∙ rw y refl

  seed_slots-others :
      (slot : String) (slots : List (String × String)) (conf : F) (b : BeliefState F)
      → lookup slot slots ≡ none
      → lookup slot (seed_slots b slots conf).slots ≡ lookup slot b.slots
  unfolding seed_slots lookup
  seed_slots-others slot [] conf b e = refl
  seed_slots-others slot ((name, raw) ∷ slots) conf b e = elim (Bool-cases (name == slot)) [
    | inl y ↦ absurd (ground (arith, rw y at e))
    | inr n ↦ seed_slots-others slot slots conf _ (rw n at e) ∙ seed_slot-others slot name b _ n
  ]

  lookup-seed_slots :
      (slot raw value : String) (slots : List (String × String)) (conf : F) (b : BeliefState F)
      → is_dict slots ≡ true
      → lookup slot slots ≡ some raw
      → storage.stored raw ≡ bare (some value)
      → lookup slot (seed_slots b slots conf).slots
        ≡ some (record { value = some value; confidence = clamp01 conf })
  unfolding seed_slots lookup
  lookup-seed_slots slot raw value [] conf b h e s = absurd (ground (arith, e))
  lookup-seed_slots slot raw value ((name, r) ∷ slots) conf b h e s =
      elim (Bool-cases (name == slot)) [
        | inl y ↦
            let same : storage.stored r ≡ bare (some value) =
              ap storage.stored (some_injective (rw y at e)) ∙ s in
            seed_slots-others slot slots conf _ (first_only name r slots h slot y)
            ∙ ap (λ u. lookup slot (seed_slot b name (unwrap_slot u conf)).slots) same
            ∙ seed_slot-set slot name value b conf y
        | inr n ↦ lookup-seed_slots slot raw value slots conf _ (ground (arith, h)) (rw n at e) s
      ]

  clamp-lock : (ord : IsOrdered F) → fl.le (fl.milli 800) (clamp01 (fl.milli 800)) ≡ true
  unfolding clamp01
  clamp-lock ord =
      let low =
        ord.lt-eq-not-le (fl.milli 800) (fl.milli 0) (ord.milli_number 800 (omega arith))
          (ord.milli_number 0 (omega arith)) in
      let high =
        ord.lt-eq-not-le (fl.milli 1000) (fl.milli 800) (ord.milli_number 1000 (omega arith))
          (ord.milli_number 800 (omega arith)) in
      let below : fl.lt (fl.milli 800) (fl.milli 0) ≡ false =
        low ∙ rw (ord.le-milli 0 800 (omega arith) (omega arith)) refl in
      let above : fl.lt (fl.milli 1000) (fl.milli 800) ≡ false =
        high ∙ rw (ord.le-milli 800 1000 (omega arith) (omega arith)) refl in
      rw (below, above) (ord.le-milli 800 800 (omega arith) (omega arith))

  hydrated_slot-is_locked :
      (ord : IsOrdered F) (b : BeliefState F) (slot value : String)
      → lookup slot b.slots
        ≡ some (record { value = some value; confidence = clamp01 (fl.milli 800) })
      → is_locked b slot ≡ true
  unfolding is_locked slot_confidence
  hydrated_slot-is_locked ord b slot value e =
      ap (λ o. fl.le (fl.milli 800) (elim o [ none ↦ fl.milli 0 | some s ↦ s.confidence ])) e
      ∙ clamp-lock ord

  module _ ⦃phones : Phones⦄ where
    remember-persist :
        (table : List (String × Lead)) (phash slot value : String) (b : BeliefState F)
        (outcome voice persona : Option String) (known : Slot F)
        → is_dict b.slots ≡ true
        → ((old : Lead) → lookup phash table ≡ some old → is_dict old.slots ≡ true)
        → lookup slot b.slots ≡ some known
        → known.value ≡ some value
        → storage.stored value ≡ bare (some value)
        → let kept = upsert_lead_by_phone phash (lead_after_call b outcome voice persona) table in
          lookup slot (remember phash (lookup phash kept)).belief.slots
          ≡ some (record { value = some value; confidence = clamp01 (fl.milli 800) })
    unfolding remember lead_after_call
    remember-persist table phash slot value b outcome voice persona known h old_dict e v plain =
        let lead = lead_after_call b outcome voice persona in
        let (new, found, dict, has) =
          persisted_slot table phash slot value lead (filled_slot_values-is_dict b.slots h) old_dict
            (lookup-filled_slot_values slot value b.slots known e v) in
        ap (λ o. lookup slot (remember phash o).belief.slots) found
        ∙ lookup-seed_slots slot value value new.slots (fl.milli 800) fresh dict has plain

    -- What a call learns, the next call of the same phone knows: a slot with a value, in the belief
    -- that a call ends with, is in the belief that the next call begins with, with the same value, and
    -- locked. The belief's and the stored lead's slots name each slot once, the value is stored as
    -- itself, and floats are compared as IEEE compares them.
    pub hydrate_belief-persist :
        (ord : IsOrdered F) (table : List (String × Lead)) (raw_phone phash slot value : String)
        (b : BeliefState F) (outcome voice persona : Option String) (known : Slot F)
        → phone_hash raw_phone ≡ some phash
        → is_dict b.slots ≡ true
        → ((old : Lead) → lookup phash table ≡ some old → is_dict old.slots ≡ true)
        → lookup slot b.slots ≡ some known
        → known.value ≡ some value
        → storage.stored value ≡ bare (some value)
        → let kept = persist_lead_after_call table (some raw_phone) b outcome voice persona in
          let next = (hydrate_belief {F = F} kept (some raw_phone)).belief in
          (lookup slot next.slots
            ≡ some (record { value = some value; confidence = clamp01 (fl.milli 800) }))
          × (is_locked next slot ≡ true)
    unfolding hydrate_belief hydrate_hash persist_lead_after_call persist_hash
    hydrate_belief-persist ord table raw_phone phash slot value b outcome voice persona known hashed
          h old_dict e v plain =
        let kept =
          remember-persist table phash slot value b outcome voice persona known h old_dict e v
            plain in
        rw hashed (kept, hydrated_slot-is_locked ord _ slot value kept)
