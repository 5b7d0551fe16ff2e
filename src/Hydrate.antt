-- ===== src/Hydrate.antt =====
-- src/memory/hydrate.py: a caller's memory, from the table of leads into the belief at the start of a
-- call, and back at its end. The hash and the JSON of a stored value are parameters.
pub mod Memory
pub mod Recall
use autonomous_sales_agent.Prelude.{
  String, Bool, true, false, Option, none, some, List, [], ◌∷◌, if◌then◌else◌, ◌==◌,
}
use autonomous_sales_agent.Float.{Floating}
use autonomous_sales_agent.Dict.{lookup}
use autonomous_sales_agent.Belief.{BeliefState, Slot, fresh, set_slot}
use autonomous_sales_agent.Leads.{Lead, upsert_lead_by_phone}

-- A stored slot: a value, or a legacy dictionary with the number that its confidence is.
pub data Stored (F : Type 0) : Type 0 where
  bare : Option String → Stored F
  legacy : Option String → Option F → Stored F

pub record Storage (F : Type 0) : Type 0 where
  -- `json.loads` of a slot's value
  pub stored : String → Stored F

-- the hash of a phone
pub record Phones : Type 0 where
  -- `_PHONE_NONDIGIT.sub("", s)`
  pub digits : String → String
  pub sha256 : String → String

-- what a returning caller's belief carries in `meta`, for context only
pub record CallerMemory : Type 0 where
  pub assigned_voice : Option String
  pub persona_read : Option String
  pub prior_objections : List String
  pub last_outcome : Option String
  pub lead_phone_hash : String

pub record Hydrated (F : Type 0) : Type 0 where
  pub belief : BeliefState F
  pub memory : Option CallerMemory

-- `src.memory.schema.phone_hash`; none for a `ValueError`
unfoldable pub phone_hash : ⦃phones : Phones⦄ → String → Option String
phone_hash ⦃phones⦄ raw =
    let normalized = phones.digits raw in
    if normalized == "" then none else some (phones.sha256 normalized)

unfoldable pub persist_hash : List (String × Lead) → Option String → Lead → List (String × Lead)
persist_hash table none lead = table
persist_hash table (some phash) lead = upsert_lead_by_phone phash lead table

-- `_filled_slot_values`
unfoldable pub filled_slot_values : {F : Type 0} → List (String × Slot F) → List (String × String)
filled_slot_values [] = []
filled_slot_values ((name, slot) ∷ slots) =
    let rest = filled_slot_values slots in
    elim slot.value [ none ↦ rest | some value ↦ (name, value) ∷ rest ]

module _ {F : Type 0} ⦃fl : Floating F⦄ where
  -- `_unwrap_slot`
  unfoldable pub unwrap_slot : Stored F → F → Option String × F
  unwrap_slot (bare value) floor = (value, floor)
  unwrap_slot (legacy value none) floor = (value, floor)
  unwrap_slot (legacy value (some conf)) floor = (value, if fl.lt conf floor then floor else conf)

  module _ ⦃storage : Storage F⦄ where
    -- one pass of the loop of `seed_slots`
    unfoldable pub seed_slot : BeliefState F → String → Option String × F → BeliefState F
    seed_slot b name (none, conf) = b
    seed_slot b name (some value, conf) = set_slot b name (some value) conf

    -- `seed_slots`
    unfoldable pub seed_slots : BeliefState F → List (String × String) → F → BeliefState F
    seed_slots b [] confidence = b
    seed_slots b ((name, raw) ∷ slots) confidence =
        seed_slots (seed_slot b name (unwrap_slot (storage.stored raw) confidence)) slots confidence

    -- the belief of a lead that is found
    unfoldable pub remember : String → Option Lead → Hydrated F
    remember phash none = record { belief = fresh; memory = none }
    remember phash (some lead) = record {
      belief = seed_slots fresh lead.slots (fl.milli 800);
      memory = some (record {
        assigned_voice = lead.assigned_voice;
        persona_read = lead.persona_read;
        prior_objections = lead.prior_objections;
        last_outcome = lead.last_outcome;
        lead_phone_hash = phash;
      });
    }

    -- the belief of a caller's hash
    unfoldable pub hydrate_hash : List (String × Lead) → Option String → Hydrated F
    hydrate_hash table none = record { belief = fresh; memory = none }
    hydrate_hash table (some phash) = remember phash (lookup phash table)

    -- `hydrate_belief`
    unfoldable pub hydrate_belief :
        ⦃phones : Phones⦄ → List (String × Lead) → Option String → Hydrated F
    hydrate_belief table none = record { belief = fresh; memory = none }
    hydrate_belief table (some raw_phone) = hydrate_hash table (phone_hash raw_phone)

    -- the lead that a call leaves
    unfoldable pub lead_after_call :
        BeliefState F → Option String → Option String → Option String → Lead
    lead_after_call b outcome assigned_voice persona_read = record {
      slots = filled_slot_values b.slots;
      prior_objections = [];
      last_outcome = outcome;
      assigned_voice = assigned_voice;
      persona_read = persona_read;
    }

    -- `persist_lead_after_call`, with the persona read of `meta`
    unfoldable pub persist_lead_after_call :
        ⦃phones : Phones⦄
        → List (String × Lead)
        → Option String
        → BeliefState F
        → Option String
        → Option String
        → Option String
        → List (String × Lead)
    persist_lead_after_call table none b outcome assigned_voice persona_read = table
    persist_lead_after_call table (some raw_phone) b outcome assigned_voice persona_read =
        persist_hash table (phone_hash raw_phone)
          (lead_after_call b outcome assigned_voice persona_read)
