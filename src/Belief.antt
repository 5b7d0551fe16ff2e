-- ===== src/Belief.antt =====
-- src/core/belief_state.py: the working belief that the tracker updates and the gates read.
pub mod Drivers
use autonomous_sales_agent.Prelude.{
  ℕ, String, Bool, true, false, Option, none, some, List, [], ◌∷◌, is_some, or_else, if◌then◌else◌,
  map, truthy,
}
use autonomous_sales_agent.Float.{Floating}
use autonomous_sales_agent.Dict.{lookup, insert}
use autonomous_sales_agent.Decision.{Act}

-- A slot's value may be any JSON value in Python; the modelled code only tests and shows it.
pub record Slot (F : Type 0) : Type 0 where
  pub value : Option String
  pub confidence : F

-- `gates.progress_snapshot`
pub record ProgressSnapshot (F : Type 0) : Type 0 where
  pub locked_slots : ℕ
  pub active_objection : Option String
  pub purchase_intent : F

-- The keys of `BeliefState.meta` that the brain reads or writes, a missing key at its default.
pub record Meta (F : Type 0) : Type 0 where
  pub learner_established : Bool
  pub learner_denied : Bool
  pub who_for : Bool
  pub hostility : Bool
  pub disclosure : Bool
  pub contact_just_captured : Bool
  pub contact_name : Option String
  pub callback_window_just_captured : Bool
  pub callback_window_value : String
  pub no_authority : Bool
  pub decision_maker : Bool
  pub gatekeeper : Bool
  pub declined_slots : List String
  pub asked_slots : List (String × ℕ)
  pub pending_ask_slot : Option String
  pub affordability_refusal_count : ℕ
  pub affordability_refusals : ℕ
  pub recent_acts : List Act
  pub progress_snapshot : Option (ProgressSnapshot F)
  pub loop_break_fired : Bool
  pub loop_terminal_fired : Bool

abbrev pub empty_meta : {F : Type 0} → Meta F
empty_meta = record {
  learner_established = false;
  learner_denied = false;
  who_for = false;
  hostility = false;
  disclosure = false;
  contact_just_captured = false;
  contact_name = none;
  callback_window_just_captured = false;
  callback_window_value = "";
  no_authority = false;
  decision_maker = false;
  gatekeeper = false;
  declined_slots = [];
  asked_slots = [];
  pending_ask_slot = none;
  affordability_refusal_count = 0;
  affordability_refusals = 0;
  recent_acts = [];
  progress_snapshot = none;
  loop_break_fired = false;
  loop_terminal_fired = false;
}

pub record BeliefState (F : Type 0) : Type 0 where
  pub slots : List (String × Slot F)
  pub drivers : List (String × F)
  pub trends : List (String × F)
  pub stage : String
  pub active_objection : Option String
  pub last_user_act : Option String
  pub decision_confidence : Option F
  pub open_question : Option String
  pub turn_count : ℕ
  pub escalation_imminent : Bool
  pub meta : Meta F

-- `src.memory.schema.BeliefSnapshot`, the stored projection
pub record BeliefSnapshot (F : Type 0) : Type 0 where
  pub slots : List (String × Slot F)
  pub drivers : List (String × F)
  pub trends : List (String × F)
  pub stage : String
  pub active_objection : Option String
  pub decision_confidence : Option F
  pub escalation_imminent : Bool

-- `DRIVERS`
abbrev pub driver_names : List String
driver_names =
    "trust" ∷ "need_intensity" ∷ "price_sensitivity" ∷ "urgency" ∷ "purchase_intent" ∷ "bail_risk"
    ∷ []

-- `f"{d}_velocity" for d in DRIVERS`
abbrev pub velocity_names : List String
velocity_names =
    "trust_velocity" ∷ "need_intensity_velocity" ∷ "price_sensitivity_velocity" ∷ "urgency_velocity"
    ∷ "purchase_intent_velocity" ∷ "bail_risk_velocity" ∷ []

abbrev pub greeting_stage : String
greeting_stage = "greeting"

-- `{d: v for d in names}`
abbrev pub all_at {ℓ} : {V : Type ℓ} → V → List String → List (String × V)
all_at v names = map (λ d. (d, v)) names

module _ {F : Type 0} ⦃fl : Floating F⦄ where
  -- `_NEUTRAL_PRIOR`
  abbrev pub neutral_prior : F
  neutral_prior = fl.milli 500

  unfoldable pub clamp01 : F → F
  clamp01 x =
      if fl.lt x (fl.milli 0)
      then fl.milli 0
      else if fl.lt (fl.milli 1000) x
      then fl.milli 1000
      else x

  unfoldable pub fresh : BeliefState F
  fresh = record {
    slots = [];
    drivers = all_at neutral_prior driver_names;
    trends = all_at (fl.milli 0) velocity_names;
    stage = greeting_stage;
    active_objection = none;
    last_user_act = none;
    decision_confidence = none;
    open_question = none;
    turn_count = 0;
    escalation_imminent = false;
    meta = empty_meta;
  }

  unfoldable pub set_slot : BeliefState F → String → Option String → F → BeliefState F
  unfolding clamp01 insert
  set_slot b name value confidence = record b {
    slots = insert name (record { value = value; confidence = clamp01 confidence }) b.slots;
  }

  unfoldable pub slot_confidence : BeliefState F → String → F
  unfolding lookup
  slot_confidence b name = elim (lookup name b.slots) [
    | none ↦ fl.milli 0
    | some slot ↦ slot.confidence
  ]

  -- `belief.drivers.get(name, 0.0)`
  unfoldable pub driver : BeliefState F → String → F
  unfolding lookup
  driver b name = or_else (lookup name b.drivers) (fl.milli 0)

  unfoldable pub apply_driver_delta : BeliefState F → String → F → BeliefState F
  unfolding clamp01 lookup insert
  apply_driver_delta b name delta = elim (lookup name b.drivers) [
    | none ↦ b
    | some level ↦ record b { drivers = insert name (clamp01 (fl.add level delta)) b.drivers }
  ]

  -- `for k, v in snap.drivers.items(): if k in drivers: drivers[k] = float(v)`
  unfoldable pub restore_drivers : List (String × F) → List (String × F) → List (String × F)
  unfolding lookup insert
  restore_drivers drivers [] = drivers
  restore_drivers drivers ((k, v) ∷ rest) =
      restore_drivers (if is_some (lookup k drivers) then insert k v drivers else drivers) rest

  -- `trends.update(...)`
  unfoldable pub update_all : List (String × F) → List (String × F) → List (String × F)
  unfolding insert
  update_all d [] = d
  update_all d ((k, v) ∷ rest) = update_all (insert k v d) rest

  unfoldable pub from_snapshot : BeliefSnapshot F → BeliefState F
  unfolding restore_drivers update_all fresh
  from_snapshot snap = record fresh {
    slots = snap.slots;
    drivers = restore_drivers (all_at neutral_prior driver_names) snap.drivers;
    trends = update_all (all_at (fl.milli 0) velocity_names) snap.trends;
    stage = if truthy (some snap.stage) then snap.stage else greeting_stage;
    active_objection = snap.active_objection;
    decision_confidence = snap.decision_confidence;
    escalation_imminent = snap.escalation_imminent;
  }

unfoldable pub to_snapshot : {F : Type 0} → BeliefState F → BeliefSnapshot F
to_snapshot b = record {
  slots = b.slots;
  drivers = b.drivers;
  trends = b.trends;
  stage = b.stage;
  active_objection = b.active_objection;
  decision_confidence = b.decision_confidence;
  escalation_imminent = b.escalation_imminent;
}
