-- ===== src/Config.antt =====
-- src/config/settings.py and the threshold table of src/core/gates.py: the versioned configuration,
-- and the reads of it that the gates make.
use autonomous_sales_agent.Prelude.{ℕ, String, not, Option, List, or_else, member, keep, [], ◌∷◌}
use autonomous_sales_agent.Float.{Floating}
use autonomous_sales_agent.Dict.{lookup}

pub record Persona : Type 0 where
  pub name : String
  pub role : String
  pub style : String

-- Of the free-form playbooks the entry `discovery_sequence` is a list, and the others, which no modelled
-- code reads, are their JSON texts.
pub record AgentConfig (F : Type 0) : Type 0 where
  pub version : String
  pub kb_version : String
  pub persona : Persona
  pub prompts : List (String × String)
  pub discovery_sequence : Option (List String)
  pub other_playbooks : List (String × String)
  pub thresholds : List (String × F)

-- The keys of `_DEFAULTS`.
pub data Threshold : Type 0 where
  trust_gate_open_price pushiness_cap pushiness_pressure_count_cap : Threshold
  escalate_low_confidence_turns low_confidence_level max_concession_band : Threshold
  discovery_slots_required budget_refusals_before_callback close_ready_trust : Threshold
  close_ready_trial_trust close_ready_trial_intent min_turns_before_close : Threshold
  callback_price_sensitivity discovery_slots_before_close extreme_bail_deescalate : Threshold
  max_slot_asks : Threshold

unfoldable pub threshold_name : Threshold → String
threshold_name trust_gate_open_price = "trust_gate_open_price"
threshold_name pushiness_cap = "pushiness_cap"
threshold_name pushiness_pressure_count_cap = "pushiness_pressure_count_cap"
threshold_name escalate_low_confidence_turns = "escalate_low_confidence_turns"
threshold_name low_confidence_level = "low_confidence_level"
threshold_name max_concession_band = "max_concession_band"
threshold_name discovery_slots_required = "discovery_slots_required"
threshold_name budget_refusals_before_callback = "budget_refusals_before_callback"
threshold_name close_ready_trust = "close_ready_trust"
threshold_name close_ready_trial_trust = "close_ready_trial_trust"
threshold_name close_ready_trial_intent = "close_ready_trial_intent"
threshold_name min_turns_before_close = "min_turns_before_close"
threshold_name callback_price_sensitivity = "callback_price_sensitivity"
threshold_name discovery_slots_before_close = "discovery_slots_before_close"
threshold_name extreme_bail_deescalate = "extreme_bail_deescalate"
threshold_name max_slot_asks = "max_slot_asks"

-- `_PRICE_SLOTS`
abbrev pub price_slots : List String
price_slots = "budget" ∷ []

module _ {F : Type 0} ⦃fl : Floating F⦄ where
  unfoldable pub default_threshold : Threshold → F
  default_threshold trust_gate_open_price = fl.milli 500
  default_threshold pushiness_cap = fl.milli 800
  default_threshold pushiness_pressure_count_cap = fl.milli 2000
  default_threshold escalate_low_confidence_turns = fl.milli 2000
  default_threshold low_confidence_level = fl.milli 400
  default_threshold max_concession_band = fl.milli 150
  default_threshold discovery_slots_required = fl.milli 4000
  default_threshold budget_refusals_before_callback = fl.milli 2000
  default_threshold close_ready_trust = fl.milli 600
  default_threshold close_ready_trial_trust = fl.milli 700
  default_threshold close_ready_trial_intent = fl.milli 550
  default_threshold min_turns_before_close = fl.milli 4000
  default_threshold callback_price_sensitivity = fl.milli 750
  default_threshold discovery_slots_before_close = fl.milli 1000
  default_threshold extreme_bail_deescalate = fl.milli 900
  default_threshold max_slot_asks = fl.milli 2000

  -- `_threshold`
  unfoldable pub threshold : AgentConfig F → Threshold → F
  unfolding threshold_name default_threshold lookup
  threshold c t = or_else (lookup (threshold_name t) c.thresholds) (default_threshold t)

  -- `int(_threshold(config, name))`
  abbrev pub threshold_count : AgentConfig F → Threshold → ℕ
  threshold_count c t = fl.trunc (threshold c t)

-- `_required_discovery_slots`
unfoldable pub required_discovery_slots : {F : Type 0} → AgentConfig F → List String
required_discovery_slots c =
    keep (λ s. not (member s price_slots)) (or_else c.discovery_sequence [])
