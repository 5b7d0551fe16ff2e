-- ===== src/Decision.antt =====
-- The policy's vocabulary (src/core/policy.py): acts, commitment tiers and the `Decision` that the
-- gates filter. The rationale is a log line: one constructor for each text that the code writes,
-- with the values that the text shows.
use autonomous_sales_agent.Prelude.{ℕ, String, Bool, true, false, Option, none, some, List}

-- `ACTS`
pub data Act : Type 0 where
  confirm_known ask answer_via_kb pitch handle_objection attempt_close escalate disqualify : Act

-- `LADDER_TIERS`
pub data Tier : Type 0 where
  enrollment trial consultation callback : Tier

unfoldable pub act_name : Act → String
act_name confirm_known = "confirm_known"
act_name ask = "ask"
act_name answer_via_kb = "answer_via_kb"
act_name pitch = "pitch"
act_name handle_objection = "handle_objection"
act_name attempt_close = "attempt_close"
act_name escalate = "escalate"
act_name disqualify = "disqualify"

-- `_escalation_reason`
pub data EscalationReason : Type 0 where
  concession_beyond_band human_request compliance_territory : EscalationReason
  low_confidence_turns : ℕ → EscalationReason

-- `_hostile_or_extreme_bail`
pub data HostileReason : Type 0 where
  caller_hostile bail_extreme : HostileReason

pub data Rationale (F : Type 0) : Type 0 where
  proposed : String → Rationale F
  malformed_proposal unknown_act : Rationale F
  skip_known : String → Rationale F
  slot_declined : String → Rationale F
  slot_over_asked : String → ℕ → Rationale F
  who_first_answer : Rationale F
  who_first_ask : Option String → Act → Rationale F
  de_escalate : HostileReason → Rationale F
  no_authority_callback : Rationale F
  triggerless_callback triggerless_selling : Rationale F
  budget_callback : ℕ → Rationale F
  recurring_question_first : Rationale F
  objection_first : Option String → Rationale F
  confirm_echo question_first : Rationale F
  impatient : F → Rationale F
  advance : Tier → F → F → ℕ → Rationale F
  loop_stays_escalated loop_stalled_again : Rationale F
  loop_commit : Tier → Rationale F
  loop_hand_off loop_bottom_line : Rationale F
  closing_blind : Option Tier → Rationale F
  objection_open : Option String → Rationale F
  price_not_yet : Rationale F
  pressure_signal pressure_repeated : Rationale F
  escalation : EscalationReason → Rationale F

-- The keys of `meta` that the brain writes.
pub record DecisionMeta : Type 0 where
  pub loop_break : Bool
  pub loop_terminal : Bool
  pub retrieved : Option (List String)

abbrev pub no_meta : DecisionMeta
no_meta = record { loop_break = false; loop_terminal = false; retrieved = none }

pub record Decision (F : Type 0) : Type 0 where
  pub act : Act
  pub target_slot : Option String
  pub tier : Option Tier
  pub rationale : Rationale F
  pub confidence : Option F
  pub concession : Option F
  pub meta : DecisionMeta

-- `frozenset` tests on acts
abbrev pub is_ask : Act → Bool
is_ask ask = true
is_ask _ = false

abbrev pub is_close : Act → Bool
is_close attempt_close = true
is_close _ = false

abbrev pub is_pitch : Act → Bool
is_pitch pitch = true
is_pitch _ = false

abbrev pub is_escalate : Act → Bool
is_escalate escalate = true
is_escalate _ = false

-- `_PRESSURE_ACTS`
abbrev pub is_pressure : Act → Bool
is_pressure attempt_close = true
is_pressure pitch = true
is_pressure _ = false

-- `_DEESCALATE_BLOCKED_ACTS`
abbrev pub is_deescalate_blocked : Act → Bool
is_deescalate_blocked attempt_close = true
is_deescalate_blocked pitch = true
is_deescalate_blocked ask = true
is_deescalate_blocked confirm_known = true
is_deescalate_blocked handle_objection = true
is_deescalate_blocked _ = false

-- `_DEFERRABLE_ACTS`
abbrev pub is_deferrable : Act → Bool
is_deferrable ask = true
is_deferrable confirm_known = true
is_deferrable pitch = true
is_deferrable _ = false

-- `_DISCOVERY_ACTS`
abbrev pub is_discovery : Act → Bool
is_discovery ask = true
is_discovery confirm_known = true
is_discovery _ = false

-- `_ADVANCEABLE_ACTS`
abbrev pub is_advanceable : Act → Bool
is_advanceable answer_via_kb = true
is_advanceable confirm_known = true
is_advanceable pitch = true
is_advanceable ask = true
is_advanceable _ = false

-- `_REACTIVE_ACTS`
abbrev pub is_reactive : Act → Bool
is_reactive ask = true
is_reactive confirm_known = true
is_reactive pitch = true
is_reactive answer_via_kb = true
is_reactive handle_objection = true
is_reactive _ = false

-- `_PAID_CLOSE_TIERS`
abbrev pub is_paid : Tier → Bool
is_paid callback = false
is_paid _ = true

abbrev pub is_callback : Option Tier → Bool
is_callback (some callback) = true
is_callback _ = false

-- the free or lowest rungs that a budget refusal leaves alone
abbrev pub is_low_rung : Option Tier → Bool
is_low_rung (some callback) = true
is_low_rung (some consultation) = true
is_low_rung _ = false
