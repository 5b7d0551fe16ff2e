-- ===== src/Gates/Reads.antt =====
-- The reads of src/core/gates.py: predicates on the belief, the configuration and the history that
-- several gates share.
use autonomous_sales_agent.Prelude.{
  ℕ, suc, String, Bool, false, not, ◌&&◌, ◌||◌, Option, none, some, List, [], ◌∷◌, reverse, ◌==◌,
  if◌then◌else◌, leb, ltb, says, truthy, or_else, any, count, or_else,
}
use autonomous_sales_agent.Float.{Floating}
use autonomous_sales_agent.Dict.{lookup}
use autonomous_sales_agent.Config.{
  AgentConfig, threshold, threshold_count, required_discovery_slots, max_concession_band,
  low_confidence_level, escalate_low_confidence_turns, extreme_bail_deescalate,
  discovery_slots_before_close, callback_price_sensitivity, budget_refusals_before_callback,
  close_ready_trial_trust, close_ready_trial_intent, close_ready_trust, max_slot_asks,
}
use autonomous_sales_agent.Decision.{
  Tier, Decision, EscalationReason, HostileReason, caller_hostile, bail_extreme, trial,
  consultation, callback, concession_beyond_band, human_request, compliance_territory,
  low_confidence_turns,
}
use autonomous_sales_agent.Belief.{BeliefState, slot_confidence, driver, neutral_prior}

-- A turn of the history, a dictionary in Python.
pub record HistoryTurn (F : Type 0) : Type 0 where
  pub role : String
  pub act : Option String
  pub confidence : Option F
  pub text : Option String
  pub content : Option String

-- What the regular expressions of the program answer; the engine is Python's `re`.
pub record Patterns : Type 0 where
  -- `_THIRD_PARTY_RE.search`
  pub third_party : String → Bool
  -- `_TERSE_PRICE_REASK_RE.search`
  pub terse_price_reask : String → Bool
  -- `dst._PRICE_INQUIRY_RE.search`
  pub price_inquiry : String → Bool
  -- `re.findall(r"[a-z0-9']+", s.lower())`
  pub words : String → List String
  -- `"price" in s.lower()`
  pub mentions_price : String → Bool

abbrev pub is_agent_role : String → Bool
is_agent_role role = role == "assistant" || role == "agent"

-- `turn.get("text", turn.get("content", ""))`
abbrev pub said : {F : Type 0} → HistoryTurn F → String
said t = or_else t.text (or_else t.content "")

-- `turn.get("act") in _PRESSURE_ACTS`
abbrev pub is_pressure_name : Option String → Bool
is_pressure_name act = says act "attempt_close" || says act "pitch"

module _ {F : Type 0} where
  prev_agent_act_from : List (HistoryTurn F) → Option String
  prev_agent_act_from [] = none
  prev_agent_act_from (t ∷ ts) = if is_agent_role t.role then t.act else prev_agent_act_from ts

  -- `_prev_agent_act`
  unfoldable pub prev_agent_act : List (HistoryTurn F) → Option String
  unfolding prev_agent_act_from
  prev_agent_act history = prev_agent_act_from (reverse history)

  pressure_run : List (HistoryTurn F) → ℕ
  pressure_run [] = 0
  pressure_run (t ∷ ts) =
      let rest = pressure_run ts in
      if is_agent_role t.role then (if is_pressure_name t.act then suc rest else 0) else rest

  -- `_consecutive_pressure_count`
  unfoldable pub consecutive_pressure_count : List (HistoryTurn F) → ℕ
  unfolding pressure_run
  consecutive_pressure_count history = pressure_run (reverse history)

-- `_LEARNER_SLOTS`
abbrev pub learner_slots : List String
learner_slots = "grade_level" ∷ "subject" ∷ "goal" ∷ "timeline" ∷ "prior_tutoring" ∷ []

module _ {F : Type 0} ⦃fl : Floating F⦄ where
  -- `belief.slot_confidence(s) >= _LOCK_CONFIDENCE`
  unfoldable pub is_locked : BeliefState F → String → Bool
  unfolding slot_confidence
  is_locked b s = fl.le (fl.milli 800) (slot_confidence b s)

  -- `_hostile_or_extreme_bail`
  unfoldable pub hostile_or_extreme_bail : BeliefState F → AgentConfig F → Option HostileReason
  hostile_or_extreme_bail b c =
      if b.meta.hostility
      then some caller_hostile
      else if fl.le (threshold c extreme_bail_deescalate) (driver b "bail_risk")
      then some bail_extreme
      else none

  low_confidence_run : F → List (HistoryTurn F) → ℕ
  low_confidence_run level [] = 0
  low_confidence_run level (t ∷ ts) =
      let rest = low_confidence_run level ts in
      if is_agent_role t.role
      then elim t.confidence [ none ↦ 0 | some conf ↦ if fl.lt conf level then suc rest else 0 ]
      else rest

  -- `_low_confidence_streak`
  unfoldable pub low_confidence_streak : BeliefState F → List (HistoryTurn F) → F → ℕ
  unfolding low_confidence_run
  low_confidence_streak b history level = elim b.decision_confidence [
    | none ↦ 0
    | some conf ↦ if fl.lt conf level then suc (low_confidence_run level (reverse history)) else 0
  ]

  -- the concession test of `_escalation_reason`
  unfoldable pub beyond_band : Option F → AgentConfig F → Bool
  beyond_band none c = false
  beyond_band (some x) c = fl.lt (threshold c max_concession_band) x

  -- `_escalation_reason`
  unfoldable pub escalation_reason :
      Decision F → BeliefState F → AgentConfig F → List (HistoryTurn F) → Option EscalationReason
  unfolding beyond_band
  escalation_reason d b c history =
      let need = threshold_count c escalate_low_confidence_turns in
      if beyond_band d.concession c
      then some concession_beyond_band
      else if says b.last_user_act "human_request"
      then some human_request
      else if says b.last_user_act "compliance"
      then some compliance_territory
      else if leb need (low_confidence_streak b history (threshold c low_confidence_level))
      then some (low_confidence_turns need)
      else none

  -- `_price_context_live`
  unfoldable pub price_context_live : BeliefState F → Bool
  price_context_live b =
      says b.last_user_act "price_inquiry"
      || says b.active_objection "price"
      || says b.active_objection "affordability"
      || ltb 0 b.meta.affordability_refusals

  -- the number of required discovery slots that are locked
  unfoldable pub filled_discovery : BeliefState F → AgentConfig F → ℕ
  filled_discovery b c = count (is_locked b) (required_discovery_slots c)

  -- `_paid_close_is_blind`
  unfoldable pub paid_close_is_blind : BeliefState F → AgentConfig F → Bool
  paid_close_is_blind b c = not (
      leb (threshold_count c discovery_slots_before_close) (filled_discovery b c)
      || fl.lt neutral_prior (driver b "purchase_intent"))

  -- `_closeable_tier`
  unfoldable pub closeable_tier : BeliefState F → AgentConfig F → Bool → Option Tier
  closeable_tier b c breakthrough =
      if fl.le (threshold c callback_price_sensitivity) (driver b "price_sensitivity")
        || leb (threshold_count c budget_refusals_before_callback)
            b.meta.affordability_refusal_count
      then some callback
      else if fl.le (threshold c close_ready_trial_trust) (driver b "trust")
          && fl.le (threshold c close_ready_trial_intent) (driver b "purchase_intent")
      then some trial
      else if fl.le (threshold c close_ready_trust) (driver b "trust") || breakthrough
      then some consultation
      else none

  -- `int(dict(meta.get("asked_slots", {})).get(slot, 0))`
  unfoldable pub asked_count : BeliefState F → String → ℕ
  asked_count b slot = or_else (lookup slot b.meta.asked_slots) 0

  unfoldable pub over_asked : BeliefState F → AgentConfig F → String → Bool
  over_asked b c slot = leb (threshold_count c max_slot_asks) (asked_count b slot)

  -- `learner_known` of `establish_who_first`
  unfoldable pub learner_known : BeliefState F → Bool
  learner_known b = b.meta.learner_established || any (is_locked b) learner_slots

  module _ ⦃pt : Patterns⦄ where
    unfoldable pub third_party_read : BeliefState F → Bool
    third_party_read b = elim b.open_question [
      | none ↦ false
      | some q ↦ truthy (some q) && pt.third_party q
    ]

    -- `_is_no_authority`
    unfoldable pub is_no_authority : BeliefState F → Bool
    unfolding third_party_read
    is_no_authority b =
        says b.active_objection "decision_maker"
        || b.meta.no_authority
        || b.meta.decision_maker
        || b.meta.gatekeeper
        || third_party_read b
