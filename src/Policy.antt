-- ===== src/Policy.antt =====
-- src/core/policy.py: the model proposes an act, and the gates decide.
pub mod Replies
use autonomous_sales_agent.Prelude.{
  String, Bool, true, false, Option, none, some, List, ◌==◌, if◌then◌else◌, truthy, or_else,
}
use autonomous_sales_agent.Float.{Floating}
use autonomous_sales_agent.Config.{AgentConfig}
use autonomous_sales_agent.Decision.{
  Act, Tier, Decision, Rationale, no_meta, confirm_known, ask, answer_via_kb, pitch,
  handle_objection, attempt_close, escalate, disqualify, enrollment, trial, consultation, callback,
}
use autonomous_sales_agent.Belief.{BeliefState}
use autonomous_sales_agent.Gates.Reads.{HistoryTurn, Patterns}
use autonomous_sales_agent.Gates.Chain.{apply_gates}

-- A JSON value where the code wants a number.
pub data Numeric (F : Type 0) : Type 0 where
  null garbled : Numeric F
  numeric : F → Numeric F

-- The dictionary that the model answers; `none` is a missing key, or a value that is no text.
pub record Proposal (F : Type 0) : Type 0 where
  pub act : Option String
  pub target_slot : Option String
  pub tier : Option String
  pub rationale : Option String
  pub confidence : Numeric F
  pub concession : Numeric F

-- `act in ACTS`, with the act
unfoldable pub parse_act : Option String → Option Act
parse_act none = none
parse_act (some s) =
    if s == "confirm_known"
    then some confirm_known
    else if s == "ask"
    then some ask
    else if s == "answer_via_kb"
    then some answer_via_kb
    else if s == "pitch"
    then some pitch
    else if s == "handle_objection"
    then some handle_objection
    else if s == "attempt_close"
    then some attempt_close
    else if s == "escalate"
    then some escalate
    else if s == "disqualify"
    then some disqualify
    else none

-- `tier if tier in LADDER_TIERS else "consultation"`
unfoldable pub parse_tier : Option String → Tier
parse_tier none = consultation
parse_tier (some s) =
    if s == "enrollment"
    then enrollment
    else if s == "trial"
    then trial
    else if s == "callback"
    then callback
    else consultation

-- `_as_float`
unfoldable pub as_float : {F : Type 0} → Numeric F → Option F
as_float null = none
as_float garbled = none
as_float (numeric x) = some x

-- `tier` of `_parse_proposal`
abbrev tier_for : Act → Option String → Option Tier
tier_for attempt_close tier = some (parse_tier tier)
tier_for _ tier = none

module _ {F : Type 0} where
  -- `_SAFE_FALLBACK_ACT`
  abbrev pub safe_fallback : Rationale F → Decision F
  safe_fallback reason = record {
    act = pitch;
    target_slot = none;
    tier = none;
    rationale = reason;
    confidence = none;
    concession = none;
    meta = no_meta;
  }

  abbrev proposal_of : Proposal F → Act → Decision F
  proposal_of p act = record {
    act = act;
    target_slot = if truthy p.target_slot then p.target_slot else none;
    tier = tier_for act p.tier;
    rationale = Rationale.proposed (or_else p.rationale "");
    confidence = as_float p.confidence;
    concession = as_float p.concession;
    meta = no_meta;
  }

  -- `_parse_proposal`; `none` is a reply that is no dictionary
  unfoldable pub parse_proposal : Option (Proposal F) → Decision F
  unfolding parse_act parse_tier as_float
  parse_proposal none = safe_fallback Rationale.malformed_proposal
  parse_proposal (some p) = elim (parse_act p.act) [
    | none ↦ safe_fallback Rationale.unknown_act
    | some act ↦ proposal_of p act
  ]

-- `decide`, with the model's reply; `none` is also a call that failed
unfoldable pub decide :
    {F : Type 0} ⦃fl : Floating F⦄ ⦃pt : Patterns⦄
    → BeliefState F
    → List (HistoryTurn F)
    → AgentConfig F
    → Option (Proposal F)
    → Decision F × BeliefState F
decide b history c raw = apply_gates (parse_proposal raw) b c history
