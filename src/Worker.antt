-- ===== src/Worker.antt =====
-- The end of a call in src/voice/worker.py, with the outcome that src/api/persistence.py derives, and the
-- worker's reading of a caller's answer to the question for consent.
pub mod Endings
pub mod Turns
pub mod Seeding
use autonomous_sales_agent.Prelude.{
  ℕ, String, Bool, true, false, not, ◌&&◌, ◌||◌, ◌==◌, Option, none, some, List, [], ◌∷◌,
  if◌then◌else◌, length, leb, any, reverse, says, truthy, or_else, is_some,
}
use autonomous_sales_agent.Dict.{lookup}
use autonomous_sales_agent.Session.{CapturedTurn}

-- the methods and the expressions of `_classify_consent_reply`
pub record ReplyCues : Type 0 where
  pub strip : String → String
  -- `_CONSENT_NO_RE`, `_CONSENT_YES_RE`
  pub says_no : String → Bool
  pub says_yes : String → Bool

-- `_classify_consent_reply`
unfoldable pub classify_consent_reply : ⦃rc : ReplyCues⦄ → Option String → String
classify_consent_reply ⦃rc⦄ text =
    let t = rc.strip (or_else text "") in
    if not (truthy (some t))
    then "unclear"
    else if rc.says_no t
    then "no"
    else if rc.says_yes t
    then "yes"
    else "unclear"

-- what `derive_outcome` returns, as an episode keeps it
pub record CallOutcome : Type 0 where
  pub outcome : String
  pub ladder_tier : ℕ
  pub qualified : Bool
  pub escalated : Bool

-- a label with its rung
abbrev pub Booking : Type 0
Booking = String × ℕ

-- `_CLOSE_TIER_OUTCOME`
abbrev pub close_tier_outcome : List (String × Booking)
close_tier_outcome =
    ("enrollment", ("enrolled", 4))
    ∷ ("trial", ("trial_booked", 3))
    ∷ ("consultation", ("consult_booked", 2))
    ∷ ("callback", ("callback_booked", 1))
    ∷ []

abbrev unqualified : String → Bool → CallOutcome
unqualified outcome escalated = record {
  outcome = outcome;
  ladder_tier = 0;
  qualified = false;
  escalated = escalated;
}

-- the outcome by whether the last act closes, escalates or disqualifies
abbrev pub outcome_by : Booking → Bool → Bool → Bool → CallOutcome
outcome_by row closes escalates disqualifies =
    if closes
    then record { outcome = row.0; ladder_tier = row.1; qualified = true; escalated = false }
    else if escalates
    then unqualified "escalated" true
    else if disqualifies
    then unqualified "disqualified" false
    else unqualified "in_progress" false

-- `derive_outcome`
unfoldable pub derive_outcome : Option String → Option String → CallOutcome
derive_outcome last_act last_tier =
    outcome_by (or_else (lookup (or_else last_tier "") close_tier_outcome) ("consult_booked", 2))
      (says last_act "attempt_close") (says last_act "escalate") (says last_act "disqualify")

-- the terminal outcome by whether a close stands, the flags, and whether no turn is committed
abbrev pub terminal_by : Bool → Bool → Bool → Bool → Option String
terminal_by closed escalated disqualified silent =
    if closed
    then none
    else if escalated
    then some "escalated"
    else if disqualified
    then some "disqualified"
    else if silent
    then some "abandoned"
    else some "released"

-- `_terminal_outcome_on_disconnect`
unfoldable pub terminal_outcome_on_disconnect :
    ℕ → Bool → Option String → Option String → Bool → Option String
terminal_outcome_on_disconnect turn_count escalated committed_tier last_act disqualified =
    terminal_by (truthy committed_tier || says last_act "attempt_close") escalated disqualified
      (leb turn_count 0)

-- the override of `_on_shutdown`
abbrev pub overridden : CallOutcome → Option String → CallOutcome
overridden derived none = derived
overridden derived (some terminal) =
    if derived.outcome == "" || derived.outcome == "in_progress"
    then unqualified terminal (terminal == "escalated")
    else derived

module _ {F : Type 0} where
  -- an agent's turn with a decision
  abbrev pub has_act : CapturedTurn F → Bool
  has_act turn = turn.speaker == "agent" && truthy turn.decision

  -- the first act of turns from the end
  abbrev pub first_act : List (CapturedTurn F) → Option String
  first_act [] = none
  first_act (turn ∷ turns) =
      let rest = first_act turns in if has_act turn then turn.decision else rest

  -- `_last_committed_act`, and `_last_agent_decision`
  unfoldable pub last_committed_act : List (CapturedTurn F) → Option String
  last_committed_act turns = first_act (reverse turns)

  -- `act in _agent_acts(turns)`
  unfoldable pub in_agent_acts : String → List (CapturedTurn F) → Bool
  in_agent_acts act turns = any (λ t. has_act t && says t.decision act) turns

  -- `_on_shutdown`: the turns, whether an escalation was logged, and the tier of the last close
  unfoldable pub on_shutdown : List (CapturedTurn F) → Bool → Option String → CallOutcome
  on_shutdown turns escalations last_close_tier =
      let last_act = last_committed_act turns in
      overridden (derive_outcome last_act last_close_tier) (
        terminal_outcome_on_disconnect (length turns)
          (escalations || in_agent_acts "escalate" turns) last_close_tier last_act
          (in_agent_acts "disqualify" turns))
