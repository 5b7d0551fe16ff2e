-- ===== src/Worker/Endings.antt =====
-- How a call that disconnects is settled.
use autonomous_sales_agent.Prelude.{
  String, Bool, true, false, not, ◌&&◌, ◌||◌, ◌==◌, ◌≡◌, refl, ◌∙◌, Option, none, some, List,
  if◌then◌else◌, arith, leb, length, says, truthy, or_else,
}
use autonomous_sales_agent.Dict.{lookup}
use autonomous_sales_agent.Session.{CapturedTurn}
use autonomous_sales_agent.Worker.{
  CallOutcome, Booking, outcome_by, terminal_by, close_tier_outcome, derive_outcome,
  terminal_outcome_on_disconnect, last_committed_act, in_agent_acts, overridden, on_shutdown,
}

-- an act that ends a call
abbrev pub is_terminal : Option String → Bool
is_terminal act = says act "attempt_close" || says act "escalate" || says act "disqualify"

-- the row of four tests
abbrev row_by : Bool → Bool → Bool → Bool → Booking
row_by a b c d =
    or_else
      (if a
        then some ("enrolled", 4)
        else if b
        then some ("trial_booked", 3)
        else if c
        then some ("consult_booked", 2)
        else if d
        then some ("callback_booked", 1)
        else none)
      ("consult_booked", 2)

row_by-settles : (a b c d : Bool) → (row_by a b c d).0 == "in_progress" ≡ false
row_by-settles true b c d = refl
row_by-settles false true c d = refl
row_by-settles false false true d = refl
row_by-settles false false false true = refl
row_by-settles false false false false = refl

-- no close is in progress
close-settles :
    (tier : String)
    → (or_else (lookup tier close_tier_outcome) ("consult_booked", 2)).0 == "in_progress" ≡ false
unfolding lookup
close-settles tier =
    row_by-settles ("enrollment" == tier) ("trial" == tier) ("consultation" == tier)
      ("callback" == tier)

outcome_by-in_progress :
    (row : Booking) (closes escalates disqualifies : Bool)
    → row.0 == "in_progress" ≡ false
    → (outcome_by row closes escalates disqualifies).outcome == "in_progress"
      ≡ not (closes || escalates || disqualifies)
outcome_by-in_progress row true e d h = h
outcome_by-in_progress row false true d h = refl
outcome_by-in_progress row false false true h = refl
outcome_by-in_progress row false false false h = refl

choice-settles :
    (p : Bool) (x y : CallOutcome)
    → x.outcome == "in_progress" ≡ false
    → (p ≡ false → y.outcome == "in_progress" ≡ false)
    → (if p then x else y).outcome == "in_progress" ≡ false
choice-settles true x y h k = h
choice-settles false x y h k = k refl

-- a terminal outcome settles what is in progress, and leaves what is not
some-settles :
    (derived : CallOutcome) (terminal : String)
    → terminal == "in_progress" ≡ false
    → (overridden derived (some terminal)).outcome == "in_progress" ≡ false
some-settles derived terminal h =
    choice-settles (derived.outcome == "" || derived.outcome == "in_progress")
      (overridden (record derived { outcome = "" }) (some terminal)) derived h
      (λ e. ground (arith, e))

close_stands :
    (tier closes escalates disqualifies open_call : Bool)
    → open_call ≡ not (closes || escalates || disqualifies)
    → (tier || closes) && open_call ≡ tier && not (closes || escalates || disqualifies)
close_stands tier closes escalates disqualifies open_call h = ground arith

-- the override, by the outcome that stands
overridden-in_progress :
    (derived : CallOutcome) (closed escalated disqualified silent : Bool)
    → (overridden derived (terminal_by closed escalated disqualified silent)).outcome
        == "in_progress"
      ≡ closed && (derived.outcome == "in_progress")
overridden-in_progress derived true e d s = refl
overridden-in_progress derived false true d s = some-settles derived "escalated" refl
overridden-in_progress derived false false true s = some-settles derived "disqualified" refl
overridden-in_progress derived false false false true = some-settles derived "abandoned" refl
overridden-in_progress derived false false false false = some-settles derived "released" refl

-- A call that disconnects is left in progress exactly when the agent has tried a close at some tier and its
-- last act neither closes, escalates nor disqualifies: talk after a close that was turned down hides the call.
pub on_shutdown-in_progress :
    {F : Type 0} (turns : List (CapturedTurn F)) (escalations : Bool)
    (last_close_tier : Option String)
    → (on_shutdown turns escalations last_close_tier).outcome == "in_progress"
      ≡ truthy last_close_tier && not (is_terminal (last_committed_act turns))
unfolding on_shutdown derive_outcome terminal_outcome_on_disconnect
on_shutdown-in_progress turns escalations last_close_tier =
    let act = last_committed_act turns in
    let tier = or_else last_close_tier "" in
    let row = or_else (lookup tier close_tier_outcome) ("consult_booked", 2) in
    let closes = says act "attempt_close" in
    let derived =
      outcome_by-in_progress row closes (says act "escalate") (says act "disqualify")
        (close-settles tier) in
    let settled =
      overridden-in_progress (derive_outcome act last_close_tier) (truthy last_close_tier || closes)
        (escalations || in_agent_acts "escalate" turns) (in_agent_acts "disqualify" turns)
        (leb (length turns) 0) in
    settled
    ∙ close_stands (truthy last_close_tier) closes (says act "escalate") (says act "disqualify")
        ((derive_outcome act last_close_tier).outcome == "in_progress") derived
