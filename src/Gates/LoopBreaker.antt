-- ===== src/Gates/LoopBreaker.antt =====
-- `break_no_progress_loop` of src/core/gates.py, with its progress test and the bookkeeping that
-- respond.py does through this module.
use autonomous_sales_agent.Prelude.{
  ℕ, Bool, true, not, ◌&&◌, ◌||◌, none, some, List, [], ◌∷◌, ◌++◌, if◌then◌else◌, is_some, truthy,
  leb, ltb, length, last_n, all, count, or_else,
}
use autonomous_sales_agent.Float.{Floating}
use autonomous_sales_agent.Dict.{lookup, keys}
use autonomous_sales_agent.Config.{AgentConfig}
use autonomous_sales_agent.Decision.{
  Act, Tier, Decision, Rationale, callback, attempt_close, answer_via_kb, escalate, is_reactive,
  is_paid,
}
use autonomous_sales_agent.Belief.{BeliefState, ProgressSnapshot, driver, neutral_prior}
use autonomous_sales_agent.Gates.Reads.{
  HistoryTurn, is_locked, escalation_reason, closeable_tier, paid_close_is_blind,
}
use autonomous_sales_agent.Gates.Pressure.{imminent}

-- `_LOOP_BREAK_K`
abbrev pub loop_break_k : ℕ
loop_break_k = 3

-- `_stalled_reactive_run`
unfoldable pub stalled_reactive_run : {F : Type 0} → BeliefState F → Bool
stalled_reactive_run b =
    leb loop_break_k (length b.meta.recent_acts)
    && all is_reactive (last_n loop_break_k b.meta.recent_acts)

-- `record_recent_act`
unfoldable pub record_recent_act : {F : Type 0} → BeliefState F → Act → BeliefState F
record_recent_act b act = record b {
  meta = record b.meta { recent_acts = last_n loop_break_k (b.meta.recent_acts ++ act ∷ []) };
}

module _ {F : Type 0} ⦃fl : Floating F⦄ where
  -- `_locked_slot_count`
  unfoldable pub locked_slot_count : BeliefState F → ℕ
  locked_slot_count b = count (is_locked b) (keys b.slots)

  unfoldable pub progress_snapshot : BeliefState F → ProgressSnapshot F
  unfolding lookup
  progress_snapshot b = record {
    locked_slots = locked_slot_count b;
    active_objection = b.active_objection;
    purchase_intent = or_else (lookup "purchase_intent" b.drivers) neutral_prior;
  }

  -- `_made_progress_since_prior`
  unfoldable pub made_progress_since_prior : BeliefState F → Bool
  made_progress_since_prior b = elim b.meta.progress_snapshot [
    | none ↦ true
    | some snap ↦
        ltb snap.locked_slots (locked_slot_count b)
        || is_some snap.active_objection && not (is_some b.active_objection)
        || fl.lt (fl.milli 30) (fl.sub (driver b "purchase_intent") snap.purchase_intent)
  ]

  abbrev terminal_escalate : Decision F → Rationale F → Decision F
  terminal_escalate d reason = record d {
    act = escalate;
    target_slot = none;
    tier = none;
    concession = none;
    meta = record d.meta { loop_break = true; loop_terminal = true };
    rationale = reason;
  }

  -- A blind paid tier becomes the free one.
  unfoldable pub commit_tier : Tier → BeliefState F → AgentConfig F → Tier
  commit_tier tier b c = if is_paid tier && paid_close_is_blind b c then callback else tier

  -- The first break: the softest commitment that the belief allows.
  unfoldable pub first_break :
      Decision F → BeliefState F → AgentConfig F → List (HistoryTurn F) → Decision F × BeliefState F
  unfolding commit_tier
  first_break d b c history = elim (closeable_tier b c (truthy b.active_objection)) [
    | some tier ↦ (
      record d {
        act = attempt_close;
        tier = some (commit_tier tier b c);
        target_slot = none;
        concession = none;
        meta = record d.meta { loop_break = true };
        rationale = Rationale.loop_commit (commit_tier tier b c);
      },
      b,
    )
    | none ↦
        if is_some (escalation_reason d b c history)
        then (terminal_escalate d Rationale.loop_hand_off, imminent b)
        else (
          record d {
            act = answer_via_kb;
            target_slot = none;
            tier = none;
            meta = record d.meta { loop_break = true };
            rationale = Rationale.loop_bottom_line;
          },
          b,
        )
  ]

  unfoldable pub break_no_progress_loop :
      Decision F → BeliefState F → AgentConfig F → List (HistoryTurn F) → Decision F × BeliefState F
  break_no_progress_loop d b c history =
      if not (is_reactive d.act)
      then (d, b)
      else if b.meta.loop_terminal_fired
      then (terminal_escalate d Rationale.loop_stays_escalated, imminent b)
      else if not (stalled_reactive_run b) || made_progress_since_prior b
      then (d, b)
      else if b.meta.loop_break_fired
      then (terminal_escalate d Rationale.loop_stalled_again, imminent b)
      else first_break d b c history
