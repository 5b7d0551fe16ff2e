-- ===== src/Respond/Books.antt =====
-- The running books of a call, over one turn and over any number of turns of `_decide_turn`
-- (src/core/respond.py).
use autonomous_sales_agent.Prelude.{
  ℕ, String, ◌&&◌, ◌||◌, ◌+◌, ◌-◌, ◌≤◌, ◌≡◌, ap, none, some, List, [], ◌∷◌, ◌++◌, if◌then◌else◌,
  truthy, or_else, arith, length, last_n, length-drop, ◌==◌, eq_iff, inl, inr, Bool-cases,
}
use autonomous_sales_agent.Float.{Floating}
use autonomous_sales_agent.Dict.{lookup-insert}
use autonomous_sales_agent.Decision.{Act, Decision, is_ask}
use autonomous_sales_agent.Belief.{BeliefState, slot_confidence}
use autonomous_sales_agent.Gates.Reads.{is_locked}
use autonomous_sales_agent.Gates.LoopBreaker.{
  progress_snapshot, record_recent_act, loop_break_k, locked_slot_count,
}
use autonomous_sales_agent.Respond.{
  keep_books, record_confidence, record_asked_slot, note_question, latch, times_asked,
}

last_n-short : (n : ℕ) (acts : List Act) → length (last_n n acts) ≤ n
last_n-short n acts = omega (arith, length-drop (length acts - n) acts)

module _ {F : Type 0} ⦃fl : Floating F⦄ where
  -- the three steps before the window
  asked-kept :
      (b : BeliefState F) (d : Decision F)
      → let e = record_asked_slot (record_confidence b d) d in
        (e.meta.recent_acts ≡ b.meta.recent_acts)
        × (e.meta.loop_break_fired ≡ b.meta.loop_break_fired)
        × (e.meta.loop_terminal_fired ≡ b.meta.loop_terminal_fired)
        × (e.meta.affordability_refusals ≡ b.meta.affordability_refusals)
        × (e.turn_count ≡ b.turn_count)
        × (e.slots ≡ b.slots)
        × (e.drivers ≡ b.drivers)
        × (e.active_objection ≡ b.active_objection)
  unfolding record_confidence record_asked_slot note_question
  asked-kept b d = ground arith

  asked-rest :
      (b : BeliefState F) (d : Decision F)
      → let e = record_asked_slot (record_confidence b d) d in
        e ≡ record b { decision_confidence = e.decision_confidence; meta = e.meta }
  unfolding record_confidence record_asked_slot note_question
  asked-rest b d = ground arith

  snapshot-agrees :
      (b e : BeliefState F)
      → e ≡ record b { decision_confidence = e.decision_confidence; meta = e.meta }
      → progress_snapshot e ≡ progress_snapshot b
  unfolding progress_snapshot locked_slot_count is_locked slot_confidence
  snapshot-agrees b e p = ap progress_snapshot p

  -- What the bookkeeping of a turn makes of a belief: the window of recent acts slides by the act,
  -- and stays at three acts; the snapshot of the next turn is the state of this one; the latches of
  -- the loop breaker take the decision's flags and are never released.
  pub keep_books-window :
      (b : BeliefState F) (d : Decision F)
      → let m = (keep_books b d).meta in
        (m.recent_acts ≡ last_n loop_break_k (b.meta.recent_acts ++ d.act ∷ []))
        × (length m.recent_acts ≤ loop_break_k)
        × (m.progress_snapshot ≡ some (progress_snapshot b))
        × (m.loop_break_fired ≡ b.meta.loop_break_fired || d.meta.loop_break)
        × (m.loop_terminal_fired ≡ b.meta.loop_terminal_fired || d.meta.loop_terminal)
  unfolding keep_books record_recent_act latch locked_slot_count is_locked
  keep_books-window b d =
      let kept = asked-kept b d in
      let e = record_asked_slot (record_confidence b d) d in
      (
        ap (λ acts. last_n loop_break_k (acts ++ d.act ∷ [])) kept.0,
        last_n-short loop_break_k (e.meta.recent_acts ++ d.act ∷ []),
        ap some (snapshot-agrees b e (asked-rest b d)),
        ground (arith, kept.1),
        ground (arith, kept.2),
      )

  question-count :
      (b : BeliefState F) (asked slot : String)
      → times_asked (note_question b asked) slot
        ≡ (if asked == slot then times_asked b slot + 1 else times_asked b slot)
  unfolding note_question
  question-count b asked slot = elim (Bool-cases (asked == slot)) [
    | inl e ↦ ground (
      arith,
      (eq_iff asked slot).0 e,
      ap (times_asked b) ((eq_iff asked slot).0 e),
      lookup-insert asked slot (times_asked b asked + 1) b.meta.asked_slots,
    )
    | inr e ↦ ground (arith, lookup-insert asked slot (times_asked b asked + 1) b.meta.asked_slots)
  ]

  -- A question for a slot is counted once, for that slot and no other, and is pending on the next
  -- turn; any other decision leaves the counts and clears the pending question.
  pub keep_books-asked :
      (b : BeliefState F) (d : Decision F) (slot : String)
      → let asks = is_ask d.act && truthy d.target_slot in
        (times_asked (keep_books b d) slot ≡ (
          if asks && (or_else d.target_slot "" == slot)
          then times_asked b slot + 1
          else times_asked b slot))
        × ((keep_books b d).meta.pending_ask_slot ≡ (if asks then d.target_slot else none))
  unfolding keep_books record_confidence record_asked_slot record_recent_act latch
  keep_books-asked b d slot = ground (
    arith,
    question-count b (or_else d.target_slot "") slot,
    question-count (record b { decision_confidence = d.confidence }) (or_else d.target_slot "")
        slot,
  )
