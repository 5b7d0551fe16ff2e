-- ===== src/Respond/Calls.antt =====
-- Whole calls: `_decide_turn` (src/core/respond.py) folded over the turns of a call.
use autonomous_sales_agent.Prelude.{
  ℕ, suc, ◌||◌, ◌+◌, ◌≤◌, ◌≡◌, subst, List, [], ◌∷◌, arith, length, inl, inr,
}
use autonomous_sales_agent.Float.{Floating}
use autonomous_sales_agent.Config.{AgentConfig}
use autonomous_sales_agent.Decision.{Decision}
use autonomous_sales_agent.Belief.{BeliefState}
use autonomous_sales_agent.Gates.Reads.{HistoryTurn, Patterns}
use autonomous_sales_agent.Gates.LoopBreaker.{record_recent_act, loop_break_k}
use autonomous_sales_agent.Gates.Chain.Beliefs.{Flagged, apply_gates-Flagged}
use autonomous_sales_agent.Tracker.Cues.{Cues}
use autonomous_sales_agent.Tracker.Update.{Turn, update}
use autonomous_sales_agent.Tracker.Update.Books.{
  update-Kept, update-refusal_count, update-hostility,
}
use autonomous_sales_agent.Policy.{decide, parse_proposal}
use autonomous_sales_agent.Respond.{
  Input, decide_turn, keep_books, record_confidence, record_asked_slot, note_question, latch,
  turn_of,
}
use autonomous_sales_agent.Respond.Books.{keep_books-window}

-- The belief after a call, each turn with the history that the caller of `respond` passes.
unfoldable pub play :
    {F : Type 0} ⦃fl : Floating F⦄ ⦃cues : Cues⦄ ⦃pt : Patterns⦄
    → AgentConfig F
    → BeliefState F
    → List (List (HistoryTurn F) × Input F)
    → BeliefState F
play c b [] = b
play c b ((history, input) ∷ turns) = play c (decide_turn b history input c).1 turns

-- What a part of a call may do to the books.
abbrev pub Advances : {F : Type 0} → ℕ → BeliefState F → BeliefState F → Type 0
Advances n b e =
    (e.turn_count ≡ b.turn_count + n)
    × (b.meta.affordability_refusal_count ≤ e.meta.affordability_refusal_count)
    × (e.meta.affordability_refusal_count ≤ b.meta.affordability_refusal_count + n)
    × (e.meta.affordability_refusals ≡ b.meta.affordability_refusals)
    × (b.meta.hostility || e.meta.hostility ≡ e.meta.hostility)
    × (b.meta.loop_break_fired || e.meta.loop_break_fired ≡ e.meta.loop_break_fired)
    × (b.meta.loop_terminal_fired || e.meta.loop_terminal_fired ≡ e.meta.loop_terminal_fired)

Advances-trans :
    {F : Type 0} (m n : ℕ) (b d e : BeliefState F)
    → Advances m b d
    → Advances n d e
    → Advances (m + n) b e
Advances-trans m n b d e x y = ground arith

module _ {F : Type 0} ⦃fl : Floating F⦄ where
  Flagged-Advances : (b e : BeliefState F) → Flagged b e → Advances 0 b e
  Flagged-Advances b e (inl p) = grind (arith, p)
  Flagged-Advances b e (inr p) = grind (arith, p)

  -- what the bookkeeping leaves
  keep_books-kept :
      (b : BeliefState F) (d : Decision F)
      → ((keep_books b d).turn_count ≡ b.turn_count)
        × ((keep_books b d).meta.affordability_refusal_count ≡ b.meta.affordability_refusal_count)
        × ((keep_books b d).meta.affordability_refusals ≡ b.meta.affordability_refusals)
        × ((keep_books b d).meta.hostility ≡ b.meta.hostility)
  unfolding keep_books record_confidence record_asked_slot record_recent_act note_question latch
  keep_books-kept b d = ground arith

  keep_books-Advances : (b : BeliefState F) (d : Decision F) → Advances 0 b (keep_books b d)
  keep_books-Advances b d = ground (arith, keep_books-kept b d, keep_books-window b d)

module _ {F : Type 0} ⦃fl : Floating F⦄ ⦃cues : Cues⦄ where
  update-Advances : (b : BeliefState F) (t : Turn F) → Advances 1 b (update b t)
  update-Advances b t =
      ground (arith, update-Kept b t, update-refusal_count b t, update-hostility b t)

  module _ ⦃pt : Patterns⦄ (c : AgentConfig F) where
    turn-Advances :
        (b : BeliefState F) (h : List (HistoryTurn F)) (input : Input F)
        → Advances 1 b (decide_turn b h input c).1
    unfolding decide_turn decide
    turn-Advances b h input =
        let b1 = update b (turn_of h input) in
        let gated = decide b1 h c input.proposal in
        Advances-trans 1 0 b gated.1 (keep_books gated.1 gated.0)
          (Advances-trans 1 0 b b1 gated.1 (update-Advances b (turn_of h input)) (
            Flagged-Advances b1 gated.1
              (apply_gates-Flagged c h b1 (parse_proposal input.proposal))))
          (keep_books-Advances gated.1 gated.0)

    -- Over any number of turns, whatever the models reply: the turn count goes up by the number of
    -- turns, the count of affordability refusals only grows, by one a turn at most, hostility and the
    -- loop breaker's latches are sticky, and the counter `affordability_refusals` stays as it was.
    pub play-Advances :
        (b : BeliefState F) (turns : List (List (HistoryTurn F) × Input F))
        → Advances (length turns) b (play c b turns)
    unfolding play
    play-Advances b [] = ground arith
    play-Advances b ((h, input) ∷ turns) =
        let b1 = (decide_turn b h input c).1 in
        let counted : 1 + length turns ≡ suc (length turns) = omega arith in
        subst (λ n. Advances n b (play c b1 turns)) counted
          (Advances-trans 1 (length turns) b b1 (play c b1 turns) (turn-Advances b h input)
            (play-Advances b1 turns))

    turn-window :
        (b : BeliefState F) (h : List (HistoryTurn F)) (input : Input F)
        → length (decide_turn b h input c).1.meta.recent_acts ≤ loop_break_k
    unfolding decide_turn
    turn-window b h input =
        let gated = decide (update b (turn_of h input)) h c input.proposal in
        (keep_books-window gated.1 gated.0).1

    -- A call that begins with a window of at most three recent acts has one after any turns.
    pub play-window :
        (b : BeliefState F) (turns : List (List (HistoryTurn F) × Input F))
        → length b.meta.recent_acts ≤ loop_break_k
        → length (play c b turns).meta.recent_acts ≤ loop_break_k
    unfolding play
    play-window b [] short = short
    play-window b ((h, input) ∷ turns) short =
        play-window (decide_turn b h input c).1 turns (turn-window b h input)
