-- ===== src/Respond.antt =====
-- src/core/respond.py: the turn that the text and the voice channel share, up to the wording of the
-- reply. The three inputs of a turn that come from outside are the utterance with what the tracker's
-- extractors find in it, the tracker's model reply, and the policy's.
pub mod Books
pub mod Calls
pub mod Requests
use autonomous_sales_agent.Prelude.{
  ℕ, suc, String, Bool, true, false, ◌&&◌, ◌+◌, Option, none, some, List, [], ◌∷◌, ◌++◌, reverse,
  if◌then◌else◌, truthy, is_some, or_else, take,
}
use autonomous_sales_agent.Float.{Floating}
use autonomous_sales_agent.Dict.{lookup, insert}
use autonomous_sales_agent.Config.{AgentConfig}
use autonomous_sales_agent.Decision.{Act, Decision, is_ask, answer_via_kb}
use autonomous_sales_agent.Belief.{BeliefState}
use autonomous_sales_agent.Gates.Reads.{HistoryTurn, Patterns, is_agent_role, said}
use autonomous_sales_agent.Gates.LoopBreaker.{progress_snapshot, record_recent_act}
use autonomous_sales_agent.Tracker.Cues.{Cues}
use autonomous_sales_agent.Tracker.Slots.{Extracted}
use autonomous_sales_agent.Tracker.Update.{Reply, Turn, update}
use autonomous_sales_agent.Policy.{Proposal, decide}

-- What a turn takes from outside.
pub record Input (F : Type 0) : Type 0 where
  pub utterance : String
  pub extracted : Bool → Extracted F
  pub reply : Option (Reply F)
  pub upstream_act : Option String
  pub proposal : Option (Proposal F)
  -- `retrieved_facts`, each `str()`-ed; none and an empty list are the same to the code
  pub facts : List String

module _ {F : Type 0} where
  last_act_from : List (HistoryTurn F) → Option String
  last_act_from [] = none
  last_act_from (t ∷ ts) =
      let rest = last_act_from ts in if is_agent_role t.role then t.act else rest

  -- `_last_agent_act`
  unfoldable pub last_agent_act : List (HistoryTurn F) → Option String
  unfolding last_act_from
  last_agent_act history = last_act_from (reverse history)

  -- the entry of a slot in `asked_slots`
  abbrev pub times_asked : BeliefState F → String → ℕ
  times_asked b slot = or_else (lookup slot b.meta.asked_slots) 0

  -- the branch of `_record_asked_slot` for a question
  unfoldable pub note_question : BeliefState F → String → BeliefState F
  unfolding insert lookup
  note_question b slot = record b {
    meta = record b.meta {
      asked_slots = insert slot (times_asked b slot + 1) b.meta.asked_slots;
      pending_ask_slot = some slot;
    };
  }

  -- `_record_asked_slot`
  unfoldable pub record_asked_slot : BeliefState F → Decision F → BeliefState F
  unfolding note_question
  record_asked_slot b d =
      if is_ask d.act && truthy d.target_slot
      then note_question b (or_else d.target_slot "")
      else record b { meta = record b.meta { pending_ask_slot = none } }

  unfoldable pub record_confidence : BeliefState F → Decision F → BeliefState F
  record_confidence b d =
      if is_some d.confidence then record b { decision_confidence = d.confidence } else b

  -- the latches of the loop breaker
  unfoldable pub latch : BeliefState F → Decision F → BeliefState F
  latch b d = record b {
    meta = record b.meta {
      loop_break_fired = if d.meta.loop_break then true else b.meta.loop_break_fired;
      loop_terminal_fired = if d.meta.loop_terminal then true else b.meta.loop_terminal_fired;
    };
  }

  unfoldable pub stamp_facts : Decision F → List String → Decision F
  stamp_facts d [] = d
  stamp_facts d (f ∷ fs) = elim d.act [
    | answer_via_kb ↦ record d { meta = record d.meta { retrieved = some (f ∷ fs) } }
    | _ ↦ d
  ]

-- what `_decide_turn` passes to the tracker
abbrev pub turn_of : {F : Type 0} → List (HistoryTurn F) → Input F → Turn F
turn_of history input = record {
  last_agent_act = last_agent_act history;
  utterance = input.utterance;
  extracted = input.extracted;
  reply = input.reply;
  upstream_act = input.upstream_act;
}

module _ {F : Type 0} ⦃fl : Floating F⦄ where
  -- the bookkeeping of `_decide_turn` after the decision
  unfoldable pub keep_books : BeliefState F → Decision F → BeliefState F
  unfolding record_confidence record_asked_slot record_recent_act progress_snapshot latch
  keep_books b0 d =
      let b1 = record_asked_slot (record_confidence b0 d) d in
      let b2 = record_recent_act b1 d.act in
      let b3 : BeliefState F = record b2 {
        meta = record b2.meta { progress_snapshot = some (progress_snapshot b2) };
      } in
      latch b3 d

  -- `_decide_turn`
  unfoldable pub decide_turn :
      ⦃cues : Cues⦄ ⦃pt : Patterns⦄
      → BeliefState F
      → List (HistoryTurn F)
      → Input F
      → AgentConfig F
      → Decision F × BeliefState F
  unfolding update last_agent_act decide keep_books stamp_facts
  decide_turn belief history input c =
      let (d, b) = decide (update belief (turn_of history input)) history c input.proposal in
      (stamp_facts d input.facts, keep_books b d)
