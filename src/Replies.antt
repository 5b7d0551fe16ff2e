-- ===== src/Replies.antt =====
-- src/core/respond.py: the reply of a turn, blocking and streamed, with the two checks that may
-- rewrite a blocking reply, and src/core/nlg.py: the test for a repetition. What the language model
-- words is an input: an answer for each way of asking, or none where the request raises.
mod Checks
pub mod Safeguards
pub mod Turns
unfoldable pub use Checks.*
use autonomous_sales_agent.Prelude.{
  ℕ, suc, ◌+◌, String, Bool, true, false, not, ◌&&◌, ◌||◌, Option, none, some, List, [], ◌∷◌, map,
  reverse, if◌then◌else◌, leb, ltb, any, keep, count, member, length, take, truthy, ◌++◌,
}
use autonomous_sales_agent.Float.{Floating}
use autonomous_sales_agent.Config.{AgentConfig}
use autonomous_sales_agent.Decision.{Act, Decision, answer_via_kb, handle_objection, pitch}
use autonomous_sales_agent.Belief.{BeliefState}
use autonomous_sales_agent.Gates.Reads.{HistoryTurn, Patterns, is_agent_role, said}
use autonomous_sales_agent.Tracker.Cues.{Cues}
use autonomous_sales_agent.Respond.{Input, decide_turn}
use autonomous_sales_agent.Knowledge.{
  Texts, Fact, GroundednessReport, is_claim, is_empty, shown, grounded,
}

-- What a turn gives its caller, with the stamps that the checks leave on the decision's `meta`.
pub record Spoken (F : Type 0) : Type 0 where
  pub decision : Decision F
  pub reply : String
  pub belief : BeliefState F
  pub grounding : Option GroundingStamp
  pub repetition : RepetitionAction

module _ {F : Type 0} ⦃fl : Floating F⦄ ⦃cues : Cues⦄ ⦃pt : Patterns⦄ ⦃texts : Texts⦄ where
  -- the turn's input, with the texts of the facts that the decision is stamped with
  abbrev pub with_facts : Input F → List (Fact F) → Input F
  with_facts input facts = record input { facts = map shown facts }

  -- `respond` after the first wording
  unfoldable pub safeguard :
      Decision F → BeliefState F → Realize F → List (Fact F) → List String → String → Spoken F
  safeguard d b realize facts own_lines reply =
      let (checked, stamp) = ground_blocking_reply reply d b realize facts own_lines in
      let (final, action) = derepetition_blocking_reply checked d b realize own_lines in
      record { decision = d; reply = final; belief = b; grounding = stamp; repetition = action }

  -- `respond` by the first wording
  unfoldable pub after_wording :
      Decision F
      → BeliefState F
      → Realize F
      → List (Fact F)
      → List String
      → Option String
      → Option (Spoken F)
  after_wording d b realize facts own_lines none = none
  after_wording d b realize facts own_lines (some reply) =
      some (safeguard d b realize facts own_lines reply)

  -- `respond`; none where the first wording raises
  unfoldable pub respond :
      BeliefState F
      → List (HistoryTurn F)
      → Input F
      → AgentConfig F
      → Realize F
      → List (Fact F)
      → Option (Spoken F)
  respond belief history input c realize facts =
      let (d, b) = decide_turn belief history (with_facts input facts) c in
      let own_lines = own_last_lines history in
      after_wording d b realize facts own_lines (realize first_try d b own_lines)

  -- the flags of a streamed reply
  unfoldable pub stream_stamp : Decision F → List (Fact F) → String → Option GroundingStamp
  unfolding grounded
  stream_stamp d facts reply =
      if is_claim_act d.act
      then (let report = grounded reply facts in
          some (record {
            grounded = report.grounded;
            action = stream_flag_only;
            unsupported =
                if report.grounded
                then []
                else report.unsupported_numbers ++ report.unsupported_terms;
          }))
      else none

  -- the `StreamResult` of an assembled reply
  unfoldable pub stream_outcome :
      Decision F → BeliefState F → List (Fact F) → List String → String → Spoken F
  stream_outcome d b facts own_lines reply = record {
    decision = d;
    reply = reply;
    belief = b;
    grounding = stream_stamp d facts reply;
    repetition = if near_verbatim_repetition reply own_lines then flagged else not_repeated;
  }

  -- `respond_stream`, by the tokens that `realize_stream` yields: what the caller hears, and the
  -- `StreamResult`
  unfoldable pub respond_stream :
      BeliefState F
      → List (HistoryTurn F)
      → Input F
      → AgentConfig F
      → (Decision F → BeliefState F → List String → List String)
      → List (Fact F)
      → List String × Spoken F
  respond_stream belief history input c realize_stream facts =
      let (d, b) = decide_turn belief history (with_facts input facts) c in
      let own_lines = own_last_lines history in
      let parts = realize_stream d b own_lines in
      (parts, stream_outcome d b facts own_lines (texts.concat parts))
