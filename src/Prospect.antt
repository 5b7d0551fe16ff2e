-- ===== src/Prospect.antt =====
-- src/sim/prospect.py: the simulated prospect of self-play. Its feelings move by the deltas that a
-- language model proposes; the buy gate alone decides a commitment. The prompt, and the off-script
-- asides that only the prompt reads, are left out.
mod State
mod Feelings
pub mod Commits
unfoldable pub use State.*
unfoldable pub use Feelings.*
use autonomous_sales_agent.Prelude.{
  ℕ, suc, ◌+◌, String, Bool, true, false, not, ◌&&◌, ◌||◌, Option, none, some, List, [], ◌∷◌, ◌++◌,
  all, any, if◌then◌else◌, says, truthy, or_else, member, ◌==◌, leb,
}
use autonomous_sales_agent.Float.{Floating}
use autonomous_sales_agent.Dict.{lookup}
use autonomous_sales_agent.Decision.{Tier, enrollment, trial, consultation, callback}
use autonomous_sales_agent.Belief.{clamp01}
use autonomous_sales_agent.Knowledge.{Texts}

module _ {F : Type 0} ⦃fl : Floating F⦄ where
  -- patience exhausted, and not yet committed
  unfoldable pub is_spent : ProspectState F → Bool
  is_spent s =
      fl.le s.patience (fl.milli 0) && elim s.committed_tier [ none ↦ true | some t ↦ false ]

  -- the walk of an exhausted prospect
  unfoldable pub walk_away : ProspectState F → ProspectTurn F × ProspectState F
  walk_away s =
      let gone : ProspectState F = record s { walked = true } in
      (
        record {
          text = walk_line;
          committed_tier = none;
          walked = true;
          disqualifier_signaled = false;
          state_snapshot = gone;
        },
        gone,
      )

  -- the end of `respond`, by the verdict of the gate
  unfoldable pub settle :
      ProspectState F → String → Bool → Option Tier → ProspectTurn F × ProspectState F
  settle s utterance signaled none = (
    record {
      text = utterance;
      committed_tier = none;
      walked = false;
      disqualifier_signaled = signaled;
      state_snapshot = s;
    },
    s,
  )
  settle s utterance signaled (some tier) =
      let won : ProspectState F = record s { committed_tier = some tier } in
      (
        record {
          text = acceptance tier;
          committed_tier = some tier;
          walked = false;
          disqualifier_signaled = signaled;
          state_snapshot = won;
        },
        won,
      )

  module _ ⦃texts : Texts⦄ where
    -- what the model's reply moves; none where it is no JSON object
    unfoldable pub hear : ProspectState F → Option (SimReply F) → ProspectState F × String × Bool
    hear s none = (s, "", false)
    hear s (some reply) =
        (apply_soft_deltas s reply.deltas, reply.utterance, reply.disqualifier_signaled)

    unfoldable pub signals : Persona F → String → Bool → Bool
    signals persona utterance signaled =
        if not persona.qualified && truthy persona.disqualifier && not signaled
        then mentions_disqualifier utterance (or_else persona.disqualifier "")
        else signaled

    -- the bookkeeping that the gate does not read
    unfoldable pub note_talk : ProspectState F → String → Bool → ProspectState F
    note_talk s utterance signaled = record s {
      objections_raised = elim (classify_objection_theme utterance) [
        | none ↦ s.objections_raised
        | some theme ↦
            if member theme s.objections_raised
            then s.objections_raised
            else s.objections_raised ++ (theme ∷ [])
      ];
      disqualifier_exchanges =
          if signaled then suc s.disqualifier_exchanges else s.disqualifier_exchanges;
    }

    -- the part of `respond` after the check of the patience
    unfoldable pub converse :
        Persona F
        → ProspectState F
        → Option (SimReply F)
        → Option Tier
        → ProspectTurn F × ProspectState F
    converse persona s reply offer =
        let (moved, utterance, raw) = hear s reply in
        let signaled = signals persona utterance raw in
        let noted = note_talk moved utterance signaled in
        settle noted utterance signaled (buy_gate noted persona offer)

    unfoldable pub reply_turn :
        Persona F
        → ProspectState F
        → Option Tier
        → SimAnswer F
        → Option (ProspectTurn F × ProspectState F)
    reply_turn persona s offer raises = none
    reply_turn persona s offer malformed = some (converse persona s none offer)
    reply_turn persona s offer (replied reply) = some (converse persona s (some reply) offer)

    -- the clock and the patience at the start of `respond`
    unfoldable pub begin_turn : ProspectState F → Option String → ProspectState F
    begin_turn s agent_act =
        deplete_patience (record s { turns_elapsed = suc s.turns_elapsed }) agent_act

    -- `ProspectSimulator.respond`, by the agent's act and tier and the model's answer; none where the
    -- model's call raises
    unfoldable pub react :
        Persona F
        → ProspectState F
        → Option String
        → Option Tier
        → SimAnswer F
        → Option (ProspectTurn F × ProspectState F)
    react persona s agent_act agent_tier answer =
        let tired = begin_turn s agent_act in
        let offer = offered agent_act agent_tier in
        if is_spent tired then some (walk_away tired) else reply_turn persona tired offer answer
