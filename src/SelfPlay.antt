-- ===== src/SelfPlay.antt =====
-- src/sim/selfplay.py: one self-play episode, in which the brain of Replies.antt and the simulated
-- prospect of Prospect.antt take turns. What the language models and the seeded noise give is an
-- input of each turn. Timings, the observation hook and the store are left out; of the trajectory,
-- the last state.
mod Stage
pub mod Episodes
pub mod Finishes
unfoldable pub use Stage.*
use autonomous_sales_agent.Prelude.{
  ℕ, suc, zero, ◌+◌, String, Bool, true, false, not, Option, none, some, List, [], ◌∷◌, ◌++◌,
  if◌then◌else◌, truthy, leb,
}
use autonomous_sales_agent.Float.{Floating}
use autonomous_sales_agent.Config.{AgentConfig}
use autonomous_sales_agent.Decision.{
  Act, Decision, Rationale, Tier, enrollment, trial, consultation, callback, act_name, is_escalate,
}
use autonomous_sales_agent.Belief.{BeliefState, BeliefSnapshot, fresh, to_snapshot}
use autonomous_sales_agent.Gates.Reads.{HistoryTurn, Patterns}
use autonomous_sales_agent.Tracker.Cues.{Cues}
use autonomous_sales_agent.Respond.{Input}
use autonomous_sales_agent.Session.{CapturedTurn}
use autonomous_sales_agent.Knowledge.{Texts, Fact}
use autonomous_sales_agent.Replies.{Realize, Spoken, respond}
use autonomous_sales_agent.Prospect.{
  Persona, ProspectState, ProspectTurn, SimAnswer, initial, react,
}

module _ {F : Type 0} ⦃fl : Floating F⦄ ⦃texts : Texts⦄ where
  -- `_opener`
  unfoldable pub opener : AgentConfig F → String
  opener c =
      let name = if truthy (some c.persona.name) then c.persona.name else "Alex" in
      texts.concat ("Hi, this is " ∷ name ∷ " from Nerdy. How can I help you today?" ∷ [])

  -- the canned greeting of turn 0
  unfoldable pub greeting_turn : String → CapturedTurn F
  greeting_turn greeting = record {
    turn_id = 0;
    speaker = "agent";
    text = greeting;
    decision = some "greeting";
    rationale = some (Rationale.proposed "canned opener (no user utterance yet)");
    belief = some (to_snapshot fresh);
    kb_version = none;
    retrieved = none;
  }

  -- an entry of `history`
  abbrev entry : String → Option String → Option F → String → HistoryTurn F
  entry role act confidence text = record {
    role = role;
    act = act;
    confidence = confidence;
    text = some text;
    content = none;
  }

  -- the state before the loop
  unfoldable pub opening : Setup F → Dialogue F
  opening setup =
      let greeting = opener setup.config in
      record {
        prospect = initial setup.persona;
        belief = fresh;
        history = entry "agent" (some "greeting") none greeting ∷ [];
        turns = greeting_turn greeting ∷ [];
        turn_id = 1;
        last_agent_text = greeting;
        last_agent_act = some "greeting";
        last_agent_tier = none;
        turn_count = 0;
      }

  -- the log of the prospect's turn
  unfoldable pub log_prospect : Dialogue F → ProspectState F → String → Dialogue F
  log_prospect d s text = record d {
    prospect = s;
    turns =
        d.turns
        ++ (record {
          turn_id = d.turn_id;
          speaker = "prospect";
          text = text;
          decision = none;
          rationale = none;
          belief = none;
          kb_version = none;
          retrieved = none;
        }
            ∷ []);
    history = d.history ++ (entry "user" none none text ∷ []);
    turn_id = d.turn_id + 1;
    turn_count = d.turn_count + 1;
  }

  -- the log of the agent's turn
  unfoldable pub log_agent : Dialogue F → Spoken F → Dialogue F
  log_agent d out = record d {
    belief = out.belief;
    turns =
        d.turns
        ++ (record {
          turn_id = d.turn_id;
          speaker = "agent";
          text = out.reply;
          decision = some (act_name out.decision.act);
          rationale = some out.decision.rationale;
          belief = some (to_snapshot out.belief);
          kb_version = none;
          retrieved = out.decision.meta.retrieved;
        }
            ∷ []);
    history =
        d.history
        ++ (entry "agent" (some (act_name out.decision.act)) out.decision.confidence out.reply
            ∷ []);
    turn_id = d.turn_id + 1;
    last_agent_text = out.reply;
    last_agent_act = some (act_name out.decision.act);
    last_agent_tier = out.decision.tier;
  }

  -- `_terminal_from_prospect`, with the flags that the loop takes from the turn
  unfoldable pub terminal_from_prospect : ProspectTurn F → Option Ending
  terminal_from_prospect pt =
      if pt.walked
      then some walked_ending
      else elim pt.committed_tier [ none ↦ none | some tier ↦ some (committed_ending tier) ]

  -- the checks after the agent's turn
  unfoldable pub after_agent : ℕ → Dialogue F → Option (Spoken F) → Round F
  after_agent max_turns d none = raised
  after_agent max_turns d (some out) =
      let e = log_agent d out in
      if is_escalate out.decision.act
      then ended escalated_ending e
      else if leb max_turns e.turn_count
      then ended released_ending e
      else goes_on e

  module _ ⦃cues : Cues⦄ ⦃pt : Patterns⦄ where
    -- the agent's turn, unless the prospect has ended the dialogue
    unfoldable pub agent_side : Setup F → Dialogue F → String → Option Ending → Round F
    agent_side setup d text (some ending) = ended ending d
    agent_side setup d text none =
        let w = setup.world in
        after_agent setup.max_turns d (
          respond d.belief d.history (w.input d.turn_count text) setup.config
            (w.realize d.turn_count) (w.facts d.turn_count d.belief text))

    -- the round, by the prospect's turn
    unfoldable pub after_prospect :
        Setup F → Dialogue F → Option (ProspectTurn F × ProspectState F) → Round F
    after_prospect setup d none = raised
    after_prospect setup d (some (said, s)) =
        let text = setup.world.garble d.turn_count said.text in
        agent_side setup (log_prospect d s text) text (terminal_from_prospect said)

    -- one pass of the loop
    unfoldable pub round : Setup F → Dialogue F → Round F
    round setup d = after_prospect setup d (
        react setup.persona d.prospect d.last_agent_act d.last_agent_tier
          (setup.world.answer d.turn_count))

    -- `_build_episode`
    unfoldable pub build_episode : Setup F → Ending → Dialogue F → Episode F
    build_episode setup ending d = record {
      turns = d.turns;
      ending = ending;
      qualified = setup.persona.qualified;
      disqualifier_reason = setup.persona.disqualifier;
      version = setup.config.version;
      kb_version = setup.config.kb_version;
      archetype = setup.persona.archetype;
      cohort = setup.cohort;
      turn_count = d.turn_count;
      prospect = d.prospect;
    }

    -- `while True`, on fuel
    unfoldable pub rounds : Setup F → ℕ → Dialogue F → Run F
    rounds setup zero d = unfinished
    rounds setup (suc fuel) d = elim (round setup d) [
      | raised ↦ failed
      | ended ending e ↦ finished (build_episode setup ending e)
      | goes_on e ↦ rounds setup fuel e
    ]

    -- `run_episode`
    unfoldable pub run_episode : Setup F → Run F
    run_episode setup = rounds setup (suc setup.max_turns) (opening setup)
