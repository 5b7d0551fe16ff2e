-- ===== src/SelfPlay/Stage.antt =====
-- src/sim/selfplay.py: what an episode starts from, keeps while it runs, and ends with.
use autonomous_sales_agent.Prelude.{ℕ, String, Bool, true, false, Option, none, some, List}
use autonomous_sales_agent.Config.{AgentConfig}
use autonomous_sales_agent.Decision.{Tier, enrollment, trial, consultation, callback}
use autonomous_sales_agent.Belief.{BeliefState}
use autonomous_sales_agent.Gates.Reads.{HistoryTurn}
use autonomous_sales_agent.Respond.{Input}
use autonomous_sales_agent.Session.{CapturedTurn}
use autonomous_sales_agent.Knowledge.{Fact}
use autonomous_sales_agent.Replies.{Realize}
use autonomous_sales_agent.Prospect.{Persona, ProspectState, SimAnswer}

-- the label, the rung and the flags of a finished episode
pub record Ending : Type 0 where
  pub outcome : String
  pub ladder_tier : ℕ
  pub committed_tier : Option Tier
  pub walked : Bool
  pub escalated : Bool

abbrev uncommitted : String → Bool → Bool → Ending
uncommitted outcome walked escalated = record {
  outcome = outcome;
  ladder_tier = 0;
  committed_tier = none;
  walked = walked;
  escalated = escalated;
}

-- `_WALKED`, `_ESCALATED` and `_RELEASED`, with the flags that go with them
unfoldable pub walked_ending : Ending
walked_ending = uncommitted "walked" true false

unfoldable pub escalated_ending : Ending
escalated_ending = uncommitted "escalated" false true

unfoldable pub released_ending : Ending
released_ending = uncommitted "released" false false

-- `_TIER_TO_OUTCOME`
unfoldable pub tier_to_outcome : Tier → String × ℕ
tier_to_outcome enrollment = ("enrolled", 4)
tier_to_outcome trial = ("trial_booked", 3)
tier_to_outcome consultation = ("consult_booked", 2)
tier_to_outcome callback = ("callback_scheduled", 1)

unfoldable pub committed_ending : Tier → Ending
committed_ending tier = record {
  outcome = (tier_to_outcome tier).0;
  ladder_tier = (tier_to_outcome tier).1;
  committed_tier = some tier;
  walked = false;
  escalated = false;
}

-- What each turn takes from outside, by its number.
pub record World (F : Type 0) : Type 0 where
  pub answer : ℕ → SimAnswer F
  -- `inject_noise`, with the state of its generator
  pub garble : ℕ → String → String
  -- the models' replies to the utterance, and what the extractors find in it
  pub input : ℕ → String → Input F
  -- `retrieve_facts`
  pub facts : ℕ → BeliefState F → String → List (Fact F)
  pub realize : ℕ → Realize F

pub record Setup (F : Type 0) : Type 0 where
  pub persona : Persona F
  pub config : AgentConfig F
  pub cohort : String
  pub max_turns : ℕ
  pub world : World F

-- the local variables of `run_episode`
pub record Dialogue (F : Type 0) : Type 0 where
  pub prospect : ProspectState F
  pub belief : BeliefState F
  pub history : List (HistoryTurn F)
  pub turns : List (CapturedTurn F)
  pub turn_id : ℕ
  pub last_agent_text : String
  pub last_agent_act : Option String
  pub last_agent_tier : Option Tier
  pub turn_count : ℕ

-- how a round of the loop ends
pub data Round (F : Type 0) : Type 0 where
  raised : Round F
  ended : Ending → Dialogue F → Round F
  goes_on : Dialogue F → Round F

-- `Episode`, with the dialogue's last state of the prospect
pub record Episode (F : Type 0) : Type 0 where
  pub turns : List (CapturedTurn F)
  pub ending : Ending
  pub qualified : Bool
  pub disqualifier_reason : Option String
  pub version : String
  pub kb_version : String
  pub archetype : String
  pub cohort : String
  pub turn_count : ℕ
  pub prospect : ProspectState F

pub data Run (F : Type 0) : Type 0 where
  failed unfinished : Run F
  finished : Episode F → Run F
