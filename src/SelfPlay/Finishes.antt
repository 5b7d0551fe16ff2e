-- ===== src/SelfPlay/Finishes.antt =====
-- The loop of src/sim/selfplay.py ends.
use autonomous_sales_agent.Prelude.{
  ℕ, zero, suc, ◌+◌, ◌≤◌, ◌<◌, String, Bool, true, false, ◌≡◌, refl, sym, Option, none, some, List,
  is_some, arith, inl, inr, ◌⊎◌, subst,
}
use autonomous_sales_agent.Float.{Floating}
use autonomous_sales_agent.Decision.{Decision}
use autonomous_sales_agent.Belief.{BeliefState}
use autonomous_sales_agent.Gates.Reads.{Patterns}
use autonomous_sales_agent.Tracker.Cues.{Cues}
use autonomous_sales_agent.Knowledge.{Texts}
use autonomous_sales_agent.Replies.{Spoken, first_try}
use autonomous_sales_agent.Replies.Turns.{respond-is_some}
use autonomous_sales_agent.Prospect.{ProspectState, ProspectTurn, is_raises}
use autonomous_sales_agent.Prospect.Commits.{react-is_some}
use autonomous_sales_agent.SelfPlay.{
  Ending, Setup, Dialogue, Round, raised, ended, goes_on, Episode, Run, finished, opening,
  after_agent, agent_side, after_prospect, round, build_episode, rounds, run_episode,
}
use autonomous_sales_agent.SelfPlay.Episodes.{Fine, round-Fine, rounds-round}

is_raised : {F : Type 0} → Round F → Bool
is_raised raised = true
is_raised _ = false

module _ {F : Type 0} ⦃fl : Floating F⦄ ⦃texts : Texts⦄ where
  after_agent-is_raised :
      (max_turns : ℕ) (d : Dialogue F) (out : Option (Spoken F))
      → is_some out ≡ true
      → is_raised (after_agent max_turns d out) ≡ false
  unfolding after_agent is_raised
  after_agent-is_raised max_turns d none h = absurd (ground (arith, h))
  after_agent-is_raised max_turns d (some out) h = ground arith

  module _ ⦃cues : Cues⦄ ⦃pt : Patterns⦄ (setup : Setup F) where
    -- no call of a language model raises
    module _ (prospect_answers : (n : ℕ) → is_raises (setup.world.answer n) ≡ false)
        (agent_answers : (n : ℕ) (d : Decision F) (b : BeliefState F) (own_lines : List String)
          → is_some (setup.world.realize n first_try d b own_lines) ≡ true) where
      agent_side-is_raised :
          (d : Dialogue F) (text : String) (terminal : Option Ending)
          → is_raised (agent_side setup d text terminal) ≡ false
      unfolding agent_side is_raised
      agent_side-is_raised d text (some ending) = refl
      agent_side-is_raised d text none = after_agent-is_raised setup.max_turns d _ (
          respond-is_some setup.config d.belief d.history (setup.world.input d.turn_count text)
            (setup.world.facts d.turn_count d.belief text) (setup.world.realize d.turn_count)
            (agent_answers d.turn_count _ _ _))

      after_prospect-is_raised :
          (d : Dialogue F) (r : Option (ProspectTurn F × ProspectState F))
          → is_some r ≡ true
          → is_raised (after_prospect setup d r) ≡ false
      unfolding after_prospect is_raised
      after_prospect-is_raised d none h = absurd (ground (arith, h))
      after_prospect-is_raised d (some (said, s)) h = agent_side-is_raised _ _ _

      round-is_raised : (d : Dialogue F) → is_raised (round setup d) ≡ false
      unfolding round
      round-is_raised d = after_prospect-is_raised d _ (
          react-is_some setup.persona d.prospect d.last_agent_act d.last_agent_tier _
            (prospect_answers d.turn_count))

      -- a dialogue from which the loop may go on
      abbrev Open : Dialogue F → Type 0
      Open d = (d.turn_count ≡ 0) ⊎ (d.turn_count < setup.max_turns)

      abbrev Finishes : Run F → Type 0
      Finishes run =
          (ep : Episode F) × (run ≡ finished ep)
          × (1 ≤ ep.turn_count)
          × ((ep.turn_count ≡ 1) ⊎ (ep.turn_count ≤ setup.max_turns))

      by_round :
          (fuel : ℕ) (d : Dialogue F)
          → Open d
          → ((e : Dialogue F)
              → e.turn_count ≡ d.turn_count + 1
              → Open e
              → Finishes (rounds setup fuel e))
          → (r : Round F) → round setup d ≡ r
          → Finishes (rounds setup (suc fuel) d)
      unfolding build_episode is_raised
      by_round fuel d going later raised p =
          absurd (ground (arith, subst (λ r. is_raised r ≡ false) p (round-is_raised d)))
      by_round fuel d going later (ended ending e) p =
          let fine = subst (Fine setup d) p (round-Fine setup d) in
          subst Finishes (sym (rounds-round setup fuel d _ p)) (
            build_episode setup ending e,
            refl,
            omega (arith, fine.0.1),
            ground (arith, fine.0.1, going),
          )
      by_round fuel d going later (goes_on e) p =
          let fine = subst (Fine setup d) p (round-Fine setup d) in
          subst Finishes (sym (rounds-round setup fuel d _ p)) (later e fine.0.1 (inr fine.1))

      rounds-Finishes :
          (fuel : ℕ) (d : Dialogue F)
          → Open d
          → setup.max_turns < d.turn_count + fuel
          → Finishes (rounds setup fuel d)
      rounds-Finishes zero d going enough = absurd (ground (arith, going, enough))
      rounds-Finishes (suc fuel) d going enough =
          by_round fuel d going
            (λ e next going_e. rounds-Finishes fuel e going_e (omega (arith, next, enough)))
            (round setup d) refl

      -- Where no call of a language model raises, an episode finishes: after one prospect turn at least,
      -- and one at most or `max_turns` at most.
      pub run_episode-finishes :
          (ep : Episode F) × (run_episode setup ≡ finished ep)
          × (1 ≤ ep.turn_count)
          × ((ep.turn_count ≡ 1) ⊎ (ep.turn_count ≤ setup.max_turns))
      unfolding run_episode opening
      run_episode-finishes =
          rounds-Finishes (suc setup.max_turns) (opening setup) (inl refl) (omega arith)
