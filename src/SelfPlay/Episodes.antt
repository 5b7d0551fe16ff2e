-- ===== src/SelfPlay/Episodes.antt =====
-- How a self-play episode of src/sim/selfplay.py ends.
use autonomous_sales_agent.Prelude.{
  ℕ, zero, suc, ◌+◌, ◌*◌, ◌<◌, String, true, ◌≡◌, refl, sym, ◌∙◌, ap, Option, none, some, is_some,
  arith, inl, inr, Bool-cases, Option-cases, some_injective, length, length-snoc, if◌then◌else◌,
  leb, subst,
}
use autonomous_sales_agent.Float.{Floating}
use autonomous_sales_agent.Decision.{Tier, is_escalate}
use autonomous_sales_agent.Gates.Reads.{Patterns}
use autonomous_sales_agent.Tracker.Cues.{Cues}
use autonomous_sales_agent.Knowledge.{Texts}
use autonomous_sales_agent.Replies.{Spoken}
use autonomous_sales_agent.Prospect.{
  Persona, ProspectState, ProspectTurn, initial, react, within_ceiling, meets, tier_thresholds,
}
use autonomous_sales_agent.Prospect.Commits.{react-budget, react-commits}
use autonomous_sales_agent.SelfPlay.{
  Ending, walked_ending, escalated_ending, released_ending, committed_ending, Setup, Dialogue,
  Round, raised, ended, goes_on, Episode, Run, failed, unfinished, finished, opening, log_prospect,
  log_agent, terminal_from_prospect, after_agent, agent_side, after_prospect, round, build_episode,
  rounds, run_episode,
}

-- the turns of the last round
abbrev pub last_turns : Ending → ℕ
last_turns e = if e.walked then 1 else if is_some e.committed_tier then 1 else 2

module _ {F : Type 0} ⦃fl : Floating F⦄ where
  -- the four ways to end, and what a commitment stands on
  pub data Verdict (persona : Persona F) (s : ProspectState F) : Ending → Type 0 where
    walks : Verdict persona s walked_ending
    escalates : Verdict persona s escalated_ending
    releases : Verdict persona s released_ending
    commits :
        (tier : Tier)
        → within_ceiling persona tier ≡ true
        → meets s (tier_thresholds tier) ≡ true
        → Verdict persona s (committed_ending tier)

  -- what a round does to the books of the dialogue, up to the turns of its end
  abbrev pub Counts : ℕ → Dialogue F → Dialogue F → Type 0
  Counts n d e =
      (e.prospect.budget ≡ d.prospect.budget)
      × (e.turn_count ≡ d.turn_count + 1)
      × (length e.turns ≡ length d.turns + n)

  abbrev pub Fine : Setup F → Dialogue F → Round F → Type 0
  Fine setup d raised = Unit
  Fine setup d (ended ending e) =
      Counts (last_turns ending) d e × Verdict setup.persona e.prospect ending
  Fine setup d (goes_on e) = Counts 2 d e × (e.turn_count < setup.max_turns)

  module _ ⦃texts : Texts⦄ where
    log_prospect-Counts :
        (d : Dialogue F) (s : ProspectState F) (text : String)
        → s.budget ≡ d.prospect.budget
        → Counts 1 d (log_prospect d s text)
    unfolding log_prospect
    log_prospect-Counts d s text h = (h, refl, length-snoc d.turns _)

    log_agent-Counts :
        (d0 d : Dialogue F) (out : Spoken F) → Counts 1 d0 d → Counts 2 d0 (log_agent d out)
    unfolding log_agent
    log_agent-Counts d0 d out counts =
        let plus_two : length d.turns + 1 ≡ length d0.turns + 2 = omega (arith, counts.2) in
        (counts.0, counts.1, length-snoc d.turns _ ∙ plus_two)

    after_agent-Fine :
        (setup : Setup F) (d0 d : Dialogue F) (out : Option (Spoken F))
        → Counts 1 d0 d
        → Fine setup d0 (after_agent setup.max_turns d out)
    unfolding after_agent escalated_ending released_ending
    after_agent-Fine setup d0 d none counts = tt
    after_agent-Fine setup d0 d (some out) counts =
        let logged = log_agent-Counts d0 d out counts in
        elim (Bool-cases (is_escalate out.decision.act)) [
          | inl y ↦ rw y (logged, escalates)
          | inr n ↦ elim (Bool-cases (leb setup.max_turns (log_agent d out).turn_count)) [
            | inl y ↦ rw (n, y) (logged, releases)
            | inr m ↦ rw (n, m) (logged, ground (arith, m))
          ]
        ]

    terminal-Verdict :
        (persona : Persona F) (s : ProspectState F) (said : ProspectTurn F) (ending : Ending)
        → ((t : Tier)
            → said.committed_tier ≡ some t
            → (within_ceiling persona t ≡ true) × (meets s (tier_thresholds t) ≡ true))
        → terminal_from_prospect said ≡ some ending
        → (last_turns ending ≡ 1) × Verdict persona s ending
    unfolding terminal_from_prospect walked_ending committed_ending
    terminal-Verdict persona s said ending honest h = elim (Bool-cases said.walked) [
      | inl y ↦
          let e : terminal_from_prospect said ≡ some walked_ending = rw y refl in
          judged_by e (refl, walks)
      | inr n ↦ elim (Option-cases said.committed_tier) [
        | inl m ↦
            let e : terminal_from_prospect said ≡ none = rw (n, m) refl in
            absurd (ground (arith, sym e ∙ h))
        | inr (t, p) ↦
            let e : terminal_from_prospect said ≡ some (committed_ending t) = rw (n, p) refl in
            let won = honest t p in judged_by e (refl, commits t won.0 won.1)
      ]
    ]
      where
        judged_by :
            {e : Ending}
            → terminal_from_prospect said ≡ some e
            → (last_turns e ≡ 1) × Verdict persona s e
            → (last_turns ending ≡ 1) × Verdict persona s ending
        judged_by p r =
            subst (λ x. (last_turns x ≡ 1) × Verdict persona s x) (some_injective (sym p ∙ h)) r

    module _ ⦃cues : Cues⦄ ⦃pt : Patterns⦄ (setup : Setup F) where
      agent_side-Fine :
          (d0 d : Dialogue F) (text : String) (terminal : Option Ending)
          → Counts 1 d0 d
          → ((ending : Ending)
              → terminal ≡ some ending
              → (last_turns ending ≡ 1) × Verdict setup.persona d.prospect ending)
          → Fine setup d0 (agent_side setup d text terminal)
      unfolding agent_side
      agent_side-Fine d0 d text (some ending) counts judged =
          let (one, verdict) = judged ending refl in
          (subst (λ n. Counts n d0 d) (sym one) counts, verdict)
      agent_side-Fine d0 d text none counts judged = after_agent-Fine setup d0 d _ counts

      after_prospect-Fine :
          (d : Dialogue F) (r : Option (ProspectTurn F × ProspectState F))
          → react setup.persona d.prospect d.last_agent_act d.last_agent_tier
              (setup.world.answer d.turn_count)
            ≡ r
          → Fine setup d (after_prospect setup d r)
      unfolding after_prospect log_prospect
      after_prospect-Fine d none e = tt
      after_prospect-Fine d (some (said, s)) e =
          let answer = setup.world.answer d.turn_count in
          let kept =
            react-budget setup.persona d.prospect d.last_agent_act d.last_agent_tier answer said s
              e in
          let text = setup.world.garble d.turn_count said.text in
          agent_side-Fine d (log_prospect d s text) text (terminal_from_prospect said)
            (log_prospect-Counts d s text kept)
            (λ ending h.
              terminal-Verdict setup.persona s said ending
                (λ t c.
                  let won =
                    react-commits setup.persona d.prospect d.last_agent_act d.last_agent_tier answer
                      said s t e c in
                  (won.2, won.3))
                h)

      pub round-Fine : (d : Dialogue F) → Fine setup d (round setup d)
      unfolding round
      round-Fine d = after_prospect-Fine d _ refl

      -- what the loop makes of a dialogue
      abbrev Good : Dialogue F → Run F → Type 0
      Good d failed = Unit
      Good d unfinished = Unit
      Good d (finished ep) =
          Verdict setup.persona ep.prospect ep.ending
          × (ep.prospect.budget ≡ d.prospect.budget)
          × (length ep.turns + 2 * d.turn_count + 2
              ≡ length d.turns + 2 * ep.turn_count + last_turns ep.ending)

      Good-later : (d e : Dialogue F) (run : Run F) → Counts 2 d e → Good e run → Good d run
      Good-later d e failed counts good = tt
      Good-later d e unfinished counts good = tt
      Good-later d e (finished ep) counts good =
          (good.0, good.1 ∙ counts.0, omega (arith, counts.1, counts.2, good.2))

      -- one pass of the loop, by how its round ends
      pub rounds-round :
          (fuel : ℕ) (d : Dialogue F) (r : Round F)
          → round setup d ≡ r
          → rounds setup (suc fuel) d ≡ elim r [
            | raised ↦ failed
            | ended ending e ↦ finished (build_episode setup ending e)
            | goes_on e ↦ rounds setup fuel e
          ]
      unfolding rounds
      rounds-round fuel d r p =
          ap
            (λ x. elim x [
              | raised ↦ failed
              | ended ending e ↦ finished (build_episode setup ending e)
              | goes_on e ↦ rounds setup fuel e
            ])
            p

      by_round :
          (fuel : ℕ) (d : Dialogue F)
          → ((e : Dialogue F) → Good e (rounds setup fuel e))
          → (r : Round F) → round setup d ≡ r
          → Good d (rounds setup (suc fuel) d)
      unfolding build_episode
      by_round fuel d later raised p = subst (Good d) (sym (rounds-round fuel d _ p)) tt
      by_round fuel d later (ended ending e) p =
          let (counts, verdict) = subst (Fine setup d) p (round-Fine d) in
          subst (Good d) (sym (rounds-round fuel d _ p))
            (verdict, counts.0, omega (arith, counts.1, counts.2))
      by_round fuel d later (goes_on e) p =
          let fine = subst (Fine setup d) p (round-Fine d) in
          subst (Good d) (sym (rounds-round fuel d _ p))
            (Good-later d e (rounds setup fuel e) fine.0 (later e))

      rounds-Good : (fuel : ℕ) (d : Dialogue F) → Good d (rounds setup fuel d)
      unfolding rounds
      rounds-Good zero d = tt
      rounds-Good (suc fuel) d = by_round fuel d (λ e. rounds-Good fuel e) (round setup d) refl

      -- An episode that finishes is walked away from, escalated, released or committed, with the label,
      -- the rung and the flags of that end; a commitment is within the persona's ceiling, and every
      -- threshold of its tier is met by the prospect's last levels and by the budget that the persona
      -- began with; and every round but the last has logged one turn of each side.
      pub run_episode-Verdict :
          (ep : Episode F)
          → run_episode setup ≡ finished ep
          → Verdict setup.persona ep.prospect ep.ending
            × (ep.prospect.budget ≡ (initial setup.persona).budget)
            × (length ep.turns + 1 ≡ 2 * ep.turn_count + last_turns ep.ending)
      unfolding run_episode opening
      run_episode-Verdict ep h =
          let good =
            subst (Good (opening setup)) h (rounds-Good (suc setup.max_turns) (opening setup)) in
          (good.0, good.1, omega (arith, good.2))
