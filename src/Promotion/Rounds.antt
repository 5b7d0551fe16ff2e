-- ===== src/Promotion/Rounds.antt =====
-- Rounds of improvement in src/loop/promotion.py, one after the other on the lineage table of
-- src/memory/store.py.
use autonomous_sales_agent.Prelude.{
  ◌≤◌, String, Bool, true, false, not, Option, none, some, List, [], ◌∷◌, ◌≡◌, refl, ◌⊎◌, inl, inr,
  arith, eq_iff, Bool-cases,
}
use autonomous_sales_agent.Float.{Floating}
use autonomous_sales_agent.Generator.{Challenger}
use autonomous_sales_agent.Versions.{Lineage}
use autonomous_sales_agent.Versions.Champion.{is_champion_in}
use autonomous_sales_agent.Promotion.{
  ExperimentResult, Kpi, evaluate_promotion, judge, passed, diverges, guardrails_regressed, qual_ok,
  run_improvement_round,
}
use autonomous_sales_agent.Promotion.Bar.{run_improvement_round-champion}

-- what a round starts from: the challenger with its experiment, the measured divergence, whether promotions
-- are persisted, and whether the configuration could be saved
pub record ImprovementRound (F : Type 0) : Type 0 where
  pub challenger : Option (Challenger F × ExperimentResult F)
  pub divergence : Option F
  pub persist : Bool
  pub saved : Bool

module _ {F : Type 0} ⦃fl : Floating F⦄ where
  -- the table after the rounds
  unfoldable pub after_rounds : Lineage (Kpi F) → List (ImprovementRound F) → Lineage (Kpi F)
  after_rounds rows [] = rows
  after_rounds rows (r ∷ rounds) =
      after_rounds (run_improvement_round r.challenger r.divergence r.persist r.saved rows).1 rounds

  -- not above 0.2, where it was measured
  abbrev pub is_near : Option F → Bool
  is_near none = true
  is_near (some x) = not (fl.lt (fl.milli 200) x)

  -- what a promotion takes: a significant lift, no more pressure and no more turns with a false promise than
  -- the champion's, a qualification accuracy of at most 0.02 less, a change that is not extreme, and a
  -- divergence from the voice channel that is near
  pub record ClearsBar (ch : Challenger F) (e : ExperimentResult F) (divergence : Option F)
      : Type 0 where
    pub lifts : e.comparison.challenger_better ≡ true
    pub no_pushier :
        fl.lt e.champion_guardrails.pushiness_rate e.challenger_guardrails.pushiness_rate ≡ false
    pub no_falser :
        e.challenger_guardrails.false_promise_flags ≤ e.champion_guardrails.false_promise_flags
    pub qualifies : fl.le (fl.sub e.champion_qual_acc (fl.milli 20)) e.challenger_qual_acc ≡ true
    pub contained : ch.is_extreme ≡ false
    pub converges : is_near divergence ≡ true

  -- the version is the challenger's of a round that is persisted, and the challenger clears the bar
  abbrev pub IsPromotedBy : String → ImprovementRound F → Type 0
  IsPromotedBy w r = elim r.challenger [
    | none ↦ ⊥
    | some (ch, e) ↦ (ch.challenger_version ≡ w) × (r.persist ≡ true) × ClearsBar ch e r.divergence
  ]

  -- one of the rounds promotes the version
  abbrev pub IsPromoted : String → List (ImprovementRound F) → Type 0
  IsPromoted w [] = ⊥
  IsPromoted w (r ∷ rounds) = IsPromotedBy w r ⊎ IsPromoted w rounds

  evaluate_promotion-ClearsBar :
      (ch : Challenger F) (e : ExperimentResult F) (divergence : Option F)
      → (evaluate_promotion e ch.is_extreme divergence).promote ≡ true
      → ClearsBar ch e divergence
  unfolding evaluate_promotion judge passed diverges guardrails_regressed qual_ok
  evaluate_promotion-ClearsBar ch e none h = record {
    lifts = ground arith;
    no_pushier = ground arith;
    no_falser = ground arith;
    qualifies = ground arith;
    contained = ground arith;
    converges = refl;
  }
  evaluate_promotion-ClearsBar ch e (some d) h = record {
    lifts = ground arith;
    no_pushier = ground arith;
    no_falser = ground arith;
    qualifies = ground arith;
    contained = ground arith;
    converges = ground arith;
  }

  -- one round
  round-IsPromotedBy :
      (r : ImprovementRound F) (found : Option (Challenger F × ExperimentResult F))
      (rows : Lineage (Kpi F)) (w : String)
      → r.challenger ≡ found
      → is_champion_in rows w ≡ false
      → is_champion_in (run_improvement_round found r.divergence r.persist r.saved rows).1 w ≡ true
      → IsPromotedBy w (record r { challenger = found })
  unfolding run_improvement_round
  round-IsPromotedBy r none rows w p out now = cc (out, now)
  round-IsPromotedBy r (some (ch, e)) rows w p out now =
      let same = run_improvement_round-champion ch e r.divergence r.persist r.saved rows w in
      let promoted : (evaluate_promotion e ch.is_extreme r.divergence).promote ≡ true =
        ground arith in
      (
        (eq_iff ch.challenger_version w).0 (ground arith),
        ground arith,
        evaluate_promotion-ClearsBar ch e r.divergence promoted,
      )

  -- A version that is a champion after any rounds and was not before them is the challenger of one of the
  -- rounds, which is persisted, and that challenger clears the bar.
  pub after_rounds-IsPromoted :
      (rounds : List (ImprovementRound F)) (rows : Lineage (Kpi F)) (w : String)
      → is_champion_in rows w ≡ false
      → is_champion_in (after_rounds rows rounds) w ≡ true
      → IsPromoted w rounds
  unfolding after_rounds
  after_rounds-IsPromoted [] rows w out now = cc (out, now)
  after_rounds-IsPromoted (r ∷ rounds) rows w out now =
      let next = (run_improvement_round r.challenger r.divergence r.persist r.saved rows).1 in
      elim (Bool-cases (is_champion_in next w)) [
        | inl new ↦ inl (round-IsPromotedBy r r.challenger rows w refl out new)
        | inr old ↦ inr (after_rounds-IsPromoted rounds next w old now)
      ]
