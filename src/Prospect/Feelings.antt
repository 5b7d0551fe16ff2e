-- ===== src/Prospect/Feelings.antt =====
-- src/sim/prospect.py: what moves a prospect's feelings, and the buy gate that reads them.
use autonomous_sales_agent.Prelude.{
  ℕ, String, Bool, false, not, ◌&&◌, ◌||◌, Option, none, some, List, [], ◌∷◌, all, if◌then◌else◌,
  says, or_else, leb,
}
use autonomous_sales_agent.Float.{Floating}
use autonomous_sales_agent.Dict.{lookup}
use autonomous_sales_agent.Decision.{Tier}
use autonomous_sales_agent.Belief.{clamp01}
use autonomous_sales_agent.Prospect.State.{
  Persona, ProspectState, Measure, parse_soft, tier_thresholds, tier_rank, ceiling_rank, feeling,
  set_feeling, measure,
}

module _ {F : Type 0} ⦃fl : Floating F⦄ where
  -- `_clamp_delta`: from -0.2 to 0.14
  unfoldable pub clamp_delta : F → F
  clamp_delta d =
      let low = fl.sub (fl.milli 0) (fl.milli 200) in
      if fl.lt d low then low else if fl.lt (fl.milli 140) d then fl.milli 140 else d

  unfoldable pub utility_of : Persona F → String → ℕ → F
  unfolding clamp01
  utility_of persona key default = clamp01 (or_else (lookup key persona.utility) (fl.milli default))

  -- `ProspectState.initial`
  unfoldable pub initial : Persona F → ProspectState F
  initial persona = record {
    trust = utility_of persona "trust" 500;
    need = utility_of persona "need" 500;
    urgency = utility_of persona "urgency" 500;
    purchase_intent = fl.milli 100;
    patience = utility_of persona "patience" 500;
    budget = utility_of persona "budget" 0;
    turns_elapsed = 0;
    walked = false;
    committed_tier = none;
    objections_raised = [];
    disqualifier_exchanges = 0;
  }

  -- `_meets`
  unfoldable pub meets : ProspectState F → List (Measure × ℕ) → Bool
  unfolding measure
  meets s thresholds = all (λ t. not (fl.lt (measure t.0 s) (fl.milli t.1))) thresholds

  -- an offer within the persona's hard ceiling
  unfoldable pub within_ceiling : Persona F → Tier → Bool
  unfolding ceiling_rank
  within_ceiling persona tier = elim (ceiling_rank persona.max_commitment) [
    | none ↦ false
    | some ceiling ↦ leb (tier_rank tier) ceiling
  ]

  unfoldable pub buy_gate : ProspectState F → Persona F → Option Tier → Option Tier
  buy_gate s persona none = none
  buy_gate s persona (some tier) =
      if not (within_ceiling persona tier)
      then none
      else if meets s (tier_thresholds tier)
      then some tier
      else none

  -- one entry of `deltas`
  unfoldable pub apply_delta : ProspectState F → String × Option F → ProspectState F
  unfolding clamp01 clamp_delta parse_soft feeling set_feeling
  apply_delta s (key, raw) = elim (parse_soft key) [
    | none ↦ s
    | some driver ↦ elim raw [
      | none ↦ s
      | some d ↦ set_feeling driver (clamp01 (fl.add (feeling driver s) (clamp_delta d))) s
    ]
  ]

  unfoldable pub apply_deltas : ProspectState F → List (String × Option F) → ProspectState F
  unfolding apply_delta
  apply_deltas s [] = s
  apply_deltas s (d ∷ ds) = apply_deltas (apply_delta s d) ds

  -- `min(a, b)`
  abbrev min_f : F → F → F
  min_f a b = if fl.lt b a then b else a

  -- the conviction that pulls the purchase intent up, for a prospect with a budget
  unfoldable pub conviction_target : ProspectState F → F
  unfolding clamp01
  conviction_target s =
      let conviction = fl.div (fl.add s.trust s.need) (fl.milli 2000) in
      min_f (fl.milli 400) (clamp01 (fl.div (fl.sub conviction (fl.milli 450)) (fl.milli 500)))

  unfoldable pub couple_conviction : ProspectState F → ProspectState F
  unfolding conviction_target clamp01
  couple_conviction s =
      let target = conviction_target s in
      if fl.le (fl.milli 200) s.budget && fl.lt s.purchase_intent target
      then record s {
        purchase_intent =
            clamp01
              (fl.add s.purchase_intent (min_f (fl.milli 140) (fl.sub target s.purchase_intent)));
      }
      else s

  -- `_apply_soft_deltas`
  unfoldable pub apply_soft_deltas :
      ProspectState F → Option (List (String × Option F)) → ProspectState F
  apply_soft_deltas s none = s
  apply_soft_deltas s (some deltas) = couple_conviction (apply_deltas s deltas)

  -- `_deplete_patience`
  unfoldable pub deplete_patience : ProspectState F → Option String → ProspectState F
  unfolding clamp01
  deplete_patience s agent_act =
      let pressed =
        (says agent_act "attempt_close" || says agent_act "pitch")
        && fl.lt s.trust (fl.milli 500) in
      let decay = if pressed then fl.add (fl.milli 30) (fl.milli 180) else fl.milli 30 in
      record s { patience = clamp01 (fl.sub s.patience decay) }
