-- ===== src/Prospect/Commits.antt =====
-- What a turn of the simulated prospect (src/sim/prospect.py) can commit to.
use autonomous_sales_agent.Prelude.{
  String, Bool, true, false, ◌≡◌, refl, sym, ◌∙◌, ap, Option, none, some, List, [], ◌∷◌, says,
  or_else, arith, inl, inr, Bool-cases, Option-cases, subst, ◌⊎◌, some_injective, is_some,
}
use autonomous_sales_agent.Float.{Floating}
use autonomous_sales_agent.Decision.{Tier, enrollment, trial, consultation, callback}
use autonomous_sales_agent.Knowledge.{Texts}
use autonomous_sales_agent.Prospect.{
  Persona, ProspectState, SimReply, SimAnswer, ProspectTurn, set_feeling, measure, meets,
  tier_thresholds, within_ceiling, buy_gate, apply_delta, apply_deltas, couple_conviction,
  apply_soft_deltas, deplete_patience, offered, walk_away, settle, hear, note_talk, converse,
  begin_turn, is_spent, react, reply_turn, raises, malformed, replied, is_raises,
}

offered-close :
    (act : Option String) (tier : Option Tier) (t : Tier)
    → offered act tier ≡ some t
    → (says act "attempt_close" ≡ true) × (or_else tier consultation ≡ t)
unfolding offered
offered-close act tier t h = ground (arith, h)

module _ {F : Type 0} ⦃fl : Floating F⦄ where
  apply_delta-budget :
      (s : ProspectState F) (d : String × Option F) → (apply_delta s d).budget ≡ s.budget
  unfolding apply_delta set_feeling
  apply_delta-budget s d = ground arith

  apply_deltas-budget :
      (s : ProspectState F) (ds : List (String × Option F)) → (apply_deltas s ds).budget ≡ s.budget
  unfolding apply_deltas
  apply_deltas-budget s [] = refl
  apply_deltas-budget s (d ∷ ds) = apply_deltas-budget (apply_delta s d) ds ∙ apply_delta-budget s d

  couple_conviction-budget : (s : ProspectState F) → (couple_conviction s).budget ≡ s.budget
  unfolding couple_conviction
  couple_conviction-budget s = ground arith

  buy_gate-honest :
      (s : ProspectState F) (persona : Persona F) (offer : Option Tier) (t : Tier)
      → buy_gate s persona offer ≡ some t
      → (offer ≡ some t) × (within_ceiling persona t ≡ true) × (meets s (tier_thresholds t) ≡ true)
  unfolding buy_gate
  buy_gate-honest s persona none t h = absurd (ground (arith, h))
  buy_gate-honest s persona (some o) t h = ground (arith, h)

  meets-committed :
      (s : ProspectState F) (t u : Tier)
      → meets (record s { committed_tier = some u }) (tier_thresholds t)
        ≡ meets s (tier_thresholds t)
  unfolding meets tier_thresholds measure
  meets-committed s enrollment u = refl
  meets-committed s trial u = refl
  meets-committed s consultation u = refl
  meets-committed s callback u = refl

  module _ ⦃texts : Texts⦄ where
    hear-budget :
        (s : ProspectState F) (reply : Option (SimReply F)) → (hear s reply).0.budget ≡ s.budget
    unfolding hear apply_soft_deltas
    hear-budget s none = refl
    hear-budget s (some reply) = elim (Option-cases reply.deltas) [
      | inl n ↦ rw n refl
      | inr (ds, p) ↦ rw p (couple_conviction-budget (apply_deltas s ds) ∙ apply_deltas-budget s ds)
    ]

    settle-budget :
        (s : ProspectState F) (utterance : String) (signaled : Bool) (verdict : Option Tier)
        → (settle s utterance signaled verdict).1.budget ≡ s.budget
    unfolding settle
    settle-budget s utterance signaled none = refl
    settle-budget s utterance signaled (some t) = refl

    converse-budget :
        (persona : Persona F) (s : ProspectState F) (reply : Option (SimReply F))
        (offer : Option Tier)
        → (converse persona s reply offer).1.budget ≡ s.budget
    unfolding converse note_talk
    converse-budget persona s reply offer = settle-budget _ _ _ _ ∙ hear-budget s reply

    -- the state that the gate of a turn has judged
    settle-verdict :
        (persona : Persona F) (s : ProspectState F) (utterance : String) (signaled : Bool)
        (offer verdict : Option Tier) (t : Tier)
        → buy_gate s persona offer ≡ verdict
        → (settle s utterance signaled verdict).0.committed_tier ≡ some t
        → (offer ≡ some t)
          × (within_ceiling persona t ≡ true)
          × (meets (settle s utterance signaled verdict).1 (tier_thresholds t) ≡ true)
    unfolding settle
    settle-verdict persona s utterance signaled offer none t e h = absurd (ground (arith, h))
    settle-verdict persona s utterance signaled offer (some u) t e h =
        let honest = buy_gate-honest s persona offer t (e ∙ h) in
        (honest.0, honest.1, meets-committed s t u ∙ honest.2)

    reply_turn-cases :
        (persona : Persona F) (s : ProspectState F) (offer : Option Tier) (answer : SimAnswer F)
        → (reply_turn persona s offer answer ≡ none)
          ⊎ ((reply : Option (SimReply F)) × (reply_turn persona s offer answer
                ≡ some (converse persona s reply offer)))
    unfolding reply_turn
    reply_turn-cases persona s offer raises = inl refl
    reply_turn-cases persona s offer malformed = inr (none, refl)
    reply_turn-cases persona s offer (replied reply) = inr (some reply, refl)

    -- what a turn can come to
    react-cases :
        (persona : Persona F) (s : ProspectState F) (act : Option String) (tier : Option Tier)
        (answer : SimAnswer F)
        → let r = react persona s act tier answer in
          (r ≡ none)
          ⊎ ((r ≡ some (walk_away (begin_turn s act)))
              ⊎ ((reply : Option (SimReply F)) × (r
                    ≡ some (converse persona (begin_turn s act) reply (offered act tier)))))
    unfolding react
    react-cases persona s act tier answer = elim (Bool-cases (is_spent (begin_turn s act))) [
      | inl y ↦ rw y (inr (inl refl))
      | inr n ↦ rw n (elim (reply_turn-cases persona (begin_turn s act) (offered act tier) answer) [
        | inl p ↦ inl p
        | inr p ↦ inr (inr p)
      ])
    ]

    reply_turn-is_some :
        (persona : Persona F) (s : ProspectState F) (offer : Option Tier) (answer : SimAnswer F)
        → is_raises answer ≡ false
        → is_some (reply_turn persona s offer answer) ≡ true
    unfolding reply_turn
    reply_turn-is_some persona s offer raises h = absurd (ground (arith, h))
    reply_turn-is_some persona s offer malformed h = refl
    reply_turn-is_some persona s offer (replied reply) h = refl

    pub react-is_some :
        (persona : Persona F) (s : ProspectState F) (act : Option String) (tier : Option Tier)
        (answer : SimAnswer F)
        → is_raises answer ≡ false
        → is_some (react persona s act tier answer) ≡ true
    unfolding react
    react-is_some persona s act tier answer h = elim (Bool-cases (is_spent (begin_turn s act))) [
      | inl y ↦ rw y refl
      | inr n ↦ rw n (reply_turn-is_some persona (begin_turn s act) (offered act tier) answer h)
    ]

    begin_turn-budget :
        (s : ProspectState F) (act : Option String) → (begin_turn s act).budget ≡ s.budget
    unfolding begin_turn deplete_patience
    begin_turn-budget s act = refl

    module _ (persona : Persona F) (s : ProspectState F) (act : Option String) (tier : Option Tier)
        (answer : SimAnswer F) where
      -- Whatever the model replies, a turn of the prospect leaves the budget as it was.
      pub react-budget :
          (pt : ProspectTurn F) (e : ProspectState F)
          → react persona s act tier answer ≡ some (pt, e)
          → e.budget ≡ s.budget
      unfolding walk_away
      react-budget pt e h = elim (react-cases persona s act tier answer) [
        | inl p ↦ absurd (ground (arith, sym p ∙ h))
        | inr (inl p) ↦ ap (λ r. r.1.budget) (some_injective (sym h ∙ p)) ∙ begin_turn-budget s act
        | inr (inr (reply, p)) ↦
            ap (λ r. r.1.budget) (some_injective (sym h ∙ p))
            ∙ converse-budget persona (begin_turn s act) reply (offered act tier)
            ∙ begin_turn-budget s act
      ]

      -- Whatever the model replies, the prospect commits only to an attempt to close, to the tier that
      -- the attempt offers (a consultation where it names none), within the persona's ceiling, and with
      -- every threshold of that tier met by its own levels and budget.
      pub react-commits :
          (pt : ProspectTurn F) (e : ProspectState F) (t : Tier)
          → react persona s act tier answer ≡ some (pt, e)
          → pt.committed_tier ≡ some t
          → (says act "attempt_close" ≡ true)
            × (or_else tier consultation ≡ t)
            × (within_ceiling persona t ≡ true)
            × (meets e (tier_thresholds t) ≡ true)
      unfolding walk_away converse
      react-commits pt e t h c = elim (react-cases persona s act tier answer) [
        | inl p ↦ absurd (ground (arith, sym p ∙ h))
        | inr (inl p) ↦
            absurd (ground (arith, ap (λ r. r.0.committed_tier) (some_injective (sym h ∙ p)), c))
        | inr (inr (reply, p)) ↦
            let same = some_injective (sym h ∙ p) in
            let verdict =
              settle-verdict persona _ _ _ (offered act tier) _ t refl
                (ap (λ r. r.0.committed_tier) (sym same) ∙ c) in
            let close = offered-close act tier t verdict.0 in
            (
              close.0,
              close.1,
              verdict.1,
              subst (λ r. meets r.1 (tier_thresholds t) ≡ true) (sym same) verdict.2,
            )
      ]
