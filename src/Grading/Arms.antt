-- ===== src/Grading/Arms.antt =====
-- What the report of an arm says of the turns of its episodes.
use autonomous_sales_agent.Prelude.{
  ℕ, ◌+◌, ◌≤◌, Bool, true, not, ◌&&◌, ◌==◌, ◌≡◌, refl, ap, ◌∙◌, some, List, [], ◌∷◌, ◌++◌, arith,
  length, keep, map, count,
}
use autonomous_sales_agent.Float.{Floating}
use autonomous_sales_agent.Session.{CapturedTurn}
use autonomous_sales_agent.SelfPlay.{Episode}
use autonomous_sales_agent.Knowledge.{Texts, Fact, grounded}
use autonomous_sales_agent.Promotion.{
  GuardrailReport, ExperimentResult, guardrails_regressed, passed,
}
use autonomous_sales_agent.Grading.{
  turn_asserts_fact, is_pushy, pushiness_violations, check_turns, episode_groundedness,
  guardrail_report, join_reports, join_all, worst_case, worst_case_guardrails,
}

module _ {F : Type 0} where
  -- an agent's turn
  abbrev pub by_agent : CapturedTurn F → Bool
  by_agent turn = turn.speaker == "agent"

  -- the turns of an arm
  abbrev pub turns_of : List (Episode F) → List (CapturedTurn F)
  turns_of [] = []
  turns_of (ep ∷ episodes) = ep.turns ++ turns_of episodes

  abbrev total : List (GuardrailReport F) → ℕ
  total [] = 0
  total (r ∷ reports) = r.false_promise_flags + total reports

module _ {ℓ} {A : Type ℓ} where
  count-append : (p : A → Bool) (xs ys : List A) → count p (xs ++ ys) ≡ count p xs + count p ys
  count-append p [] ys = omega arith
  count-append p (x ∷ xs) ys = let ih = count-append p xs ys in ground arith

module _ {F : Type 0} ⦃fl : Floating F⦄ where
  -- the agent's turns, and those of them that press a caller who is about to leave
  pushiness_violations_lem :
      (cap : F) (turns : List (CapturedTurn F))
      → pushiness_violations cap turns
        ≡ (map (λ t. t.turn_id) (keep (is_pushy cap) turns), count by_agent turns)
  unfolding pushiness_violations is_pushy
  pushiness_violations_lem cap [] = refl
  pushiness_violations_lem cap (t ∷ turns) =
      let ih = pushiness_violations_lem cap turns in ground arith

  join_all-flags :
      (r : GuardrailReport F) (reports : List (GuardrailReport F))
      → (join_all r reports).false_promise_flags ≡ r.false_promise_flags + total reports
  unfolding join_all join_reports
  join_all-flags r [] = omega arith
  join_all-flags r (s ∷ reports) =
      let ih = join_all-flags (join_reports r s) reports in ground arith

  worst_case-flags :
      (reports : List (GuardrailReport F))
      → (worst_case reports).false_promise_flags ≡ total reports
  unfolding worst_case
  worst_case-flags [] = refl
  worst_case-flags (r ∷ reports) = join_all-flags r reports

  module _ ⦃texts : Texts⦄ where
    -- a turn that asserts a fact, and that the facts do not back
    abbrev pub is_unbacked : List (Fact F) → CapturedTurn F → Bool
    is_unbacked kb turn = turn_asserts_fact turn && not (grounded turn.text kb).grounded

    check_turns-count :
        (kb : List (Fact F)) (turns : List (CapturedTurn F))
        → length (check_turns kb turns).0 ≡ count (is_unbacked kb) turns
    unfolding check_turns
    check_turns-count kb [] = refl
    check_turns-count kb (t ∷ turns) = let ih = check_turns-count kb turns in ground arith

    total-count :
        (kb : List (Fact F)) (episodes : List (Episode F))
        → total (map (guardrail_report (some kb)) episodes)
          ≡ count (is_unbacked kb) (turns_of episodes)
    unfolding guardrail_report episode_groundedness
    total-count kb [] = refl
    total-count kb (ep ∷ episodes) =
        let here = check_turns-count kb ep.turns in
        let ih = total-count kb episodes in
        let split = count-append (is_unbacked kb) ep.turns (turns_of episodes) in omega arith

    -- The flags of an arm count the turns of its episodes that assert a fact and are not backed.
    worst_case_guardrails-flags :
        (kb : List (Fact F)) (episodes : List (Episode F))
        → (worst_case_guardrails (some kb) episodes).false_promise_flags
          ≡ count (is_unbacked kb) (turns_of episodes)
    unfolding worst_case_guardrails
    worst_case_guardrails-flags kb episodes =
        worst_case-flags (map (guardrail_report (some kb)) episodes) ∙ total-count kb episodes

    -- Of the turns of a challenger that passes the gate, on the reports of the two arms over one knowledge
    -- base, at most as many assert a fact and are not backed as of the turns of the champion. Turns are
    -- counted, whatever the number of unbacked facts in one.
    pub passed-unbacked :
        (kb : List (Fact F)) (e : ExperimentResult F) (champions challengers : List (Episode F))
        → e.champion_guardrails ≡ worst_case_guardrails (some kb) champions
        → e.challenger_guardrails ≡ worst_case_guardrails (some kb) challengers
        → passed e ≡ true
        → count (is_unbacked kb) (turns_of challengers)
          ≤ count (is_unbacked kb) (turns_of champions)
    unfolding passed guardrails_regressed
    passed-unbacked kb e champions challengers p q h =
        let a = ap (λ r. r.false_promise_flags) p ∙ worst_case_guardrails-flags kb champions in
        let b = ap (λ r. r.false_promise_flags) q ∙ worst_case_guardrails-flags kb challengers in
        ground arith
