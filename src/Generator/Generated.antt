-- ===== src/Generator/Generated.antt =====
-- What `generate_challengers` of src/loop/generator.py returns.
use autonomous_sales_agent.Prelude.{
  ℕ, zero, suc, ◌+◌, ◌-◌, ◌*◌, ◌≤◌, String, Bool, true, false, not, ◌≡◌, refl, subst, Option, none,
  some, List, [], ◌∷◌, if◌then◌else◌, length, arith, leb, even, All, Bool-cases, inl, inr,
}
use autonomous_sales_agent.Float.{Floating}
use autonomous_sales_agent.Config.{AgentConfig}
use autonomous_sales_agent.Knowledge.{Texts}
use autonomous_sales_agent.SelfPlay.{Episode}
use autonomous_sales_agent.Generator.{
  is_minimal_diff, Challenger, Random, Built, raised, nothing, built, build_candidate, is_kept,
  and_rest, take_or_skip, after_attempt, attempts, generate_challengers, cluster_losses,
  winning_episodes,
}
use autonomous_sales_agent.Generator.Candidates.{PricingNumbers, IsCalm, build_candidate-IsCalm}

-- how many challengers may follow, where `out` of `n` are out
abbrev pub room : ℕ → ℕ → ℕ
room n out = if leb n (out + 1) then 1 else n - out

module _ {F : Type 0} ⦃fl : Floating F⦄ where
  -- a challenger of one dimension that needs no approval
  abbrev pub IsContained : AgentConfig F → Challenger F → Type 0
  IsContained champion ch = (is_minimal_diff champion ch.config ≡ true) × (ch.is_extreme ≡ false)

  -- where a list is returned, it has contained challengers only, and no more than there is room for
  abbrev IsGood : AgentConfig F → ℕ → ℕ → Option (List (Challenger F)) → Type 0
  IsGood champion n out none = Unit
  IsGood champion n out (some l) = All (IsContained champion) l × (length l ≤ room n out)

  and_rest-IsGood :
      (champion : AgentConfig F) (n out : ℕ) (rest : Option (List (Challenger F)))
      (ch : Challenger F)
      → leb n (out + 1) ≡ false
      → IsContained champion ch
      → IsGood champion n (out + 1) rest
      → IsGood champion n out (and_rest rest ch)
  and_rest-IsGood champion n out none ch e c h = tt
  and_rest-IsGood champion n out (some l) ch e c h = ((c, h.0), ground arith)

  take_or_skip-IsGood :
      (again : List String → ℕ → Option (List (Challenger F))) (champion : AgentConfig F) (n : ℕ)
      (seen : List String) (out : ℕ) (ch : Challenger F) (kept : Bool)
      → ((s : List String) (o : ℕ) → IsGood champion n o (again s o))
      → (kept ≡ true → IsContained champion ch)
      → IsGood champion n out (take_or_skip again n seen out ch kept)
  take_or_skip-IsGood again champion n seen out ch false h c = h seen out
  take_or_skip-IsGood again champion n seen out ch true h c = elim (Bool-cases (leb n (out + 1))) [
    | inl e ↦ rw e ((c refl, tt), rw e (omega arith))
    | inr e ↦ rw e (
        and_rest-IsGood champion n out (again (ch.challenger_version ∷ seen) (out + 1)) ch e
          (c refl) (h (ch.challenger_version ∷ seen) (out + 1)))
  ]

  module _ ⦃texts : Texts⦄ ⦃rand : Random⦄ (champion : AgentConfig F)
      (numbers : PricingNumbers champion) where
    after_attempt-IsGood :
        (again : List String → ℕ → Option (List (Challenger F))) (n : ℕ) (seen : List String)
        (out : ℕ) (b : Built F)
        → ((s : List String) (o : ℕ) → IsGood champion n o (again s o))
        → IsCalm b
        → IsGood champion n out (after_attempt again champion n seen out b)
    after_attempt-IsGood again n seen out raised h c = tt
    after_attempt-IsGood again n seen out nothing h c = h seen out
    after_attempt-IsGood again n seen out (built ch) h c =
        take_or_skip-IsGood again champion n seen out ch (is_kept champion seen ch) h
          (λ e. (ground arith, c))

    attempts-IsGood :
        (prefer : Bool) (seed n left attempt : ℕ) (seen : List String) (out : ℕ)
        → IsGood champion n out (attempts champion prefer seed n left attempt seen out)
    unfolding attempts
    attempts-IsGood prefer seed n zero attempt seen out = (tt, omega arith)
    attempts-IsGood prefer seed n (suc left) attempt seen out =
        let first = if even attempt then prefer else not prefer in
        after_attempt-IsGood (λ s o. attempts champion prefer seed n left (attempt + 1) s o) n seen
          out (build_candidate champion first (seed + attempt))
          (λ s o. attempts-IsGood prefer seed n left (attempt + 1) s o)
          (build_candidate-IsCalm champion numbers first (seed + attempt))

    -- The challengers that are generated against a champion whose pricing thresholds are numbers each
    -- change one dimension, and none asks for approval; there are at most `n` of them, or one where `n` is 0.
    pub generate_challengers-IsContained :
        (episodes : List (Episode F)) (seed n : ℕ) (out : List (Challenger F))
        → generate_challengers champion episodes seed n ≡ some out
        → All (IsContained champion) out × (length out ≤ (if leb n 1 then 1 else n))
    unfolding generate_challengers
    generate_challengers-IsContained episodes seed n out e =
        let prefer = leb (length (winning_episodes episodes)) (length (cluster_losses episodes)) in
        let good = attempts-IsGood prefer seed n (if leb 4 (n * 4) then n * 4 else 4) 0 [] 0 in
        let at_end = subst (IsGood champion n 0) e good in (at_end.0, ground arith)
