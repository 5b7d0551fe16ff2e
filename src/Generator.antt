-- ===== src/Generator.antt =====
-- src/loop/generator.py: the challengers that the improvement loop tries against a champion. The draws of
-- `random.Random` are a parameter.
pub mod Diff
pub mod Pricing
mod Candidates
pub mod Generated
use autonomous_sales_agent.Prelude.{
  ℕ, zero, suc, ◌+◌, ◌*◌, String, Bool, true, false, not, ◌&&◌, ◌||◌, Option, none, some, List, [],
  ◌∷◌, ◌++◌, if◌then◌else◌, keep, length, leb, ltb, nat_eq, member, or_else, is_some, ◌==◌, even,
}
use autonomous_sales_agent.Float.{Floating, float_eq}
use autonomous_sales_agent.Dict.{lookup}
use autonomous_sales_agent.Config.{AgentConfig}
use autonomous_sales_agent.Knowledge.{Texts}
use autonomous_sales_agent.SelfPlay.{Episode}
use autonomous_sales_agent.Tracker.Slots.{max_float}
unfoldable pub use Diff.*

-- The draws of `random.Random(seed)`, by the seed and the number of draws before.
pub record Random : Type 0 where
  -- `rng.randrange(n)`, and the index that `rng.choice` draws among n
  pub randrange : ℕ → ℕ → ℕ → ℕ
  pub choice : ℕ → ℕ → ℕ → ℕ
  -- `rng.random() < 0.5`
  pub coin : ℕ → ℕ → Bool
  -- the seed, as a version shows it
  pub show : ℕ → String

-- what a builder of candidates returns, or that it raises
pub data Built (F : Type 0) : Type 0 where
  raised nothing : Built F
  built : Challenger F → Built F

abbrev pub built_of : {F : Type 0} → Option (Challenger F) → Built F
built_of none = raised
built_of (some ch) = built ch

-- the list that is built; `none` where a builder raises
abbrev pub and_rest :
    {F : Type 0} → Option (List (Challenger F)) → Challenger F → Option (List (Challenger F))
and_rest none ch = none
and_rest (some out) ch = some (ch ∷ out)

-- `_SAFE_NUMERIC_KEYS`
abbrev pub safe_numeric_keys : List String
safe_numeric_keys =
    "pushiness_cap" ∷ "pushiness_pressure_count_cap" ∷ "discovery_slots_required"
    ∷ "low_confidence_level" ∷ []

-- `xs[i]`, of an index in range
abbrev pub item : List String → ℕ → String
item [] i = ""
item (x ∷ xs) zero = x
item (x ∷ xs) (suc i) = item xs i

-- `xs[i] = v`
abbrev pub set_item : List String → ℕ → String → List String
set_item [] i v = []
set_item (x ∷ xs) zero v = v ∷ xs
set_item (x ∷ xs) (suc i) v = x ∷ set_item xs i v

-- `xs[i], xs[j] = xs[j], xs[i]`
abbrev pub swap_items : List String → ℕ → ℕ → List String
swap_items xs i j = set_item (set_item xs i (item xs j)) j (item xs i)

-- `(j + 1) % n`, of an index below `n`
abbrev pub next_index : ℕ → ℕ → ℕ
next_index n j = if nat_eq (j + 1) n then 0 else j + 1

module _ {F : Type 0} where
  -- `_cluster_losses` and `_winning_episodes`
  unfoldable pub cluster_losses : List (Episode F) → List (Episode F)
  cluster_losses episodes =
      keep (λ ep. ep.ending.outcome == "walked" || ltb ep.ending.ladder_tier 2) episodes

  unfoldable pub winning_episodes : List (Episode F) → List (Episode F)
  winning_episodes episodes = keep (λ ep. leb 3 ep.ending.ladder_tier) episodes

module _ {F : Type 0} ⦃fl : Floating F⦄ where
  -- `min(a, b)` of floats
  abbrev pub min_float : F → F → F
  min_float a b = if fl.lt b a then b else a

  -- the new value of a threshold
  unfoldable pub perturbed : String → F → Bool → F
  perturbed key current up =
      if member key ("pushiness_pressure_count_cap" ∷ "discovery_slots_required" ∷ [])
      then max_float (fl.milli 1000)
          (if up then fl.add current (fl.milli 1000) else fl.sub current (fl.milli 1000))
      else fl.round3 (
          min_float (fl.milli 1000) (
            max_float (fl.milli 0)
              (if up then fl.add current (fl.milli 100) else fl.sub current (fl.milli 100))))

  -- a candidate that is kept: a new version, of one dimension
  abbrev pub is_kept : AgentConfig F → List String → Challenger F → Bool
  is_kept champion seen ch =
      not (member ch.challenger_version seen) && is_minimal_diff champion ch.config

  -- what an attempt does with a candidate that may be kept
  abbrev pub take_or_skip :
      (List String → ℕ → Option (List (Challenger F)))
      → ℕ
      → List String
      → ℕ
      → Challenger F
      → Bool
      → Option (List (Challenger F))
  take_or_skip again n seen out ch false = again seen out
  take_or_skip again n seen out ch true =
      if leb n (out + 1)
      then some (ch ∷ [])
      else and_rest (again (ch.challenger_version ∷ seen) (out + 1)) ch

  -- the rest of the attempts, `again`, after what the builders have built
  abbrev pub after_attempt :
      (List String → ℕ → Option (List (Challenger F)))
      → AgentConfig F
      → ℕ
      → List String
      → ℕ
      → Built F
      → Option (List (Challenger F))
  after_attempt again champion n seen out raised = none
  after_attempt again champion n seen out nothing = again seen out
  after_attempt again champion n seen out (built ch) =
      take_or_skip again n seen out ch (is_kept champion seen ch)

module _ {F : Type 0} ⦃fl : Floating F⦄ ⦃texts : Texts⦄ ⦃rand : Random⦄ where
  -- the candidate of a new sequence
  abbrev pub reordered : AgentConfig F → List String → List String → ℕ → Built F
  reordered champion seq new_seq seed =
      if same_texts new_seq seq
      then nothing
      else built_of
          (build_challenger champion (reorder_discovery champion new_seq) (rand.show seed))

  -- `_reorder_candidate`, with the number of draws after it
  unfoldable pub reorder_candidate : AgentConfig F → ℕ → ℕ → Built F × ℕ
  reorder_candidate champion draws seed =
      let seq = or_else champion.discovery_sequence [] in
      let i = rand.randrange seed draws (length seq) in
      let j = rand.randrange seed (draws + 1) (length seq) in
      let k = if nat_eq i j then next_index (length seq) j else j in
      if ltb (length seq) 2
      then (nothing, draws)
      else (reordered champion seq (swap_items seq i k) seed, draws + 2)

  -- the candidate of a new value
  abbrev pub perturbation : AgentConfig F → String → F → F → ℕ → Built F
  perturbation champion key current new_value seed =
      if float_eq new_value current
      then nothing
      else built_of
          (build_challenger champion (mutate_threshold champion key new_value) (rand.show seed))

  -- `_threshold_candidate`, from the chosen key on
  abbrev pub perturb_key : AgentConfig F → String → Option F → Bool → ℕ → Built F
  perturb_key champion key none up seed = nothing
  perturb_key champion key (some current) up seed =
      perturbation champion key current (perturbed key current up) seed

  unfoldable pub threshold_candidate : AgentConfig F → ℕ → ℕ → Built F × ℕ
  threshold_candidate champion draws seed =
      let safe = keep (λ k. is_some (lookup k champion.thresholds)) safe_numeric_keys in
      let key = item safe (rand.choice seed draws (length safe)) in
      let up = rand.coin seed (draws + 1) in
      if nat_eq (length safe) 0
      then (nothing, draws)
      else (perturb_key champion key (lookup key champion.thresholds) up seed, draws + 2)

  -- the second builder, where the first has nothing
  abbrev pub or_build : Built F × ℕ → (ℕ → Built F × ℕ) → Built F
  or_build (nothing, draws) second = (second draws).0
  or_build (raised, draws) second = raised
  or_build (built ch, draws) second = built ch

  -- the builders of one attempt, by whether the reordering comes first
  unfoldable pub build_candidate : AgentConfig F → Bool → ℕ → Built F
  build_candidate champion true cseed =
      or_build (reorder_candidate champion 0 cseed)
        (λ draws. threshold_candidate champion draws cseed)
  build_candidate champion false cseed =
      or_build (threshold_candidate champion 0 cseed)
        (λ draws. reorder_candidate champion draws cseed)

  -- The attempts left, the number of this one, the versions seen, and how many are out.
  unfoldable pub attempts :
      AgentConfig F → Bool → ℕ → ℕ → ℕ → ℕ → List String → ℕ → Option (List (Challenger F))
  attempts champion prefer_reorder seed n zero attempt seen out = some []
  attempts champion prefer_reorder seed n (suc left) attempt seen out =
      let first = if even attempt then prefer_reorder else not prefer_reorder in
      after_attempt
        (λ seen' out'. attempts champion prefer_reorder seed n left (attempt + 1) seen' out')
        champion n seen out (build_candidate champion first (seed + attempt))

  -- `generate_challengers`, without the unused seam for a model
  unfoldable pub generate_challengers :
      AgentConfig F → List (Episode F) → ℕ → ℕ → Option (List (Challenger F))
  generate_challengers champion episodes seed n =
      let prefer_reorder =
        leb (length (winning_episodes episodes)) (length (cluster_losses episodes)) in
      attempts champion prefer_reorder seed n (if leb 4 (n * 4) then n * 4 else 4) 0 [] 0
