-- ===== src/Generator/Candidates.antt =====
-- That the candidates of src/loop/generator.py ask for no approval.
use autonomous_sales_agent.Prelude.{
  ℕ, zero, suc, ◌+◌, String, Bool, true, false, not, ◌≡◌, refl, ap, ◌∙◌, Option, none, some, List,
  [], ◌∷◌, ◌++◌, if◌then◌else◌, any, all, keep, length, arith, member, is_some, Bool-cases, inl,
  inr, ◌==◌, eq_iff, nat_eq, ltb, or_else,
}
use autonomous_sales_agent.Float.{Floating, float_eq}
use autonomous_sales_agent.Dict.{lookup, lookup-insert}
use autonomous_sales_agent.Config.{AgentConfig, Persona}
use autonomous_sales_agent.Knowledge.{Texts}
use autonomous_sales_agent.Generator.{
  Dimension, prompt, playbook, threshold, discovery_sequence, persona, is_extreme_dimension,
  pricing_threshold_keys, same_value, union_keys, diff_keys, same_texts, same_persona, label_if,
  declared_diff, mutate_threshold, reorder_discovery, of_one, build_challenger, Random, Built,
  raised, nothing, built, built_of, safe_numeric_keys, item, next_index, swap_items, reordered,
  reorder_candidate, perturbed, perturb_key, threshold_candidate, or_build, build_candidate,
}
use autonomous_sales_agent.Generator.Pricing.{any-append, any-map}

-- a test that no kept text passes
any-keep_none :
    (p q : String → Bool) (xs : List String)
    → ((x : String) → q x ≡ true → p x ≡ false)
    → any q (keep p xs) ≡ false
any-keep_none p q [] h = refl
any-keep_none p q (x ∷ xs) h = elim (Bool-cases (q x)) [
  | inl e ↦ ground (arith, h x e, any-keep_none p q xs h)
  | inr e ↦ ground (arith, any-keep_none p q xs h)
]

none_of :
    (xs ys : List Dimension)
    → any is_extreme_dimension xs ≡ false
    → any is_extreme_dimension ys ≡ false
    → any is_extreme_dimension (xs ++ ys) ≡ false
none_of xs ys h k = let split = any-append is_extreme_dimension xs ys in ground arith

module _ {ℓ} {V : Type ℓ} where
  diff_keys-none :
      (eq : V → V → Bool) (label : String → Dimension) (p : Dimension → Bool)
      (a b : List (String × V))
      → ((k : String) → p (label k) ≡ true → same_value eq (lookup k a) (lookup k b) ≡ true)
      → any p (diff_keys eq label a b) ≡ false
  unfolding diff_keys
  diff_keys-none eq label p a b h =
      let differs = λ (x : String). not (same_value eq (lookup x a) (lookup x b)) in
      any-map p label (keep differs (union_keys a b))
      ∙ any-keep_none differs (λ x. p (label x)) (union_keys a b) (λ x e. ap not (h x e))

same_texts_self : (xs : List String) → same_texts xs xs ≡ true
same_texts_self [] = refl
same_texts_self (x ∷ xs) = ground (arith, eq_iff x x, same_texts_self xs)

same_persona_self : (p : Persona) → same_persona p p ≡ true
same_persona_self p =
    ground (arith, eq_iff p.name p.name, eq_iff p.role p.role, eq_iff p.style p.style)

label_if-calm : (b : Bool) → any is_extreme_dimension (label_if b discovery_sequence) ≡ false
unfolding is_extreme_dimension
label_if-calm true = refl
label_if-calm false = refl

label_if-none :
    (b : Bool) (d : Dimension) → b ≡ true → any is_extreme_dimension (label_if (not b) d) ≡ false
label_if-none true d e = refl
label_if-none false d e = ground arith

-- a key that is listed is not one that is not
other_key :
    (key k : String) (listed : List String)
    → member key listed ≡ false
    → member k listed ≡ true
    → key == k ≡ false
other_key key k listed out m = elim (Bool-cases (key == k)) [
  | inl e ↦ cc (ap (λ (z : String). member z listed) ((eq_iff key k).0 e))
  | inr e ↦ e
]

-- what holds of a list's texts and of the empty one holds of its items
item-all :
    (q : String → Bool) (xs : List String) (i : ℕ)
    → all q xs ≡ true
    → q "" ≡ true
    → q (item xs i) ≡ true
item-all q [] i h e = e
item-all q (x ∷ xs) zero h e = ground arith
item-all q (x ∷ xs) (suc i) h e = item-all q xs i (ground arith) e

all-keep : (p q : String → Bool) (xs : List String) → all q xs ≡ true → all q (keep p xs) ≡ true
all-keep p q [] h = refl
all-keep p q (x ∷ xs) h = let ih = all-keep p q xs in ground arith

module _ {F : Type 0} ⦃fl : Floating F⦄ where
  -- the pricing thresholds, where they are set, are numbers
  abbrev pub PricingNumbers : AgentConfig F → Type 0
  PricingNumbers c =
      (key : String)
      → member key pricing_threshold_keys ≡ true
      → same_value float_eq (lookup key c.thresholds) (lookup key c.thresholds) ≡ true

  -- no extreme dimension differs, where the persona is the same, and the pricing thresholds are
  declared_diff-calm :
      (champion config : AgentConfig F)
      → same_persona champion.persona config.persona ≡ true
      → ((key : String)
          → member key pricing_threshold_keys ≡ true
          → same_value float_eq (lookup key champion.thresholds) (lookup key config.thresholds)
            ≡ true)
      → any is_extreme_dimension (declared_diff champion config) ≡ false
  unfolding declared_diff is_extreme_dimension
  declared_diff-calm champion config same prices =
      let p = is_extreme_dimension in
      let prompts = diff_keys (λ a b. a == b) prompt champion.prompts config.prompts in
      let order =
        label_if (not (same_value same_texts champion.discovery_sequence config.discovery_sequence))
          discovery_sequence in
      let books =
        diff_keys (λ a b. a == b) playbook champion.other_playbooks config.other_playbooks in
      let limits = diff_keys float_eq threshold champion.thresholds config.thresholds in
      let voice = label_if (not (same_persona champion.persona config.persona)) persona in
      let c1 =
        diff_keys-none (λ a b. a == b) prompt p champion.prompts config.prompts (λ k e. cc) in
      let c2 =
        label_if-calm
          (not (same_value same_texts champion.discovery_sequence config.discovery_sequence)) in
      let c3 =
        diff_keys-none (λ a b. a == b) playbook p champion.other_playbooks config.other_playbooks
          (λ k e. cc) in
      let c4 = diff_keys-none float_eq threshold p champion.thresholds config.thresholds prices in
      let c5 = label_if-none (same_persona champion.persona config.persona) persona same in
      none_of prompts (order ++ (books ++ (limits ++ voice))) c1 (
        none_of order (books ++ (limits ++ voice)) c2
          (none_of books (limits ++ voice) c3 (none_of limits voice c4 c5)))

  reorder-calm :
      (champion : AgentConfig F) (s : List String)
      → PricingNumbers champion
      → any is_extreme_dimension (declared_diff champion (reorder_discovery champion s)) ≡ false
  unfolding reorder_discovery
  reorder-calm champion s n =
      declared_diff-calm champion (reorder_discovery champion s)
        (same_persona_self champion.persona) n

  mutate-calm :
      (champion : AgentConfig F) (key : String) (x : F)
      → member key pricing_threshold_keys ≡ false
      → PricingNumbers champion
      → any is_extreme_dimension (declared_diff champion (mutate_threshold champion key x)) ≡ false
  unfolding mutate_threshold
  mutate-calm champion key x out n =
      declared_diff-calm champion (mutate_threshold champion key x)
        (same_persona_self champion.persona)
        (λ k m.
          rw
            (
              lookup-insert key k x champion.thresholds,
              other_key key k pricing_threshold_keys out m,
            )
            (n k m))

module _ {F : Type 0} where
  -- a builder that has built a challenger has one that needs no approval
  abbrev pub IsCalm : Built F → Type 0
  IsCalm raised = Unit
  IsCalm nothing = Unit
  IsCalm (built ch) = ch.is_extreme ≡ false

module _ {F : Type 0} ⦃fl : Floating F⦄ ⦃texts : Texts⦄ where
  of_one-IsCalm :
      (champion config : AgentConfig F) (seed : String) (ds : List Dimension)
      → any is_extreme_dimension ds ≡ false
      → IsCalm (built_of (of_one champion config seed ds))
  of_one-IsCalm champion config seed [] h = tt
  of_one-IsCalm champion config seed (d ∷ []) h = ground arith
  of_one-IsCalm champion config seed (d ∷ d' ∷ ds) h = tt

  build_challenger-IsCalm :
      (champion config : AgentConfig F) (seed : String)
      → any is_extreme_dimension (declared_diff champion config) ≡ false
      → IsCalm (built_of (build_challenger champion config seed))
  unfolding build_challenger
  build_challenger-IsCalm champion config seed h =
      of_one-IsCalm champion config seed (declared_diff champion config) h

  if-IsCalm : (b : Bool) (x : Built F) → IsCalm x → IsCalm (if b then nothing else x)
  if-IsCalm true x h = tt
  if-IsCalm false x h = h

  pair-IsCalm :
      (b : Bool) (draws : ℕ) (x : Built F × ℕ)
      → IsCalm x.0
      → IsCalm (if b then (nothing, draws) else x).0
  pair-IsCalm true draws x h = tt
  pair-IsCalm false draws x h = h

module _ {F : Type 0} ⦃fl : Floating F⦄ ⦃texts : Texts⦄ ⦃rand : Random⦄ (champion : AgentConfig F)
    (numbers : PricingNumbers champion) where
  reorder_candidate-IsCalm : (draws seed : ℕ) → IsCalm (reorder_candidate champion draws seed).0
  unfolding reorder_candidate
  reorder_candidate-IsCalm draws seed =
      let seq = or_else champion.discovery_sequence [] in
      let i = rand.randrange seed draws (length seq) in
      let j = rand.randrange seed (draws + 1) (length seq) in
      let s = swap_items seq i (if nat_eq i j then next_index (length seq) j else j) in
      pair-IsCalm (ltb (length seq) 2) draws (reordered champion seq s seed, draws + 2)
        (if-IsCalm (same_texts s seq)
          (built_of (build_challenger champion (reorder_discovery champion s) (rand.show seed)))
          (build_challenger-IsCalm champion (reorder_discovery champion s) (rand.show seed)
            (reorder-calm champion s numbers)))

  perturb_key-IsCalm :
      (key : String) (current : Option F) (up : Bool) (seed : ℕ)
      → member key pricing_threshold_keys ≡ false
      → IsCalm (perturb_key champion key current up seed)
  perturb_key-IsCalm key none up seed h = tt
  perturb_key-IsCalm key (some current) up seed h =
      let x = perturbed key current up in
      if-IsCalm (float_eq x current)
        (built_of (build_challenger champion (mutate_threshold champion key x) (rand.show seed)))
        (build_challenger-IsCalm champion (mutate_threshold champion key x) (rand.show seed)
          (mutate-calm champion key x h numbers))

  threshold_candidate-IsCalm : (draws seed : ℕ) → IsCalm (threshold_candidate champion draws seed).0
  unfolding threshold_candidate
  threshold_candidate-IsCalm draws seed =
      let present = λ (k : String). is_some (lookup k champion.thresholds) in
      let safe = keep present safe_numeric_keys in
      let i = rand.choice seed draws (length safe) in
      let key = item safe i in
      let up = rand.coin seed (draws + 1) in
      let cheap = λ (k : String). not (member k pricing_threshold_keys) in
      let apart = item-all cheap safe i (all-keep present cheap safe_numeric_keys refl) refl in
      pair-IsCalm (nat_eq (length safe) 0) draws
        (perturb_key champion key (lookup key champion.thresholds) up seed, draws + 2)
        (perturb_key-IsCalm key (lookup key champion.thresholds) up seed (ground arith))

  or_build-IsCalm :
      (x : Built F × ℕ) (second : ℕ → Built F × ℕ)
      → IsCalm x.0
      → ((draws : ℕ) → IsCalm (second draws).0)
      → IsCalm (or_build x second)
  or_build-IsCalm (raised, d) second h k = tt
  or_build-IsCalm (nothing, d) second h k = k d
  or_build-IsCalm (built ch, d) second h k = h

  pub build_candidate-IsCalm :
      (first : Bool) (cseed : ℕ) → IsCalm (build_candidate champion first cseed)
  unfolding build_candidate
  build_candidate-IsCalm true cseed =
      or_build-IsCalm (reorder_candidate champion 0 cseed)
        (λ d. threshold_candidate champion d cseed) (reorder_candidate-IsCalm 0 cseed)
        (λ d. threshold_candidate-IsCalm d cseed)
  build_candidate-IsCalm false cseed =
      or_build-IsCalm (threshold_candidate champion 0 cseed)
        (λ d. reorder_candidate champion d cseed) (threshold_candidate-IsCalm 0 cseed)
        (λ d. reorder_candidate-IsCalm d cseed)
