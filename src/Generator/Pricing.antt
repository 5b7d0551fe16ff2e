-- ===== src/Generator/Pricing.antt =====
-- What a challenger of src/loop/generator.py leaves as it was, where no approval is asked for.
use autonomous_sales_agent.Prelude.{
  String, Bool, true, false, not, ◌||◌, ◌≡◌, refl, sym, ap, ◌∙◌, none, some, List, [], ◌∷◌, ◌++◌,
  map, any, keep, arith, member, Bool-cases, ◌⊎◌, inl, inr, ◌==◌, eq_iff,
}
use autonomous_sales_agent.Float.{Floating, float_eq}
use autonomous_sales_agent.Dict.{lookup, keys}
use autonomous_sales_agent.Config.{AgentConfig}
use autonomous_sales_agent.Knowledge.{Texts}
use autonomous_sales_agent.Generator.Diff.{
  Dimension, prompt, playbook, threshold, discovery_sequence, persona, is_extreme_dimension,
  pricing_threshold_keys, same_value, union_keys, diff_keys, same_texts, same_persona, label_if,
  declared_diff, Challenger, of_one, of_many, build_challenger, build_multi_challenger,
}

module _ {ℓ} {A : Type ℓ} where
  pub any-append : (p : A → Bool) (xs ys : List A) → any p (xs ++ ys) ≡ any p xs || any p ys
  any-append p [] ys = refl
  any-append p (x ∷ xs) ys = ground (arith, any-append p xs ys)

  pub any-tail : (p : A → Bool) (xs ys : List A) → any p (xs ++ ys) ≡ false → any p ys ≡ false
  any-tail p xs ys h = let split = any-append p xs ys in ground arith

  pub any-head : (p : A → Bool) (xs ys : List A) → any p (xs ++ ys) ≡ false → any p xs ≡ false
  any-head p xs ys h = let split = any-append p xs ys in ground arith

  pub any-map {κ} :
      {B : Type κ} (p : B → Bool) (f : A → B) (xs : List A)
      → any p (map f xs) ≡ any (λ x. p (f x)) xs
  any-map p f [] = refl
  any-map p f (x ∷ xs) = ap (λ b. p (f x) || b) (any-map p f xs)

member-append :
    (k : String) (xs ys : List String) → member k (xs ++ ys) ≡ member k xs || member k ys
member-append k [] ys = refl
member-append k (x ∷ xs) ys = ground (arith, member-append k xs ys)

-- a text that is kept by no test that `q` passes
any-keep :
    (p q : String → Bool) (k : String) (xs : List String)
    → any q (keep p xs) ≡ false
    → member k xs ≡ true
    → q k ≡ true
    → p k ≡ false
any-keep p q k [] h m e = ground arith
any-keep p q k (x ∷ xs) h m e = elim (Bool-cases (k == x)) [
  | inl same ↦ ground (arith, ap p ((eq_iff k x).0 same), ap q ((eq_iff k x).0 same))
  | inr other ↦ ground (arith, any-keep p q k xs)
]

member-keep :
    (p : String → Bool) (k : String) (xs : List String)
    → member k xs ≡ true
    → p k ≡ true
    → member k (keep p xs) ≡ true
member-keep p k [] m e = m
member-keep p k (x ∷ xs) m e = elim (Bool-cases (k == x)) [
  | inl same ↦ ground (arith, ap p ((eq_iff k x).0 same))
  | inr other ↦ ground (arith, member-keep p k xs)
]

module _ {ℓ} {V : Type ℓ} where
  lookup-not_member :
      (k : String) (d : List (String × V)) → member k (keys d) ≡ false → lookup k d ≡ none
  unfolding lookup
  lookup-not_member k [] h = refl
  lookup-not_member k ((name, v) ∷ d) h =
      ground (arith, eq_iff k name, eq_iff name k, lookup-not_member k d)

  -- a key of either map is among both
  member-union :
      (k : String) (a b : List (String × V))
      → member k (union_keys a b) ≡ false
      → (member k (keys a) ≡ false) × (member k (keys b) ≡ false)
  member-union k a b h =
      let split = member-append k (keys a) (keep (λ x. not (member x (keys a))) (keys b)) in
      let kept = member-keep (λ x. not (member x (keys a))) k (keys b) in
      (ground arith, ground arith)

  -- a key whose label a test passes, where the test passes no label of the diff
  diff_keys-same :
      (eq : V → V → Bool) (label : String → Dimension) (p : Dimension → Bool) (k : String)
      (a b : List (String × V))
      → any p (diff_keys eq label a b) ≡ false
      → p (label k) ≡ true
      → same_value eq (lookup k a) (lookup k b) ≡ true
  unfolding diff_keys
  diff_keys-same eq label p k a b h e =
      let differs = λ (x : String). not (same_value eq (lookup x a) (lookup x b)) in
      let none_p = sym (any-map p label (keep differs (union_keys a b))) ∙ h in
      elim (Bool-cases (member k (union_keys a b))) [
        | inl here ↦
            ground (arith, any-keep differs (λ x. p (label x)) k (union_keys a b) none_p here e)
        | inr gone ↦
            let out = member-union k a b gone in
            let la = lookup-not_member k a out.0 in
            let lb = lookup-not_member k b out.1 in rw (la, lb)
      ]

label_if-false :
    (p : Dimension → Bool) (d : Dimension) (b : Bool)
    → any p (label_if (not b) d) ≡ false
    → p d ≡ true
    → b ≡ true
label_if-false p d true h e = refl
label_if-false p d false h e = ground arith

module _ {F : Type 0} ⦃fl : Floating F⦄ where
  -- the pricing thresholds and the persona are those of the champion
  pub record SamePricing (champion config : AgentConfig F) : Type 0 where
    pub persona_kept : same_persona champion.persona config.persona ≡ true
    pub pricing_kept :
        (key : String)
        → member key pricing_threshold_keys ≡ true
        → same_value float_eq (lookup key champion.thresholds) (lookup key config.thresholds) ≡ true

  declared_diff-SamePricing :
      (champion config : AgentConfig F)
      → any is_extreme_dimension (declared_diff champion config) ≡ false
      → SamePricing champion config
  unfolding declared_diff is_extreme_dimension
  declared_diff-SamePricing champion config h =
      let prompts = diff_keys (λ a b. a == b) prompt champion.prompts config.prompts in
      let order =
        label_if (not (same_value same_texts champion.discovery_sequence config.discovery_sequence))
          discovery_sequence in
      let books =
        diff_keys (λ a b. a == b) playbook champion.other_playbooks config.other_playbooks in
      let limits = diff_keys float_eq threshold champion.thresholds config.thresholds in
      let voice = label_if (not (same_persona champion.persona config.persona)) persona in
      let p = is_extreme_dimension in
      let calm = any-tail p books (limits ++ voice) (
        any-tail p order (books ++ (limits ++ voice))
          (any-tail p prompts (order ++ (books ++ (limits ++ voice))) h)) in
      record {
        persona_kept =
            label_if-false p persona (same_persona champion.persona config.persona)
              (any-tail p limits voice calm) refl;
        pricing_kept = λ key m.
            diff_keys-same float_eq threshold p key champion.thresholds config.thresholds
              (any-head p limits voice calm) m;
      }

  module _ ⦃texts : Texts⦄ where
    of_one-calm :
        (champion config : AgentConfig F) (seed : String) (ch : Challenger F) (ds : List Dimension)
        → of_one champion config seed ds ≡ some ch
        → ch.is_extreme ≡ false
        → (any is_extreme_dimension ds ≡ false)
          × (ch.config.persona ≡ config.persona)
          × (ch.config.thresholds ≡ config.thresholds)
    of_one-calm champion config seed ch [] e h = (ground arith, ground arith, ground arith)
    of_one-calm champion config seed ch (d ∷ []) e h = (ground arith, ground arith, ground arith)
    of_one-calm champion config seed ch (d ∷ d' ∷ ds) e h =
        (ground arith, ground arith, ground arith)

    of_many-calm :
        (champion config : AgentConfig F) (seed : String) (ch : Challenger F) (ds : List Dimension)
        → of_many champion config seed ds ≡ some ch
        → ch.is_extreme ≡ false
        → (any is_extreme_dimension ds ≡ false)
          × (ch.config.persona ≡ config.persona)
          × (ch.config.thresholds ≡ config.thresholds)
    of_many-calm champion config seed ch [] e h = (ground arith, ground arith, ground arith)
    of_many-calm champion config seed ch (d ∷ []) e h = (ground arith, ground arith, ground arith)
    of_many-calm champion config seed ch (d ∷ d' ∷ ds) e h =
        (ground arith, ground arith, ground arith)

    -- the version that is stamped changes neither
    stamped-SamePricing :
        (champion config stamped : AgentConfig F)
        → (any is_extreme_dimension (declared_diff champion config) ≡ false)
          × (stamped.persona ≡ config.persona)
          × (stamped.thresholds ≡ config.thresholds)
        → SamePricing champion stamped
    stamped-SamePricing champion config stamped h =
        let same = declared_diff-SamePricing champion config h.0 in
        record {
          persona_kept = rw h.1 same.persona_kept;
          pricing_kept = λ key m. rw h.2 (same.pricing_kept key m);
        }

    -- A challenger that is built, of one dimension or of many, and that is not marked extreme, has the
    -- persona and the pricing thresholds of its champion.
    pub build_challenger-SamePricing :
        (champion config : AgentConfig F) (seed : String) (ch : Challenger F)
        → (build_challenger champion config seed ≡ some ch)
          ⊎ (build_multi_challenger champion config seed ≡ some ch)
        → ch.is_extreme ≡ false
        → SamePricing champion ch.config
    unfolding build_challenger build_multi_challenger
    build_challenger-SamePricing champion config seed ch (inl e) h =
        stamped-SamePricing champion config ch.config
          (of_one-calm champion config seed ch (declared_diff champion config) e h)
    build_challenger-SamePricing champion config seed ch (inr e) h =
        stamped-SamePricing champion config ch.config
          (of_many-calm champion config seed ch (declared_diff champion config) e h)
