-- ===== src/Generator/Diff.antt =====
-- src/loop/generator.py: the declared diff of two configurations, the changes that an operator may ask for,
-- and the challenger that wraps a changed configuration. A dimension's label is a constructor; the
-- description of a diff, a text for display, is left out.
use autonomous_sales_agent.Prelude.{
  String, Bool, true, false, not, ◌&&◌, Option, none, some, List, [], ◌∷◌, ◌++◌, map, if◌then◌else◌,
  any, keep, length, member, nat_eq, is_some, ◌==◌,
}
use autonomous_sales_agent.Float.{Floating, float_eq}
use autonomous_sales_agent.Dict.{lookup, insert, keys}
use autonomous_sales_agent.Config.{AgentConfig, Persona}
use autonomous_sales_agent.Knowledge.{Texts}

-- the labels `prompts.<key>`, `playbooks.<key>`, `thresholds.<key>` and `persona`, and the sentinel `multi`
pub data Dimension : Type 0 where
  prompt playbook threshold : String → Dimension
  discovery_sequence persona multi : Dimension

-- `_PRICING_THRESHOLD_KEYS`
abbrev pub pricing_threshold_keys : List String
pricing_threshold_keys = "max_concession_band" ∷ "trust_gate_open_price" ∷ []

-- `_is_extreme_dimension`
unfoldable pub is_extreme_dimension : Dimension → Bool
is_extreme_dimension persona = true
is_extreme_dimension (threshold key) = member key pricing_threshold_keys
is_extreme_dimension _ = false

module _ {ℓ} {V : Type ℓ} where
  -- `a == b` of the results of `get`
  abbrev pub same_value : (V → V → Bool) → Option V → Option V → Bool
  same_value eq none none = true
  same_value eq (some a) (some b) = eq a b
  same_value eq _ _ = false

  -- `set(champ_map) | set(chal_map)`
  abbrev pub union_keys : List (String × V) → List (String × V) → List String
  union_keys champ chal = keys champ ++ keep (λ k. not (member k (keys champ))) (keys chal)

  -- `_diff_keys`, of maps whose values are compared by `eq`
  unfoldable pub diff_keys :
      (V → V → Bool) → (String → Dimension) → List (String × V) → List (String × V) → List Dimension
  diff_keys eq label champ chal =
      map label
        (keep (λ k. not (same_value eq (lookup k champ) (lookup k chal))) (union_keys champ chal))

-- `==` of lists of texts
abbrev pub same_texts : List String → List String → Bool
same_texts [] [] = true
same_texts (a ∷ as_) (b ∷ bs) = a == b && same_texts as_ bs
same_texts _ _ = false

-- `==` of personas
abbrev pub same_persona : Persona → Persona → Bool
same_persona p q = p.name == q.name && p.role == q.role && p.style == q.style

abbrev pub label_if : Bool → Dimension → List Dimension
label_if true d = d ∷ []
label_if false d = []

module _ {F : Type 0} ⦃fl : Floating F⦄ where
  -- `declared_diff`, as a list of labels
  unfoldable pub declared_diff : AgentConfig F → AgentConfig F → List Dimension
  declared_diff champion challenger =
      diff_keys (λ a b. a == b) prompt champion.prompts challenger.prompts
      ++ (label_if
            (not (same_value same_texts champion.discovery_sequence challenger.discovery_sequence))
            discovery_sequence
          ++ (diff_keys (λ a b. a == b) playbook champion.other_playbooks challenger.other_playbooks
              ++ (diff_keys float_eq threshold champion.thresholds challenger.thresholds
                  ++ label_if (not (same_persona champion.persona challenger.persona)) persona)))

  unfoldable pub is_minimal_diff : AgentConfig F → AgentConfig F → Bool
  is_minimal_diff champion challenger = nat_eq (length (declared_diff champion challenger)) 1

  unfoldable pub mutate_threshold : AgentConfig F → String → F → AgentConfig F
  mutate_threshold c key new_value = record c { thresholds = insert key new_value c.thresholds }

  unfoldable pub reorder_discovery : AgentConfig F → List String → AgentConfig F
  reorder_discovery c new_sequence = record c { discovery_sequence = some new_sequence }

-- a dimension of a request, by what `apply_dimension_changes` reads in it
pub data Target : Type 0 where
  sequence : Target
  threshold_of : String → Target
  unsupported : Target

-- a value of a request: a list of texts, what `float` reads, or anything else
pub data Change (F : Type 0) : Type 0 where
  slots : List String → Change F
  number : F → Change F
  other : Change F

module _ {F : Type 0} ⦃fl : Floating F⦄ where
  -- one pass of the loop; `none` is a `ValueError`
  unfoldable pub apply_change : AgentConfig F → Target → Change F → Option (AgentConfig F)
  apply_change c sequence (slots s) = some (reorder_discovery c s)
  apply_change c (threshold_of key) (number x) =
      if is_some (lookup key c.thresholds) then some (mutate_threshold c key x) else none
  apply_change c _ _ = none

  -- the rest of the loop, where the pass has not raised
  abbrev pub and_then :
      Option (AgentConfig F) → (AgentConfig F → Option (AgentConfig F)) → Option (AgentConfig F)
  and_then none f = none
  and_then (some c) f = f c

  unfoldable pub apply_dimension_changes :
      AgentConfig F → List (Target × Change F) → Option (AgentConfig F)
  apply_dimension_changes c [] = some c
  apply_dimension_changes c ((target, change) ∷ changes) =
      and_then (apply_change c target change) (λ next. apply_dimension_changes next changes)

pub record Challenger (F : Type 0) : Type 0 where
  pub config : AgentConfig F
  pub dimension : Dimension
  pub parent_version : String
  pub challenger_version : String
  pub is_extreme : Bool

module _ ⦃texts : Texts⦄ where
  -- `dimension.replace(".", "_")`
  abbrev pub safe_dim : Dimension → String
  safe_dim (prompt key) = texts.concat ("prompts_" ∷ texts.replace key "." "_" ∷ [])
  safe_dim (playbook key) = texts.concat ("playbooks_" ∷ texts.replace key "." "_" ∷ [])
  safe_dim (threshold key) = texts.concat ("thresholds_" ∷ texts.replace key "." "_" ∷ [])
  safe_dim discovery_sequence = "playbooks_discovery_sequence"
  safe_dim persona = "persona"
  safe_dim multi = "multi"

  -- `_challenger_version`, of the seed as a text
  unfoldable pub challenger_version : String → Dimension → String → String
  challenger_version parent dimension seed =
      texts.concat (parent ∷ "__" ∷ safe_dim dimension ∷ "__" ∷ seed ∷ [])

  module _ {F : Type 0} ⦃fl : Floating F⦄ where
    -- the wrapped configuration, with its version
    abbrev pub wrapped : AgentConfig F → AgentConfig F → Dimension → Bool → String → Challenger F
    wrapped champion config dimension is_extreme seed = record {
      config = record config { version = challenger_version champion.version dimension seed };
      dimension = dimension;
      parent_version = champion.version;
      challenger_version = challenger_version champion.version dimension seed;
      is_extreme = is_extreme;
    }

    -- `_build_challenger`, from the diff
    abbrev pub of_one :
        AgentConfig F → AgentConfig F → String → List Dimension → Option (Challenger F)
    of_one champion config seed (d ∷ []) =
        some (wrapped champion config d (is_extreme_dimension d) seed)
    of_one champion config seed _ = none

    -- `build_challenger`; `none` is its `ValueError`
    unfoldable pub build_challenger : AgentConfig F → AgentConfig F → String → Option (Challenger F)
    build_challenger champion config seed =
        of_one champion config seed (declared_diff champion config)

    -- `build_multi_challenger`, from the diff
    abbrev pub of_many :
        AgentConfig F → AgentConfig F → String → List Dimension → Option (Challenger F)
    of_many champion config seed [] = none
    of_many champion config seed (d ∷ []) =
        some (wrapped champion config d (any is_extreme_dimension (d ∷ [])) seed)
    of_many champion config seed (d ∷ e ∷ ds) =
        some (wrapped champion config multi (any is_extreme_dimension (d ∷ e ∷ ds)) seed)

    unfoldable pub build_multi_challenger :
        AgentConfig F → AgentConfig F → String → Option (Challenger F)
    build_multi_challenger champion config seed =
        of_many champion config seed (declared_diff champion config)
