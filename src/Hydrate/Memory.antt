-- ===== src/Hydrate/Memory.antt =====
-- The slots of a lead as a dictionary, under the merge of src/memory/store.py.
use autonomous_sales_agent.Prelude.{
  String, Bool, true, not, ◌&&◌, ◌||◌, ◌≡◌, refl, ◌∙◌, ap, subst, none, some, List, [], ◌∷◌, ◌==◌,
  eq_iff, arith, member, is_some, Bool-cases, Option-cases, inl, inr,
}
use autonomous_sales_agent.Dict.{lookup, insert, keys, lookup-insert}
use autonomous_sales_agent.Leads.{merge_slots}
use autonomous_sales_agent.Leads.Merge.{distinct}

-- dictionaries with each key once
module _ {V : Type 0} where
  abbrev pub is_dict : List (String × V) → Bool
  is_dict dict = distinct (keys dict)

  pub member-lookup :
      (name : String) (dict : List (String × V))
      → member name (keys dict) ≡ is_some (lookup name dict)
  unfolding lookup
  member-lookup name [] = refl
  member-lookup name ((key, value) ∷ dict) =
      ground (arith, member-lookup name dict, eq_iff name key, eq_iff key name)

  member-insert :
      (name key : String) (value : V) (dict : List (String × V))
      → member name (keys (insert key value dict)) ≡ (name == key) || member name (keys dict)
  unfolding insert
  member-insert name key value [] = refl
  member-insert name key value ((other, old) ∷ dict) = elim (Bool-cases (other == key)) [
    | inl y ↦ rw (y, (eq_iff other key).0 y) (ground arith)
    | inr n ↦ rw n (ground (arith, member-insert name key value dict))
  ]

  insert-is_dict :
      (key : String) (value : V) (dict : List (String × V))
      → is_dict dict ≡ true
      → is_dict (insert key value dict) ≡ true
  unfolding insert
  insert-is_dict key value [] h = refl
  insert-is_dict key value ((other, old) ∷ dict) h = elim (Bool-cases (other == key)) [
    | inl y ↦
        rw y (
          subst (λ k. not (member k (keys dict)) && is_dict dict ≡ true) ((eq_iff other key).0 y) h)
    | inr n ↦
        rw n
          (ground (arith, insert-is_dict key value dict, member-insert other key value dict, n, h))
  ]

  -- the first key of a dictionary is in no later entry
  pub first_only :
      (name : String) (value : V) (dict : List (String × V))
      → is_dict ((name, value) ∷ dict) ≡ true
      → (slot : String) → name == slot ≡ true
      → lookup slot dict ≡ none
  first_only name value dict h slot y = elim (Option-cases (lookup slot dict)) [
    | inl n ↦ n
    | inr (v, p) ↦ absurd (
        ground (
          arith,
          h,
          member-lookup slot dict,
          p,
          ap (λ k. member k (keys dict)) ((eq_iff name slot).0 y),
        ))
  ]

pub merge_slots-is_dict :
    (stored new : List (String × String))
    → is_dict stored ≡ true
    → is_dict (merge_slots stored new) ≡ true
unfolding merge_slots
merge_slots-is_dict stored [] h = h
merge_slots-is_dict stored ((name, value) ∷ rest) h =
    merge_slots-is_dict (insert name value stored) rest (insert-is_dict name value stored h)

-- what the new slots do not name stays
merge_slots-others :
    (slot : String) (stored new : List (String × String))
    → lookup slot new ≡ none
    → lookup slot (merge_slots stored new) ≡ lookup slot stored
unfolding merge_slots lookup
merge_slots-others slot stored [] e = refl
merge_slots-others slot stored ((name, value) ∷ rest) e = elim (Bool-cases (name == slot)) [
  | inl y ↦ absurd (ground (arith, rw y at e))
  | inr n ↦
      merge_slots-others slot (insert name value stored) rest (rw n at e)
      ∙ lookup-insert name slot value stored
      ∙ rw n refl
]

-- a new value wins over a stored one
pub lookup-merge_slots :
    (slot value : String) (stored new : List (String × String))
    → is_dict new ≡ true
    → lookup slot new ≡ some value
    → lookup slot (merge_slots stored new) ≡ some value
unfolding merge_slots lookup
lookup-merge_slots slot value stored [] h e = absurd (ground (arith, e))
lookup-merge_slots slot value stored ((name, v) ∷ rest) h e = elim (Bool-cases (name == slot)) [
  | inl y ↦
      merge_slots-others slot (insert name v stored) rest (first_only name v rest h slot y)
      ∙ lookup-insert name slot v stored
      ∙ rw y (rw y at e)
  | inr n ↦
      lookup-merge_slots slot value (insert name v stored) rest (ground (arith, h)) (rw n at e)
]
