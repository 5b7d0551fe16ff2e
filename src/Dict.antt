-- ===== src/Dict.antt =====
-- Python's `dict` with text keys, as an association list: `get`, assignment, and the keys in order.
use autonomous_sales_agent.Prelude.{
  String, ◌≡◌, refl, true, Option, none, some, List, [], ◌∷◌, arith, ◌==◌, eq_iff, if◌then◌else◌,
  is_some,
}

module _ {ℓ} {V : Type ℓ} where
  unfoldable pub lookup : String → List (String × V) → Option V
  lookup key [] = none
  lookup key ((name, value) ∷ dict) = if name == key then some value else lookup key dict

  -- `d[k] = v`: a key keeps its place, and a new one goes to the end
  unfoldable pub insert : String → V → List (String × V) → List (String × V)
  insert key value [] = (key, value) ∷ []
  insert key value ((name, old) ∷ dict) =
      if name == key then (key, value) ∷ dict else (name, old) ∷ insert key value dict

  -- `d.pop(k, None)`
  unfoldable pub remove : String → List (String × V) → List (String × V)
  remove key [] = []
  remove key ((name, value) ∷ dict) =
      let rest = remove key dict in if name == key then rest else (name, value) ∷ rest

  abbrev pub keys : List (String × V) → List String
  keys [] = []
  keys ((key, value) ∷ dict) = key ∷ keys dict

  pub lookup-insert :
      (key name : String) (value : V) (dict : List (String × V))
      → lookup name (insert key value dict) ≡ (if key == name then some value else lookup name dict)
  unfolding lookup insert
  lookup-insert key name value [] = refl
  lookup-insert key name value ((other, old) ∷ dict) = ground (
    arith,
    eq_iff key name,
    eq_iff other key,
    eq_iff other name,
    lookup-insert key name value dict,
  )

  -- An assignment to a key that is there leaves the keys as they were.
  pub keys-insert :
      (key : String) (value : V) (dict : List (String × V))
      → is_some (lookup key dict) ≡ true
      → keys (insert key value dict) ≡ keys dict
  unfolding lookup insert
  keys-insert key value [] h = cc
  keys-insert key value ((other, old) ∷ dict) h =
      ground (arith, eq_iff other key, keys-insert key value dict)

  pub lookup-remove :
      (key name : String) (dict : List (String × V))
      → lookup name (remove key dict) ≡ (if key == name then none else lookup name dict)
  unfolding lookup remove
  lookup-remove key name [] = ground arith
  lookup-remove key name ((other, old) ∷ dict) =
      ground
        (arith, eq_iff key name, eq_iff other key, eq_iff other name, lookup-remove key name dict)
