-- ===== src/Leads/Merge.antt =====
-- What an upsert of src/memory/store.py keeps of a caller's memory.
use autonomous_sales_agent.Prelude.{
  String, Bool, true, false, not, ◌&&◌, ◌||◌, none, some, List, [], ◌∷◌, ◌++◌, ◌≡◌, refl, ap, ◌∙◌,
  arith, if◌then◌else◌, member, ◌==◌, eq_iff, Bool-cases, inl, inr,
}
use autonomous_sales_agent.Dict.{lookup, insert, lookup-insert}
use autonomous_sales_agent.Leads.{
  Lead, keep_new, union_keep_order, merge_lead, upsert_lead_by_phone,
}

member-append :
    (x : String) (xs ys : List String) → member x (xs ++ ys) ≡ member x xs || member x ys
member-append x [] ys = refl
member-append x (y ∷ xs) ys = ground (arith, member-append x xs ys)

-- no item twice
abbrev pub distinct : List String → Bool
distinct [] = true
distinct (x ∷ xs) = not (member x xs) && distinct xs

member-end :
    (x item : String) (out : List String)
    → member x (if member item out then out else out ++ item ∷ []) ≡ member x out || (x == item)
member-end x item out = elim (Bool-cases (x == item)) [
  | inl e ↦
      ground (arith, member-append x out (item ∷ []), ap (λ s. member s out) ((eq_iff x item).0 e))
  | inr e ↦ ground (arith, member-append x out (item ∷ []))
]

member-keep_new :
    (x : String) (out items : List String)
    → member x (keep_new out items) ≡ member x out || member x items
unfolding keep_new
member-keep_new x out [] = ground arith
member-keep_new x out (item ∷ items) = ground (
  arith,
  member-keep_new x (if member item out then out else out ++ item ∷ []) items,
  member-end x item out,
)

distinct-end :
    (item : String) (out : List String)
    → member item out ≡ false
    → distinct out ≡ true
    → distinct (out ++ item ∷ []) ≡ true
distinct-end item [] m d = refl
distinct-end item (x ∷ out) m d =
    ground
      (arith, distinct-end item out, member-append x out (item ∷ []), eq_iff item x, eq_iff x item)

distinct-keep_new :
    (out items : List String) → distinct out ≡ true → distinct (keep_new out items) ≡ true
unfolding keep_new
distinct-keep_new out [] d = d
distinct-keep_new out (item ∷ items) d =
    distinct-keep_new (if member item out then out else out ++ item ∷ []) items
      (elim (Bool-cases (member item out)) [
        | inl e ↦ ground arith
        | inr e ↦ ground (arith, distinct-end item out e d)
      ])

-- The objections of a merged lead are those of the stored and of the new lead, each once.
pub merge_lead-objections :
    (stored lead : Lead) (objection : String)
    → (member objection (merge_lead stored lead).prior_objections
        ≡ member objection stored.prior_objections || member objection lead.prior_objections)
      × (distinct (merge_lead stored lead).prior_objections ≡ true)
unfolding merge_lead union_keep_order
merge_lead-objections stored lead objection = (
  member-keep_new objection [] (stored.prior_objections ++ lead.prior_objections)
      ∙ member-append objection stored.prior_objections lead.prior_objections,
  distinct-keep_new [] (stored.prior_objections ++ lead.prior_objections) refl,
)

-- An upsert leaves the leads of other phones as they were, and stores the new lead, or its merge
-- into the stored one.
pub upsert_lead_by_phone-lookup :
    (phone other : String) (lead : Lead) (table : List (String × Lead))
    → lookup other (upsert_lead_by_phone phone lead table) ≡ (
        if phone == other
        then some (elim (lookup phone table) [ none ↦ lead | some stored ↦ merge_lead stored lead ])
        else lookup other table)
unfolding upsert_lead_by_phone
upsert_lead_by_phone-lookup phone other lead table =
    elim (lookup phone table)
      as (λ o.
        lookup other (elim o as (λ _. List (String × Lead)) [
          | none ↦ insert phone lead table
          | some stored ↦ insert phone (merge_lead stored lead) table
        ])
        ≡ (if phone == other
            then some (elim o as (λ _. Lead) [ none ↦ lead | some stored ↦ merge_lead stored lead ])
            else lookup other table)) [
              | none ↦ lookup-insert phone other lead table
              | some stored ↦ lookup-insert phone other (merge_lead stored lead) table
            ]
