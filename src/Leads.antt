-- ===== src/Leads.antt =====
-- The lead memory of src/memory/store.py: the table `lead`, keyed by the hash of a phone, and its
-- upsert, which is one transaction. The timestamps are left out.
pub mod Merge
use autonomous_sales_agent.Prelude.{
  String, Option, none, some, List, [], ◌∷◌, ◌++◌, if◌then◌else◌, is_some, member,
}
use autonomous_sales_agent.Dict.{lookup, insert}

-- A slot's value is its JSON text.
pub record Lead : Type 0 where
  pub slots : List (String × String)
  pub prior_objections : List String
  pub last_outcome : Option String
  pub assigned_voice : Option String
  pub persona_read : Option String

-- the loop of `_union_keep_order`, from the items kept so far
unfoldable pub keep_new : List String → List String → List String
keep_new out [] = out
keep_new out (item ∷ items) = keep_new (if member item out then out else out ++ item ∷ []) items

-- `_union_keep_order`
unfoldable pub union_keep_order : List String → List String → List String
unfolding keep_new
union_keep_order a b = keep_new [] (a ++ b)

-- `{**(ex.get("slots") or {}), **(lead.slots or {})}`
unfoldable pub merge_slots :
    List (String × String) → List (String × String) → List (String × String)
unfolding insert
merge_slots stored [] = stored
merge_slots stored ((name, value) ∷ rest) = merge_slots (insert name value stored) rest

-- `COALESCE(new, old)`
abbrev coalesce : Option String → Option String → Option String
coalesce new old = if is_some new then new else old

-- the `UPDATE` branch
unfoldable pub merge_lead : Lead → Lead → Lead
unfolding merge_slots union_keep_order
merge_lead stored lead = record {
  slots = merge_slots stored.slots lead.slots;
  prior_objections = union_keep_order stored.prior_objections lead.prior_objections;
  last_outcome = coalesce lead.last_outcome stored.last_outcome;
  assigned_voice = coalesce lead.assigned_voice stored.assigned_voice;
  persona_read = coalesce lead.persona_read stored.persona_read;
}

-- `upsert_lead_by_phone`
unfoldable pub upsert_lead_by_phone : String → Lead → List (String × Lead) → List (String × Lead)
unfolding lookup insert merge_lead
upsert_lead_by_phone phone lead table = elim (lookup phone table) [
  | none ↦ insert phone lead table
  | some stored ↦ insert phone (merge_lead stored lead) table
]
