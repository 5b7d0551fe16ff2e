-- ===== src/Versions.antt =====
-- The version lineage of src/memory/store.py: the table `version_lineage`, keyed by version, and its
-- upsert, which is one transaction. The rows keep the columns that the loop writes.
pub mod Champion
use autonomous_sales_agent.Prelude.{
  String, Bool, true, false, Option, none, some, List, [], ◌∷◌, ◌==◌, if◌then◌else◌,
}
use autonomous_sales_agent.Dict.{insert}

pub record VersionLineage (K : Type 0) : Type 0 where
  pub version : String
  pub parent_version : Option String
  pub config_ref : Option String
  pub kb_version : String
  pub kpi : K
  pub is_champion : Bool

-- The table, by version.
abbrev pub Lineage : Type 0 → Type 0
Lineage K = List (String × VersionLineage K)

module _ {K : Type 0} where
  -- `UPDATE version_lineage SET is_champion = FALSE WHERE is_champion AND version <> $1`
  unfoldable pub demote_others : String → Lineage K → Lineage K
  demote_others v [] = []
  demote_others v ((w, row) ∷ rows) =
      let rest = demote_others v rows in
      if w == v then (w, row) ∷ rest else (w, record row { is_champion = false }) ∷ rest

  -- `record_version`
  unfoldable pub record_version : VersionLineage K → Lineage K → Lineage K
  unfolding demote_others insert
  record_version node rows =
      insert node.version node (if node.is_champion then demote_others node.version rows else rows)
