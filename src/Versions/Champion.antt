-- ===== src/Versions/Champion.antt =====
-- What `record_version` of src/memory/store.py does to the champions of the table.
use autonomous_sales_agent.Prelude.{
  String, Bool, true, false, not, ◌&&◌, Option, none, some, [], ◌∷◌, ◌==◌, eq_iff, if◌then◌else◌,
  ◌≡◌, arith,
}
use autonomous_sales_agent.Dict.{lookup, insert, lookup-insert}
use autonomous_sales_agent.Versions.{VersionLineage, Lineage, demote_others, record_version}

module _ {K : Type 0} where
  champion_row : Option (VersionLineage K) → Bool
  champion_row none = false
  champion_row (some row) = row.is_champion

  -- whether the table has `v` as a champion
  unfoldable pub is_champion_in : Lineage K → String → Bool
  unfolding lookup champion_row
  is_champion_in rows v = champion_row (lookup v rows)

  -- At most one version is a champion.
  abbrev pub SingleChampion : Lineage K → Type 0
  SingleChampion rows =
      (v w : String) → is_champion_in rows v ≡ true → is_champion_in rows w ≡ true → v ≡ w

  demote-champion :
      (v w : String) (rows : Lineage K)
      → is_champion_in (demote_others v rows) w ≡ (w == v) && is_champion_in rows w
  unfolding is_champion_in champion_row lookup demote_others
  demote-champion v w [] = ground arith
  demote-champion v w ((u, row) ∷ rows) =
      ground (arith, eq_iff u v, eq_iff u w, eq_iff w v, demote-champion v w rows)

  insert-champion :
      (node : VersionLineage K) (rows : Lineage K) (w : String)
      → is_champion_in (insert node.version node rows) w
        ≡ (if node.version == w then node.is_champion else is_champion_in rows w)
  unfolding is_champion_in champion_row
  insert-champion node rows w = rw (lookup-insert node.version w node rows) (ground arith)

  -- After a champion is recorded, it is the only champion. After another node is recorded, the
  -- champions are those of before, without that node.
  pub record_version-champion :
      (node : VersionLineage K) (rows : Lineage K) (w : String)
      → is_champion_in (record_version node rows) w ≡ (
          if node.is_champion
          then node.version == w
          else not (node.version == w) && is_champion_in rows w)
  unfolding record_version
  record_version-champion node rows w = ground (
    arith,
    insert-champion node rows w,
    insert-champion node (demote_others node.version rows) w,
    demote-champion node.version w rows,
    eq_iff node.version w,
    eq_iff w node.version,
  )

  -- Every write of the table keeps at most one champion in it.
  pub record_version-SingleChampion :
      (node : VersionLineage K) (rows : Lineage K)
      → SingleChampion rows
      → SingleChampion (record_version node rows)
  record_version-SingleChampion node rows single v w p q = ground (
    arith,
    record_version-champion node rows v,
    record_version-champion node rows w,
    eq_iff node.version v,
    eq_iff node.version w,
    single v w,
  )
