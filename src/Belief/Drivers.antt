-- ===== src/Belief/Drivers.antt =====
-- The six drivers of src/core/belief_state.py: their keys, their levels and their stored form.
use autonomous_sales_agent.Prelude.{
  String, true, false, Option, none, some, List, [], ◌∷◌, ◌≡◌, refl, ap, ◌∙◌, arith, is_some, All,
  if◌then◌else◌, ◌==◌, truthy, Bool-cases, Option-cases, inl, inr, map,
}
use autonomous_sales_agent.Float.{Floating, IsOrdered, IsNumber}
use autonomous_sales_agent.Dict.{lookup, insert, keys, keys-insert}
use autonomous_sales_agent.Belief.{
  BeliefState, BeliefSnapshot, driver_names, velocity_names, clamp01, apply_driver_delta,
  restore_drivers, update_all, from_snapshot, to_snapshot, fresh, empty_meta,
}
use autonomous_sales_agent.Tracker.Slots.{update_drivers}

-- 0 ≤ x ≤ 1, which a NaN is not
abbrev pub InUnit : {F : Type 0} ⦃fl : Floating F⦄ → F → Type 0
InUnit ⦃fl⦄ x = (fl.le (fl.milli 0) x ≡ true) × (fl.le x (fl.milli 1000) ≡ true)

-- Every level is in [0, 1].
abbrev pub Bounded : {F : Type 0} ⦃fl : Floating F⦄ → List (String × F) → Type 0
Bounded levels = All (λ (k, x). InUnit x) levels

module _ {F : Type 0} ⦃fl : Floating F⦄ (laws : IsOrdered F) where
  clamp01-InUnit : (x : F) → IsNumber x → InUnit (clamp01 x)
  unfolding clamp01
  clamp01-InUnit x n = ground (
    arith,
    laws.lt-eq-not-le x (fl.milli 0) n (laws.milli_number 0 (omega arith)),
    laws.lt-eq-not-le (fl.milli 1000) x (laws.milli_number 1000 (omega arith)) n,
    laws.zero-le-one,
    laws.milli_number 0 (omega arith),
    laws.milli_number 1000 (omega arith),
  )

  insert-Bounded :
      (k : String) (x : F) (levels : List (String × F))
      → InUnit x
      → Bounded levels
      → Bounded (insert k x levels)
  unfolding insert
  insert-Bounded k x [] u b = (u, tt)
  insert-Bounded k x ((j, y) ∷ levels) u (v, b) =
      elim (j == k)
        as (λ same. Bounded (if same then (k, x) ∷ levels else (j, y) ∷ insert k x levels)) [
          | true ↦ (u, b)
          | false ↦ (v, insert-Bounded k x levels u b)
        ]

-- Every delta that is added to a level leaves a number: the model sent no NaN, and no infinity
-- against an infinity.
abbrev pub Summable : {F : Type 0} ⦃fl : Floating F⦄ → List (String × Option F) → Type 0
Summable {F} ⦃fl⦄ deltas =
    All (λ (k, d). (x delta : F) → InUnit x → d ≡ some delta → IsNumber (fl.add x delta)) deltas

module _ {F : Type 0} ⦃fl : Floating F⦄ where
  lookup-Bounded :
      (k : String) (x : F) (levels : List (String × F))
      → Bounded levels
      → lookup k levels ≡ some x
      → InUnit x
  unfolding lookup
  lookup-Bounded k x [] b e = cc e
  lookup-Bounded k x ((j, y) ∷ levels) (u, b) e = elim (Bool-cases (j == k)) [
    | inl same ↦ ground arith
    | inr other ↦ lookup-Bounded k x levels b (ground arith)
  ]

  delta-absent :
      (b : BeliefState F) (d : String) (x : F)
      → lookup d b.drivers ≡ none
      → apply_driver_delta b d x ≡ b
  unfolding apply_driver_delta
  delta-absent b d x e = ground arith

  delta-drivers :
      (b : BeliefState F) (d : String) (x level : F)
      → lookup d b.drivers ≡ some level
      → (apply_driver_delta b d x).drivers ≡ insert d (clamp01 (fl.add level x)) b.drivers
  unfolding apply_driver_delta
  delta-drivers b d x level e = ground arith

  delta-keys :
      (b : BeliefState F) (d : String) (x : F)
      → keys (apply_driver_delta b d x).drivers ≡ keys b.drivers
  delta-keys b d x = elim (Option-cases (lookup d b.drivers)) [
    | inl e ↦ rw (delta-absent b d x e)
    | inr (level, e) ↦
        rw (delta-drivers b d x level e)
          (keys-insert d (clamp01 (fl.add level x)) b.drivers (ap is_some e))
  ]

  -- No reply of the model adds a driver, drops one or renames one.
  pub update_drivers-keys :
      (b : BeliefState F) (deltas : List (String × Option F))
      → keys (update_drivers b deltas).drivers ≡ keys b.drivers
  unfolding update_drivers
  update_drivers-keys b [] = refl
  update_drivers-keys b ((d, none) ∷ deltas) = update_drivers-keys b deltas
  update_drivers-keys b ((d, some x) ∷ deltas) =
      update_drivers-keys (apply_driver_delta b d x) deltas ∙ delta-keys b d x

  delta-Bounded :
      (laws : IsOrdered F) (b : BeliefState F) (d : String) (x : F)
      → ((level : F) → InUnit level → IsNumber (fl.add level x))
      → Bounded b.drivers
      → Bounded (apply_driver_delta b d x).drivers
  delta-Bounded laws b d x num bounded = elim (Option-cases (lookup d b.drivers)) [
    | inl e ↦ rw (delta-absent b d x e) bounded
    | inr (level, e) ↦
        let number = num level (lookup-Bounded d level b.drivers bounded e) in
        rw (delta-drivers b d x level e) (
          insert-Bounded laws d (clamp01 (fl.add level x)) b.drivers
            (clamp01-InUnit laws (fl.add level x) number) bounded)
  ]

  -- With floats compared as IEEE compares them, levels in [0, 1] stay there through every reply of
  -- the model whose deltas leave a number when they are added to a level in [0, 1].
  pub update_drivers-Bounded :
      (laws : IsOrdered F) (b : BeliefState F) (deltas : List (String × Option F))
      → Summable deltas
      → Bounded b.drivers
      → Bounded (update_drivers b deltas).drivers
  unfolding update_drivers
  update_drivers-Bounded laws b [] s bounded = bounded
  update_drivers-Bounded laws b ((d, none) ∷ deltas) (s, ss) bounded =
      update_drivers-Bounded laws b deltas ss bounded
  update_drivers-Bounded laws b ((d, some x) ∷ deltas) (s, ss) bounded =
      update_drivers-Bounded laws (apply_driver_delta b d x) deltas ss
        (delta-Bounded laws b d x (λ level u. s level x u refl) bounded)

  restore-keys :
      (drivers snap : List (String × F)) → keys (restore_drivers drivers snap) ≡ keys drivers
  unfolding restore_drivers
  restore-keys drivers [] = refl
  restore-keys drivers ((k, v) ∷ snap) = elim (Bool-cases (is_some (lookup k drivers))) [
    | inl e ↦ rw e (restore-keys (insert k v drivers) snap ∙ keys-insert k v drivers e)
    | inr e ↦ rw e (restore-keys drivers snap)
  ]

  -- Whatever a stored snapshot holds, a belief rebuilt from it has the six drivers in order, and its
  -- stage is not empty.
  pub from_snapshot-keys :
      (snap : BeliefSnapshot F)
      → (keys (from_snapshot snap).drivers ≡ driver_names)
        × (truthy (some (from_snapshot snap).stage) ≡ true)
  unfolding from_snapshot
  from_snapshot-keys snap = (
    restore-keys _ snap.drivers,
    elim (Bool-cases (truthy (some snap.stage))) [ inl e ↦ rw e e | inr e ↦ rw e refl ],
  )

  -- `{d: f(d) for d in names}`
  abbrev pub tabulate : (String → F) → List String → List (String × F)
  tabulate f names = map (λ d. (d, f d)) names

  -- A belief with the six drivers and the six velocities, in order, and a stage, that is stored and
  -- rebuilt is the belief that it was, but for the last user act, the open question, the number of turns
  -- and the meta dictionary, which are as in a new call.
  pub from_snapshot-to_snapshot :
      (b : BeliefState F) (f g : String → F)
      → b.drivers ≡ tabulate f driver_names
      → b.trends ≡ tabulate g velocity_names
      → truthy (some b.stage) ≡ true
      → from_snapshot (to_snapshot b)
        ≡ record b { last_user_act = none; open_question = none; turn_count = 0; meta = empty_meta }
  unfolding to_snapshot from_snapshot restore_drivers update_all insert lookup fresh
  from_snapshot-to_snapshot b f g p q r = rw (p, q, r) refl
