-- ===== src/Tracker/Update/Books.antt =====
-- What one call of `update` (src/core/dst.py) does to the running books of the call.
use autonomous_sales_agent.Prelude.{
  ◌+◌, String, ◌≡◌, refl, Bool, ◌||◌, Option, none, some, List, [], ◌∷◌, arith, if◌then◌else◌, ◌∙◌,
  ap, subst,
}
use autonomous_sales_agent.Float.{Floating}
use autonomous_sales_agent.Belief.{BeliefState, Meta, set_slot, apply_driver_delta}
use autonomous_sales_agent.Tracker.Cues.{Cues}
use autonomous_sales_agent.Tracker.Intent.{Intent, normalize_punct}
use autonomous_sales_agent.Tracker.Slots.{
  Extracted, extract_slots, merge_slot, merge_existing, update_drivers, derive_trends,
}
use autonomous_sales_agent.Tracker.Update.{
  Turn, Reply, update, intent_of, read_turn, keep_books, move_drivers, count_refusal,
  flag_hostility, track_learner, flag_disclosure, track_decline, decline_pending, flag_contact,
  flag_callback, asked_grade,
}

module _ {F : Type 0} ⦃fl : Floating F⦄ where
  merge-meta : (b : BeliefState F) (k v : String) (c : F) → (merge_slot b k v c).meta ≡ b.meta
  unfolding merge_slot merge_existing set_slot
  merge-meta b k v c = ground arith

  extract_slots-meta :
      (b : BeliefState F) (found : Extracted F) → (extract_slots b found).meta ≡ b.meta
  unfolding extract_slots
  extract_slots-meta b [] = refl
  extract_slots-meta b ((k, v, c) ∷ found) =
      extract_slots-meta (merge_slot b k v c) found ∙ merge-meta b k v c

  delta-meta : (b : BeliefState F) (d : String) (x : F) → (apply_driver_delta b d x).meta ≡ b.meta
  unfolding apply_driver_delta
  delta-meta b d x = ground arith

  update_drivers-meta :
      (b : BeliefState F) (ds : List (String × Option F)) → (update_drivers b ds).meta ≡ b.meta
  unfolding update_drivers
  update_drivers-meta b [] = refl
  update_drivers-meta b ((d, none) ∷ ds) = update_drivers-meta b ds
  update_drivers-meta b ((d, some x) ∷ ds) =
      update_drivers-meta (apply_driver_delta b d x) ds ∙ delta-meta b d x

  move_drivers-meta :
      (prior b : BeliefState F) (r : Option (Reply F)) → (move_drivers prior b r).meta ≡ b.meta
  unfolding move_drivers derive_trends
  move_drivers-meta prior b none = refl
  move_drivers-meta prior b (some r) = update_drivers-meta b r.deltas

  pub read_turn-meta :
      ⦃cues : Cues⦄ (prior : BeliefState F) (t : Turn F) (i : Intent)
      → (read_turn prior t i).meta ≡ prior.meta
  unfolding read_turn
  read_turn-meta prior t i =
      let found = t.extracted (asked_grade prior t.last_agent_act) in
      move_drivers-meta prior (extract_slots prior found) t.reply ∙ extract_slots-meta prior found

-- What a turn leaves of the books, whatever else it writes.
abbrev pub Kept : {F : Type 0} → Meta F → Meta F → Type 0
Kept m n =
    (n.affordability_refusals ≡ m.affordability_refusals)
    × (n.asked_slots ≡ m.asked_slots)
    × (n.pending_ask_slot ≡ m.pending_ask_slot)
    × (n.recent_acts ≡ m.recent_acts)
    × (n.progress_snapshot ≡ m.progress_snapshot)
    × (n.loop_break_fired ≡ m.loop_break_fired)
    × (n.loop_terminal_fired ≡ m.loop_terminal_fired)

-- What the steps after the hostility flag leave, too.
abbrev Steady : {F : Type 0} → BeliefState F → BeliefState F → Type 0
Steady b e =
    Kept b.meta e.meta
    × (e.meta.affordability_refusal_count ≡ b.meta.affordability_refusal_count)
    × (e.meta.hostility ≡ b.meta.hostility)
    × (e.turn_count ≡ b.turn_count)

Steady-trans : {F : Type 0} (b d e : BeliefState F) → Steady b d → Steady d e → Steady b e
Steady-trans b d e x y = ground arith

module _ {F : Type 0} ⦃fl : Floating F⦄ ⦃cues : Cues⦄ (norm : String) where
  learner-Steady : (b : BeliefState F) → Steady b (track_learner norm b)
  unfolding track_learner
  learner-Steady b = ground arith

  disclosure-Steady : (b : BeliefState F) (r : Bool) → Steady b (flag_disclosure norm r b)
  unfolding flag_disclosure
  disclosure-Steady b r = ground arith

  decline-Steady :
      (b prior : BeliefState F) (act : Option String) → Steady b (track_decline norm act prior b)
  unfolding track_decline decline_pending
  decline-Steady b prior act = ground arith

  contact-Steady : (b : BeliefState F) → Steady b (flag_contact norm b)
  unfolding flag_contact
  contact-Steady b = ground arith

  callback-Steady : (b prior : BeliefState F) → Steady b (flag_callback prior b)
  unfolding flag_callback
  callback-Steady b prior = ground arith

  hostility-step :
      (b : BeliefState F)
      → Kept b.meta (flag_hostility norm b).meta
        × ((flag_hostility norm b).meta.hostility ≡ b.meta.hostility || cues.hostility norm)
        × ((flag_hostility norm b).meta.affordability_refusal_count
            ≡ b.meta.affordability_refusal_count)
        × ((flag_hostility norm b).turn_count ≡ b.turn_count)
  unfolding flag_hostility
  hostility-step b = ground arith

-- What the bookkeeping of a turn makes of the books.
abbrev Booked : {F : Type 0} → Bool → Bool → BeliefState F → BeliefState F → BeliefState F → Type 0
Booked refused hostile prior b e =
    Kept b.meta e.meta
    × (e.meta.affordability_refusal_count ≡ (
        if refused
        then prior.meta.affordability_refusal_count + 1
        else prior.meta.affordability_refusal_count))
    × (e.meta.hostility ≡ b.meta.hostility || hostile)
    × (e.turn_count ≡ b.turn_count)

module _ {F : Type 0} ⦃fl : Floating F⦄ ⦃cues : Cues⦄ where
  counted-Booked :
      (prior b : BeliefState F) (refused : Bool) (norm : String)
      → Booked refused
          (cues.hostility norm)
          prior
          b
          (flag_hostility norm (count_refusal prior b refused))
  unfolding count_refusal
  counted-Booked prior b refused norm =
      ground (arith, hostility-step norm (count_refusal prior b refused))

  Steady-Booked :
      (refused hostile : Bool) (prior b d e : BeliefState F)
      → Booked refused hostile prior b d
      → Steady d e
      → Booked refused hostile prior b e
  Steady-Booked refused hostile prior b d e x y = ground arith

  keep_books-Booked :
      (prior b : BeliefState F) (t : Turn F) (refused : Bool)
      → Booked refused
          (cues.hostility (normalize_punct t.utterance))
          prior
          b
          (keep_books prior t refused b)
  unfolding keep_books
  keep_books-Booked prior b t refused =
      let norm = normalize_punct t.utterance in
      let b2 = flag_hostility norm (count_refusal prior b refused) in
      let b3 = track_learner norm b2 in
      let b4 = flag_disclosure norm refused b3 in
      let b5 = track_decline norm t.last_agent_act prior b4 in
      let b6 = flag_contact norm b5 in
      let b7 = flag_callback prior b6 in
      Steady-Booked refused (cues.hostility norm) prior b b2 b7
        (counted-Booked prior b refused norm)
        (Steady-trans b2 b3 b7 (learner-Steady norm b2) (
          Steady-trans b3 b4 b7 (disclosure-Steady norm b3 refused) (
            Steady-trans b4 b5 b7 (decline-Steady norm b4 prior t.last_agent_act)
              (Steady-trans b5 b6 b7 (contact-Steady norm b5) (callback-Steady norm b6 prior)))))

  turn-Booked :
      (prior : BeliefState F) (t : Turn F)
      → let i = intent_of t.utterance t.reply in
        Booked i.affordability_refusal
          (cues.hostility (normalize_punct t.utterance))
          prior
          (read_turn prior t i)
          (update prior t)
  unfolding update
  turn-Booked prior t =
      let i = intent_of t.utterance t.reply in
      keep_books-Booked prior (read_turn prior t i) t i.affordability_refusal

  turns :
      (prior : BeliefState F) (t : Turn F) (i : Intent)
      → (read_turn prior t i).turn_count ≡ prior.turn_count + 1
  unfolding read_turn
  turns prior t i = refl

  -- The count of affordability refusals goes up by one on a turn whose intent is a refusal, and
  -- stays on any other; the turn count goes up by one.
  pub update-refusal_count :
      (prior : BeliefState F) (t : Turn F)
      → ((update prior t).meta.affordability_refusal_count ≡ (
          if (intent_of t.utterance t.reply).affordability_refusal
          then prior.meta.affordability_refusal_count + 1
          else prior.meta.affordability_refusal_count))
        × ((update prior t).turn_count ≡ prior.turn_count + 1)
  update-refusal_count prior t =
      let booked = turn-Booked prior t in
      (booked.1, booked.3 ∙ turns prior t (intent_of t.utterance t.reply))

  -- A call is hostile after a turn exactly if it was hostile before it or the utterance is hostile.
  pub update-hostility :
      (prior : BeliefState F) (t : Turn F)
      → (update prior t).meta.hostility
        ≡ prior.meta.hostility || cues.hostility (normalize_punct t.utterance)
  update-hostility prior t =
      (turn-Booked prior t).2
      ∙ ap (λ (m : Meta F). m.hostility || cues.hostility (normalize_punct t.utterance))
          (read_turn-meta prior t (intent_of t.utterance t.reply))

  -- The tracker leaves the books that `respond` keeps as they were: the asked slots, the pending
  -- question, the recent acts, the progress snapshot and the two latches of the loop breaker. It
  -- also leaves the counter `affordability_refusals`, which the price gate reads.
  pub update-Kept : (prior : BeliefState F) (t : Turn F) → Kept prior.meta (update prior t).meta
  update-Kept prior t =
      subst (λ (m : Meta F). Kept m (update prior t).meta)
        (read_turn-meta prior t (intent_of t.utterance t.reply)) (turn-Booked prior t).0
