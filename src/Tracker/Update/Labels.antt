-- ===== src/Tracker/Update/Labels.antt =====
-- The labels of a turn, the caller's act and the active objection, that `update` of src/core/dst.py ends
-- with.
use autonomous_sales_agent.Prelude.{
  String, Bool, not, ◌&&◌, ◌≡◌, ap, ◌∙◌, some, arith, if◌then◌else◌, is_some,
}
use autonomous_sales_agent.Float.{Floating}
use autonomous_sales_agent.Belief.{BeliefState}
use autonomous_sales_agent.Tracker.Cues.{Cues}
use autonomous_sales_agent.Tracker.Intent.{normalize_punct}
use autonomous_sales_agent.Tracker.Update.{
  Turn, update, intent_of, read_turn, keep_books, count_refusal, flag_hostility, track_learner,
  flag_disclosure, track_decline, decline_pending, flag_contact, flag_callback,
}

-- A step that keeps both labels.
abbrev SameLabels : {F : Type 0} → BeliefState F → BeliefState F → Type 0
SameLabels b e = (e.last_user_act ≡ b.last_user_act) × (e.active_objection ≡ b.active_objection)

module _ {F : Type 0} ⦃fl : Floating F⦄ where
  count_refusal-labels :
      (prior b : BeliefState F) (refused : Bool)
      → let e = count_refusal prior b refused in
        (e.last_user_act ≡ b.last_user_act)
        × (e.active_objection ≡ (
            if refused && not (is_some b.active_objection)
            then some "price"
            else b.active_objection))
  unfolding count_refusal
  count_refusal-labels prior b refused = ground arith

  flag_callback-SameLabels : (prior b : BeliefState F) → SameLabels b (flag_callback prior b)
  unfolding flag_callback
  flag_callback-SameLabels prior b = ground arith

  module _ ⦃cues : Cues⦄ where
    flag_hostility-SameLabels :
        (norm : String) (b : BeliefState F) → SameLabels b (flag_hostility norm b)
    unfolding flag_hostility
    flag_hostility-SameLabels norm b = ground arith

    track_learner-SameLabels :
        (norm : String) (b : BeliefState F) → SameLabels b (track_learner norm b)
    unfolding track_learner
    track_learner-SameLabels norm b = ground arith

    flag_disclosure-labels :
        (norm : String) (refused : Bool) (b : BeliefState F)
        → let e = flag_disclosure norm refused b in
          (e.last_user_act ≡ b.last_user_act)
          × (e.active_objection ≡ (
              if cues.disclosure norm && not refused then some "concern" else b.active_objection))
    unfolding flag_disclosure
    flag_disclosure-labels norm refused b = ground arith

    later-SameLabels :
        (prior : BeliefState F) (t : Turn F) (b : BeliefState F)
        → let norm = normalize_punct t.utterance in
          SameLabels b
            (flag_callback prior (flag_contact norm (track_decline norm t.last_agent_act prior b)))
    unfolding flag_contact track_decline decline_pending
    later-SameLabels prior t b =
        let norm = normalize_punct t.utterance in
        let last =
          flag_callback-SameLabels prior
            (flag_contact norm (track_decline norm t.last_agent_act prior b)) in
        ground arith

    -- the labels after the books: a refusal without an objection is about the price, and a disclosure without
    -- a refusal is a concern
    keep_books-labels :
        (prior : BeliefState F) (t : Turn F) (refused : Bool) (read : BeliefState F)
        → let norm = normalize_punct t.utterance in
          let e = keep_books prior t refused read in
          (e.last_user_act ≡ read.last_user_act)
          × (e.active_objection ≡ (
              if cues.disclosure norm && not refused
              then some "concern"
              else if refused && not (is_some read.active_objection)
              then some "price"
              else read.active_objection))
    unfolding keep_books
    keep_books-labels prior t refused read =
        let norm = normalize_punct t.utterance in
        let b1 = count_refusal prior read refused in
        let b2 = flag_hostility norm b1 in
        let b3 = track_learner norm b2 in
        let b4 = flag_disclosure norm refused b3 in
        let s1 = count_refusal-labels prior read refused in
        let s2 = flag_hostility-SameLabels norm b1 in
        let s3 = track_learner-SameLabels norm b2 in
        let s4 = flag_disclosure-labels norm refused b3 in
        let s5 = later-SameLabels prior t b4 in
        (
          s5.0 ∙ s4.0 ∙ s3.0 ∙ s2.0 ∙ s1.0,
          s5.1
              ∙ s4.1
              ∙ ap (λ o. if cues.disclosure norm && not refused then some "concern" else o)
                  (s3.1 ∙ s2.1 ∙ s1.1),
        )

    pub update-labels :
        (prior : BeliefState F) (t : Turn F)
        → let i = intent_of t.utterance t.reply in
          let e = update prior t in
          (e.last_user_act ≡ (if is_some t.upstream_act then t.upstream_act else i.user_act))
          × (e.active_objection ≡ (
              if cues.disclosure (normalize_punct t.utterance) && not i.affordability_refusal
              then some "concern"
              else if i.affordability_refusal && not (is_some i.objection)
              then some "price"
              else i.objection))
    unfolding update read_turn
    update-labels prior t =
        let i = intent_of t.utterance t.reply in
        keep_books-labels prior t i.affordability_refusal (read_turn prior t i)
