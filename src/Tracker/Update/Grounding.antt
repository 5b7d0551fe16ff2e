-- ===== src/Tracker/Update/Grounding.antt =====
-- Grounding: which labels of the language model src/core/dst.py lets through.
use autonomous_sales_agent.Prelude.{
  String, ◌≡◌, refl, Bool, true, false, not, ◌&&◌, Option, none, some, arith, if◌then◌else◌,
  is_some, says, truthy, member, ◌==◌, eq_iff, ◌⊎◌, inl, inr, Bool-cases, sym, ap, ◌∙◌, subst,
  some_injective,
}
use autonomous_sales_agent.Float.{Floating}
use autonomous_sales_agent.Belief.{BeliefState}
use autonomous_sales_agent.Tracker.Cues.{Cues}
use autonomous_sales_agent.Tracker.Update.{
  Turn, Reply, update, intent_of, reply_intent, non_blank, valid_objection, clipped,
}
use autonomous_sales_agent.Tracker.Update.Labels.{update-labels}
use autonomous_sales_agent.Tracker.Intent.{
  Intent, normalize_punct, ground_objection, ground_human_request, ground_labels, override_aside,
  override_memory, override_confirm, override_guarantee, ground_intent, read_intent,
  canonical_objections,
}

-- An objection that the utterance carries a cue for, if it is one of the five.
abbrev pub Cued : ⦃cues : Cues⦄ → String → Option String → Type 0
Cued ⦃cues⦄ norm none = Unit
Cued ⦃cues⦄ norm (some o) =
    member o canonical_objections ≡ true
    → (cues.grounds o norm ≡ true) ⊎ ((o ≡ "efficacy_doubt") × (cues.guarantee_demand norm ≡ true))

module _ ⦃cues : Cues⦄ (utterance : String) where
  Cued-if :
      (o : String) (a g : Bool)
      → (member o canonical_objections ≡ true → a ≡ true)
      → (g ≡ true → cues.grounds o (normalize_punct utterance) ≡ true)
      → Cued (normalize_punct utterance) (if a then (if g then some o else none) else some o)
  Cued-if o true true canonical grounds = λ m. inl (grounds refl)
  Cued-if o true false canonical grounds = tt
  Cued-if o false g canonical grounds = λ m. cc (canonical m)

  truthy-member :
      (o : String)
      → member o canonical_objections ≡ true
      → truthy (some o) && member o canonical_objections ≡ true
  truthy-member o m = elim (Bool-cases (o == "")) [
    | inl e ↦ cc (sym m ∙ ap (λ s. member s canonical_objections) ((eq_iff o "").0 e))
    | inr e ↦ ground arith
  ]

  ground_objection-Cued :
      (o : Option String) → Cued (normalize_punct utterance) (ground_objection o utterance)
  unfolding ground_objection
  ground_objection-Cued none = tt
  ground_objection-Cued (some o) =
      Cued-if o (truthy (some o) && member o canonical_objections)
        (cues.grounds o (normalize_punct utterance)) (truthy-member o) (λ e. e)

  -- The three properties of a label that the overrides keep.
  abbrev pub IsGrounded : Intent → Type 0
  IsGrounded i =
      Cued (normalize_punct utterance) i.objection
      × (says i.user_act "human_request" ≡ true
          → cues.names_a_person (normalize_punct utterance) ≡ true)
      × (says i.user_act "objection" ≡ true → is_some i.objection ≡ true)

  labels-IsGrounded : (i : Intent) → IsGrounded (ground_labels utterance i)
  unfolding ground_labels ground_human_request
  labels-IsGrounded i = (ground_objection-Cued i.objection, ground arith, ground arith)

  aside-IsGrounded :
      (i : Intent) → IsGrounded i → IsGrounded (override_aside (normalize_punct utterance) i)
  unfolding override_aside
  aside-IsGrounded i g = ground arith

  memory-IsGrounded :
      (i : Intent) → IsGrounded i → IsGrounded (override_memory (normalize_punct utterance) i)
  unfolding override_memory
  memory-IsGrounded i g = ground arith

  confirm-IsGrounded :
      (i : Intent) → IsGrounded i → IsGrounded (override_confirm (normalize_punct utterance) i)
  unfolding override_confirm
  confirm-IsGrounded i g = ground arith

  guarantee-IsGrounded :
      (i : Intent) → IsGrounded i → IsGrounded (override_guarantee (normalize_punct utterance) i)
  unfolding override_guarantee
  guarantee-IsGrounded i g = ground arith

  read_intent-IsGrounded : (i : Intent) → IsGrounded (read_intent utterance (some i))
  unfolding read_intent ground_intent
  read_intent-IsGrounded i =
      let norm = normalize_punct utterance in
      let i1 = ground_labels utterance i in
      let i2 = override_aside norm i1 in
      let i3 = override_memory norm i2 in
      guarantee-IsGrounded (override_confirm norm i3)
        (confirm-IsGrounded i3 (memory-IsGrounded i2 (aside-IsGrounded i1 (labels-IsGrounded i))))

  read_intent-objection :
      (i : Intent) (o : String)
      → (read_intent utterance (some i)).objection ≡ some o
      → member o canonical_objections ≡ true
      → (cues.grounds o (normalize_punct utterance) ≡ true)
        ⊎ ((o ≡ "efficacy_doubt") × (cues.guarantee_demand (normalize_punct utterance) ≡ true))
  read_intent-objection i o e m =
      subst (λ x. Cued (normalize_punct utterance) x) e (read_intent-IsGrounded i).0 m

  -- the overrides keep the model's word on a refusal
  read_intent-refusal :
      (i : Intent)
      → (read_intent utterance (some i)).affordability_refusal ≡ i.affordability_refusal
  unfolding read_intent ground_intent ground_labels override_aside override_memory override_confirm
      override_guarantee
  read_intent-refusal i = ground arith

  -- A request for a human that the tracker takes from the language model names a person.
  read_intent-human_request :
      (i : Intent)
      → (read_intent utterance (some i)).user_act ≡ some "human_request"
      → cues.names_a_person (normalize_punct utterance) ≡ true
  read_intent-human_request i e =
      (read_intent-IsGrounded i).1 (ap (λ act. says act "human_request") e)

  -- An objection turn that the tracker takes from the language model has an objection.
  pub read_intent-objection_turn :
      (i : Intent)
      → (read_intent utterance (some i)).user_act ≡ some "objection"
      → is_some (read_intent utterance (some i)).objection ≡ true
  read_intent-objection_turn i e = (read_intent-IsGrounded i).2 (ap (λ act. says act "objection") e)

-- the objection that a turn ends with, by where it comes from
by_source :
    (concerns refused : Bool) (read : Option String) (o : String)
    → (if concerns
        then some "concern"
        else if refused && not (is_some read)
        then some "price"
        else read)
      ≡ some o
    → member o canonical_objections ≡ true
    → (read ≡ some o) ⊎ ((o ≡ "price") × (refused ≡ true))
by_source true refused read o e m =
    cc (ap (λ s. member s canonical_objections) (some_injective e), m)
by_source false true none o e m = inr (sym (some_injective e), refl)
by_source false true (some p) o e m = inl e
by_source false false read o e m = inl e

module _ {F : Type 0} ⦃fl : Floating F⦄ ⦃cues : Cues⦄ where
  -- An objection of the five that a turn ends with, where the language model has labelled the turn, has a
  -- cue of its category in the utterance, or is the doubt that a guarantee demand in the utterance stands
  -- for, or is the price, on the model's word that the caller refuses for the money.
  pub update-objection :
      (prior : BeliefState F) (t : Turn F) (r : Reply F) (o : String)
      → t.reply ≡ some r
      → r.has_intent ≡ true
      → (update prior t).active_objection ≡ some o
      → member o canonical_objections ≡ true
      → (cues.grounds o (normalize_punct t.utterance) ≡ true)
        ⊎ ((o ≡ "efficacy_doubt") × (cues.guarantee_demand (normalize_punct t.utterance) ≡ true))
        ⊎ ((o ≡ "price") × (r.affordability_refusal ≡ true))
  unfolding intent_of reply_intent
  update-objection prior t r o p q e m =
      let label : Intent = record {
        user_act = non_blank r.user_act;
        objection = valid_objection r.objection;
        open_question = clipped r.open_question;
        affordability_refusal = r.affordability_refusal;
      } in
      let read : intent_of t.utterance t.reply ≡ read_intent t.utterance (some label) =
        rw (p, q) refl in
      let i = read_intent t.utterance (some label) in
      let ends =
        subst
          (λ x.
            (if cues.disclosure (normalize_punct t.utterance) && not x.affordability_refusal
              then some "concern"
              else if x.affordability_refusal && not (is_some x.objection)
              then some "price"
              else x.objection)
            ≡ some o)
          read (sym (update-labels prior t).1 ∙ e) in
      elim (by_source (cues.disclosure (normalize_punct t.utterance) && not i.affordability_refusal)
        i.affordability_refusal i.objection o ends m) [
          | inl h ↦ elim (read_intent-objection t.utterance label o h m) [
            | inl g ↦ inl g
            | inr g ↦ inr (inl g)
          ]
          | inr h ↦ inr (inr (h.0, sym (read_intent-refusal t.utterance label) ∙ h.1))
        ]
