-- ===== src/Worker/Seeding.antt =====
-- How the consent that the browser captured reaches the gate of the worker: `_consent_room_metadata` of
-- src/api/demo_routes.py writes it, and `_seed_gate_from_metadata` of src/voice/worker.py reads it.
use autonomous_sales_agent.Prelude.{
  String, Bool, true, false, not, ◌&&◌, ◌||◌, ◌≡◌, refl, ap, ◌∙◌, Option, none, some, List, [], ◌∷◌,
  if◌then◌else◌, arith, ◌==◌, is_some, or_else,
}
use autonomous_sales_agent.Dict.{lookup, insert}
use autonomous_sales_agent.Consent.{
  ConsentGate, Phase, pending, ai_disclosed, ready, unrecorded, need_parental, ended, RefusalPolicy,
  proceed_unrecorded, end_call, new_gate, can_record, can_converse, acknowledge_ai, grant_recording,
  refuse_recording, flag_minor,
}

-- a value of the metadata's JSON object
pub data MetaValue : Type 0 where
  text : String → MetaValue
  flag : Bool → MetaValue
  null : MetaValue

abbrev pub Metadata : Type 0
Metadata = List (String × MetaValue)

-- the names of the states
unfoldable pub phase_name : Phase → String
phase_name pending = "pending"
phase_name ai_disclosed = "ai_disclosed"
phase_name ready = "ready"
phase_name unrecorded = "unrecorded"
phase_name need_parental = "need_parental"
phase_name ended = "ended"

abbrev or_null : Option String → MetaValue
or_null none = null
or_null (some s) = text s

-- `_consent_room_metadata`, before it is a text
unfoldable pub consent_room_metadata : ConsentGate → Option String → Metadata
consent_room_metadata gate phone_hash_value =
    ("consent_state", text (phase_name gate.state))
    ∷ ("recording_granted", flag (can_record gate))
    ∷ ("jurisdiction", text gate.jurisdiction)
    ∷ ("phone_hash", or_null phone_hash_value)
    ∷ ("conversable", flag (can_converse gate))
    ∷ []

-- `out.update(data)`
abbrev pub update_meta : Metadata → Metadata → Metadata
update_meta out [] = out
update_meta out ((key, value) ∷ data_) = update_meta (insert key value out) data_

-- `_room_metadata`, of what the two sources parse to, where they hold an object
unfoldable pub room_metadata : Option Metadata → Option Metadata → Metadata
unfolding insert
room_metadata room job = update_meta (update_meta [] (or_else room [])) (or_else job [])

-- `bool(meta.get(key))`
abbrev pub is_set : Option MetaValue → Bool
is_set none = false
is_set (some (text s)) = not (s == "")
is_set (some (flag b)) = b
is_set (some null) = false

-- `str(meta.get(key) or "") == name`, of a name that is no truth value's
abbrev pub reads : Option MetaValue → String → Bool
reads (some (text s)) name = s == name
reads _ name = false

-- the gate, once the keys of a consent are there
abbrev pub seeded : ConsentGate → Bool → Bool → Bool → ConsentGate
seeded gate conversable recording_granted waits_for_parent =
    let told = acknowledge_ai gate in
    if conversable
    then (if recording_granted then grant_recording told else refuse_recording told)
    else if waits_for_parent
    then flag_minor told
    else told

-- `_seed_gate_from_metadata`, with whether consent was found
unfoldable pub seed_gate_from_metadata : ConsentGate → Metadata → ConsentGate × Bool
seed_gate_from_metadata gate meta =
    if is_some (lookup "conversable" meta)
      || is_some (lookup "consent_state" meta)
      || is_some (lookup "recording_granted" meta)
    then (
      seeded gate (is_set (lookup "conversable" meta)) (is_set (lookup "recording_granted" meta))
          (reads (lookup "consent_state" meta) "need_parental"),
      true,
    )
    else (gate, false)

abbrev pub proceeds : RefusalPolicy → Bool
proceeds proceed_unrecorded = true
proceeds end_call = false

abbrev pub waits_for_parent : Phase → Bool
waits_for_parent need_parental = true
waits_for_parent _ = false

phase_name-parental : (p : Phase) → (phase_name p == "need_parental") ≡ waits_for_parent p
unfolding phase_name
phase_name-parental pending = refl
phase_name-parental ai_disclosed = refl
phase_name-parental ready = refl
phase_name-parental unrecorded = refl
phase_name-parental need_parental = refl
phase_name-parental ended = refl

seeded-mirrors :
    (jurisdiction : String) (policy : RefusalPolicy) (conversable granted waits : Bool)
    → let s = seeded (new_gate jurisdiction policy) conversable granted waits in
      (can_record s ≡ conversable && granted)
      × (can_converse s ≡ conversable && (granted || proceeds policy))
      × (waits_for_parent s.state ≡ not conversable && waits)
unfolding can_record can_converse acknowledge_ai grant_recording refuse_recording flag_minor
seeded-mirrors jurisdiction policy conversable granted waits = ground arith

-- a call that is recorded converses, and one that waits for a parent does not
gate_facts :
    (gate : ConsentGate)
    → ((can_converse gate && can_record gate) ≡ can_record gate)
      × ((not (can_converse gate) && waits_for_parent gate.state) ≡ waits_for_parent gate.state)
unfolding can_record can_converse
gate_facts gate = ground arith

-- The gate of the worker, seeded from the browser's, may record exactly when the browser's may, waits for a
-- parent exactly when it does, and converses exactly when it does and the recording is allowed or the
-- worker's policy goes on without one.
pub seed_gate-mirrors :
    (gate : ConsentGate) (phone_hash_value : Option String) (jurisdiction : String)
    (policy : RefusalPolicy)
    → let s =
        (seed_gate_from_metadata
          (new_gate jurisdiction policy)
          (consent_room_metadata gate phone_hash_value)).0 in
      (can_record s ≡ can_record gate)
      × (can_converse s ≡ can_converse gate && (can_record gate || proceeds policy))
      × (waits_for_parent s.state ≡ waits_for_parent gate.state)
unfolding seed_gate_from_metadata consent_room_metadata lookup
seed_gate-mirrors gate phone_hash_value jurisdiction policy =
    let s =
      seeded-mirrors jurisdiction policy (can_converse gate) (can_record gate)
        (phase_name gate.state == "need_parental") in
    let p = phase_name-parental gate.state in
    let facts = gate_facts gate in
    (s.0 ∙ facts.0, s.1, s.2 ∙ ap (λ w. not (can_converse gate) && w) p ∙ facts.1)
