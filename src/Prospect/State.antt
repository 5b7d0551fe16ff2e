-- ===== src/Prospect/State.antt =====
-- src/sim/prospect.py: the state of the simulated prospect, and the tables that it is read with.
use autonomous_sales_agent.Prelude.{
  ℕ, String, Bool, true, false, Option, none, some, List, [], ◌∷◌, any, if◌then◌else◌, says,
  or_else, ◌==◌,
}
use autonomous_sales_agent.Dict.{lookup}
use autonomous_sales_agent.Decision.{Tier, enrollment, trial, consultation, callback}
use autonomous_sales_agent.Knowledge.{Texts}

-- `src.sim.personas.Persona`, without the fields that only the prompt reads
pub record Persona (F : Type 0) : Type 0 where
  pub archetype : String
  pub utility : List (String × F)
  pub qualified : Bool
  pub disqualifier : Option String
  pub max_commitment : String

pub record ProspectState (F : Type 0) : Type 0 where
  pub trust : F
  pub need : F
  pub urgency : F
  pub purchase_intent : F
  pub patience : F
  pub budget : F
  pub turns_elapsed : ℕ
  pub walked : Bool
  pub committed_tier : Option Tier
  pub objections_raised : List String
  pub disqualifier_exchanges : ℕ

-- `SOFT_DRIVERS`
pub data SoftDriver : Type 0 where
  trust need urgency purchase_intent : SoftDriver

-- what a threshold reads off a prospect
pub data Measure : Type 0 where
  soft : SoftDriver → Measure
  budget : Measure

-- a delta's key; any other key is ignored
unfoldable pub parse_soft : String → Option SoftDriver
parse_soft key =
    if key == "trust"
    then some trust
    else if key == "need"
    then some need
    else if key == "urgency"
    then some urgency
    else if key == "purchase_intent"
    then some purchase_intent
    else none

-- `_OBJECTION_PHRASES`, in the order of `_OBJECTION_THEMES`
abbrev pub objection_phrases : List (String × List String)
objection_phrases =
    (
      "price",
      "price" ∷ "pricey" ∷ "expensive" ∷ "cost" ∷ "afford" ∷ "budget" ∷ "justify that" ∷ "too much"
          ∷ [],
    )
    ∷ (
      "efficacy",
      "actually work" ∷ "move the needle" ∷ "really help" ∷ "does it work" ∷ "prove" ∷ "results"
          ∷ "guarantee" ∷ "skeptical it" ∷ [],
    )
    ∷ (
      "diy_free",
      "free" ∷ "khan" ∷ "youtube" ∷ "on our own" ∷ "diy" ∷ "do it ourselves" ∷ "online stuff" ∷ [],
    )
    ∷ (
      "timing",
      "timing" ∷ "too busy" ∷ "right now" ∷ "bad time" ∷ "later" ∷ "swamped" ∷ "next semester" ∷ [],
    )
    ∷ (
      "decision_maker",
      "spouse" ∷ "partner" ∷ "check with" ∷ "talk to my" ∷ "ask my" ∷ "not my call"
          ∷ "decision-maker" ∷ "decision maker" ∷ "run it by" ∷ [],
    )
    ∷ []

-- `_DISQ_PHRASES`
abbrev pub disq_phrases : List (String × List String)
disq_phrases =
    (
      "no_budget",
      "budget" ∷ "afford" ∷ "can't pay" ∷ "cannot pay" ∷ "too expensive" ∷ "no money" ∷ "money"
          ∷ [],
    )
    ∷ (
      "no_authority",
      "decision-maker" ∷ "decision maker" ∷ "check with" ∷ "not my call" ∷ "my spouse"
          ∷ "my partner" ∷ "talk to" ∷ "ask my" ∷ "not up to me" ∷ [],
    )
    ∷ (
      "no_real_need",
      "don't really need" ∷ "do not really need" ∷ "just curious" ∷ "just looking" ∷ "no real need"
          ∷ "not sure i need" ∷ "browsing" ∷ [],
    )
    ∷ []

-- `_TIER_THRESHOLDS`, in thousandths
unfoldable pub tier_thresholds : Tier → List (Measure × ℕ)
tier_thresholds enrollment =
    (soft need, 700) ∷ (soft trust, 700) ∷ (soft purchase_intent, 700) ∷ (budget, 600) ∷ []
tier_thresholds trial =
    (soft need, 550) ∷ (soft trust, 550) ∷ (soft purchase_intent, 550) ∷ (budget, 400) ∷ []
tier_thresholds consultation =
    (soft need, 400) ∷ (soft trust, 400) ∷ (soft purchase_intent, 400) ∷ (budget, 200) ∷ []
tier_thresholds callback = (soft purchase_intent, 150) ∷ (soft trust, 200) ∷ []

-- `_TIER_RANK`
unfoldable pub tier_rank : Tier → ℕ
tier_rank callback = 0
tier_rank consultation = 1
tier_rank trial = 2
tier_rank enrollment = 3

-- `_ceiling_rank`, with none for -1
unfoldable pub ceiling_rank : String → Option ℕ
ceiling_rank max_commitment =
    if max_commitment == "callback"
    then some 0
    else if max_commitment == "consultation"
    then some 1
    else if max_commitment == "trial"
    then some 2
    else if max_commitment == "enrollment"
    then some 3
    else none

-- the offer that the agent's act makes
unfoldable pub offered : Option String → Option Tier → Option Tier
offered agent_act agent_tier =
    if says agent_act "attempt_close" then some (or_else agent_tier consultation) else none

-- `_ACCEPTANCE`
unfoldable pub acceptance : Tier → String
acceptance enrollment = "Okay, let's go ahead and enroll."
acceptance trial = "Alright, I'll try a trial session."
acceptance consultation = "Sure, let's set up a consultation."
acceptance callback = "Fine, you can call me back about this."

-- `_WALK_LINE`
abbrev pub walk_line : String
walk_line = "I think I'm done here — I've got to go."

module _ ⦃texts : Texts⦄ where
  mentions : String → List String → Bool
  mentions text phrases = any (texts.contains (texts.lower text)) phrases

  first_theme : String → List (String × List String) → Option String
  first_theme text [] = none
  first_theme text ((theme, phrases) ∷ more) =
      let rest = first_theme text more in if mentions text phrases then some theme else rest

  -- `_classify_objection_theme`
  unfoldable pub classify_objection_theme : String → Option String
  unfolding first_theme mentions
  classify_objection_theme text = first_theme text objection_phrases

  -- `_mentions_disqualifier`
  unfoldable pub mentions_disqualifier : String → String → Bool
  unfolding mentions
  mentions_disqualifier text disqualifier =
      mentions text (or_else (lookup disqualifier disq_phrases) [])

-- the model's JSON object; a delta that is no number is none
pub record SimReply (F : Type 0) : Type 0 where
  pub utterance : String
  -- none where `deltas` is no dictionary
  pub deltas : Option (List (String × Option F))
  pub disqualifier_signaled : Bool

-- what the call of the model gives; `ValueError` is caught, any other error is not
pub data SimAnswer (F : Type 0) : Type 0 where
  raises malformed : SimAnswer F
  replied : SimReply F → SimAnswer F

abbrev pub is_raises : {F : Type 0} → SimAnswer F → Bool
is_raises raises = true
is_raises _ = false

-- the outcome of a prospect's turn, `ProspectTurn`
pub record ProspectTurn (F : Type 0) : Type 0 where
  pub text : String
  pub committed_tier : Option Tier
  pub walked : Bool
  pub disqualifier_signaled : Bool
  pub state_snapshot : ProspectState F

module _ {F : Type 0} where
  -- `getattr(state, key)` and `setattr`
  unfoldable pub feeling : SoftDriver → ProspectState F → F
  feeling trust s = s.trust
  feeling need s = s.need
  feeling urgency s = s.urgency
  feeling purchase_intent s = s.purchase_intent

  unfoldable pub set_feeling : SoftDriver → F → ProspectState F → ProspectState F
  set_feeling trust x s = record s { trust = x }
  set_feeling need x s = record s { need = x }
  set_feeling urgency x s = record s { urgency = x }
  set_feeling purchase_intent x s = record s { purchase_intent = x }

  unfoldable pub measure : Measure → ProspectState F → F
  unfolding feeling
  measure (soft driver) s = feeling driver s
  measure budget s = s.budget
