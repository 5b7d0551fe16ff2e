-- ===== src/Tests/OfMemory.antt =====
-- The theorems on the language model's client, on the memory of a caller and on the hand-off, at
-- sample calls.
use autonomous_sales_agent.Prelude.{ℕ, zero, suc, ◌≡◌, refl, true, none, some, []}
use autonomous_sales_agent.Float.{Millis, millis_floating, Millis-IsOrdered}
use autonomous_sales_agent.Dict.{lookup}
use autonomous_sales_agent.Belief.{BeliefState, clamp01}
use autonomous_sales_agent.Decision.{EscalationReason, escalate}
use autonomous_sales_agent.Gates.Reads.{is_locked, escalation_reason, beyond_band}
use autonomous_sales_agent.Llm.{Attempt, answered, refused, Client, complete}
use autonomous_sales_agent.Llm.Retries.{EndsAt, plain_attempts, complete-EndsAt}
use autonomous_sales_agent.Hydrate.{
  Storage, bare, Phones, phone_hash, hydrate_belief, persist_lead_after_call,
}
use autonomous_sales_agent.Hydrate.Recall.{hydrate_belief-persist}
use autonomous_sales_agent.Escalation.{reason_category}
use autonomous_sales_agent.Escalation.HandOff.{category_of, reason_category-escalation_reason}
use autonomous_sales_agent.Tests.Samples.{
  level, config, at_levels, known, proposes, texts, redactors,
}

abbrev client : Client Millis
client = record { max_retries = 2; retry_backoff_base = level 500; as_seconds = λ s. none }

-- overloaded at first
abbrev overloaded : ℕ → Attempt
overloaded zero = refused 503 none
overloaded (suc n) = answered "hello"

complete-EndsAt_example :
    (k : ℕ) × EndsAt plain_attempts overloaded 2 0 k k (complete client overloaded)
complete-EndsAt_example = complete-EndsAt client overloaded

instance abbrev storage : Storage Millis
storage = record { stored = λ s. bare (some s) }

instance abbrev phones : Phones
phones = record { digits = λ s. s; sha256 = λ s. s }

abbrev learned : BeliefState Millis
learned = record (at_levels 500 300 200) { slots = known "subject" }

hydrate_belief-persist_example :
    let kept = persist_lead_after_call [] (some "5550100") learned none none none in
    let next = (hydrate_belief {F = Millis} kept (some "5550100")).belief in
    (lookup "subject" next.slots
      ≡ some (record { value = some "algebra"; confidence = clamp01 (level 800) }))
    × (is_locked next "subject" ≡ true)
unfolding phone_hash lookup
hydrate_belief-persist_example =
    hydrate_belief-persist Millis-IsOrdered [] "5550100" "5550100" "subject" "algebra" learned none
      none none (record { value = some "algebra"; confidence = level 900 }) refl refl
      (λ old e. absurd (cc)) refl refl refl

abbrev asks_for_human : BeliefState Millis
asks_for_human = record (at_levels 500 300 200) { last_user_act = some "human_request" }

reason_category-escalation_reason_example :
    reason_category (proposes escalate) "explicit human request" asks_for_human config
    ≡ category_of EscalationReason.human_request
unfolding escalation_reason beyond_band
reason_category-escalation_reason_example =
    reason_category-escalation_reason (proposes escalate) "explicit human request" asks_for_human
      config [] EscalationReason.human_request (λ n e. absurd (cc)) refl
