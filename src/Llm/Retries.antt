-- ===== src/Llm/Retries.antt =====
-- The retries of src/core/llm.py: which request a call returns, and how many it makes.
use autonomous_sales_agent.Prelude.{
  ℕ, zero, suc, ◌+◌, ◌≤◌, String, Bool, true, false, ◌&&◌, ◌≡◌, refl, sym, ◌∙◌, List, [], arith,
  length, ltb, inl, inr, Bool-cases, subst,
}
use autonomous_sales_agent.Float.{Floating}
use autonomous_sales_agent.Knowledge.{Texts, is_empty}
use autonomous_sales_agent.Llm.{
  Json, Attempt, answered, refused, unreachable, malformed, closed, cut, StreamAttempt, declined,
  streamed, Result, completed, status_error, request_error, other_error, stream_done, Call, Client,
  is_retryable, stream_tokens, by_attempt, by_stream, stops, complete_from, complete, stream_from,
  complete_stream,
}

-- the test holds of the numbers from `a`, `n` of them
abbrev pub all_from : (ℕ → Bool) → ℕ → ℕ → Bool
all_from p a zero = true
all_from p a (suc n) = p a && all_from p (a + 1) n

-- Attempts, by what a call that ends on one returns and yields, and whether it may be tried again.
pub record Attempts (A : Type 0) : Type 0 where
  pub is_transient : A → Bool
  pub surfaced : A → Result
  pub tokens : A → List String

-- A call of which the attempt `k`, the `m`-th after `a`, is the last: the attempts before it may be
-- tried again, and it may not, or the budget is spent. The call makes one request more than its
-- retries, waits before each retry, and returns and yields what the last attempt comes to.
abbrev pub EndsAt : {F A : Type 0} → Attempts A → (ℕ → A) → ℕ → ℕ → ℕ → ℕ → Call F → Type 0
EndsAt kind network budget a m k call =
    (k ≡ a + m)
    × (k ≤ budget)
    × (all_from (λ j. kind.is_transient (network j)) a m ≡ true)
    × (kind.is_transient (network k) && ltb k budget ≡ false)
    × (call.result ≡ kind.surfaced (network k))
    × (call.yielded ≡ kind.tokens (network k))
    × (call.requests ≡ m + 1)
    × (length call.waits ≡ m)

-- a call that has tried again, against the rest of its loop
abbrev Retried : {F : Type 0} → Call F → Call F → Type 0
Retried rest call =
    (call.result ≡ rest.result)
    × (call.yielded ≡ rest.yielded)
    × (call.requests ≡ suc rest.requests)
    × (length call.waits ≡ suc (length rest.waits))

-- The loop over the attempts, by the passes left and the number of the attempt.
module _ {F A : Type 0} (kind : Attempts A) (network : ℕ → A) (budget : ℕ) (loop : ℕ → ℕ → Call F)
    (last : (left a : ℕ)
      → kind.is_transient (network a) && ltb a budget ≡ false
      → loop (suc left) a ≡ stops (kind.surfaced (network a)) (kind.tokens (network a)))
    (retried : (left a : ℕ)
      → kind.is_transient (network a) && ltb a budget ≡ true
      → Retried (loop left (a + 1)) (loop (suc left) a)) where
  abbrev Ends : ℕ → Call F → Type 0
  Ends a call = (m : ℕ) × (k : ℕ) × EndsAt kind network budget a m k call

  last-Ends :
      (left a : ℕ)
      → a ≤ budget
      → kind.is_transient (network a) && ltb a budget ≡ false
      → Ends a (loop (suc left) a)
  last-Ends left a e h =
      subst (Ends a) (sym (last left a h)) (0, a, (omega arith, e, refl, h, refl, refl, refl, refl))

  loop-Ends : (left a : ℕ) → a + left ≡ budget → Ends a (loop (suc left) a)
  loop-Ends zero a e = last-Ends zero a (omega (arith, e)) (ground (arith, e))
  loop-Ends (suc left) a e = elim (Bool-cases (kind.is_transient (network a) && ltb a budget)) [
    | inl y ↦
        let (m, k, (at, below, all, final, result, yielded, requests, waits)) =
          loop-Ends left (a + 1) (omega (arith, e)) in
        let r = retried (suc left) a y in
        (
          suc m,
          k,
          (
            omega (arith, at),
            below,
            ground (arith, y, all),
            final,
            r.0 ∙ result,
            r.1 ∙ yielded,
            omega (arith, r.2, requests),
            omega (arith, r.3, waits),
          ),
        )
    | inr n ↦ last-Ends (suc left) a (omega (arith, e)) n
  ]

  -- the whole loop
  whole-Ends : (k : ℕ) × EndsAt kind network budget 0 k k (loop (suc budget) 0)
  whole-Ends =
      let (m, k, (at, below, all, final, result, yielded, requests, waits)) =
        loop-Ends budget 0 (omega arith) in
      let same : m ≡ k = omega (arith, at) in
      (
        k,
        (
          omega arith,
          below,
          subst (λ n. all_from (λ j. kind.is_transient (network j)) 0 n ≡ true) same all,
          final,
          result,
          yielded,
          omega (arith, requests, same),
          omega (arith, waits, same),
        ),
      )

-- `complete`: 429, some of 5xx and a failed transport may be tried again
abbrev pub may_retry : Attempt → Bool
may_retry (refused status header) = is_retryable status
may_retry unreachable = true
may_retry _ = false

abbrev pub outcome : Attempt → Result
outcome (answered text) = completed text
outcome (refused status header) = status_error status
outcome unreachable = request_error
outcome malformed = other_error

abbrev pub plain_attempts : Attempts Attempt
plain_attempts = record { is_transient = may_retry; surfaced = outcome; tokens = λ a. [] }

-- `complete_stream`: not after a token
module _ (J : Type 0) ⦃json : Json J⦄ ⦃texts : Texts⦄ where
  abbrev pub tokens_of : StreamAttempt → List String
  tokens_of (declined status header) = []
  tokens_of (streamed lines end) = stream_tokens J lines

  abbrev pub may_stream_again : StreamAttempt → Bool
  may_stream_again (declined status header) = is_retryable status
  may_stream_again (streamed lines closed) = false
  may_stream_again (streamed lines cut) = is_empty (stream_tokens J lines)

  abbrev pub stream_result : StreamAttempt → Result
  stream_result (declined status header) = status_error status
  stream_result (streamed lines closed) = stream_done
  stream_result (streamed lines cut) = request_error

  abbrev pub stream_attempts : Attempts StreamAttempt
  stream_attempts = record {
    is_transient = may_stream_again;
    surfaced = stream_result;
    tokens = tokens_of;
  }

module _ {F : Type 0} ⦃fl : Floating F⦄ (c : Client F) where
  by_attempt-stops :
      (attempt : ℕ) (a : Attempt) (rest : Call F)
      → may_retry a && ltb attempt c.max_retries ≡ false
      → by_attempt c attempt a rest ≡ stops (outcome a) []
  unfolding by_attempt
  by_attempt-stops attempt (answered text) rest h = refl
  by_attempt-stops attempt (refused status header) rest h = ground (arith, h)
  by_attempt-stops attempt unreachable rest h = ground (arith, h)
  by_attempt-stops attempt malformed rest h = refl

  by_attempt-Retried :
      (attempt : ℕ) (a : Attempt) (rest : Call F)
      → may_retry a && ltb attempt c.max_retries ≡ true
      → Retried rest (by_attempt c attempt a rest)
  unfolding by_attempt
  by_attempt-Retried attempt (answered text) rest h = absurd (ground (arith, h))
  by_attempt-Retried attempt (refused status header) rest h = ground (arith, h)
  by_attempt-Retried attempt unreachable rest h = ground (arith, h)
  by_attempt-Retried attempt malformed rest h = absurd (ground (arith, h))

  -- A call of `complete` returns what the first attempt comes to that may not be tried again, or that
  -- spends the budget of retries: for the attempt `k`, it makes `k + 1` requests, at most one more than
  -- the budget, and waits `k` times.
  pub complete-EndsAt :
      (network : ℕ → Attempt)
      → (k : ℕ) × EndsAt plain_attempts network c.max_retries 0 k k (complete c network)
  unfolding complete complete_from
  complete-EndsAt network =
      whole-Ends plain_attempts network c.max_retries (complete_from c network)
        (λ left a h. by_attempt-stops a (network a) _ h)
        (λ left a h. by_attempt-Retried a (network a) _ h)

  module _ (J : Type 0) ⦃json : Json J⦄ ⦃texts : Texts⦄ where
    by_stream-stops :
        (attempt : ℕ) (a : StreamAttempt) (rest : Call F)
        → may_stream_again J a && ltb attempt c.max_retries ≡ false
        → by_stream J c attempt a rest ≡ stops (stream_result J a) (tokens_of J a)
    unfolding by_stream
    by_stream-stops attempt (declined status header) rest h = ground (arith, h)
    by_stream-stops attempt (streamed lines closed) rest h = refl
    by_stream-stops attempt (streamed lines cut) rest h = ground (arith, h)

    by_stream-Retried :
        (attempt : ℕ) (a : StreamAttempt) (rest : Call F)
        → may_stream_again J a && ltb attempt c.max_retries ≡ true
        → Retried rest (by_stream J c attempt a rest)
    unfolding by_stream
    by_stream-Retried attempt (declined status header) rest h = ground (arith, h)
    by_stream-Retried attempt (streamed lines closed) rest h = absurd (ground (arith, h))
    by_stream-Retried attempt (streamed lines cut) rest h = ground (arith, h)

    -- A call of `complete_stream` yields the tokens of one attempt only, the last: every attempt before
    -- it was refused with a status that may be tried again, or was cut before its first token. It makes
    -- at most one request more than the budget of retries.
    complete_stream-EndsAt :
        (network : ℕ → StreamAttempt)
        → (k : ℕ) × EndsAt
            (stream_attempts J)
            network
            c.max_retries
            0
            k
            k
            (complete_stream J c network)
    unfolding complete_stream stream_from
    complete_stream-EndsAt network =
        whole-Ends (stream_attempts J) network c.max_retries (stream_from J c network)
          (λ left a h. by_stream-stops a (network a) _ h)
          (λ left a h. by_stream-Retried a (network a) _ h)
