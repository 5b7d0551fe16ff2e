-- ===== src/Llm.antt =====
-- src/core/llm.py: the client of the language model. What the network answers to each request is an
-- input, and so are Python's `json` and the two regular expressions; the calls' cost is left out.
pub mod Retries
use autonomous_sales_agent.Prelude.{
  ℕ, zero, suc, ◌+◌, String, Bool, true, false, not, ◌&&◌, ◌||◌, Option, none, some, List, [], ◌∷◌,
  ◌++◌, if◌then◌else◌, leb, ltb, nat_eq, truthy, ◌==◌,
}
use autonomous_sales_agent.Float.{Floating, of_count}
use autonomous_sales_agent.Knowledge.{Texts, is_empty}

-- Python's `json`, over a type of values
pub record Json (J : Type 0) : Type 0 where
  -- `json.loads`
  pub loads : String → Option J
  -- `_FENCE_RE.search` and `_BRACE_RE.search`, the first group
  pub fenced : String → Option String
  pub braced : String → Option String
  -- `choices[0].delta.content` where it is a text
  pub content : J → Option String

-- `_RETRYABLE_STATUS`
unfoldable pub is_retryable : ℕ → Bool
is_retryable status =
    nat_eq status 429
    || nat_eq status 500
    || nat_eq status 502
    || nat_eq status 503
    || nat_eq status 504

module _ (J : Type 0) ⦃json : Json J⦄ where
  first_parse : List String → Option J
  first_parse [] = none
  first_parse (c ∷ cs) =
      let rest = first_parse cs in elim (json.loads c) [ none ↦ rest | some v ↦ some v ]

  -- the texts that `_extract_json` tries
  unfoldable pub candidates : ⦃texts : Texts⦄ → String → List String
  candidates ⦃texts⦄ text =
      let tail = texts.strip text ∷ elim (json.braced text) [ none ↦ [] | some s ↦ s ∷ [] ] in
      elim (json.fenced text) [ none ↦ tail | some s ↦ s ∷ tail ]

  -- `_extract_json`; none for a `ValueError`
  unfoldable pub extract_json : ⦃texts : Texts⦄ → Option String → Option J
  unfolding first_parse
  extract_json none = none
  extract_json (some text) = first_parse (candidates text)

  -- `_sse_content_delta`
  unfoldable pub sse_content_delta : ⦃texts : Texts⦄ → String → Option String
  sse_content_delta ⦃texts⦄ data_line =
      let stripped = texts.strip data_line in
      let line =
        if texts.starts_with stripped "data:"
        then texts.strip (texts.skip stripped 5)
        else stripped in
      if not (truthy (some stripped)) || texts.starts_with stripped ":"
      then none
      else if not (truthy (some line)) || (line == "[DONE]")
      then none
      else elim (json.loads line) [ none ↦ none | some v ↦ json.content v ]

  -- the tokens that a stream's lines yield
  unfoldable pub stream_tokens : ⦃texts : Texts⦄ → List String → List String
  stream_tokens [] = []
  stream_tokens (line ∷ lines) =
      let rest = stream_tokens lines in
      elim (sse_content_delta line) [
        | none ↦ rest
        | some token ↦ if token == "" then rest else token ∷ rest
      ]

-- what the network does with one request
pub data Attempt : Type 0 where
  answered : String → Attempt
  -- a status of 400 or more, with the header `Retry-After`
  refused : ℕ → Option String → Attempt
  -- `httpx.RequestError`
  unreachable : Attempt
  -- an answer without the expected fields
  malformed : Attempt

pub data StreamEnd : Type 0 where
  closed : StreamEnd
  -- `httpx.RequestError`
  cut : StreamEnd

pub data StreamAttempt : Type 0 where
  declined : ℕ → Option String → StreamAttempt
  -- the lines that came, and how the stream ended; a failed connection brings none
  streamed : List String → StreamEnd → StreamAttempt

-- how a call ends
pub data Result : Type 0 where
  completed : String → Result
  status_error : ℕ → Result
  request_error other_error : Result
  -- the `raise` after the loop
  fell_through : Result
  stream_done : Result

-- a call's end, with the tokens that it has yielded, its requests and its waits
pub record Call (F : Type 0) : Type 0 where
  pub result : Result
  pub yielded : List String
  pub requests : ℕ
  pub waits : List F

abbrev pub stops : {F : Type 0} → Result → List String → Call F
stops result tokens = record { result = result; yielded = tokens; requests = 1; waits = [] }

-- a request that is tried again after a wait
abbrev pub again : {F : Type 0} → F → Call F → Call F
again wait rest = record rest { requests = suc rest.requests; waits = wait ∷ rest.waits }

-- the client's retry budget and backoff base
pub record Client (F : Type 0) : Type 0 where
  pub max_retries : ℕ
  pub retry_backoff_base : F
  -- `float(retry_after)`, none where it raises
  pub as_seconds : String → Option F

power_of_two : ℕ → ℕ
power_of_two zero = 1
power_of_two (suc n) = let half = power_of_two n in half + half

module _ {F : Type 0} ⦃fl : Floating F⦄ where
  -- `_backoff_seconds`
  unfoldable pub backoff_seconds : Client F → ℕ → Option String → F
  unfolding power_of_two
  backoff_seconds c attempt retry_after =
      let computed = fl.mul c.retry_backoff_base (of_count (power_of_two attempt)) in
      elim retry_after [
        | none ↦ computed
        | some header ↦ elim (c.as_seconds header) [
          | none ↦ computed
          | some seconds ↦ if fl.lt (fl.milli 0) seconds then seconds else fl.milli 0
        ]
      ]

  -- the body of the loop of `complete`, by what the attempt comes to and the rest of the loop
  unfoldable pub by_attempt : Client F → ℕ → Attempt → Call F → Call F
  by_attempt c attempt (answered text) rest = stops (completed text) []
  by_attempt c attempt (refused status retry_after) rest =
      if not (is_retryable status) || leb c.max_retries attempt
      then stops (status_error status) []
      else again (backoff_seconds c attempt retry_after) rest
  by_attempt c attempt unreachable rest =
      if leb c.max_retries attempt
      then stops request_error []
      else again (backoff_seconds c attempt none) rest
  by_attempt c attempt malformed rest = stops other_error []

  -- `for attempt in range(self.max_retries + 1)` of `complete`, by the number of passes left
  unfoldable pub complete_from : Client F → (ℕ → Attempt) → ℕ → ℕ → Call F
  complete_from c network zero attempt = record {
    result = fell_through;
    yielded = [];
    requests = 0;
    waits = [];
  }
  complete_from c network (suc left) attempt =
      let rest = complete_from c network left (attempt + 1) in
      by_attempt c attempt (network attempt) rest

  -- `complete`
  unfoldable pub complete : Client F → (ℕ → Attempt) → Call F
  complete c network = complete_from c network (suc c.max_retries) 0

  -- `complete_json`; none where the call raises, or the reply has no JSON
  unfoldable pub complete_json :
      (J : Type 0) ⦃json : Json J⦄ ⦃texts : Texts⦄ → Client F → (ℕ → Attempt) → Option J
  complete_json J c network = elim (complete c network).result [
    | completed text ↦ extract_json J (some text)
    | _ ↦ none
  ]

  module _ (J : Type 0) ⦃json : Json J⦄ ⦃texts : Texts⦄ where
    -- the body of the loop of `complete_stream`
    unfoldable pub by_stream : Client F → ℕ → StreamAttempt → Call F → Call F
    by_stream c attempt (declined status retry_after) rest =
        if not (is_retryable status) || leb c.max_retries attempt
        then stops (status_error status) []
        else again (backoff_seconds c attempt retry_after) rest
    by_stream c attempt (streamed lines closed) rest = stops stream_done (stream_tokens J lines)
    by_stream c attempt (streamed lines cut) rest =
        if not (is_empty (stream_tokens J lines)) || leb c.max_retries attempt
        then stops request_error (stream_tokens J lines)
        else again (backoff_seconds c attempt none) rest

    -- the loop of `complete_stream`, by the number of passes left
    unfoldable pub stream_from : Client F → (ℕ → StreamAttempt) → ℕ → ℕ → Call F
    stream_from c network zero attempt = record {
      result = fell_through;
      yielded = [];
      requests = 0;
      waits = [];
    }
    stream_from c network (suc left) attempt =
        let rest = stream_from c network left (attempt + 1) in
        by_stream c attempt (network attempt) rest

    -- `complete_stream`
    unfoldable pub complete_stream : Client F → (ℕ → StreamAttempt) → Call F
    complete_stream c network = stream_from c network (suc c.max_retries) 0
