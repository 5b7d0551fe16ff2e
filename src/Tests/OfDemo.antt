-- ===== src/Tests/OfDemo.antt =====
-- The theorems on the demo's routes, at a service with room for two calls.
use autonomous_sales_agent.Prelude.{
  ◌≡◌, refl, true, false, not, ◌&&◌, ◌||◌, none, some, [], ◌∷◌, List, arith,
}
use autonomous_sales_agent.Float.{Millis, millis_floating}
use autonomous_sales_agent.Consent.{end_call, can_record, can_converse}
use autonomous_sales_agent.Worker.Turns.{is_minor_text}
use autonomous_sales_agent.Worker.Seeding.{proceeds}
use autonomous_sales_agent.Demo.{
  Service, Stores, ConsentAnswer, call_ended, already_ended, end_result, new_call, consent_respond,
  session_end,
}
use autonomous_sales_agent.Demo.Chats.{Request, starts, responds, chats, ends, serve_all, chat}
use autonomous_sales_agent.Demo.Bounds.{IsBounded, serve_all-IsBounded}
use autonomous_sales_agent.Demo.Ends.{session_end-twice}
use autonomous_sales_agent.Demo.Gated.{answers, says, is_refusal, take_steps, chat-is_refusal}
use autonomous_sales_agent.Demo.Answers.{consent_respond-allows}
use autonomous_sales_agent.Dict.{lookup}
use autonomous_sales_agent.Tests.Samples.{
  config, patterns, cues, retrieve_cues, redactors, texts, minor_cues,
}

abbrev service : Service Millis
service = record {
  config = config;
  policy = end_call;
  max_sessions = 2;
  retrieve = none;
  hydrate = λ hash. none;
  input = λ text. record {
    utterance = text;
    extracted = λ asked. [];
    reply = none;
    upstream_act = none;
    proposal = none;
    facts = [];
  };
  realize = λ d. "hello";
  rationale_text = λ r. "";
  speech_id = λ n. "s-1";
  persist_call_end = λ call raw. ("ep-1", "in_progress");
  has_secrets = false;
}

abbrev accepts : ConsentAnswer
accepts = record {
  ai_acknowledged = true;
  recording_consent = true;
  is_minor = some true;
  parental_consent = some true;
  caller_hash = none;
}

abbrev requests : List Request
requests =
    starts "a" "CA" "text"
    ∷ responds "a" accepts
    ∷ chats "a" "what does it cost"
    ∷ ends "a" none
    ∷ []

serve_all-IsBounded_example :
    IsBounded service (serve_all service (record { sessions = []; ended_results = [] }) requests)
serve_all-IsBounded_example =
    serve_all-IsBounded service (record { sessions = []; ended_results = [] }) requests
      (omega arith, omega arith)

consent_respond-allows_example :
    let gate = (consent_respond service (new_call service "CA" "text") accepts).1.gate in
    (can_record gate ≡ true && (not true || true))
    × (can_converse gate ≡ (true || proceeds end_call) && (not true || true))
consent_respond-allows_example =
    consent_respond-allows service (new_call service "CA" "text") "CA" accepts refl

abbrev one_call : Stores Millis
one_call = record { sessions = ("a", new_call service "CA" "text") ∷ []; ended_results = [] }

found_call : lookup "a" one_call.sessions ≡ some (new_call service "CA" "text")
unfolding lookup
found_call = refl

session_end-twice_example :
    let st' = (session_end service one_call "a" none).1 in
    ((session_end service one_call "a" none).0
      ≡ call_ended (end_result service (new_call service "CA" "text") none))
    × (session_end service st' "a" (some "555") ≡ (
      call_ended (already_ended (end_result service (new_call service "CA" "text") none)),
      st',
    ))
session_end-twice_example =
    session_end-twice service one_call "a" none (some "555") (new_call service "CA" "text")
      (omega arith) found_call

chat-is_refusal_example :
    let call =
      take_steps service (new_call service "CA" "text") (answers accepts ∷ says "hi" ∷ []) in
    is_refusal (chat service call "I am in 9th grade").0
    ≡ not (can_converse call.gate && not (is_minor_text Millis minor_cues "I am in 9th grade"))
chat-is_refusal_example =
    chat-is_refusal service "CA" "text" (answers accepts ∷ says "hi" ∷ []) "I am in 9th grade"
