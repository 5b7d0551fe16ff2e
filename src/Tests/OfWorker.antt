-- ===== src/Tests/OfWorker.antt =====
-- The theorems on the worker: the end of a call at a close that was turned down, the question for consent
-- at sample answers, and a gate that a refusal has left unrecorded.
use autonomous_sales_agent.Prelude.{
  ◌≡◌, refl, true, none, ◌||◌, false, not, ◌&&◌, ◌==◌, some, List, [], ◌∷◌, truthy,
}
use autonomous_sales_agent.Float.{Millis, millis_floating}
use autonomous_sales_agent.Session.{CapturedTurn}
use autonomous_sales_agent.Worker.{last_committed_act, on_shutdown}
use autonomous_sales_agent.Worker.Endings.{is_terminal, on_shutdown-in_progress}
use autonomous_sales_agent.Consent.{
  ConsentGate, proceed_unrecorded, end_call, new_gate, can_record, can_converse, detect_minor,
  text_flags_minor, flag_minor, refuse_recording, acknowledge_ai,
}
use autonomous_sales_agent.Session.{new_session, blocked_by, commit_turn}
use autonomous_sales_agent.Dict.{lookup}
use autonomous_sales_agent.Worker.{ReplyCues, classify_consent_reply}
use autonomous_sales_agent.Worker.Turns.{
  WorkerAgent, CallEvent, user_turn, speech_done, after_hook, is_minor_text, on_user_turn_completed,
  handle_events, handle_event, on_done, commit_pending, capture_post_commit, handle_consent_turn,
  answer_gate, stash_turn, arm_spoken_consent,
}
use autonomous_sales_agent.Worker.Turns.Gated.{new_call, is_closed, IsQuiet, handle_events-IsQuiet}
use autonomous_sales_agent.Worker.Turns.Answers.{
  IsAsking, is_recorded, on_user_turn_completed-answer, two_answers-settle,
}
use autonomous_sales_agent.Worker.Seeding.{
  seed_gate_from_metadata, consent_room_metadata, waits_for_parent, proceeds, seed_gate-mirrors,
}
use autonomous_sales_agent.Tests.Samples.{
  patterns, cues, retrieve_cues, redactors, texts, minor_cues, minor_cues,
}
use autonomous_sales_agent.Tests.OfGrading.{pitched}

abbrev turned_down : List (CapturedTurn Millis)
turned_down =
    record (pitched "shall we enroll?") { decision = some "attempt_close" }
    ∷ pitched "let me explain"
    ∷ []

on_shutdown-in_progress_example :
    (on_shutdown turned_down false (some "enrollment")).outcome == "in_progress"
    ≡ truthy (some "enrollment") && not (is_terminal (last_committed_act turned_down))
on_shutdown-in_progress_example = on_shutdown-in_progress turned_down false (some "enrollment")

instance abbrev reply_cues : ReplyCues
reply_cues = record {
  strip = λ s. s;
  says_no = λ s. s == "no thanks";
  says_yes = λ s. s == "yes that is fine";
}

abbrev gate : ConsentGate
gate = new_gate "CA" end_call

abbrev asked : WorkerAgent Millis
asked = new_call "kb1" (some gate) true

asked-IsAsking : IsAsking asked gate
unfolding arm_spoken_consent new_session
asked-IsAsking = record { gate_kept = refl; waits = refl; fresh_gate = refl; ungranted = refl }

on_user_turn_completed-answer_example :
    let b = after_hook (on_user_turn_completed asked "yes that is fine") in
    (is_recorded b
      ≡ not (is_minor_text Millis minor_cues "yes that is fine")
        && (classify_consent_reply (some "yes that is fine") == "yes"))
    × (b.awaiting_consent
        ≡ not (is_minor_text Millis minor_cues "yes that is fine")
          && (not (classify_consent_reply (some "yes that is fine") == "yes")
              && not (classify_consent_reply (some "yes that is fine") == "no")
              && not asked.consent_reasked))
on_user_turn_completed-answer_example =
    on_user_turn_completed-answer asked gate "yes that is fine" refl asked-IsAsking

two_answers-settle_example :
    (after_hook (
      on_user_turn_completed
        (after_hook (on_user_turn_completed asked "who is this"))
        "what")).awaiting_consent
    ≡ false
two_answers-settle_example =
    two_answers-settle asked gate "who is this" "what" refl refl asked-IsAsking

-- a caller who says to be a minor, and then something else
abbrev minor_events : List (CallEvent Millis)
minor_events =
    user_turn "I am in 9th grade" ∷ user_turn "what does it cost" ∷ speech_done "t-1" false ∷ []

minor_closed : is_closed (handle_events asked minor_events) ≡ true
unfolding handle_events handle_event on_done commit_pending capture_post_commit lookup
    on_user_turn_completed handle_consent_turn answer_gate stash_turn blocked_by arm_spoken_consent
    new_session detect_minor text_flags_minor flag_minor can_converse commit_turn
minor_closed = refl

handle_events-IsQuiet_example : IsQuiet (handle_events asked minor_events)
handle_events-IsQuiet_example =
    handle_events-IsQuiet "kb1" (some gate) true minor_events minor_closed

-- the browser's gate after a refusal goes on, the worker's policy is to end
abbrev refused : ConsentGate
refused = refuse_recording (acknowledge_ai (new_gate "CA" proceed_unrecorded))

seed_gate-mirrors_example :
    let s = (seed_gate_from_metadata gate (consent_room_metadata refused none)).0 in
    (can_record s ≡ can_record refused)
    × (can_converse s ≡ can_converse refused && (can_record refused || proceeds end_call))
    × (waits_for_parent s.state ≡ waits_for_parent refused.state)
seed_gate-mirrors_example = seed_gate-mirrors refused none "CA" end_call
