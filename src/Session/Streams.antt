-- ===== src/Session/Streams.antt =====
-- src/voice/session.py: the streaming twin of `handle_user_turn`.
use autonomous_sales_agent.Prelude.{String, Option, none, some, List, [], if◌then◌else◌}
use autonomous_sales_agent.Float.{Floating}
use autonomous_sales_agent.Dict.{insert}
use autonomous_sales_agent.Config.{AgentConfig}
use autonomous_sales_agent.Decision.{Decision}
use autonomous_sales_agent.Belief.{BeliefState}
use autonomous_sales_agent.Gates.Reads.{Patterns}
use autonomous_sales_agent.Tracker.Cues.{Cues}
use autonomous_sales_agent.Respond.{Input}
use autonomous_sales_agent.Consent.{Phase}
use autonomous_sales_agent.Knowledge.{Texts, Fact}
use autonomous_sales_agent.Replies.{Spoken, respond_stream}
use autonomous_sales_agent.Session.{RetrieveCues, should_retrieve, PendingTurn, Session, blocked_by}

-- a `ConsentError`, or the tokens that are yielded with the session after them
pub data Streamed (F : Type 0) : Type 0 where
  stopped : Phase → Streamed F
  yielded : List String → Session F → Streamed F

-- what `realize_stream` yields for a decided turn
abbrev pub RealizeStream : Type 0 → Type 0
RealizeStream F = Decision F → BeliefState F → List String → List String

module _ {F : Type 0} ⦃fl : Floating F⦄ ⦃cues : Cues⦄ ⦃pt : Patterns⦄ ⦃texts : Texts⦄
    ⦃rc : RetrieveCues⦄ where
  -- `_maybe_retrieve`, of facts
  abbrev pub retrieved_facts : Option (String → List (Fact F)) → String → List (Fact F)
  retrieved_facts none user_text = []
  retrieved_facts (some hook) user_text = if should_retrieve user_text then hook user_text else []

  -- the turn that a finished stream leaves in the buffer
  abbrev pub streamed_turn : String → Spoken F → PendingTurn F
  streamed_turn user_text out = record {
    user_text = user_text;
    decision = out.decision;
    reply_text = out.reply;
    new_belief = out.belief;
  }

  -- the body once consent allows
  unfoldable pub stream_turn :
      AgentConfig F
      → Option (String → List (Fact F))
      → Session F
      → String
      → Input F
      → RealizeStream F
      → Streamed F
  unfolding respond_stream
  stream_turn c hook s speech_id input realize_stream =
      let (parts, out) =
        respond_stream s.belief s.history input c realize_stream
          (retrieved_facts hook input.utterance) in
      yielded parts
        (record s { pending = insert speech_id (streamed_turn input.utterance out) s.pending })

  unfoldable pub handle_user_turn_stream :
      AgentConfig F
      → Option (String → List (Fact F))
      → Session F
      → String
      → Input F
      → RealizeStream F
      → Streamed F
  unfolding blocked_by
  handle_user_turn_stream c hook s speech_id input realize_stream = elim (blocked_by s) [
    | some state ↦ stopped state
    | none ↦ stream_turn c hook s speech_id input realize_stream
  ]
