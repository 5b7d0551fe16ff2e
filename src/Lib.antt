-- ===== src/Lib.antt =====
-- A verification library for the sales agent: the decision core that the text and the voice channel
-- share, the checks of its replies, the consent gate and the voice session around it, the memory of a
-- caller, the self-play that measures the agent, and the gate that promotes a new version.
--
-- The program's parts and their files here:
--   Float, Dict, Prelude: what the interpreter supplies (floats, dictionaries), and shared helpers.
--   Config: src/config/settings.py and the threshold table of src/core/gates.py.
--   Decision: the acts, tiers and decisions of src/core/policy.py.
--   Belief: src/core/belief_state.py; Belief/Drivers is on its levels and its stored form.
--   Tracker: src/core/dst.py. `update` folds an utterance into a belief: slots by confidence
--     arbitration (Tracker/Slots), the grounded intent (Tracker/Intent), the books (Tracker/Update).
--     Tracker/Extract holds the slot extractors.
--   Gates: src/core/gates.py, one definition for each gate, and `apply_gates` in Gates/Chain, whose
--     children prove what the chain as a whole lets through.
--   Policy: src/core/policy.py. `decide` parses the model's proposal and runs the gates on it.
--   Respond: src/core/respond.py. `decide_turn` is the tracker, the policy and the bookkeeping of one
--     turn; Respond/Calls folds it over a call.
--   Knowledge: the groundedness check of src/kb/retriever.py, and the texts it reads.
--   Replies: the rest of src/core/respond.py, with the test for a repetition of src/core/nlg.py.
--     `respond` words a decided turn, checks the wording against the facts and against the agent's own
--     last lines, and may ask for another; `respond_stream` only flags.
--   Llm: src/core/llm.py, the client's retries and its reading of replies and streams.
--   Prospect: src/sim/prospect.py, the simulated prospect with its buy gate.
--   SelfPlay: src/sim/selfplay.py. `run_episode` lets `react` of Prospect and `respond` of Replies take
--     turns until the prospect or the agent ends the dialogue, or the turns are spent.
--   Consent: src/voice/consent.py, a state machine with one function for each transition.
--   Session: src/voice/session.py. A turn is generated into a buffer by `decide_turn`, under the
--     consent gate, and committed, discarded or interrupted. Session/Streams is the streaming twin.
--   Generator: src/loop/generator.py. Generator/Diff is the declared diff and the builders of a
--     challenger; `generate_challengers` draws its candidates.
--   Promotion, Versions: src/loop/promotion.py, the guardrail test of src/loop/grading.py, and the
--     lineage table of src/memory/store.py. Promotion/Rounds folds rounds of improvement over the table.
--   Grading: src/loop/grading.py, the groundedness and the guardrails of a logged episode, and the
--     report of an arm of src/loop/experiment.py, which the promotion gate reads.
--   Leads: the lead memory of src/memory/store.py, its upsert and merge.
--   Hydrate: src/memory/hydrate.py, a caller's memory into a belief and back to the table of leads.
--   Escalation: src/voice/escalation.py, the hand-off to the review queue and the takeover of a
--     session; the queue of src/memory/store.py.
--   Worker: src/voice/worker.py and src/api/persistence.py, the outcome of a call that disconnects.
--     Worker/Turns is the agent of a live call, over the session: the question for consent, the stash
--     of a turn, `llm_node` and the commits. Worker/Seeding is the gate of a call that the browser
--     starts, from the metadata that src/api/demo_routes.py writes.
--   Demo: src/api/demo_routes.py, the routes of a demo call in the browser and the bounded stores of
--     calls. Demo/Chats has a chat, by way of Session and Escalation, and the routes as steps.
--   Tests: the theorems at concrete inputs.
--
-- How the code is modelled. Mutation of a belief or a session is state passing: a gate that mutates
-- the belief returns it beside the decision. A dictionary is an association list with Python's order
-- of keys. A free-form `meta` is a record of the keys that the modelled code reads or writes, a
-- missing key at its default. A log text is a constructor with the values that the text shows.
-- A float is a parameter type with the comparisons, arithmetic and literals of Float.antt; theorems that
-- need laws of it take them as `IsOrdered`: those of IEEE comparison with NaN, and that the literals of
-- three decimals from 0 to 1 are in order. Counts are
-- natural numbers. The loops are over lists, but for three: the retries of the client recurse on the
-- passes left, one more than the budget of retries, as its `range` does; the attempts at a challenger
-- recurse on the attempts left, max(n * 4, 4) as in the source; the dialogue of an episode recurses on
-- fuel, one more than `max_turns`, and each pass counts a turn or ends.
--
-- Parameters, since the interpreter, the store or the network supplies them: the regular expressions
-- (`Patterns`, `Cues`, `RetrieveCues`, `MinorCues`, `ReplyCues`, `Redactors`) and the methods of `str`
-- (`Texts`), `json` (`Json`, `Storage`), the hash of a phone (`Phones`), the draws of a seeded generator
-- (`Random`), the answers of the network and the language model, the retrieved facts, the wording of a
-- reply by the way it is asked for, the hooks of a live call (`Brain`) and of the demo's routes
-- (`Service`), the seeded noise of self-play, and the outcome of an experiment. The slot extractors
-- (Tracker/Extract) stand over what their regular expressions find (`SlotPatterns`); `update` takes
-- what they return as an input.
--
-- Not modelled: the prompts (src/core/nlg.py, src/sim), the ranking of facts by embeddings (src/kb),
-- the cost accounting (src/core/cost.py), the rest of the HTTP service (src/api), the audio side of the
-- LiveKit worker, and the statistics of src/loop. They build text, do I/O, or resample measurements.
mod Prelude
pub mod Float
pub mod Dict
pub mod Config
pub mod Decision
pub mod Belief
pub mod Tracker
pub mod Gates
pub mod Policy
pub mod Respond
pub mod Consent
pub mod Session
pub mod Promotion
pub mod Versions
pub mod Leads
pub mod Tests
pub mod Knowledge
pub mod Prospect
pub mod SelfPlay
pub mod Llm
pub mod Hydrate
pub mod Escalation
pub mod Replies
pub mod Grading
pub mod Worker
pub mod Demo
pub mod Generator
