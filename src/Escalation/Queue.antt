-- ===== src/Escalation/Queue.antt =====
-- The review queue of src/memory/store.py: the table of escalations by their identifiers, each statement a
-- transaction on it.
use autonomous_sales_agent.Prelude.{
  String, Bool, true, false, ◌&&◌, ◌≡◌, Option, none, some, List, [], ◌∷◌, all, member,
  if◌then◌else◌, arith,
}
use autonomous_sales_agent.Dict.{lookup, insert}
use autonomous_sales_agent.Escalation.{EscalationLog}

abbrev Queue : Type 0
Queue = List (String × EscalationLog)

-- `_ESCALATION_LIFECYCLES`
abbrev escalation_lifecycles : List String
escalation_lifecycles = "unreviewed" ∷ "reviewed" ∷ "resolved" ∷ "dismissed" ∷ []

-- `save_escalation`
unfoldable save_escalation : String → EscalationLog → Queue → Queue
save_escalation id e queue = insert id e queue

-- `get_escalation`
unfoldable get_escalation : String → Queue → Option EscalationLog
get_escalation id queue = lookup id queue

-- the `UPDATE`, with whether a row was there
abbrev set_lifecycle : String → String → Option EscalationLog → Queue → Bool × Queue
set_lifecycle id lifecycle none queue = (false, queue)
set_lifecycle id lifecycle (some e) queue =
    (true, insert id (record e { lifecycle = lifecycle }) queue)

-- `update_escalation_lifecycle`; `none` is its `ValueError`
unfoldable update_escalation_lifecycle : String → String → Queue → Option (Bool × Queue)
update_escalation_lifecycle id lifecycle queue =
    if member lifecycle escalation_lifecycles
    then some (set_lifecycle id lifecycle (lookup id queue) queue)
    else none

-- a row in one of the four states
abbrev is_triaged : EscalationLog → Bool
is_triaged e = member e.lifecycle escalation_lifecycles

-- every row is
abbrev all_triaged : Queue → Bool
all_triaged queue = all (λ row. is_triaged row.1) queue

insert-all_triaged :
    (id : String) (e : EscalationLog) (queue : Queue)
    → is_triaged e ≡ true
    → all_triaged queue ≡ true
    → all_triaged (insert id e queue) ≡ true
unfolding insert
insert-all_triaged id e [] t h = ground arith
insert-all_triaged id e ((name, old) ∷ queue) t h =
    let ih = insert-all_triaged id e queue t in ground arith

-- what a session does with the queue
data Request : Type 0 where
  save : String → EscalationLog → Request
  update_lifecycle : String → String → Request

-- a request that raises leaves the table
abbrev after_update : Queue → Option (Bool × Queue) → Queue
after_update queue none = queue
after_update queue (some (found, e)) = e

unfoldable handle_request : Queue → Request → Queue
handle_request queue (save id e) = save_escalation id e queue
handle_request queue (update_lifecycle id lifecycle) =
    after_update queue (update_escalation_lifecycle id lifecycle queue)

unfoldable handle_requests : Queue → List Request → Queue
handle_requests queue [] = queue
handle_requests queue (r ∷ requests) = handle_requests (handle_request queue r) requests

-- the entries that requests save are in one of the four states
abbrev saves_triaged : List Request → Bool
saves_triaged [] = true
saves_triaged (save id e ∷ requests) = is_triaged e && saves_triaged requests
saves_triaged (update_lifecycle id lifecycle ∷ requests) = saves_triaged requests

set_lifecycle-all_triaged :
    (id lifecycle : String) (found : Option EscalationLog) (queue : Queue)
    → member lifecycle escalation_lifecycles ≡ true
    → all_triaged queue ≡ true
    → all_triaged (set_lifecycle id lifecycle found queue).1 ≡ true
set_lifecycle-all_triaged id lifecycle none queue valid h = h
set_lifecycle-all_triaged id lifecycle (some e) queue valid h =
    insert-all_triaged id (record e { lifecycle = lifecycle }) queue valid h

update-all_triaged :
    (id lifecycle : String) (queue : Queue)
    → all_triaged queue ≡ true
    → all_triaged (after_update queue (update_escalation_lifecycle id lifecycle queue)) ≡ true
unfolding update_escalation_lifecycle
update-all_triaged id lifecycle queue h =
    let kept = set_lifecycle-all_triaged id lifecycle (lookup id queue) queue in ground arith

-- Requests keep every row of the queue in one of the four states, whatever state an update asks for.
handle_requests-all_triaged :
    (queue : Queue) (requests : List Request)
    → all_triaged queue ≡ true
    → saves_triaged requests ≡ true
    → all_triaged (handle_requests queue requests) ≡ true
unfolding handle_requests handle_request save_escalation
handle_requests-all_triaged queue [] h s = h
handle_requests-all_triaged queue (save id e ∷ requests) h s =
    let here = insert-all_triaged id e queue in
    let ih = handle_requests-all_triaged (insert id e queue) requests in ground arith
handle_requests-all_triaged queue (update_lifecycle id lifecycle ∷ requests) h s =
    handle_requests-all_triaged
      (after_update queue (update_escalation_lifecycle id lifecycle queue)) requests
      (update-all_triaged id lifecycle queue h) s
