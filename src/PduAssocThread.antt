-- ===== src/PduAssocThread.antt =====
-- src/yaz-pdu-assoc-thread.cpp: an association that serves each accepted connection in a thread of
-- its own. The thread runs a socket manager that holds nothing but the connection's association,
-- so a worker is the two together. What the observer of the connection does is a parameter.
pub mod Attached
pub mod Observed
pub mod Passes
pub mod Accepting
pub mod Ending
use yazpp.Prelude.{
  ℕ, Bool, true, false, ◌||◌, List, [], ◌∷◌, ◌++◌, Option, none, some, if◌then◌else◌, ◌==◌,
}
use yazpp.Prelude.Int.{ℤ, pos, negsuc, ltb_ℤ}
use yazpp.Mask.{Mask}
use yazpp.SocketManager.Registry.{Event, Manager, new}
use yazpp.SocketManager.Registry
use yazpp.SocketManager.Turn.{PollAnswer, Turn, aborted, polling, turned, process_event}
use yazpp.PduAssoc.State.{
  Assoc, Call, add_observer, delete_observer, mask_observer, timeout_observer, cs_close, put,
  fail_notify, timeout_notify, connect_notify, shutdown, set_observer,
}
use yazpp.PduAssoc.Output.{Pending}
use yazpp.PduAssoc.Setup.{adopt}
use yazpp.PduAssoc.Notify.{Net, Observer, Outcome, append_calls, socket_notify}

-- `worker`: the manager and the association; `none` once the observer has deleted it.
pub record Worker : Type 0 where
  pub manager : Manager
  pub assoc : Option Assoc

-- A call on the manager of the thread; `none` where the descriptor of a null connection is read.
-- `memory` is what a new entry of the manager holds in `timeout_this`.
unfoldable pub apply_call : ℤ → Call → Manager → Option Manager
apply_call memory (add_observer o) m = some (Registry.add_observer memory (negsuc 0) o m)
apply_call memory (delete_observer o) m = some (Registry.delete_observer o m)
apply_call memory (mask_observer o mask none) m = none
apply_call memory (mask_observer o mask (some fd)) m =
    some (Registry.mask_observer o mask (pos fd) m)
apply_call memory (timeout_observer o t) m = some (Registry.timeout_observer o t m)
apply_call memory _ m = some m

unfoldable pub apply_calls : ℤ → List Call → Manager → Option Manager
apply_calls memory [] m = some m
apply_calls memory (c ∷ calls) m = elim (apply_call memory c m) [
  | none ↦ none
  | some m' ↦ apply_calls memory calls m'
]

-- The observer of a connection: its code during an event, and what it does, at the end of one,
-- when it is told of a failure or of a timeout.
pub record Handler : Type 0 where
  pub observer : Observer
  pub failed : Assoc → Outcome
  pub timed_out : Assoc → Outcome

abbrev pub tells_failure : Call → Bool
tells_failure (fail_notify o) = true
tells_failure _ = false

abbrev pub tells_timeout : Call → Bool
tells_timeout (timeout_notify o) = true
tells_timeout _ = false

abbrev pub any_call : (Call → Bool) → List Call → Bool
any_call p [] = false
any_call p (c ∷ calls) = p c || any_call p calls

unfoldable pub react : Handler → Outcome → Outcome
react h (none, calls) = (none, calls)
react h (some a, calls) =
    if any_call tells_failure calls
    then append_calls calls (h.failed a)
    else if any_call tells_timeout calls
    then append_calls calls (h.timed_out a)
    else (some a, calls)

-- What one pass of the thread's loop meets: the clock before and after the poll, the answers of
-- `yaz_poll` and of COMSTACK, and the memory of a new entry.
pub record Input : Type 0 where
  pub now : ℕ
  pub later : ℕ
  pub answers : List PollAnswer
  pub net : Net
  pub memory : ℤ

-- How a pass ends: the loop goes on or is over, the process stops by an assertion, the poll or the
-- reading of packages has not come to its end, an event reaches an object that is not the worker's
-- association, or a null connection is read.
pub data Pass : Type 0 where
  went_on : Worker → Pass
  finished : Worker → Pass
  failed_assertion waiting dangling null_read : Pass

abbrev pub with_manager : Option Assoc → Option Manager → Pass
with_manager a none = null_read
with_manager a (some m) = went_on (record { manager = m; assoc = a })

unfoldable pub notified : Input → Manager → Option Outcome → Pass
notified i m none = waiting
notified i m (some (a, calls)) = with_manager a (apply_calls i.memory calls m)

-- The notification that `processEvent` makes.
unfoldable pub notify : Handler → Input → Manager → Event → Option Assoc → Pass
notify h i m e none = dangling
notify h i m e (some a) =
    let out : Option Outcome = elim (socket_notify h.observer i.net e.event a) [
      | none ↦ none
      | some o ↦ some (react h o)
    ] in
    if e.observer == a.this then notified i m out else dangling

-- The body and the test of `while (m_mgr->processEvent() > 0)`.
unfoldable pub after_turn : Handler → Input → Option Assoc → Turn → Pass
after_turn h i a aborted = failed_assertion
after_turn h i a polling = waiting
after_turn h i a (turned m none r) =
    let w : Worker = record { manager = m; assoc = a } in
    if ltb_ℤ (pos 0) r then went_on w else finished w
after_turn h i a (turned m (some e) r) = notify h i m e a

unfoldable pub pass : Handler → Input → Worker → Pass
pass h i w = after_turn h i w.assoc (process_event i.now i.later i.answers w.manager)

-- The loop goes on with the worker that a pass leaves.
unfoldable pub resume : (Worker → Pass) → Pass → Pass
resume next (went_on w) = next w
resume next p = p

-- `worker::run`, for as many passes as there are inputs.
unfoldable pub run : Handler → List Input → Worker → Pass
run h [] w = went_on w
run h (i ∷ is) w = resume (run h is) (pass h i w)

-- What `childNotify` makes: nothing where the observer declines the connection, which is shut down
-- and deleted with its manager, or a worker, with whether a thread was created for it. Without one,
-- nothing runs it.
pub data Served : Type 0 where
  declined : List Call → Served
  threaded : Worker → Served
  unserved : Worker → Served

-- From `new worker` on: `created` says that `pthread_create` returned 0.
unfoldable pub serve : Bool → Assoc → Option Manager → Option Served
serve created a none = none
serve true a (some m) = some (threaded (record { manager = m; assoc = some a }))
serve false a (some m) = some (unserved (record { manager = m; assoc = some a }))

-- `session` is the observer that `sessionNotify` returns. The listener's own association is left
-- alone; `none` only where a null connection is read.
unfoldable pub child_notify : ℤ → ℕ → ℕ → Pending → Option ℕ → Bool → Option Served
unfolding adopt
child_notify memory this fd pending session created =
    let (fresh, calls) = adopt this fd pending in
    let (shut, shut_calls) = shutdown fresh in
    elim session [
      | none ↦ some (declined (calls ++ shut_calls))
      | some o ↦ serve created (set_observer (some o) fresh) (apply_calls memory calls new)
    ]
