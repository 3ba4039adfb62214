-- ===== src/PduAssocThread/Ending.antt =====
-- src/yaz-pdu-assoc-thread.cpp: what the thread of a connection comes to.
use yazpp.Prelude.{
  ℕ, true, false, ◌≡◌, ◌↔◌, refl, subst, List, [], ◌∷◌, Option, none, some, All, arith,
}
use yazpp.Prelude.Int.{ℤ, pos}
use yazpp.SocketManager.Registry.{Entry, Event, Manager, lookup_observer}
use yazpp.SocketManager.Turn.{PollAnswer, turned, process_event}
use yazpp.SocketManager.Safety.{Live}
use yazpp.PduAssoc.Output.{Pending}
use yazpp.PduAssocThread.{
  Worker, Handler, Input, went_on, finished, child_notify, threaded, after_turn, pass, run,
}
use yazpp.PduAssocThread.Attached.{is_open}
use yazpp.PduAssocThread.Attached.Events.{Keeps}
use yazpp.PduAssocThread.Observed.{Holds}
use yazpp.PduAssocThread.Passes.{Serves, PassOk, pass-ok, RunOk, nobody_left, run-ok}
use yazpp.PduAssocThread.Accepting.{ServedOk, child_notify-Serves}

nobody_queued : (this : ℕ) (m : Manager) → Holds this false m → m.queue ≡ []
unfolding lookup_observer
nobody_queued this m h = none_live m.queue h.well_formed.live
  where
    none_live : (q : List Event) → All (Live m.observers) q → q ≡ []
    none_live [] l = refl
    none_live (e ∷ q) l = ground (arith, h.only e.observer, l.0)

empty_turn :
    (now later : ℕ) (answers : List PollAnswer) (es : List Entry) (q : List Event)
    → es ≡ []
    → q ≡ []
    → process_event now later answers (record { observers = es; queue = q })
      ≡ turned (record { observers = es; queue = q }) none (pos 0)
unfolding process_event
empty_turn now later answers [] [] e f = refl
empty_turn now later answers (p ∷ es) q e f = cc
empty_turn now later answers es (p ∷ q) e f = cc

closed_finishes :
    (this : ℕ) (h : Handler) (i : Input) (w : Worker)
    → Serves this w
    → is_open w.assoc ≡ false
    → pass h i w ≡ finished w
unfolding pass after_turn
closed_finishes this h i w s over =
    let holds = subst (λ b. Holds this b w.manager) over s.holds in
    rw
      (empty_turn i.now i.later i.answers w.manager.observers w.manager.queue
        (nobody_left this w.manager holds) (nobody_queued this w.manager holds))
      refl

at_work :
    (this : ℕ) (h : Handler) (i : Input) (w : Worker)
    → Keeps this h
    → Serves this w
    → (is_open w.assoc ≡ false) ↔ (pass h i w ≡ finished w)
at_work this h i w k s =
    (closed_finishes this h i w s, λ f. (subst (PassOk this w) f (pass-ok this h i w k s)).1)

-- Whatever happens on a connection that is served by a thread, for an observer that keeps to its
-- association: no event reaches an object that is not the worker's association, no null connection
-- is read, the manager has the association registered exactly as long as it is open, and a thread
-- that is over leaves it closed or deleted and the manager empty.
pub run-served :
    (memory : ℤ) (this fd : ℕ) (pending : Pending) (session : Option ℕ) (h : Handler)
    (is : List Input) (w : Worker)
    → Keeps this h
    → child_notify memory this fd pending session true ≡ some (threaded w)
    → RunOk this (run h is w)
run-served memory this fd pending session h is w k made =
    run-ok this h is w k (
      subst (ServedOk this fd memory) made
        (child_notify-Serves memory this fd pending session true))

-- A thread that is still at work ends in its next pass exactly if its association is closed or
-- deleted, for an observer that keeps to its association.
pub thread_ends :
    (memory : ℤ) (this fd : ℕ) (pending : Pending) (session : Option ℕ) (h : Handler)
    (is : List Input) (i : Input) (w w' : Worker)
    → Keeps this h
    → child_notify memory this fd pending session true ≡ some (threaded w)
    → run h is w ≡ went_on w'
    → (is_open w'.assoc ≡ false) ↔ (pass h i w' ≡ finished w')
thread_ends memory this fd pending session h is i w w' k made e =
    at_work this h i w' k
      (subst (RunOk this) e (run-served memory this fd pending session h is w k made))
