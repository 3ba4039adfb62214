-- ===== src/Examples/Associations.antt =====
-- Inputs for src/yaz-pdu-assoc.cpp.
use yazpp.Prelude.{◌≡◌, refl, inl, inr, List, [], ◌∷◌, ◌++◌, none, some, true, false, All}
use yazpp.Prelude.Int.{ℤ, pos}
use yazpp.PduAssoc.State.{
  State, connecting, ready, writing, closed, Packet, nil, child, Priv, Assoc, put, connect_notify,
  init, shutdown, set_state, set_queue, set_dead,
}
use yazpp.PduAssoc.Output.{Answer, events, flush_pdu, close_session}
use yazpp.PduAssoc.Notify.{Net, Observer, socket_notify}
use yazpp.PduAssoc.Safety.{WellFormed}
use yazpp.PduAssoc.Events.{Cooperates, GoodResult, socket_notify-Good}
use yazpp.PduAssoc.Sending.{Kept}
use yazpp.PduAssoc.Stream.{Output, sends, writable, run_output, run_output-Kept}
use yazpp.PduAssoc.Waiting.{NoPut, LeavesQueue}
use yazpp.PduAssoc.Backlog.{Activity, run_activity, connected_backlog}
use yazpp.PduAssoc.Backlog as Backlog
use yazpp.PduAssoc.Closing.{
  closed_fds, held_fds, AllShut, NotTold, shutdown_closes_all, close_session_deferred,
}

-- A connection on descriptor 7, with some packages queued.
abbrev priv_of : State → List Packet → Priv
priv_of s queue = record (init 1) { observer = some 3; state = s; cs = some 7; queue_out = queue }

abbrev assoc_of : State → List Packet → Assoc
assoc_of s queue = record { priv = priv_of s queue; children = nil }

-- What COMSTACK returns, with nothing pending.
abbrev answer : ℤ → Answer
answer res = record { res = res; pending = record { want_read = false; want_write = false } }

-- A socket on which one package arrives.
abbrev net : Net
net = record {
  accepted = none;
  rcvconnect = answer (pos 0);
  listened = pos 1;
  new_line = none;
  gets = record { answer = answer (pos 3); input = 1 ∷ 2 ∷ 3 ∷ []; more = false } ∷ [];
  flushed = answer (pos 0);
}

-- An observer that only listens.
abbrev listener : Observer
listener = record { recv_pdu = λ buf a. (some a, []); connected = λ a. (a, []) }

listener-Cooperates : Cooperates listener
listener-Cooperates = record {
  recv_ok = λ buf a v. record { state_ok = v; calls_ok = tt };
  connected_ok = λ a v. record { state_ok = v; calls_ok = tt };
}

listener-LeavesQueue : LeavesQueue listener
listener-LeavesQueue = λ buf a s. (inl s, tt)

ready-WellFormed : WellFormed (assoc_of ready [])
unfolding init
ready-WellFormed = record { live = inr refl; queued = inr refl; busy = λ e. cc }

socket_notify-Good_example :
    GoodResult (socket_notify listener net (events true false) (assoc_of ready []))
socket_notify-Good_example =
    socket_notify-Good listener listener-Cooperates net (events true false) (assoc_of ready [])
      ready-WellFormed

abbrev outputs : List Output
outputs =
    sends (5 ∷ []) (answer (pos 1))
    ∷ sends (6 ∷ []) (answer (pos 0))
    ∷ writable (answer (pos 0))
    ∷ []

run_output-Kept_example :
    let (b, calls, taken) = run_output outputs (assoc_of ready []) in
    Kept ((assoc_of ready []).queue_out ++ taken) b calls
run_output-Kept_example = run_output-Kept outputs (assoc_of ready [])

abbrev backlog : List Packet
backlog = (5 ∷ []) ∷ (6 ∷ []) ∷ []

abbrev later : List Activity
later = Backlog.sends (7 ∷ []) (answer (pos 0)) ∷ Backlog.event_of net (events true true) ∷ []

connected_backlog_example :
    let b = set_queue ((6 ∷ []) ∷ []) (set_state ready (assoc_of connecting backlog)) in
    (socket_notify listener net (events false true) (assoc_of connecting backlog)
      ≡ some (some b, connect_notify (some 3) ∷ put (5 ∷ []) true ∷ []))
    × All NoPut (run_activity listener later b)
unfolding init
connected_backlog_example =
    connected_backlog listener listener-LeavesQueue net (events false true)
      (assoc_of connecting backlog) 3 (5 ∷ []) (6 ∷ []) [] later refl refl refl refl refl (λ e. cc)
      refl refl

-- A listener with two children, one of which has a child of its own.
abbrev family : Assoc
family = record {
  priv = priv_of ready [];
  children =
      child (record (init 2) { cs = some 8 }) (child (record (init 4) { cs = some 9 }) nil nil)
        (child (init 5) nil nil);
}

shutdown_closes_all_example :
    (closed_fds (shutdown family).1 ≡ held_fds family)
    × ((shutdown family).0.state ≡ closed)
    × ((shutdown family).0.cs ≡ none)
    × ((shutdown family).0.queue_out ≡ [])
    × AllShut (shutdown family).0.children
shutdown_closes_all_example = shutdown_closes_all family

close_session_deferred_example :
    let a = assoc_of writing ((5 ∷ []) ∷ []) in
    let dead = set_dead true a in
    let (b, calls, r) = flush_pdu (answer (pos 0)) dead in
    (close_session a ≡ (dead, [])) × (b.state ≡ closed) × (b.cs ≡ none) × All NotTold calls
unfolding init
close_session_deferred_example =
    close_session_deferred (assoc_of writing ((5 ∷ []) ∷ [])) (5 ∷ []) (answer (pos 0)) refl refl
      refl
