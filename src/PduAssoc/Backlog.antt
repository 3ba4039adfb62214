-- ===== src/PduAssoc/Backlog.antt =====
-- src/yaz-pdu-assoc.cpp: packages that were queued while the connection was made.
use yazpp.Prelude.{
  ℕ, true, false, ◌≡◌, ◌≢◌, refl, inl, inr, List, [], ◌∷◌, ◌++◌, Option, none, some, is_some, All,
  All-append, arith,
}
use yazpp.Prelude.Int.{pos}
use yazpp.Mask.{Mask}
use yazpp.PduAssoc.State.{
  connecting, ready, Packet, Assoc, Call, put, connect_notify, set_queue, set_state,
}
use yazpp.PduAssoc.Output.{Answer, send_pdu}
use yazpp.PduAssoc.Notify.{Net, Observer, Outcome, socket_notify}
use yazpp.PduAssoc.Waiting.{
  NoPut, Stuck, StuckOrGone, QuietOutcome, QuietResult, LeavesQueue, socket_notify-quiet,
  flush_whole, connecting_step,
}

-- What may happen to an association that is up: a `send_PDU` call, or a socket event.
pub data Activity : Type 0 where
  sends : Packet → Answer → Activity
  event_of : Net → Mask → Activity

send-quiet :
    (answer : Answer) (buf : Packet) (a : Assoc)
    → StuckOrGone a
    → QuietOutcome (some (send_pdu answer buf a).0, (send_pdu answer buf a).1)
unfolding send_pdu
send-quiet answer buf a (inl s) = queue_cases a.queue_out refl
  where
    append-ne-nil : (xs : List Packet) → xs ++ buf ∷ [] ≢ []
    append-ne-nil [] e = cc
    append-ne-nil (x ∷ xs) e = cc

    queue_cases :
        (queue : List Packet)
        → a.queue_out ≡ queue
        → QuietOutcome (some (send_pdu answer buf a).0, (send_pdu answer buf a).1)
    queue_cases [] e = absurd (s.waiting e)
    queue_cases (q ∷ rest) e =
        let s' : Stuck (set_queue (a.queue_out ++ buf ∷ []) a) = record {
          is_ready = s.is_ready;
          up = s.up;
          waiting = append-ne-nil a.queue_out;
        } in
        ground (arith, s')
send-quiet answer buf a (inr g) = ground arith

module _ (obs : Observer) where
  pub activity_step : Activity → Assoc → Option Outcome
  activity_step (sends buf answer) a =
      let (b, calls, r) = send_pdu answer buf a in some (some b, calls)
  activity_step (event_of net event) a = socket_notify obs net event a

  -- The calls of some activities, as far as there is an association.
  abbrev pub calls_of : Option Outcome → (Assoc → List Call) → List Call
  calls_of none next = []
  calls_of (some (none, calls)) next = calls
  calls_of (some (some b, calls)) next = calls ++ next b

  pub run_activity : List Activity → Assoc → List Call
  run_activity [] a = []
  run_activity (x ∷ xs) a = calls_of (activity_step x a) (run_activity xs)

module _ (obs : Observer) (leaves : LeavesQueue obs) where
  activity-quiet : (x : Activity) (a : Assoc) → StuckOrGone a → QuietResult (activity_step obs x a)
  unfolding activity_step
  activity-quiet (sends buf answer) a v = send-quiet answer buf a v
  activity-quiet (event_of net event) a v = socket_notify-quiet obs leaves net event a v

  calls_of-quiet :
      (r : Option Outcome) (next : Assoc → List Call)
      → QuietResult r
      → ((b : Assoc) → StuckOrGone b → All NoPut (next b))
      → All NoPut (calls_of obs r next)
  calls_of-quiet none next q h = tt
  calls_of-quiet (some (none, calls)) next q h = q
  calls_of-quiet (some (some b, calls)) next q h = All-append NoPut calls (next b) q.1 (h b q.0)

  run_activity-quiet :
      (xs : List Activity) (a : Assoc) → StuckOrGone a → All NoPut (run_activity obs xs a)
  unfolding run_activity
  run_activity-quiet [] a v = tt
  run_activity-quiet (x ∷ xs) a v =
      calls_of-quiet (activity_step obs x a) (run_activity obs xs) (activity-quiet x a v)
        (run_activity-quiet xs)

  -- Two packages or more are queued while the connection is being made. The event that completes
  -- it sends the first one whole; then no `send_PDU` call and no socket event whatever hands
  -- another one to COMSTACK, for an observer that does nothing when it is told of the connection
  -- and does not write to COMSTACK by itself when it receives packages.
  pub connected_backlog :
      (net : Net) (event : Mask) (a : Assoc) (o : ℕ) (p q : Packet) (rest : List Packet)
      (xs : List Activity)
      → a.state ≡ connecting
      → is_some a.cs ≡ true
      → a.observer ≡ some o
      → a.queue_out ≡ p ∷ q ∷ rest
      → event.timeout ≡ false
      → net.rcvconnect.res ≢ pos 1
      → net.flushed.res ≡ pos 0
      → obs.connected (set_state ready a) ≡ (set_state ready a, [])
      → let b = set_queue (q ∷ rest) (set_state ready a) in
        (socket_notify obs net event a ≡ some (some b, connect_notify (some o) ∷ put p true ∷ []))
        × All NoPut (run_activity obs xs b)
  connected_backlog net event a o p q rest xs st up ob queue time pend sent told = (
    first_sent,
    run_activity-quiet xs (set_queue (q ∷ rest) (set_state ready a))
        (inl (record { is_ready = refl; up = up; waiting = λ e. cc })),
  )
    where
      first_sent :
          socket_notify obs net event a
          ≡ some (
            some (set_queue (q ∷ rest) (set_state ready a)),
            connect_notify (some o) ∷ put p true ∷ [],
          )
      first_sent =
          connecting_step obs net event a o st ob time pend told
            (flush_whole net.flushed (set_state ready a) p q rest refl queue sent)
