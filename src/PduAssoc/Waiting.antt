-- ===== src/PduAssoc/Waiting.antt =====
-- src/yaz-pdu-assoc.cpp: an association in state Ready that has packages queued.
use mathlib.Core.Option
use yazpp.Prelude.{
  ℕ, Bool, true, false, ◌&&◌, ◌≡◌, ◌≢◌, refl, ◌⊎◌, inl, inr, List, [], ◌∷◌, Option, none, some,
  is_some, All, All-append, arith, Bool-cases,
}
use yazpp.Prelude.Int.{ℤ, pos}
use yazpp.Mask.{Mask}
use yazpp.PduAssoc.State.{
  connecting, ready, closed, Packet, Children, nil, child, Assoc, Call, put, fail_notify,
  connect_notify, close_cs, shutdown, shutdown_children_calls, fail, set_queue, set_state,
  set_input, set_destroyed,
}
use yazpp.PduAssoc.Output.{Answer, flush_first, flush_sent, flush_pdu}
use yazpp.PduAssoc.Notify.{
  Got, Net, Observer, Outcome, append_calls, wait_input, after_recv, read_round, read_loop,
  notify_state, socket_notify,
}

-- Every call but one of `cs_put`.
abbrev pub NoPut : Call → Type 0
NoPut (put q done) = ⊥
NoPut _ = Unit

-- Packages are queued, and the state is Ready.
pub record Stuck (a : Assoc) : Type 0 where
  pub is_ready : a.state ≡ ready
  pub up : is_some a.cs ≡ true
  pub waiting : a.queue_out ≢ []

pub record Gone (a : Assoc) : Type 0 where
  pub is_closed : a.state ≡ closed
  pub down : is_some a.cs ≡ false

abbrev pub StuckOrGone : Assoc → Type 0
StuckOrGone a = Stuck a ⊎ Gone a

abbrev pub QuietOutcome : Outcome → Type 0
QuietOutcome (none, calls) = All NoPut calls
QuietOutcome (some a, calls) = StuckOrGone a × All NoPut calls

abbrev pub QuietResult : Option Outcome → Type 0
QuietResult none = Unit
QuietResult (some out) = QuietOutcome out

NoPut-close_cs : (cs : Option ℕ) → All NoPut (close_cs cs)
NoPut-close_cs none = tt
NoPut-close_cs (some fd) = (tt, tt)

NoPut-children : (c : Children) → All NoPut (shutdown_children_calls c)
unfolding shutdown_children_calls
NoPut-children nil = tt
NoPut-children (child p below next) =
    All-append NoPut (shutdown_children_calls below) _ (NoPut-children below)
      (tt, All-append NoPut (close_cs p.cs) _ (NoPut-close_cs p.cs) (NoPut-children next))

shutdown-quiet : (a : Assoc) → QuietOutcome (some (shutdown a).0, (shutdown a).1)
unfolding shutdown
shutdown-quiet a = (
  inr (record { is_closed = refl; down = refl }),
  All-append NoPut (shutdown_children_calls a.children) _ (NoPut-children a.children)
      (tt, NoPut-close_cs a.cs),
)

fail-quiet : (a : Assoc) → QuietOutcome (some (fail a).0, (fail a).1)
unfolding fail
fail-quiet a = (
  (shutdown-quiet a).0,
  All-append NoPut (shutdown a).1 (fail_notify a.observer ∷ []) (shutdown-quiet a).1 (tt, tt),
)

append-quiet :
    (xs : List Call) (out : Outcome)
    → All NoPut xs
    → QuietOutcome out
    → QuietOutcome (append_calls xs out)
append-quiet xs (none, calls) h g = All-append NoPut xs calls h g
append-quiet xs (some a, calls) h g = (g.0, All-append NoPut xs calls h g.1)

wait_input-quiet : (a : Assoc) → StuckOrGone a → QuietOutcome (wait_input a)
unfolding wait_input
wait_input-quiet a v = ground arith

map-quiet :
    (xs : List Call) (r : Option Outcome)
    → All NoPut xs
    → QuietResult r
    → QuietResult (Option.map (append_calls xs) r)
map-quiet xs none h g = tt
map-quiet xs (some out) h g = append-quiet xs out h g

unlock-StuckOrGone : (a : Assoc) → StuckOrGone a → StuckOrGone (set_destroyed false a)
unlock-StuckOrGone a (inl s) =
    inl (record { is_ready = s.is_ready; up = s.up; waiting = s.waiting })
unlock-StuckOrGone a (inr g) = inr (record { is_closed = g.is_closed; down = g.down })

after_recv-quiet :
    (more : Bool) (next : Assoc → Option Outcome) (left : Option Assoc) (calls : List Call)
    → ((a : Assoc) → StuckOrGone a → is_some a.cs ≡ true → QuietResult (next a))
    → QuietOutcome (left, calls)
    → QuietResult (after_recv more next left calls)
unfolding after_recv
after_recv-quiet more next none calls ok g = g
after_recv-quiet more next (some a) calls ok g =
    let v = unlock-StuckOrGone a g.0 in
    elim (Bool-cases (is_some a.cs && more)) [
      | inl again ↦
          rw again (map-quiet calls (next (set_destroyed false a)) g.1 (ok _ v (ground arith)))
      | inr done ↦
          rw done
            (append-quiet calls (wait_input (set_destroyed false a)) g.1 (wait_input-quiet _ v))
    ]

-- An observer that, on a package received, leaves the queue to itself: sending more is no harm.
abbrev pub LeavesQueue : Observer → Type 0
LeavesQueue obs = (buf : Packet) (a : Assoc) → Stuck a → QuietOutcome (obs.recv_pdu buf a)

module _ (obs : Observer) (leaves : LeavesQueue obs) where
  read_round-quiet :
      (g : Got) (next : Assoc → Option Outcome) (a : Assoc)
      → ((b : Assoc) → StuckOrGone b → is_some b.cs ≡ true → QuietResult (next b))
      → Stuck a
      → QuietResult (read_round obs g next a)
  unfolding read_round
  read_round-quiet g next a ok s =
      let filled = set_input (some g.input) a in
      let locked = set_destroyed true filled in
      let recv = obs.recv_pdu g.input locked in
      let s' : Stuck locked = record { is_ready = s.is_ready; up = s.up; waiting = s.waiting } in
      ground (
        arith,
        shutdown-quiet filled,
        fail-quiet filled,
        after_recv-quiet g.more next recv.0 recv.1 ok (leaves g.input locked s'),
      )

  read_loop-quiet :
      (gs : List Got) (a : Assoc)
      → StuckOrGone a
      → is_some a.cs ≡ true
      → QuietResult (read_loop obs gs a)
  unfolding read_loop
  read_loop-quiet [] a v up = tt
  read_loop-quiet (g ∷ gs) a (inl s) up =
      read_round-quiet g (read_loop obs gs) a (read_loop-quiet gs) s
  read_loop-quiet (g ∷ gs) a (inr gone) up = ground (arith, gone.down)

  -- In state Ready with packages queued, or once the association is gone, no socket event makes a
  -- call of `cs_put`, and one of the two holds after it, for an observer that does not write to
  -- COMSTACK by itself when it receives packages.
  pub socket_notify-quiet :
      (net : Net) (event : Mask) (a : Assoc)
      → StuckOrGone a
      → QuietResult (socket_notify obs net event a)
  unfolding socket_notify notify_state
  socket_notify-quiet net event a (inl s) =
      ground (arith, fail-quiet a, read_loop-quiet net.gets a (inl s) s.up)
  socket_notify-quiet net event a (inr g) = ground (arith, fail-quiet a)

pub flush_whole :
    (answer : Answer) (a : Assoc) (p q : Packet) (rest : List Packet)
    → a.state ≡ ready
    → a.queue_out ≡ p ∷ q ∷ rest
    → answer.res ≡ pos 0
    → flush_pdu answer a ≡ (set_queue (q ∷ rest) a, put p true ∷ [], pos 0)
unfolding flush_pdu flush_first flush_sent
flush_whole answer a p q rest st queue sent = ground arith

pub connecting_step :
    (obs : Observer) (net : Net) (event : Mask) (a : Assoc) (o : ℕ) {b : Assoc} {calls : List Call}
    {r : ℤ}
    → a.state ≡ connecting
    → a.observer ≡ some o
    → event.timeout ≡ false
    → net.rcvconnect.res ≢ pos 1
    → obs.connected (set_state ready a) ≡ (set_state ready a, [])
    → flush_pdu net.flushed (set_state ready a) ≡ (b, calls, r)
    → socket_notify obs net event a ≡ some (some b, connect_notify (some o) ∷ calls)
unfolding socket_notify notify_state
connecting_step obs net event a o st ob time pend told flushed = ground arith
