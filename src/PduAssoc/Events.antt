-- ===== src/PduAssoc/Events.antt =====
-- src/yaz-pdu-assoc.cpp: what socket events leave of an association.
use mathlib.Core.Option
use yazpp.Prelude.{
  ℕ, Bool, true, false, ◌&&◌, ◌≡◌, refl, inl, inr, List, [], ◌∷◌, Option, none, some, is_some, All,
  All-append, arith, Bool-cases,
}
use yazpp.Mask.{Mask}
use yazpp.PduAssoc.State.{
  State, connecting, listen, ready, closed, writing, accepting, Packet, Assoc, Call, connect_notify,
  set_state, set_cs, set_input, set_destroyed,
}
use yazpp.PduAssoc.Output.{Answer}
use yazpp.PduAssoc.Notify.{
  Got, NewLine, Net, Observer, Outcome, append_calls, wait_input, flush, noticed, after_recv,
  read_round, read_loop, notify_state, socket_notify,
}
use yazpp.PduAssoc.Safety.{WellFormed, Safe, Good, shutdown-Good, fail-Good, flush_pdu-Good}
use yazpp.PduAssoc.Opening.{child_notify-Good}

-- What an event may leave.
abbrev pub GoodOutcome : Outcome → Type 0
GoodOutcome (none, calls) = All Safe calls
GoodOutcome (some a, calls) = Good a calls

abbrev pub GoodResult : Option Outcome → Type 0
GoodResult none = Unit
GoodResult (some out) = GoodOutcome out

-- An observer whose code keeps an association well formed.
pub record Cooperates (obs : Observer) : Type 0 where
  pub recv_ok : (buf : Packet) (a : Assoc) → WellFormed a → GoodOutcome (obs.recv_pdu buf a)
  pub connected_ok : (a : Assoc) → WellFormed a → Good (obs.connected a).0 (obs.connected a).1

wait_input-Good : (a : Assoc) → WellFormed a → GoodOutcome (wait_input a)
unfolding wait_input
wait_input-Good a v = ground arith

pub append-GoodOutcome :
    (xs : List Call) (out : Outcome)
    → All Safe xs
    → GoodOutcome out
    → GoodOutcome (append_calls xs out)
append-GoodOutcome xs (none, calls) h g = All-append Safe xs calls h g
append-GoodOutcome xs (some a, calls) h g = record {
  state_ok = g.state_ok;
  calls_ok = All-append Safe xs calls h g.calls_ok;
}

map-GoodResult :
    (xs : List Call) (r : Option Outcome)
    → All Safe xs
    → GoodResult r
    → GoodResult (Option.map (append_calls xs) r)
map-GoodResult xs none h g = tt
map-GoodResult xs (some out) h g = append-GoodOutcome xs out h g

after_recv-Good :
    (more : Bool) (next : Assoc → Option Outcome) (left : Option Assoc) (calls : List Call)
    → ((a : Assoc) → WellFormed a → is_some a.cs ≡ true → GoodResult (next a))
    → GoodOutcome (left, calls)
    → GoodResult (after_recv more next left calls)
unfolding after_recv
after_recv-Good more next none calls ok g = g
after_recv-Good more next (some a) calls ok g =
    let unlocked = set_destroyed false a in
    let v : WellFormed unlocked = record {
      live = g.state_ok.live;
      queued = g.state_ok.queued;
      busy = g.state_ok.busy;
    } in
    elim (Bool-cases (is_some a.cs && more)) [
      | inl again ↦
          rw again (map-GoodResult calls (next unlocked) g.calls_ok (ok unlocked v (ground arith)))
      | inr done ↦
          rw done
            (append-GoodOutcome calls (wait_input unlocked) g.calls_ok (wait_input-Good unlocked v))
    ]

ready-WellFormed : (a : Assoc) → WellFormed a → is_some a.cs ≡ true → WellFormed (set_state ready a)
ready-WellFormed a v up = record { live = inr up; queued = v.queued; busy = λ e. cc }

module _ (obs : Observer) (good : Cooperates obs) where
  read_round-Good :
      (g : Got) (next : Assoc → Option Outcome) (a : Assoc)
      → ((b : Assoc) → WellFormed b → is_some b.cs ≡ true → GoodResult (next b))
      → WellFormed a
      → is_some a.cs ≡ true
      → GoodResult (read_round obs g next a)
  unfolding read_round
  read_round-Good g next a ok v up =
      let filled = set_input (some g.input) a in
      let locked = set_destroyed true filled in
      let recv = obs.recv_pdu g.input locked in
      ground (
        arith,
        shutdown-Good filled,
        fail-Good filled,
        after_recv-Good g.more next recv.0 recv.1 ok (
            good.recv_ok g.input locked
              (record { live = v.live; queued = v.queued; busy = v.busy })),
      )

  read_loop-Good :
      (gs : List Got) (a : Assoc)
      → WellFormed a
      → is_some a.cs ≡ true
      → GoodResult (read_loop obs gs a)
  unfolding read_loop
  read_loop-Good [] a v up = tt
  read_loop-Good (g ∷ gs) a v up = read_round-Good g (read_loop obs gs) a (read_loop-Good gs) v up

  flush-Good : (answer : Answer) (a : Assoc) → WellFormed a → GoodOutcome (flush answer a)
  flush-Good answer a v = flush_pdu-Good answer a v

  -- The connection is up: the observer hears of it, and what was queued goes out.
  connected-Good :
      (answer : Answer) (o : Option ℕ) (a : Assoc)
      → WellFormed a
      → GoodOutcome (append_calls (noticed obs o a).1 (flush answer (noticed obs o a).0))
  connected-Good answer none a v = append-GoodOutcome [] (flush answer a) tt (flush-Good answer a v)
  connected-Good answer (some o) a v =
      append-GoodOutcome (connect_notify (some o) ∷ (obs.connected a).1)
        (flush answer (obs.connected a).0) (tt, (good.connected_ok a v).calls_ok)
        (flush-Good answer (obs.connected a).0 (good.connected_ok a v).state_ok)

  listened-Good :
      (net : Net) (event : Mask) (a : Assoc) (l : Option NewLine)
      → WellFormed a
      → GoodResult (notify_state obs (record net { new_line = l }) event a listen)
  unfolding notify_state
  listened-Good net event a none v = ground arith
  listened-Good net event a (some l) v =
      ground (arith, child_notify-Good l.this l.fd l.pending l.session a v)

  notify_state-Good :
      (net : Net) (event : Mask) (a : Assoc) (s : State)
      → a.state ≡ s
      → WellFormed a
      → GoodResult (notify_state obs net event a s)
  unfolding notify_state
  notify_state-Good net event a accepting e v =
      let up = ready-WellFormed a v (ground arith) in
      ground (arith, fail-Good (set_cs none a), flush-Good net.flushed (set_state ready a) up)
  notify_state-Good net event a connecting e v =
      let up = ready-WellFormed a v (ground arith) in
      ground (arith, connected-Good net.flushed a.observer (set_state ready a) up)
  notify_state-Good net event a listen e v = listened-Good net event a net.new_line v
  notify_state-Good net event a writing e v = ground (arith, flush-Good net.flushed a v)
  notify_state-Good net event a ready e v = ground (arith, read_loop-Good net.gets a v)
  notify_state-Good net event a closed e v = fail-Good a

  -- Every event keeps an association well formed, or destroys it, and no call that it makes reads a
  -- null connection, where the observer's code does so too.
  pub socket_notify-Good :
      (net : Net) (event : Mask) (a : Assoc)
      → WellFormed a
      → GoodResult (socket_notify obs net event a)
  unfolding socket_notify
  socket_notify-Good net event a v =
      ground (arith, fail-Good a, notify_state-Good net event a a.state refl v)
