-- ===== src/PduAssocThread/Attached/Events.antt =====
-- src/yaz-pdu-assoc.cpp: an event registers the association or takes it out exactly as it leaves it
-- open or closed.
use mathlib.Core.Option
use yazpp.Prelude.{
  ℕ, Bool, true, false, ◌&&◌, ◌≡◌, refl, sym, subst, inl, inr, List, [], ◌∷◌, Option, none, some,
  is_some, All, arith, Bool-cases,
}
use yazpp.Mask.{Mask}
use yazpp.PduAssoc.State.{
  State, connecting, listen, ready, closed, writing, accepting, Packet, Assoc, Call, connect_notify,
  set_state, set_cs, set_input, set_destroyed,
}
use yazpp.PduAssoc.Output.{Answer}
use yazpp.PduAssoc.Notify.{
  Got, Net, Outcome, keep, append_calls, wait_input, flush, noticed, after_recv, read_round,
  read_loop, notify_state, socket_notify,
}
use yazpp.PduAssoc.Events.{Cooperates, GoodOutcome}
use yazpp.PduAssoc.Safety.{WellFormed}
use yazpp.PduAssocThread.{Handler, react}
use yazpp.PduAssocThread.Attached.Calls.{
  attached, Own, is_open, Alone, Linked, append-Linked, shutdown-Linked, fail-Linked, flush-Linked,
}

-- An observer that keeps to its association: its code leaves it well formed, registers nobody else,
-- and takes it out exactly as it closes it or deletes it.
pub record Keeps (this : ℕ) (h : Handler) : Type 0 where
  pub cooperates : Cooperates h.observer
  pub recv_linked :
      (buf : Packet) (a : Assoc)
      → Alone this a
      → Linked this (is_open (some a)) (h.observer.recv_pdu buf a)
  pub connected_linked :
      (a : Assoc) → Alone this a → Linked this (is_open (some a)) (keep (h.observer.connected a))
  pub failed_good : (a : Assoc) → WellFormed a → GoodOutcome (h.failed a)
  pub failed_linked : (a : Assoc) → Alone this a → Linked this (is_open (some a)) (h.failed a)
  pub timed_out_good : (a : Assoc) → WellFormed a → GoodOutcome (h.timed_out a)
  pub timed_out_linked : (a : Assoc) → Alone this a → Linked this (is_open (some a)) (h.timed_out a)

abbrev pub LinkedResult : ℕ → Bool → Option Outcome → Type 0
LinkedResult this b none = Unit
LinkedResult this b (some out) = Linked this b out

map-Linked :
    (this : ℕ) (xs : List Call) (b : Bool) (r : Option Outcome)
    → All (Own this) xs
    → LinkedResult this (attached this xs b) r
    → LinkedResult this b (Option.map (append_calls xs) r)
map-Linked this xs b none own l = tt
map-Linked this xs b (some out) own l = append-Linked this xs b out own l

-- Nothing was called.
still-Linked : (this : ℕ) (a : Assoc) → Alone this a → Linked this (is_open (some a)) (some a, [])
still-Linked this a l = record { flag = refl; own = tt; alone = l }

wait_input-Linked :
    (this : ℕ) (a : Assoc) → Alone this a → Linked this (is_open (some a)) (wait_input a)
unfolding wait_input
wait_input-Linked this a l = ground arith

unlocked_Alone : (this : ℕ) (b : Bool) (a : Assoc) → Alone this a → Alone this (set_destroyed b a)
unlocked_Alone this b a l = record {
  named = l.named;
  childless = l.childless;
  not_listening = l.not_listening;
}

filled_Alone :
    (this : ℕ) (buf : Option Packet) (a : Assoc) → Alone this a → Alone this (set_input buf a)
filled_Alone this buf a l = record {
  named = l.named;
  childless = l.childless;
  not_listening = l.not_listening;
}

after_recv-Linked :
    (this : ℕ) (b more : Bool) (next : Assoc → Option Outcome) (left : Option Assoc)
    (calls : List Call)
    → ((a : Assoc) → Alone this a → LinkedResult this (is_open (some a)) (next a))
    → Linked this b (left, calls)
    → LinkedResult this b (after_recv more next left calls)
unfolding after_recv
after_recv-Linked this b more next none calls ok l = l
after_recv-Linked this b more next (some a) calls ok l =
    let unlocked = set_destroyed false a in
    let alone = unlocked_Alone this false a l.alone in
    elim (Bool-cases (is_some a.cs && more)) [
      | inl again ↦ rw again (
          map-Linked this calls b (next unlocked) l.own
            (subst (λ f. LinkedResult this f (next unlocked)) (sym l.flag) (ok unlocked alone)))
      | inr done ↦ rw done (
          append-Linked this calls b (wait_input unlocked) l.own (
            subst (λ f. Linked this f (wait_input unlocked)) (sym l.flag)
              (wait_input-Linked this unlocked alone)))
    ]

module _ (this : ℕ) (h : Handler) (keeps : Keeps this h) where
  read_round-Linked :
      (g : Got) (next : Assoc → Option Outcome) (a : Assoc)
      → ((b : Assoc) → Alone this b → LinkedResult this (is_open (some b)) (next b))
      → Alone this a
      → LinkedResult this (is_open (some a)) (read_round h.observer g next a)
  unfolding read_round
  read_round-Linked g next a ok l =
      let filled = set_input (some g.input) a in
      let locked = set_destroyed true filled in
      let recv = h.observer.recv_pdu g.input locked in
      let alone = filled_Alone this (some g.input) a l in
      let locked_alone = unlocked_Alone this true filled alone in
      ground (
        arith,
        alone,
        locked_alone,
        shutdown-Linked this (is_open (some a)) filled alone,
        fail-Linked this (is_open (some a)) filled alone,
        after_recv-Linked this (is_open (some a)) g.more next recv.0 recv.1 ok
            (keeps.recv_linked g.input locked locked_alone),
      )

  read_loop-Linked :
      (gs : List Got) (a : Assoc)
      → Alone this a
      → LinkedResult this (is_open (some a)) (read_loop h.observer gs a)
  unfolding read_loop
  read_loop-Linked [] a l = tt
  read_loop-Linked (g ∷ gs) a l =
      read_round-Linked g (read_loop h.observer gs) a (read_loop-Linked gs) l

  ready_Alone : (a : Assoc) → Alone this a → Alone this (set_state ready a)
  ready_Alone a l = record { named = l.named; childless = l.childless; not_listening = λ e. cc }

  connected-Linked :
      (answer : Answer) (o : Option ℕ) (a : Assoc)
      → Alone this a
      → Linked this
          (is_open (some a))
          (append_calls (noticed h.observer o a).1 (flush answer (noticed h.observer o a).0))
  connected-Linked answer none a l =
      append-Linked this [] (is_open (some a)) (flush answer a) tt (flush-Linked this answer a l)
  connected-Linked answer (some o) a l =
      let told = h.observer.connected a in
      let c = keeps.connected_linked a l in
      append-Linked this (connect_notify (some o) ∷ told.1) (is_open (some a)) (flush answer told.0)
        (tt, c.own)
        (subst (λ f. Linked this f (flush answer told.0)) (sym c.flag)
          (flush-Linked this answer told.0 c.alone))

  notify_state-Linked :
      (net : Net) (event : Mask) (a : Assoc) (s : State)
      → a.state ≡ s
      → Alone this a
      → LinkedResult this (is_open (some a)) (notify_state h.observer net event a s)
  unfolding notify_state
  notify_state-Linked net event a accepting e l =
      let unset = set_cs none a in
      let lone : Alone this unset = record {
        named = l.named;
        childless = l.childless;
        not_listening = l.not_listening;
      } in
      ground (
        arith,
        fail-Linked this (is_open (some a)) unset lone,
        flush-Linked this net.flushed (set_state ready a) (ready_Alone a l),
      )
  notify_state-Linked net event a connecting e l =
      ground (arith, connected-Linked net.flushed a.observer (set_state ready a) (ready_Alone a l))
  notify_state-Linked net event a listen e l = absurd (l.not_listening e)
  notify_state-Linked net event a writing e l =
      ground (arith, still-Linked this a l, flush-Linked this net.flushed a l)
  notify_state-Linked net event a ready e l =
      ground (arith, still-Linked this a l, read_loop-Linked net.gets a l)
  notify_state-Linked net event a closed e l = fail-Linked this _ a l

  pub socket_notify-Linked :
      (net : Net) (event : Mask) (a : Assoc)
      → Alone this a
      → LinkedResult this (is_open (some a)) (socket_notify h.observer net event a)
  unfolding socket_notify
  socket_notify-Linked net event a l = ground (
    arith,
    fail-Linked this (is_open (some a)) a l,
    notify_state-Linked net event a a.state refl l,
  )

  pub react-Linked : (b : Bool) (out : Outcome) → Linked this b out → Linked this b (react h out)
  unfolding react
  react-Linked b (none, calls) l = l
  react-Linked b (some a, calls) l =
      let after = λ (o : Outcome) (k : Linked this (is_open (some a)) o).
        append-Linked this calls b o l.own (subst (λ f. Linked this f o) (sym l.flag) k) in
      ground (
        arith,
        after (h.failed a) (keeps.failed_linked a l.alone),
        after (h.timed_out a) (keeps.timed_out_linked a l.alone),
      )
