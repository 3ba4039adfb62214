-- ===== src/PduAssoc/Sending.antt =====
-- src/yaz-pdu-assoc.cpp: what one call does to the stream of packages.
use mathlib.Core.List.{append-nil}
use yazpp.Prelude.{
  ℕ, true, false, ◌≡◌, refl, ap, inl, inr, List, [], ◌∷◌, ◌++◌, Option, none, some, is_some,
  if◌then◌else◌, arith, Bool-cases,
}
use yazpp.Prelude.Int.{ℤ, pos, ◌==ℤ◌}
use yazpp.PduAssoc.State.{
  ready, Packet, Children, nil, child, Assoc, Call, add_observer, delete_observer, mask_observer,
  timeout_observer, cs_close, put, fail_notify, timeout_notify, connect_notify, close_cs, shutdown,
  shutdown_calls, shutdown_children_calls, fail, set_state, set_queue,
}
use yazpp.PduAssoc.Output.{
  Answer, is_neg, flush_empty, flush_first, flush_sent, flush_pdu, send_pdu, can_write,
}

-- The packages that `cs_put` sent whole.
abbrev pub completed : List Call → List Packet
completed [] = []
completed (put q true ∷ calls) = q ∷ completed calls
completed (put q false ∷ calls) = completed calls
completed (add_observer this ∷ calls) = completed calls
completed (delete_observer this ∷ calls) = completed calls
completed (mask_observer this mask fd ∷ calls) = completed calls
completed (timeout_observer this t ∷ calls) = completed calls
completed (cs_close fd ∷ calls) = completed calls
completed (fail_notify o ∷ calls) = completed calls
completed (timeout_notify o ∷ calls) = completed calls
completed (connect_notify o ∷ calls) = completed calls

pub completed-append : (xs ys : List Call) → completed (xs ++ ys) ≡ completed xs ++ completed ys
completed-append [] ys = refl
completed-append (put q true ∷ xs) ys = ap (λ l. q ∷ l) (completed-append xs ys)
completed-append (put q false ∷ xs) ys = completed-append xs ys
completed-append (add_observer this ∷ xs) ys = completed-append xs ys
completed-append (delete_observer this ∷ xs) ys = completed-append xs ys
completed-append (mask_observer this mask fd ∷ xs) ys = completed-append xs ys
completed-append (timeout_observer this t ∷ xs) ys = completed-append xs ys
completed-append (cs_close fd ∷ xs) ys = completed-append xs ys
completed-append (fail_notify o ∷ xs) ys = completed-append xs ys
completed-append (timeout_notify o ∷ xs) ys = completed-append xs ys
completed-append (connect_notify o ∷ xs) ys = completed-append xs ys

completed-close_cs : (cs : Option ℕ) → completed (close_cs cs) ≡ []
completed-close_cs none = refl
completed-close_cs (some fd) = refl

completed-children : (c : Children) → completed (shutdown_children_calls c) ≡ []
unfolding shutdown_children_calls
completed-children nil = refl
completed-children (child p below next) = rw (
  completed-append (shutdown_children_calls below)
      (shutdown_calls p ++ shutdown_children_calls next),
  completed-children below,
  completed-append (close_cs p.cs) (shutdown_children_calls next),
  completed-close_cs p.cs,
  completed-children next,
)

pub completed-shutdown : (a : Assoc) → completed (shutdown a).1 ≡ []
unfolding shutdown
completed-shutdown a = rw (
  completed-append (shutdown_children_calls a.children) (shutdown_calls a.priv),
  completed-children a.children,
  completed-close_cs a.cs,
)

pub completed-fail : (a : Assoc) → completed (fail a).1 ≡ []
unfolding fail
completed-fail a =
    rw (completed-append (shutdown a).1 (fail_notify a.observer ∷ []), completed-shutdown a)

-- Of the packages `before`, some were sent, some are queued, and those that a shutdown dropped
-- come last; none was dropped if the connection is still there.
pub record Kept (before : List Packet) (a : Assoc) (calls : List Call) : Type 0 where
  pub dropped : List Packet
  pub balance : completed calls ++ (a.queue_out ++ dropped) ≡ before
  pub open_keeps : is_some a.cs ≡ true → dropped ≡ []

pub Kept-all :
    (before : List Packet) (a : Assoc) (calls : List Call)
    → completed calls ++ a.queue_out ≡ before
    → Kept before a calls
Kept-all before a calls e = record {
  dropped = [];
  balance = rw append-nil e;
  open_keeps = λ h. refl;
}

flush_empty-Kept : (a : Assoc) → a.queue_out ≡ [] → Kept [] (flush_empty a).0 (flush_empty a).1
unfolding flush_empty fail shutdown
flush_empty-Kept a e = Kept-all _ _ _ (ground (arith, completed-fail (set_state ready a)))

shutdown_queue : (a : Assoc) → ((shutdown a).0.queue_out ≡ []) × (is_some (shutdown a).0.cs ≡ false)
unfolding shutdown
shutdown_queue a = (refl, refl)

flush_sent-Kept :
    (q : Packet) (rest : List Packet) (r : ℤ) (a : Assoc)
    → Kept (q ∷ rest) (flush_sent q rest r a).0 (flush_sent q rest r a).1
unfolding flush_sent
flush_sent-Kept q [] r a =
    let idle = set_state ready (set_queue [] a) in
    Kept-all _ _ _ (ground (arith, completed-shutdown idle, shutdown_queue idle))
flush_sent-Kept q (p ∷ ps) r a = Kept-all _ _ _ refl

flush_failed-Kept :
    (before : List Packet) (a : Assoc) (calls : List Call)
    → completed calls ≡ []
    → a.queue_out ≡ []
    → is_some a.cs ≡ false
    → Kept before a calls
flush_failed-Kept before a calls e f h = record {
  dropped = before;
  balance = rw (e, f);
  open_keeps = λ up. cc;
}

flush_first-Kept :
    (answer : Answer) (q : Packet) (rest : List Packet) (a : Assoc)
    → a.queue_out ≡ q ∷ rest
    → Kept (q ∷ rest) (flush_first answer q rest a).0 (flush_first answer q rest a).1
unfolding flush_first fail
flush_first-Kept answer q rest a e = elim (Bool-cases (is_neg answer.res)) [
  | inl failed ↦ rw failed (
      flush_failed-Kept (q ∷ rest) (fail a).0 (put q false ∷ (fail a).1) (completed-fail a)
        (shutdown_queue a).0 (shutdown_queue a).1)
  | inr sent ↦ elim (Bool-cases (answer.res ==ℤ pos 1)) [
    | inl part ↦ rw (sent, part) (Kept-all _ _ _ e)
    | inr whole ↦ rw (sent, whole) (flush_sent-Kept q rest answer.res a)
  ]
]

-- One call of `flush_PDU`.
pub flush_pdu-Kept :
    (answer : Answer) (queue : List Packet) (a : Assoc)
    → a.queue_out ≡ queue
    → Kept queue (flush_pdu answer a).0 (flush_pdu answer a).1
unfolding flush_pdu
flush_pdu-Kept answer [] a e = elim (Bool-cases (can_write a.state)) [
  | inl w ↦ rw (w, e) (flush_empty-Kept a e)
  | inr w ↦ rw w (Kept-all _ _ _ e)
]
flush_pdu-Kept answer (q ∷ rest) a e = elim (Bool-cases (can_write a.state)) [
  | inl w ↦ rw (w, e) (flush_first-Kept answer q rest a e)
  | inr w ↦ rw w (Kept-all _ _ _ e)
]

-- The package of a `send_PDU` call that finds a connection.
abbrev pub accepted : Packet → Assoc → List Packet
accepted buf a = if is_some a.cs then buf ∷ [] else []

accepted_up : (buf : Packet) (a : Assoc) (fd : ℕ) → a.cs ≡ some fd → accepted buf a ≡ buf ∷ []
accepted_up buf a fd c = ground arith

send_idle :
    (answer : Answer) (buf : Packet) (a : Assoc) (fd : ℕ)
    → a.cs ≡ some fd
    → a.queue_out ≡ []
    → send_pdu answer buf a ≡ flush_pdu answer (set_queue (buf ∷ []) a)
unfolding send_pdu
send_idle answer buf a fd c e = ground arith

pub send_pdu-Kept :
    (answer : Answer) (buf : Packet) (a : Assoc) (queue : List Packet) (cs : Option ℕ)
    → a.queue_out ≡ queue
    → a.cs ≡ cs
    → Kept (queue ++ accepted buf a) (send_pdu answer buf a).0 (send_pdu answer buf a).1
unfolding send_pdu
send_pdu-Kept answer buf a queue none e c = rw (c, append-nil) (Kept-all _ _ _ e)
send_pdu-Kept answer buf a [] (some fd) e c =
    rw (send_idle answer buf a fd c e, accepted_up buf a fd c)
      (flush_pdu-Kept answer (buf ∷ []) (set_queue (buf ∷ []) a) refl)
send_pdu-Kept answer buf a (q ∷ rest) (some fd) e c = rw (c, e) (Kept-all _ _ _ refl)
