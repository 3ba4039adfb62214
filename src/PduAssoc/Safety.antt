-- ===== src/PduAssoc/Safety.antt =====
-- What holds of an association of src/yaz-pdu-assoc.cpp between two calls.
use yazpp.Prelude.{
  ℕ, Bool, true, false, ◌≡◌, ◌≢◌, refl, ◌⊎◌, inl, inr, List, [], ◌∷◌, ◌++◌, Option, none, some,
  is_some, All, All-append, arith, Bool-cases,
}
use yazpp.Prelude.Int.{ℤ}
use yazpp.PduAssoc.State.{
  State, ready, closed, writing, Packet, Children, nil, child, Assoc, Call, mask_observer,
  fail_notify, close_cs, shutdown, shutdown_children_calls, fail, set_state, set_queue, set_dead,
}
use yazpp.PduAssoc.Output.{
  Answer, flush_empty, flush_first, flush_sent, flush_pdu, send_pdu, close_session, can_write,
}

abbrev pub is_closed : State → Bool
is_closed closed = true
is_closed _ = false

-- A live association has a connection, a queue has a connection to go to, and an association that
-- waits to write has something to write.
pub record WellFormed (a : Assoc) : Type 0 where
  pub live : (is_closed a.state ≡ true) ⊎ (is_some a.cs ≡ true)
  pub queued : (a.queue_out ≡ []) ⊎ (is_some a.cs ≡ true)
  pub busy : a.state ≡ writing → a.queue_out ≢ []

-- A call that reads no null connection.
abbrev pub Safe : Call → Type 0
Safe (mask_observer this mask fd) = is_some fd ≡ true
Safe _ = Unit

pub record Good (a : Assoc) (calls : List Call) : Type 0 where
  pub state_ok : WellFormed a
  pub calls_ok : All Safe calls

pub close_cs-Safe : (cs : Option ℕ) → All Safe (close_cs cs)
close_cs-Safe none = tt
close_cs-Safe (some fd) = (tt, tt)

shutdown_children_calls-Safe : (c : Children) → All Safe (shutdown_children_calls c)
unfolding shutdown_children_calls
shutdown_children_calls-Safe nil = tt
shutdown_children_calls-Safe (child p below next) =
    All-append Safe (shutdown_children_calls below) _ (shutdown_children_calls-Safe below) (
      tt,
      All-append Safe (close_cs p.cs) _ (close_cs-Safe p.cs) (shutdown_children_calls-Safe next),
    )

pub shutdown-Good : (a : Assoc) → Good (shutdown a).0 (shutdown a).1
unfolding shutdown
shutdown-Good a = record {
  state_ok = record { live = inl refl; queued = inl refl; busy = λ e. cc };
  calls_ok =
      All-append Safe (shutdown_children_calls a.children) _
        (shutdown_children_calls-Safe a.children) (tt, close_cs-Safe a.cs);
}

pub fail-Good : (a : Assoc) → Good (fail a).0 (fail a).1
unfolding fail
fail-Good a = record {
  state_ok = (shutdown-Good a).state_ok;
  calls_ok =
      All-append Safe (shutdown a).1 (fail_notify a.observer ∷ []) (shutdown-Good a).calls_ok
        (tt, tt);
}

flush_empty-Good :
    (a : Assoc) → is_some a.cs ≡ true → a.queue_out ≡ [] → Good (flush_empty a).0 (flush_empty a).1
unfolding flush_empty
flush_empty-Good a up empty = ground (arith, fail-Good (set_state ready a))

flush_sent-Good :
    (q : Packet) (rest : List Packet) (r : ℤ) (a : Assoc)
    → is_some a.cs ≡ true
    → Good (flush_sent q rest r a).0 (flush_sent q rest r a).1
unfolding flush_sent
flush_sent-Good q [] r a up = ground (arith, shutdown-Good (set_state ready (set_queue [] a)))
flush_sent-Good q (p ∷ ps) r a up = ground arith

flush_first-Good :
    (answer : Answer) (q : Packet) (rest : List Packet) (a : Assoc)
    → is_some a.cs ≡ true
    → a.queue_out ≡ q ∷ rest
    → Good (flush_first answer q rest a).0 (flush_first answer q rest a).1
unfolding flush_first
flush_first-Good answer q rest a up e =
    ground (arith, fail-Good a, flush_sent-Good q rest answer.res a)

flush_queue-Good :
    (answer : Answer) (queue : List Packet) (a : Assoc)
    → is_some a.cs ≡ true
    → a.queue_out ≡ queue
    → can_write a.state ≡ true
    → Good (flush_pdu answer a).0 (flush_pdu answer a).1
unfolding flush_pdu
flush_queue-Good answer [] a up e w = rw (w, e) (flush_empty-Good a up e)
flush_queue-Good answer (q ∷ rest) a up e w = rw (w, e) (flush_first-Good answer q rest a up e)

flush_not_ready :
    (answer : Answer) (a : Assoc)
    → WellFormed a
    → can_write a.state ≡ false
    → Good (flush_pdu answer a).0 (flush_pdu answer a).1
unfolding flush_pdu
flush_not_ready answer a v shut = rw shut (record { state_ok = v; calls_ok = tt })

pub flush_pdu-Good :
    (answer : Answer) (a : Assoc)
    → WellFormed a
    → Good (flush_pdu answer a).0 (flush_pdu answer a).1
flush_pdu-Good answer a v = elim (Bool-cases (can_write a.state)) [
  | inl w ↦ flush_queue-Good answer a.queue_out a (ground arith) refl w
  | inr shut ↦ flush_not_ready answer a v shut
]

-- With room for one more package.
append-WellFormed :
    (buf : Packet) (a : Assoc)
    → WellFormed a
    → is_some a.cs ≡ true
    → WellFormed (set_queue (a.queue_out ++ buf ∷ []) a)
append-WellFormed buf a v up = record {
  live = inr up;
  queued = inr up;
  busy = λ e. append-ne-nil a.queue_out;
}
  where
    append-ne-nil : (xs : List Packet) → xs ++ buf ∷ [] ≢ []
    append-ne-nil [] e = cc
    append-ne-nil (x ∷ xs) e = cc

-- Sending a package keeps an association well formed, and no call of it reads a null connection.
pub send_pdu-Good :
    (answer : Answer) (buf : Packet) (a : Assoc)
    → WellFormed a
    → Good (send_pdu answer buf a).0 (send_pdu answer buf a).1
unfolding send_pdu
send_pdu-Good answer buf a v =
    let queued = set_queue (a.queue_out ++ buf ∷ []) a in
    ground (arith, append-WellFormed buf a v, flush_pdu-Good answer queued)

pub close_session-Good : (a : Assoc) → WellFormed a → Good (close_session a).0 (close_session a).1
unfolding close_session
close_session-Good a v = ground (arith, fail-Good (set_dead true a))
