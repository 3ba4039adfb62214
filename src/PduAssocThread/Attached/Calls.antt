-- ===== src/PduAssocThread/Attached/Calls.antt =====
-- src/yaz-pdu-assoc.cpp: which calls of an association register it and which take it out.
use yazpp.Prelude.{
  ℕ, Bool, true, false, not, ◌≡◌, ◌≢◌, refl, ◌∙◌, List, [], ◌∷◌, ◌++◌, Option, none, some,
  if◌then◌else◌, ◌==◌, All, All-append, arith, Bool-cases, inl, inr,
}
use yazpp.Prelude.Int.{ℤ}
use yazpp.PduAssoc.State.{
  listen, ready, Packet, nil, Assoc, Call, add_observer, delete_observer, close_cs, shutdown,
  shutdown_children, shutdown_children_calls, fail, set_state, set_queue,
}
use yazpp.PduAssoc.Output.{Answer, can_write, flush_empty, flush_sent, flush_first, flush_pdu}
use yazpp.PduAssoc.Notify.{Outcome, keep, append_calls, flush}
use yazpp.PduAssoc.Safety.{is_closed}

-- Whether an observer is registered after the calls, if it was so before them as the test says.
abbrev pub attached : ℕ → List Call → Bool → Bool
attached this [] b = b
attached this (add_observer o ∷ calls) b = attached this calls (if o == this then true else b)
attached this (delete_observer o ∷ calls) b = attached this calls (if o == this then false else b)
attached this (c ∷ calls) b = attached this calls b

-- A call that registers nobody else.
abbrev pub Own : ℕ → Call → Type 0
Own this (add_observer o) = o ≡ this
Own this _ = Unit

abbrev pub is_open : Option Assoc → Bool
is_open none = false
is_open (some a) = not (is_closed a.state)

-- An association without children that does not listen, as that of a worker is.
pub record Alone (this : ℕ) (a : Assoc) : Type 0 where
  pub named : a.this ≡ this
  pub childless : a.children ≡ nil
  pub not_listening : a.state ≢ listen

abbrev pub AloneIfAny : ℕ → Option Assoc → Type 0
AloneIfAny this none = Unit
AloneIfAny this (some a) = Alone this a

-- The calls register the association exactly if they leave it open.
pub record Linked (this : ℕ) (b : Bool) (out : Outcome) : Type 0 where
  pub flag : attached this out.1 b ≡ is_open out.0
  pub own : All (Own this) out.1
  pub alone : AloneIfAny this out.0

pub attached-append :
    (this : ℕ) (xs ys : List Call) (b : Bool)
    → attached this (xs ++ ys) b ≡ attached this ys (attached this xs b)
attached-append this [] ys b = refl
attached-append this (add_observer o ∷ xs) ys b = attached-append this xs ys _
attached-append this (delete_observer o ∷ xs) ys b = attached-append this xs ys _
attached-append this (c ∷ xs) ys b = attached-append this xs ys b

pub append-Linked :
    (this : ℕ) (xs : List Call) (b : Bool) (out : Outcome)
    → All (Own this) xs
    → Linked this (attached this xs b) out
    → Linked this b (append_calls xs out)
append-Linked this xs b (a, calls) own l = record {
  flag = rw (attached-append this xs calls b) (l.flag);
  own = All-append (Own this) xs calls own l.own;
  alone = l.alone;
}

close_cs-attached : (this : ℕ) (b : Bool) (cs : Option ℕ) → attached this (close_cs cs) b ≡ b
close_cs-attached this b none = refl
close_cs-attached this b (some fd) = refl

close_cs-Own : (this : ℕ) (cs : Option ℕ) → All (Own this) (close_cs cs)
close_cs-Own this none = tt
close_cs-Own this (some fd) = (tt, tt)

pub shutdown-Linked :
    (this : ℕ) (b : Bool) (a : Assoc) → Alone this a → Linked this b (keep (shutdown a))
unfolding shutdown shutdown_children shutdown_children_calls
shutdown-Linked this b a l = record {
  flag =
      rw (l.childless, l.named)
        (ground (arith, close_cs-attached this false a.cs, close_cs-attached this b a.cs));
  own = rw l.childless (tt, close_cs-Own this a.cs);
  alone = record { named = l.named; childless = rw l.childless; not_listening = λ e. cc };
}

pub fail-Linked : (this : ℕ) (b : Bool) (a : Assoc) → Alone this a → Linked this b (keep (fail a))
unfolding fail
fail-Linked this b a l =
    let s = shutdown-Linked this b a l in
    record {
      flag = attached-append this (shutdown a).1 _ b ∙ s.flag;
      own = All-append (Own this) (shutdown a).1 _ s.own (tt, tt);
      alone = s.alone;
    }

-- What a function that writes leaves.
abbrev sent : Assoc × List Call × ℤ → Outcome
sent (a, calls, r) = (some a, calls)

ready_Alone :
    (this : ℕ) (q : List Packet) (a : Assoc)
    → Alone this a
    → Alone this (set_state ready (set_queue q a))
ready_Alone this q a l = record {
  named = l.named;
  childless = l.childless;
  not_listening = λ e. cc;
}

flush_empty-Linked : (this : ℕ) (a : Assoc) → Alone this a → Linked this true (sent (flush_empty a))
unfolding flush_empty
flush_empty-Linked this a l =
    ground (arith, ready_Alone this a.queue_out a l, fail-Linked this true (set_state ready a))

flush_sent-Linked :
    (this : ℕ) (q : Packet) (rest : List Packet) (r : ℤ) (a : Assoc)
    → Alone this a
    → is_closed a.state ≡ false
    → Linked this true (sent (flush_sent q rest r a))
unfolding flush_sent
flush_sent-Linked this q [] r a l o =
    ground
      (arith, ready_Alone this [] a l, shutdown-Linked this true (set_state ready (set_queue [] a)))
flush_sent-Linked this q (p ∷ ps) r a l o = ground arith

flush_first-Linked :
    (this : ℕ) (answer : Answer) (q : Packet) (rest : List Packet) (a : Assoc)
    → Alone this a
    → is_closed a.state ≡ false
    → Linked this true (sent (flush_first answer q rest a))
unfolding flush_first
flush_first-Linked this answer q rest a l o =
    ground (arith, fail-Linked this true a l, flush_sent-Linked this q rest answer.res a l o)

flush_queue-Linked :
    (this : ℕ) (answer : Answer) (queue : List Packet) (a : Assoc)
    → Alone this a
    → a.queue_out ≡ queue
    → can_write a.state ≡ true
    → Linked this true (sent (flush_pdu answer a))
unfolding flush_pdu
flush_queue-Linked this answer [] a l e w = rw (w, e) (flush_empty-Linked this a l)
flush_queue-Linked this answer (q ∷ rest) a l e w =
    rw (w, e) (flush_first-Linked this answer q rest a l (ground arith))

flush_shut :
    (this : ℕ) (answer : Answer) (a : Assoc)
    → Alone this a
    → can_write a.state ≡ false
    → Linked this (is_open (some a)) (sent (flush_pdu answer a))
unfolding flush_pdu
flush_shut this answer a l w = rw w (record { flag = refl; own = tt; alone = l })

pub flush-Linked :
    (this : ℕ) (answer : Answer) (a : Assoc)
    → Alone this a
    → Linked this (is_open (some a)) (flush answer a)
flush-Linked this answer a l = elim (Bool-cases (can_write a.state)) [
  | inl w ↦
      let open_now : is_open (some a) ≡ true = ground arith in
      rw open_now (flush_queue-Linked this answer a.queue_out a l refl w)
  | inr shut ↦ flush_shut this answer a l shut
]
