-- ===== src/PduAssoc/Closing.antt =====
-- src/yaz-pdu-assoc.cpp: `shutdown` over the tree of children, and the deferred close.
use yazpp.Prelude.{
  ℕ, true, ◌≡◌, refl, ap, ◌∙◌, List, [], ◌∷◌, ◌++◌, Option, none, some, All, All-append, arith,
}
use yazpp.Prelude.Int.{pos}
use yazpp.PduAssoc.State.{
  ready, closed, Packet, Children, nil, child, Assoc, Call, add_observer, delete_observer,
  mask_observer, timeout_observer, cs_close, put, fail_notify, timeout_notify, connect_notify,
  close_cs, shutdown, shutdown_calls, shutdown_children, shutdown_children_calls, fail, set_state,
  set_queue, set_dead,
}
use yazpp.PduAssoc.Output.{Answer, flush_first, flush_sent, flush_pdu, close_session, can_write}

-- The descriptors that calls close, in order.
abbrev pub closed_fds : List Call → List ℕ
closed_fds [] = []
closed_fds (cs_close fd ∷ calls) = fd ∷ closed_fds calls
closed_fds (put q done ∷ calls) = closed_fds calls
closed_fds (add_observer this ∷ calls) = closed_fds calls
closed_fds (delete_observer this ∷ calls) = closed_fds calls
closed_fds (mask_observer this mask fd ∷ calls) = closed_fds calls
closed_fds (timeout_observer this t ∷ calls) = closed_fds calls
closed_fds (fail_notify o ∷ calls) = closed_fds calls
closed_fds (timeout_notify o ∷ calls) = closed_fds calls
closed_fds (connect_notify o ∷ calls) = closed_fds calls

closed_fds-append : (xs ys : List Call) → closed_fds (xs ++ ys) ≡ closed_fds xs ++ closed_fds ys
closed_fds-append [] ys = refl
closed_fds-append (cs_close fd ∷ xs) ys = ap (λ l. fd ∷ l) (closed_fds-append xs ys)
closed_fds-append (put q done ∷ xs) ys = closed_fds-append xs ys
closed_fds-append (add_observer this ∷ xs) ys = closed_fds-append xs ys
closed_fds-append (delete_observer this ∷ xs) ys = closed_fds-append xs ys
closed_fds-append (mask_observer this mask fd ∷ xs) ys = closed_fds-append xs ys
closed_fds-append (timeout_observer this t ∷ xs) ys = closed_fds-append xs ys
closed_fds-append (fail_notify o ∷ xs) ys = closed_fds-append xs ys
closed_fds-append (timeout_notify o ∷ xs) ys = closed_fds-append xs ys
closed_fds-append (connect_notify o ∷ xs) ys = closed_fds-append xs ys

-- The descriptors that an association and its descendants hold, the children's first.
abbrev pub own_fds : Option ℕ → List ℕ
own_fds none = []
own_fds (some fd) = fd ∷ []

abbrev pub children_fds : Children → List ℕ
children_fds nil = []
children_fds (child p below next) = children_fds below ++ (own_fds p.cs ++ children_fds next)

abbrev pub held_fds : Assoc → List ℕ
held_fds a = children_fds a.children ++ own_fds a.cs

closed_fds-close_cs : (cs : Option ℕ) → closed_fds (close_cs cs) ≡ own_fds cs
closed_fds-close_cs none = refl
closed_fds-close_cs (some fd) = refl

closed_fds-children : (c : Children) → closed_fds (shutdown_children_calls c) ≡ children_fds c
unfolding shutdown_children_calls
closed_fds-children nil = refl
closed_fds-children (child p below next) = rw (
  closed_fds-append (shutdown_children_calls below)
      (shutdown_calls p ++ shutdown_children_calls next),
  closed_fds-children below,
  closed_fds-append (close_cs p.cs) (shutdown_children_calls next),
  closed_fds-close_cs p.cs,
  closed_fds-children next,
)

-- Every object of a list of children and below it is closed and holds nothing.
abbrev pub AllShut : Children → Type 0
AllShut nil = Unit {0}
AllShut (child p below next) =
    (p.state ≡ closed) × (p.cs ≡ none) × (p.queue_out ≡ []) × AllShut below × AllShut next

shutdown_children-AllShut : (c : Children) → AllShut (shutdown_children c)
unfolding shutdown_children
shutdown_children-AllShut nil = tt
shutdown_children-AllShut (child p below next) =
    (refl, refl, refl, shutdown_children-AllShut below, shutdown_children-AllShut next)

-- `shutdown` closes every descriptor that the association and its descendants hold, each once and
-- the children's first, and leaves all of them closed, without a connection and with no queue.
pub shutdown_closes_all :
    (a : Assoc)
    → (closed_fds (shutdown a).1 ≡ held_fds a)
      × ((shutdown a).0.state ≡ closed)
      × ((shutdown a).0.cs ≡ none)
      × ((shutdown a).0.queue_out ≡ [])
      × AllShut (shutdown a).0.children
unfolding shutdown
shutdown_closes_all a = (
  closed_fds-append (shutdown_children_calls a.children) (shutdown_calls a.priv)
      ∙ ap (λ l. l ++ closed_fds (close_cs a.cs)) (closed_fds-children a.children)
      ∙ ap (λ l. children_fds a.children ++ l) (closed_fds-close_cs a.cs),
  refl,
  refl,
  refl,
  shutdown_children-AllShut a.children,
)

children_fds-AllShut : (c : Children) → AllShut c → children_fds c ≡ []
children_fds-AllShut nil h = refl
children_fds-AllShut (child p below next) h =
    rw (children_fds-AllShut below h.3, h.1, children_fds-AllShut next h.4)

-- A second `shutdown` closes nothing.
pub shutdown_twice : (a : Assoc) → closed_fds (shutdown (shutdown a).0).1 ≡ []
shutdown_twice a =
    let first = shutdown_closes_all a in
    (shutdown_closes_all (shutdown a).0).0
    ∙ ap (λ l. l ++ own_fds (shutdown a).0.cs)
        (children_fds-AllShut (shutdown a).0.children first.4)
    ∙ ap own_fds first.2

-- Every call but one of `failNotify`.
abbrev pub NotTold : Call → Type 0
NotTold (fail_notify o) = ⊥
NotTold _ = Unit

NotTold-close_cs : (cs : Option ℕ) → All NotTold (close_cs cs)
NotTold-close_cs none = tt
NotTold-close_cs (some fd) = (tt, tt)

NotTold-children : (c : Children) → All NotTold (shutdown_children_calls c)
unfolding shutdown_children_calls
NotTold-children nil = tt
NotTold-children (child p below next) =
    All-append NotTold (shutdown_children_calls below) _ (NotTold-children below)
      (tt, All-append NotTold (close_cs p.cs) _ (NotTold-close_cs p.cs) (NotTold-children next))

shutdown-NotTold : (a : Assoc) → All NotTold (shutdown a).1
unfolding shutdown
shutdown-NotTold a =
    All-append NotTold (shutdown_children_calls a.children) _ (NotTold-children a.children)
      (tt, NotTold-close_cs a.cs)

-- `close_session` with one package queued makes no call; when that package is then sent whole, in
-- a state that can write, the association is shut down, and the observer is not told of it.
pub close_session_deferred :
    (a : Assoc) (q : Packet) (answer : Answer)
    → a.queue_out ≡ q ∷ []
    → can_write a.state ≡ true
    → answer.res ≡ pos 0
    → let dead = set_dead true a in
      let (b, calls, r) = flush_pdu answer dead in
      (close_session a ≡ (dead, [])) × (b.state ≡ closed) × (b.cs ≡ none) × All NotTold calls
unfolding close_session flush_pdu flush_first flush_sent
close_session_deferred a q answer queue w sent =
    let idle = set_state ready (set_queue [] (set_dead true a)) in
    let shut = shutdown_closes_all idle in ground (arith, shut.1, shut.2, shutdown-NotTold idle)

-- With nothing queued, `close_session` shuts the association down and tells the observer last.
pub close_session_idle :
    (a : Assoc)
    → a.queue_out ≡ []
    → let (b, calls) = close_session a in
      (b.state ≡ closed)
      × (b.cs ≡ none)
      × (calls ≡ (shutdown (set_dead true a)).1 ++ fail_notify a.observer ∷ [])
unfolding close_session fail shutdown
close_session_idle a queue = ground arith
