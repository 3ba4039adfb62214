-- ===== src/PduAssoc/Setup.antt =====
-- src/yaz-pdu-assoc.cpp: what opens, adopts and destroys an association. What COMSTACK answers is
-- an argument: `comstack` the object that `cs_create_host` makes, by its descriptor.
use yazpp.Prelude.{
  ℕ, Bool, true, false, ◌||◌, ◌==◌, List, [], ◌∷◌, ◌++◌, Option, none, some, if◌then◌else◌,
}
use yazpp.Prelude.Int.{ℤ, pos, negsuc, ◌==ℤ◌}
use yazpp.Mask.{Mask}
use yazpp.PduAssoc.State.{
  connecting, listen, ready, closed, accepting, Packet, Children, nil, child, Assoc, Call,
  add_observer, delete_observer, timeout_observer, init, close_cs, shutdown, set_state, set_queue,
  set_observer, set_cs, set_input,
}
use yazpp.PduAssoc.Output.{Pending, Answer, is_neg, pending_mask, events, mask_this, flush_pdu}

abbrev pub is_pending : Pending → Bool
is_pending p = p.want_read || p.want_write

-- The constructor over a connection that was accepted. Its queue is empty, so `flush_PDU` asks
-- nothing of COMSTACK: the answer is never read.
unfoldable pub adopt : ℕ → ℕ → Pending → Assoc × List Call
unfolding init flush_pdu
adopt this fd pending =
    let fresh : Assoc = record { priv = record (init this) { cs = some fd }; children = nil } in
    let (flushed, calls, r) =
      flush_pdu (record { res = pos 0; pending = pending }) (set_state ready fresh) in
    if is_pending pending
    then (
      set_state accepting fresh,
      add_observer this ∷ mask_this fresh (pending_mask pending) ∷ [],
    )
    else (flushed, add_observer this ∷ calls)

-- `listen` on an empty address.
unfoldable pub stop_listen : Assoc → Assoc × List Call
stop_listen a = (
  set_input none (set_queue [] (set_cs none (set_state closed a))),
  delete_observer a.this ∷ close_cs a.cs,
)

-- `listen` on an address: `bound` is the result of `cs_bind`.
unfoldable pub start_listen : ℕ → Option ℕ → ℤ → Assoc → Assoc × List Call × ℤ
start_listen observer comstack bound a =
    let (shut, calls) = shutdown a in
    let opened = set_cs comstack (set_observer (some observer) shut) in
    let masked = mask_this opened (events true false) in
    elim comstack [
      | none ↦ (opened, calls, negsuc 0)
      | some fd ↦
          if is_neg bound
          then (opened, calls, negsuc 1)
          else (set_state listen opened, calls ++ add_observer a.this ∷ masked ∷ [], pos 0)
    ]

unfoldable pub listen_on : ℕ → Packet → Option ℕ → ℤ → Assoc → Assoc × List Call × ℤ
unfolding stop_listen start_listen
listen_on observer addr comstack bound a =
    let (stopped, calls) = stop_listen a in
    elim addr [ [] ↦ (stopped, calls, pos 0) | c ∷ cs ↦ start_listen observer comstack bound a ]

-- `connect`: `answer` is the result of `cs_connect`.
unfoldable pub connect : ℕ → Option ℕ → Answer → Assoc → Assoc × List Call × ℤ
connect observer comstack answer a =
    let (shut, calls) = shutdown a in
    let opened = set_cs comstack (set_observer (some observer) shut) in
    let started = λ (mask : Mask). calls ++ add_observer a.this ∷ mask_this opened mask ∷ [] in
    elim comstack [
      | none ↦ (opened, calls, negsuc 0)
      | some fd ↦
          if answer.res ==ℤ pos 0
          then (
            set_state connecting opened,
            started (record { read = true; write = true; except = true; timeout = false }),
            pos 0,
          )
          else if is_neg answer.res
          then (
            opened,
            started (record { read = false; write = true; except = true; timeout = false }),
            pos 0,
          )
          else (set_state connecting opened, started (pending_mask answer.pending), pos 0)
    ]

-- `idleTime`.
unfoldable pub set_idle_time : ℤ → Assoc → Assoc × List Call
set_idle_time t a =
    (record a { priv = record (a.priv) { idle_time = t } }, timeout_observer a.this t ∷ [])

-- `childNotify`: `observer` is what `sessionNotify` returns. Without one the child is shut down
-- and deleted; with one it is the first child.
unfoldable pub child_notify : ℕ → ℕ → Pending → Option ℕ → Assoc → Assoc × List Call
unfolding adopt
child_notify this fd pending observer a =
    let (fresh, calls) = adopt this fd pending in
    let (shut, shut_calls) = shutdown fresh in
    elim observer [
      | none ↦ (a, calls ++ shut_calls)
      | some o ↦ (
        record a { children = child (set_observer (some o) fresh).priv fresh.children a.children },
        calls,
      )
    ]

-- The unlinking from the parent's list of children; `none` where the list does not hold the
-- object, at which the source stops by an assertion.
unfoldable pub unlink : ℕ → Children → Option Children
unlink this nil = none
unlink this (child p below next) =
    let rest = unlink this next in
    if p.this == this
    then some next
    else elim rest [ none ↦ none | some next' ↦ some (child p below next') ]

-- `destroy`, with the parent's children if there is a parent: the object that is left for the
-- caller to delete, the parent's new list, and whether the flag of a running `socketNotify` is set.
unfoldable pub destroy :
    Option Children → Assoc → Assoc × List Call × Option (Option Children) × Bool
destroy siblings a =
    let (shut, calls) = shutdown a in
    (
      record shut { children = nil },
      calls,
      elim siblings [ none ↦ none | some cs ↦ some (unlink a.this cs) ],
      a.destroyed,
    )

-- `set_cert_fname`.
unfoldable pub set_cert_fname : Option Packet → Assoc → Assoc
set_cert_fname fname a = record a { priv = record (a.priv) { cert_fname = fname } }
