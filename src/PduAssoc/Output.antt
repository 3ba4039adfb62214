-- ===== src/PduAssoc/Output.antt =====
-- src/yaz-pdu-assoc.cpp: the queue of outgoing packages.
use yazpp.Prelude.{Bool, true, false, List, [], ◌∷◌, ◌++◌, none, some, if◌then◌else◌}
use yazpp.Prelude.Int.{ℤ, pos, negsuc, ◌==ℤ◌}
use yazpp.Mask.{Mask}
use yazpp.PduAssoc.State.{
  State, ready, writing, Packet, Assoc, Call, mask_observer, put, shutdown, fail, set_state,
  set_queue, set_dead,
}

-- `io_pending` of a COMSTACK: CS_WANT_READ and CS_WANT_WRITE.
pub record Pending : Type 0 where
  pub want_read : Bool
  pub want_write : Bool

-- What a COMSTACK function returns, and `io_pending` after it.
pub record Answer : Type 0 where
  pub res : ℤ
  pub pending : Pending

abbrev pub is_neg : ℤ → Bool
is_neg (pos n) = false
is_neg (negsuc n) = true

-- SOCKET_OBSERVE_EXCEPT and what is pending.
abbrev pub pending_mask : Pending → Mask
pending_mask p = record { read = p.want_read; write = p.want_write; except = true; timeout = false }

abbrev pub events : Bool → Bool → Mask
events read write = record { read = read; write = write; except = true; timeout = false }

-- `maskObserver(this, mask, cs_fileno(cs))`.
abbrev pub mask_this : Assoc → Mask → Call
mask_this a mask = mask_observer a.this mask a.cs

abbrev pub can_write : State → Bool
can_write ready = true
can_write writing = true
can_write _ = false

-- `flush_PDU` on an empty queue.
unfoldable pub flush_empty : Assoc → Assoc × List Call × ℤ
flush_empty a =
    let idle = set_state ready a in
    let (failed, calls) = fail idle in
    let masked = mask_this a (events true true) in
    if a.session_is_dead then (failed, masked ∷ calls, pos 0) else (idle, masked ∷ [], pos 0)

-- The whole package was sent.
unfoldable pub flush_sent : Packet → List Packet → ℤ → Assoc → Assoc × List Call × ℤ
flush_sent q [] r a =
    let idle = set_state ready (set_queue [] a) in
    let (shut, calls) = shutdown idle in
    let masked = mask_this a (events true false) in
    if a.session_is_dead
    then (shut, put q true ∷ masked ∷ calls, r)
    else (idle, put q true ∷ masked ∷ [], r)
flush_sent q (p ∷ ps) r a = (set_queue (p ∷ ps) a, put q true ∷ [], r)

-- `cs_put` on the first package of the queue.
unfoldable pub flush_first : Answer → Packet → List Packet → Assoc → Assoc × List Call × ℤ
flush_first answer q rest a =
    let (failed, calls) = fail a in
    let waiting = record answer.pending { want_write = true } in
    if is_neg answer.res
    then (failed, put q false ∷ calls, answer.res)
    else if answer.res ==ℤ pos 1
    then (set_state writing a, put q false ∷ mask_this a (pending_mask waiting) ∷ [], answer.res)
    else flush_sent q rest answer.res a

-- `answer` is what `cs_put` returns, where it is called.
unfoldable pub flush_pdu : Answer → Assoc → Assoc × List Call × ℤ
flush_pdu answer a =
    if can_write a.state
    then elim a.queue_out [ [] ↦ flush_empty a | q ∷ rest ↦ flush_first answer q rest a ]
    else (a, [], pos 1)

-- The package goes to the end of the queue, and is written at once if the queue was empty.
unfoldable pub send_pdu : Answer → Packet → Assoc → Assoc × List Call × ℤ
send_pdu answer buf a =
    let queued = set_queue (a.queue_out ++ buf ∷ []) a in
    elim a.cs [
      | none ↦ (a, [], negsuc 0)
      | some fd ↦ elim a.queue_out [ [] ↦ flush_pdu answer queued | q ∷ rest ↦ (queued, [], pos 0) ]
    ]

unfoldable pub close_session : Assoc → Assoc × List Call
close_session a =
    let dead = set_dead true a in elim a.queue_out [ [] ↦ fail dead | q ∷ rest ↦ (dead, []) ]
