-- ===== src/PduAssoc/Notify.antt =====
-- src/yaz-pdu-assoc.cpp: `socketNotify`. What COMSTACK answers during one call is a record, and the
-- observer's own code is a parameter.
use mathlib.Core.Option
use yazpp.Prelude.{
  ℕ, Bool, true, false, not, ◌&&◌, ◌||◌, List, [], ◌∷◌, ◌++◌, Option, none, some, is_some,
  if◌then◌else◌,
}
use yazpp.Prelude.Int.{ℤ, pos, ◌==ℤ◌}
use yazpp.Mask.{Mask}
use yazpp.PduAssoc.State.{
  State, connecting, listen, ready, closed, writing, accepting, Packet, Assoc, Call, timeout_notify,
  connect_notify, shutdown, fail, set_state, set_cs, set_input, set_destroyed,
}
use yazpp.PduAssoc.Output.{Pending, Answer, is_neg, pending_mask, events, mask_this, flush_pdu}
use yazpp.PduAssoc.Setup.{is_pending, child_notify}

-- One call of `cs_get`, and of `cs_more` after the package was handled.
pub record Got : Type 0 where
  pub answer : Answer
  pub input : Packet
  pub more : Bool

-- A connection that `cs_accept` makes for a listener: the object that is made for it, its
-- descriptor, what is pending, and the observer that `sessionNotify` returns.
pub record NewLine : Type 0 where
  pub this : ℕ
  pub fd : ℕ
  pub pending : Pending
  pub session : Option ℕ

pub record Net : Type 0 where
  pub accepted : Option Pending
  pub rcvconnect : Answer
  pub listened : ℤ
  pub new_line : Option NewLine
  pub gets : List Got
  pub flushed : Answer

-- The observer's `recv_PDU` (`none`: it destroys the association) and `connectNotify`.
pub record Observer : Type 0 where
  pub recv_pdu : Packet → Assoc → Option Assoc × List Call
  pub connected : Assoc → Assoc × List Call

-- What an event leaves: the association, `none` if it was destroyed.
abbrev pub Outcome : Type 0
Outcome = Option Assoc × List Call

abbrev pub keep : Assoc × List Call → Outcome
keep (a, calls) = (some a, calls)

abbrev pub flush : Answer → Assoc → Outcome
flush answer a = let (a', calls, r) = flush_pdu answer a in (some a', calls)

-- After the loop: wait for more input.
unfoldable pub wait_input : Assoc → Outcome
wait_input a = elim a.state [
  | ready ↦ elim a.cs [
    | none ↦ (some a, [])
    | some fd ↦ (some a, mask_this a (events true false) ∷ [])
  ]
  | _ ↦ (some a, [])
]

abbrev pub append_calls : List Call → Outcome → Outcome
append_calls before (a, calls) = (a, before ++ calls)

-- After `recv_PDU`: the test of the flag, and `cs && cs_more(cs)`, with the rounds that follow.
unfoldable pub after_recv :
    Bool → (Assoc → Option Outcome) → Option Assoc → List Call → Option Outcome
after_recv more next none calls = some (none, calls)
after_recv more next (some a) calls =
    let unlocked = set_destroyed false a in
    let again = Option.map (append_calls calls) (next unlocked) in
    if is_some unlocked.cs && more then again else some (append_calls calls (wait_input unlocked))

module _ (obs : Observer) where
  open obs use {recv_pdu, connected}

  -- One round of the loop over `cs_get`; `next` is the rounds that follow.
  unfoldable pub read_round : Got → (Assoc → Option Outcome) → Assoc → Option Outcome
  read_round g next a =
      let filled = set_input (some g.input) a in
      let locked = set_destroyed true filled in
      let (left, calls) = recv_pdu g.input locked in
      if g.answer.res ==ℤ pos 1
      then some (some filled, mask_this filled (pending_mask g.answer.pending) ∷ [])
      else if is_neg g.answer.res || (g.answer.res ==ℤ pos 0)
      then elim a.observer [
        | none ↦ some (keep (shutdown filled))
        | some o ↦ some (keep (fail filled))
      ]
      else elim a.observer [
        | none ↦ some (some locked, [])
        | some o ↦ after_recv g.more next left calls
      ]

  -- It asks for an answer for each round; `none` where they run out.
  unfoldable pub read_loop : List Got → Assoc → Option Outcome
  read_loop [] a = none
  read_loop (g ∷ gs) a = read_round g (read_loop gs) a

  -- `if (m_PDU_Observer) connectNotify()`.
  abbrev pub noticed : Option ℕ → Assoc → Assoc × List Call
  noticed none a = (a, [])
  noticed (some o) a = let (told, calls) = connected a in (told, connect_notify (some o) ∷ calls)

  -- The states of `socketNotify`, for an event that is neither an exception nor a timeout.
  unfoldable pub notify_state : Net → Mask → Assoc → State → Option Outcome
  notify_state net event a accepting = elim net.accepted [
    | none ↦ some (keep (fail (set_cs none a)))
    | some pending ↦
        if is_pending pending
        then some (some a, mask_this a (pending_mask pending) ∷ [])
        else some (flush net.flushed (set_state ready a))
  ]
  notify_state net event a connecting =
      let up = set_state ready a in
      let told = noticed a.observer up in
      if net.rcvconnect.res ==ℤ pos 1
      then some (some a, mask_this a (pending_mask net.rcvconnect.pending) ∷ [])
      else some (append_calls told.1 (flush net.flushed told.0))
  notify_state net event a listen =
      if event.read
      then (if net.listened ==ℤ pos 1 || is_neg net.listened
          then some (some a, [])
          else elim net.new_line [
            | none ↦ some (some a, [])
            | some l ↦ some (keep (child_notify l.this l.fd l.pending l.session a))
          ])
      else some (some a, [])
  notify_state net event a writing =
      if event.read || event.write then some (flush net.flushed a) else some (some a, [])
  notify_state net event a ready =
      let read = read_loop net.gets a in
      if event.read || event.write then read else some (some a, [])
  notify_state net event a closed = some (keep (fail a))

  abbrev is_connecting : State → Bool
  is_connecting connecting = true
  is_connecting _ = false

  -- `socketNotify`; `none` only where the answers of `cs_get` run out.
  unfoldable pub socket_notify : Net → Mask → Assoc → Option Outcome
  socket_notify net event a =
      if event.except && not (is_connecting a.state)
      then some (keep (fail a))
      else if event.timeout
      then some (some a, timeout_notify a.observer ∷ [])
      else notify_state net event a a.state
