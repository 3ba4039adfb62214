-- ===== src/SocketManager/Turn.antt =====
-- src/yaz-socket-manager.cpp: `processEvent`, one turn of the event loop. The clock and the answers
-- of `yaz_poll` are arguments. The notification of an observer, which is the last thing that a turn
-- does, is part of its result.
use yazpp.Prelude.{
  ℕ, Bool, true, false, not, ◌&&◌, ◌||◌, List, [], ◌∷◌, Option, none, some, if◌then◌else◌, ◌==◌,
  ltb,
}
use yazpp.Prelude.Int.{ℤ, pos, negsuc, sub_ℕ, ◌-ℤ◌, ◌==ℤ◌, ltb_ℤ, to_int}
use yazpp.Mask.{Mask, any}
use yazpp.SocketManager.Registry.{Entry, Event, Manager, put_event, get_event}

-- A `yaz_poll_fd`: the masks are sets of read, write and except.
pub record PollFd : Type 0 where
  pub fd : ℤ
  pub read : Bool
  pub write : Bool
  pub except : Bool

abbrev pub to_mask : PollFd → Mask
to_mask p = record { read = p.read; write = p.write; except = p.except; timeout = false }

-- Whether an entry has a timeout at all.
abbrev pub has_timeout : Entry → Bool
has_timeout p = ltb_ℤ (pos 0) p.timeout || (p.timeout ==ℤ pos 0 && not p.mask.write)

-- `timeout_this`, before it is put into range.
abbrev pub time_left : ℕ → Entry → ℤ
time_left now p =
    if p.last_activity == 0 then p.timeout else to_int (p.timeout -ℤ sub_ℕ now p.last_activity)

abbrev pub in_range : ℤ → ℤ
in_range t = if ltb_ℤ t (pos 0) || ltb_ℤ (pos 2147483646) t then pos 0 else t

-- The part of the first loop for one entry: what it writes to the entry.
unfoldable pub prepare : ℕ → Entry → Entry
prepare now p =
    if has_timeout p
    then record p {
      timeout_this = in_range (time_left now p);
      last_activity = if p.last_activity == 0 then now else p.last_activity;
    }
    else record p { timeout_this = negsuc 0 }

abbrev pub shorter : ℤ → ℤ → ℤ
shorter timeout t = if timeout ==ℤ negsuc 0 || ltb_ℤ t timeout then t else timeout

abbrev pub next_timeout : ℕ → ℤ → Entry → ℤ
next_timeout now timeout p =
    if has_timeout p then shorter timeout (in_range (time_left now p)) else timeout

-- The whole loop: the entries, what is polled, and the timeout of the poll.
unfoldable pub prepare_all : ℕ → ℤ → List Entry → List Entry × List PollFd × ℤ
prepare_all now timeout [] = ([], [], timeout)
prepare_all now timeout (p ∷ ps) =
    let p' = prepare now p in
    let (rest, fds, last) = prepare_all now (next_timeout now timeout p) ps in
    (
      p' ∷ rest,
      record { fd = p.fd; read = p.mask.read; write = p.mask.write; except = p.mask.except } ∷ fds,
      last,
    )

-- The first entry with a descriptor.
unfoldable pub find_fd : ℤ → List Entry → Option Entry
find_fd fd [] = none
find_fd fd (p ∷ ps) = if p.fd ==ℤ fd then some p else find_fd fd ps

-- `p->last_activity = now` for that entry.
unfoldable pub touch_fd : ℤ → ℕ → List Entry → List Entry
touch_fd fd now [] = []
touch_fd fd now (p ∷ ps) =
    if p.fd ==ℤ fd then record p { last_activity = now } ∷ ps else p ∷ touch_fd fd now ps

abbrev pub timed_out : Mask
timed_out = record { read = false; write = false; except = false; timeout = true }

-- One descriptor of the poll's result; `none` where the assertion on `last_activity` fails.
unfoldable pub inspect_fd : ℕ → ℤ → ℤ → PollFd → Manager → Option Manager
inspect_fd now res timeout out m = elim (find_fd out.fd m.observers) [
  | none ↦ some m
  | some p ↦
      let noted = λ (mask : Mask). record m {
        observers = touch_fd out.fd now m.observers;
        queue = put_event (record { observer = p.observer; event = mask }) m.queue;
      } in
      if any (to_mask out)
      then some (noted (to_mask out))
      else if res ==ℤ pos 0 && (p.timeout_this ==ℤ timeout)
      then (if p.last_activity == 0 then none else some (noted timed_out))
      else some m
]

unfoldable pub inspect_fds : ℕ → ℤ → ℤ → List PollFd → Manager → Option Manager
inspect_fds now res timeout [] m = some m
inspect_fds now res timeout (out ∷ outs) m = elim (inspect_fd now res timeout out m) [
  | none ↦ none
  | some m' ↦ inspect_fds now res timeout outs m'
]

-- What one call of `yaz_poll` gives: a failure, with whether it was EINTR, or a result with the
-- output masks in place.
pub data PollAnswer : Type 0 where
  poll_failed : Bool → PollAnswer
  polled : ℕ → List PollFd → PollAnswer

-- How the loop around `yaz_poll` ends.
pub data PollEnd : Type 0 where
  interrupted : PollEnd
  gave_up : PollEnd
  ended : ℕ → List PollFd → PollEnd

-- `while ((res = yaz_poll(…)) < 0 && pass < 10)`; `none` while it still polls.
unfoldable pub poll_loop : ℕ → List PollAnswer → Option PollEnd
poll_loop pass [] = none
poll_loop pass (polled res outs ∷ answers) = some (ended res outs)
poll_loop pass (poll_failed eintr ∷ answers) =
    let again = poll_loop pass answers in
    if ltb pass 10 then (if eintr then some interrupted else again) else some gave_up

-- The end of a turn: an assertion failed, the poll goes on, or the manager, the notification that
-- is made last, and the result.
pub data Turn : Type 0 where
  aborted : Turn
  polling : Turn
  turned : Manager → Option Event → ℤ → Turn

-- `getEvent`, and the notification.
unfoldable pub deliver : Manager → Turn
deliver m =
    let (event, rest) = get_event m.queue in turned (record m { queue = rest }) event (pos 1)

unfoldable pub finish_poll : ℕ → ℤ → Manager → Option PollEnd → Turn
finish_poll now timeout m none = polling
finish_poll now timeout m (some interrupted) = turned m none (pos 1)
finish_poll now timeout m (some gave_up) = turned m none (negsuc 0)
finish_poll now timeout m (some (ended res outs)) =
    elim (inspect_fds now (pos res) timeout outs m) [ none ↦ aborted | some m' ↦ deliver m' ]

-- `now` is the clock before the poll and `later` the clock after it.
unfoldable pub process_event : ℕ → ℕ → List PollAnswer → Manager → Turn
process_event now later answers m =
    let (entries, fds, timeout) = prepare_all now (negsuc 0) m.observers in
    let prepared = record m { observers = entries } in
    elim m.queue [
      | e ∷ q ↦ deliver m
      | [] ↦ elim m.observers [
        | [] ↦ turned m none (pos 0)
        | p ∷ ps ↦ finish_poll later timeout prepared (poll_loop 0 answers)
      ]
    ]
