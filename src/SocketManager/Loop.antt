-- ===== src/SocketManager/Loop.antt =====
-- src/yaz-socket-manager.cpp: a turn of the event loop, and the registered observers.
use yazpp.Prelude.{
  ℕ, true, ◌≡◌, refl, ◌∙◌, inl, inr, List, [], ◌∷◌, Option, none, some, All, All-append, arith,
  Option-cases,
}
use yazpp.Prelude.Int.{ℤ, pos, negsuc}
use yazpp.Mask.{Mask, any}
use yazpp.SocketManager.Registry.{Entry, Event, Manager, put_event, get_event, lookup_observer}
use yazpp.SocketManager.Turn.{
  PollFd, to_mask, prepare, prepare_all, next_timeout, find_fd, touch_fd, timed_out, inspect_fd,
  inspect_fds, PollAnswer, PollEnd, interrupted, gave_up, ended, poll_loop, Turn, aborted, turned,
  deliver, finish_poll, process_event,
}
use yazpp.SocketManager.Safety.{is_registered, Distinct, Live, WellFormed, Same, Live-Same}

pub prepare_all-Same : (now : ℕ) (t : ℤ) (es : List Entry) → Same es (prepare_all now t es).0
unfolding prepare_all prepare lookup_observer
prepare_all-Same now t [] j = refl
prepare_all-Same now t (e ∷ es) j = ground (arith, prepare_all-Same now (next_timeout now t e) es j)

prepare_all-Distinct :
    (now : ℕ) (t : ℤ) (es : List Entry) → Distinct es → Distinct (prepare_all now t es).0
unfolding prepare_all prepare
prepare_all-Distinct now t [] d = tt
prepare_all-Distinct now t (e ∷ es) d = ground (
  arith,
  prepare_all-Distinct now (next_timeout now t e) es d.1,
  prepare_all-Same now (next_timeout now t e) es e.observer,
)

pub touch_fd-Same : (fd : ℤ) (now : ℕ) (es : List Entry) → Same es (touch_fd fd now es)
unfolding touch_fd lookup_observer
touch_fd-Same fd now [] j = refl
touch_fd-Same fd now (e ∷ es) j = ground (arith, touch_fd-Same fd now es j)

touch_fd-Distinct :
    (fd : ℤ) (now : ℕ) (es : List Entry) → Distinct es → Distinct (touch_fd fd now es)
unfolding touch_fd
touch_fd-Distinct fd now [] d = tt
touch_fd-Distinct fd now (e ∷ es) d =
    ground (arith, touch_fd-Distinct fd now es d.1, touch_fd-Same fd now es e.observer)

find_fd-registered :
    (fd : ℤ) (es : List Entry) (p : Entry)
    → find_fd fd es ≡ some p
    → is_registered p.observer es ≡ true
unfolding find_fd lookup_observer
find_fd-registered fd [] p e = cc
find_fd-registered fd (x ∷ es) p e = ground (arith, find_fd-registered fd es p)

-- The manager after an event of the first entry with a descriptor.
abbrev noted : ℤ → ℕ → Entry → Mask → Manager → Manager
noted fd now p mask m = record m {
  observers = touch_fd fd now m.observers;
  queue = put_event (record { observer = p.observer; event = mask }) m.queue;
}

noted-WellFormed :
    (fd : ℤ) (now : ℕ) (p : Entry) (mask : Mask) (m : Manager)
    → find_fd fd m.observers ≡ some p
    → any mask ≡ true
    → WellFormed m
    → WellFormed (noted fd now p mask m)
unfolding put_event
noted-WellFormed fd now p mask m found some_event v = record {
  distinct = touch_fd-Distinct fd now m.observers v.distinct;
  live =
      All-append (Live (touch_fd fd now m.observers)) m.queue _
        (Live-Same m.observers _ m.queue (touch_fd-Same fd now m.observers) v.live)
        (
          (
            touch_fd-Same fd now m.observers p.observer ∙ find_fd-registered fd m.observers p found,
            some_event,
          ),
          tt,
        );
}

abbrev OkManager : Option Manager → Type 0
OkManager none = Unit
OkManager (some m) = WellFormed m

inspect_fd-WellFormed :
    (now : ℕ) (res timeout : ℤ) (out : PollFd) (m : Manager)
    → WellFormed m
    → OkManager (inspect_fd now res timeout out m)
unfolding inspect_fd
inspect_fd-WellFormed now res timeout out m v = elim (Option-cases (find_fd out.fd m.observers)) [
  | inl absent ↦ rw (absent, inspect_fd) v
  | inr (p, found) ↦
      rw (found, inspect_fd)
        (ground (
          arith,
          noted-WellFormed out.fd now p (to_mask out) m found,
          noted-WellFormed out.fd now p timed_out m found refl,
        ))
]

inspect_fds-WellFormed :
    (now : ℕ) (res timeout : ℤ) (outs : List PollFd) (m : Manager)
    → WellFormed m
    → OkManager (inspect_fds now res timeout outs m)
unfolding inspect_fds
inspect_fds-WellFormed now res timeout [] m v = v
inspect_fds-WellFormed now res timeout (out ∷ outs) m v =
    next (inspect_fd now res timeout out m) (inspect_fd-WellFormed now res timeout out m v)
      (λ m' v'. inspect_fds-WellFormed now res timeout outs m' v')
  where
    next :
        (o : Option Manager)
        → OkManager o
        → ((m' : Manager) → WellFormed m' → OkManager (inspect_fds now res timeout outs m'))
        → OkManager (elim o [ none ↦ none | some m' ↦ inspect_fds now res timeout outs m' ])
    next none h k = tt
    next (some m') h k = k m' h

-- The end of a turn: the manager is well formed, and what is notified is a registered observer,
-- of some event.
abbrev pub Told : List Entry → Option Event → Type 0
Told es none = Unit
Told es (some e) = Live es e

abbrev pub TurnOk : Turn → Type 0
TurnOk (turned m event r) = WellFormed m × Told m.observers event
TurnOk _ = Unit

deliver-queue :
    (es : List Entry) (q : List Event)
    → Distinct es
    → All (Live es) q
    → TurnOk (deliver (record { observers = es; queue = q }))
unfolding deliver get_event
deliver-queue es [] d l = (record { distinct = d; live = tt }, tt)
deliver-queue es (e ∷ q) d l = (record { distinct = d; live = l.1 }, l.0)

finish_poll-ok :
    (now : ℕ) (timeout : ℤ) (m : Manager) (o : Option PollEnd)
    → WellFormed m
    → TurnOk (finish_poll now timeout m o)
unfolding finish_poll
finish_poll-ok now timeout m none v = tt
finish_poll-ok now timeout m (some interrupted) v = (v, tt)
finish_poll-ok now timeout m (some gave_up) v = (v, tt)
finish_poll-ok now timeout m (some (ended res outs)) v =
    next (inspect_fds now (pos res) timeout outs m)
      (inspect_fds-WellFormed now (pos res) timeout outs m v)
  where
    next :
        (o : Option Manager)
        → OkManager o
        → TurnOk (elim o [ none ↦ aborted | some m' ↦ deliver m' ])
    next none h = tt
    next (some m') h = deliver-queue m'.observers m'.queue h.distinct h.live

turn_cases :
    (now later : ℕ) (answers : List PollAnswer) (es : List Entry) (q : List Event)
    → Distinct es
    → All (Live es) q
    → TurnOk (process_event now later answers (record { observers = es; queue = q }))
unfolding process_event
turn_cases now later answers es (e ∷ q) d l = deliver-queue es (e ∷ q) d l
turn_cases now later answers [] [] d l = (record { distinct = d; live = tt }, tt)
turn_cases now later answers (p ∷ ps) [] d l =
    let (entries, fds, timeout) = prepare_all now (negsuc 0) (p ∷ ps) in
    finish_poll-ok later timeout (record { observers = entries; queue = [] }) (poll_loop 0 answers)
      (record { distinct = prepare_all-Distinct now (negsuc 0) (p ∷ ps) d; live = tt })

-- A turn keeps the manager well formed, whatever the poll answers; the observer that it notifies
-- is registered, and the event is not empty.
pub process_event-ok :
    (now later : ℕ) (answers : List PollAnswer) (m : Manager)
    → WellFormed m
    → TurnOk (process_event now later answers m)
process_event-ok now later answers m v =
    turn_cases now later answers m.observers m.queue v.distinct v.live
