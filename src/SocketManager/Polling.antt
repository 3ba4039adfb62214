-- ===== src/SocketManager/Polling.antt =====
-- src/yaz-socket-manager.cpp: the poll of a turn, and what a turn asserts of its result.
use yazpp.Prelude.{
  ℕ, zero, suc, false, ◌≡◌, ◌≢◌, refl, ◌⊎◌, inl, inr, List, [], ◌∷◌, Option, none, some, ◌==◌, All,
  arith, Option-cases,
}
use yazpp.Prelude.Int.{ℤ, pos, negsuc}
use yazpp.SocketManager.Registry.{Entry, Event, Manager}
use yazpp.SocketManager.Turn.{
  PollFd, prepare, prepare_all, next_timeout, find_fd, touch_fd, inspect_fd, inspect_fds,
  PollAnswer, poll_failed, polled, PollEnd, interrupted, gave_up, ended, poll_loop, aborted,
  deliver, finish_poll, process_event,
}

-- An entry that has a timeout in this turn has seen some activity.
abbrev Timed : Entry → Type 0
Timed e = (e.timeout_this ≡ negsuc 0) ⊎ ((e.last_activity == 0) ≡ false)

prepare-Timed : (now : ℕ) (t : ℤ) (es : List Entry) → now ≢ 0 → All Timed (prepare_all now t es).0
unfolding prepare_all prepare
prepare-Timed now t [] h = tt
prepare-Timed now t (e ∷ es) h = ground (arith, prepare-Timed now (next_timeout now t e) es h)

touch_fd-Timed :
    (fd : ℤ) (now : ℕ) (es : List Entry) → now ≢ 0 → All Timed es → All Timed (touch_fd fd now es)
unfolding touch_fd
touch_fd-Timed fd now [] h a = tt
touch_fd-Timed fd now (e ∷ es) h a = ground (arith, touch_fd-Timed fd now es h a.1)

find_fd-Timed :
    (fd : ℤ) (es : List Entry) (p : Entry) → All Timed es → find_fd fd es ≡ some p → Timed p
unfolding find_fd
find_fd-Timed fd [] p a e = cc
find_fd-Timed fd (x ∷ es) p a e = ground (arith, find_fd-Timed fd es p a.1)

-- The result of a poll with no timeout is no timeout.
abbrev Waits : ℤ → ℤ → Type 0
Waits res timeout = timeout ≡ negsuc 0 → res ≢ pos 0

abbrev Holds : Option Manager → Type 0
Holds none = ⊥
Holds (some m) = All Timed m.observers

inspect_fd-Holds :
    (now : ℕ) (res timeout : ℤ) (out : PollFd) (m : Manager)
    → now ≢ 0
    → Waits res timeout
    → All Timed m.observers
    → Holds (inspect_fd now res timeout out m)
unfolding inspect_fd
inspect_fd-Holds now res timeout out m h w a = elim (Option-cases (find_fd out.fd m.observers)) [
  | inl absent ↦ rw (absent, inspect_fd) a
  | inr (p, found) ↦
      rw (found, inspect_fd)
        (ground (
          arith,
          find_fd-Timed out.fd m.observers p a found,
          touch_fd-Timed out.fd now m.observers h a,
        ))
]

inspect_fds-Holds :
    (now : ℕ) (res timeout : ℤ) (outs : List PollFd) (m : Manager)
    → now ≢ 0
    → Waits res timeout
    → All Timed m.observers
    → Holds (inspect_fds now res timeout outs m)
unfolding inspect_fds
inspect_fds-Holds now res timeout [] m h w a = a
inspect_fds-Holds now res timeout (out ∷ outs) m h w a =
    next (inspect_fd now res timeout out m) (inspect_fd-Holds now res timeout out m h w a)
      (λ m' a'. inspect_fds-Holds now res timeout outs m' h w a')
  where
    next :
        (o : Option Manager)
        → Holds o
        → ((m' : Manager) → All Timed m'.observers → Holds (inspect_fds now res timeout outs m'))
        → Holds (elim o [ none ↦ none | some m' ↦ inspect_fds now res timeout outs m' ])
    next none b k = absurd b
    next (some m') b k = k m' b

-- No answer of `yaz_poll` is 0, which says that the timeout passed, if there is no timeout.
abbrev pub NoFalseTimeout : ℤ → List PollAnswer → Type 0
NoFalseTimeout timeout [] = Unit {0}
NoFalseTimeout timeout (poll_failed eintr ∷ answers) = NoFalseTimeout timeout answers
NoFalseTimeout timeout (polled res outs ∷ answers) =
    (timeout ≡ negsuc 0 → pos res ≢ pos 0) × NoFalseTimeout timeout answers

abbrev EndWaits : ℤ → Option PollEnd → Type 0
EndWaits timeout (some (ended res outs)) = Waits (pos res) timeout
EndWaits timeout _ = Unit

poll_loop-Waits :
    (timeout : ℤ) (pass : ℕ) (answers : List PollAnswer)
    → NoFalseTimeout timeout answers
    → EndWaits timeout (poll_loop pass answers)
unfolding poll_loop
poll_loop-Waits timeout pass [] h = tt
poll_loop-Waits timeout pass (polled res outs ∷ answers) h = h.0
poll_loop-Waits timeout pass (poll_failed eintr ∷ answers) h =
    ground (arith, poll_loop-Waits timeout pass answers h)

finish_poll-Holds :
    (now : ℕ) (timeout : ℤ) (m : Manager) (o : Option PollEnd)
    → now ≢ 0
    → All Timed m.observers
    → EndWaits timeout o
    → finish_poll now timeout m o ≢ aborted
unfolding finish_poll deliver
finish_poll-Holds now timeout m none h a w e = cc
finish_poll-Holds now timeout m (some interrupted) h a w e = cc
finish_poll-Holds now timeout m (some gave_up) h a w e = cc
finish_poll-Holds now timeout m (some (ended res outs)) h a w e =
    next (inspect_fds now (pos res) timeout outs m)
      (inspect_fds-Holds now (pos res) timeout outs m h w a) e
  where
    next :
        (o : Option Manager)
        → Holds o
        → (elim o [ none ↦ aborted | some m' ↦ deliver m' ]) ≢ aborted
    next none b e' = absurd b
    next (some m') b e' = cc

turn_cases-Holds :
    (now later : ℕ) (answers : List PollAnswer) (es : List Entry) (q : List Event)
    → now ≢ 0
    → later ≢ 0
    → NoFalseTimeout (prepare_all now (negsuc 0) es).2 answers
    → process_event now later answers (record { observers = es; queue = q }) ≢ aborted
unfolding process_event deliver
turn_cases-Holds now later answers es (e ∷ q) h k w a = cc
turn_cases-Holds now later answers [] [] h k w a = cc
turn_cases-Holds now later answers (p ∷ ps) [] h k w a =
    let timeout = (prepare_all now (negsuc 0) (p ∷ ps)).2 in
    finish_poll-Holds later timeout _ (poll_loop 0 answers) k
      (prepare-Timed now (negsuc 0) (p ∷ ps) h) (poll_loop-Waits timeout 0 answers w) a

-- With a clock that does not read 0, and a poll that reports no timeout when it has none, the
-- assertion on `last_activity` never fails.
pub process_event-ne-aborted :
    (now later : ℕ) (answers : List PollAnswer) (m : Manager)
    → now ≢ 0
    → later ≢ 0
    → NoFalseTimeout (prepare_all now (negsuc 0) m.observers).2 answers
    → process_event now later answers m ≢ aborted
process_event-ne-aborted now later answers m h k w =
    turn_cases-Holds now later answers m.observers m.queue h k w

-- So many failed polls, none of them by EINTR.
abbrev pub failures : ℕ → List PollAnswer → List PollAnswer
failures zero rest = rest
failures (suc n) rest = poll_failed false ∷ failures n rest

poll_loop-failures :
    (n : ℕ) (rest : List PollAnswer) → poll_loop 0 (failures n rest) ≡ poll_loop 0 rest
unfolding poll_loop
poll_loop-failures zero rest = refl
poll_loop-failures (suc n) rest = poll_loop-failures n rest

-- The bound of ten passes is never reached: however often `yaz_poll` fails for another reason than
-- EINTR, the turn goes on with the answers that follow, as if it had not failed.
pub process_event-failures :
    (now later n : ℕ) (rest : List PollAnswer) (m : Manager)
    → process_event now later (failures n rest) m ≡ process_event now later rest m
unfolding process_event
process_event-failures now later n rest m = ground (arith, poll_loop-failures n rest)
