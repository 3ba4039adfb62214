-- ===== src/SocketManager/Observers.antt =====
-- src/yaz-socket-manager.cpp: who is registered after an operation and after a turn.
use yazpp.Prelude.{
  ℕ, Bool, true, false, ◌≡◌, ◌≢◌, refl, ◌∙◌, ap, ◌⊎◌, inl, inr, List, [], ◌∷◌, Option, none, some,
  is_some, if◌then◌else◌, ◌==◌, arith, subst, ==_iff, Bool-cases, Option-cases,
}
use yazpp.Prelude.Int.{ℤ, pos, negsuc, ltb_ℤ}
use yazpp.Mask.{Mask}
use yazpp.SocketManager.Registry.{
  Entry, Event, Manager, lookup_observer, reset, add_observer, delete_observer, mask_observer,
  timeout_observer,
}
use yazpp.SocketManager.Turn.{
  PollFd, prepare_all, find_fd, inspect_fd, inspect_fds, PollAnswer, poll_failed, polled, PollEnd,
  interrupted, gave_up, ended, poll_loop, Turn, aborted, turned, deliver, finish_poll,
  process_event,
}
use yazpp.SocketManager.Safety.{is_registered, Distinct, Same, update-Same, unlink-registered}
use yazpp.SocketManager.Loop.{prepare_all-Same, touch_fd-Same}

same_at :
    (o j : ℕ) (es : List Entry) (b : Bool)
    → is_registered o es ≡ b
    → is_registered j es ≡ (if o == j then b else is_registered j es)
same_at o j es b h = elim (Bool-cases (o == j)) [
  | inl e ↦ rw e (subst (λ k. is_registered k es ≡ b) ((==_iff o j).0 e) h)
  | inr ne ↦ rw ne
]

pub add_observer-registered :
    (memory fd : ℤ) (o : ℕ) (m : Manager) (j : ℕ)
    → is_registered j (add_observer memory fd o m).observers
      ≡ (if o == j then true else is_registered j m.observers)
unfolding add_observer
add_observer-registered memory fd o m j = elim (Option-cases (lookup_observer o m.observers)) [
  | inl new_one ↦ rw (new_one, add_observer) (unfold lookup_observer in ground arith)
  | inr (e, old) ↦
      rw (old, add_observer)
        (update-Same o (reset fd) m.observers (λ x. refl) j
          ∙ same_at o j m.observers true (ap is_some old))
]

pub delete_observer-registered :
    (o : ℕ) (m : Manager) (j : ℕ)
    → Distinct m.observers
    → is_registered j (delete_observer o m).observers
      ≡ (if o == j then false else is_registered j m.observers)
unfolding delete_observer
delete_observer-registered o m j d = elim (Option-cases (lookup_observer o m.observers)) [
  | inl absent ↦ rw (absent, delete_observer) (same_at o j m.observers false (ap is_some absent))
  | inr (e, there) ↦ rw (there, delete_observer) (unlink-registered o m.observers j d)
]

pub mask_observer-registered :
    (o : ℕ) (mask : Mask) (fd : ℤ) (m : Manager)
    → Same m.observers (mask_observer o mask fd m).observers
unfolding mask_observer
mask_observer-registered o mask fd m = update-Same o _ m.observers (λ e. refl)

pub timeout_observer-registered :
    (o : ℕ) (t : ℤ) (m : Manager) → Same m.observers (timeout_observer o t m).observers
unfolding timeout_observer
timeout_observer-registered o t m = update-Same o _ m.observers (λ e. refl)

-- The end of a turn, for the observers before it: the same are registered, and the loop goes on
-- unless there were none.
abbrev pub SameTurn : List Entry → Turn → Type 0
SameTurn es (turned m event r) = Same es m.observers × ((ltb_ℤ (pos 0) r ≡ true) ⊎ (es ≡ []))
SameTurn es _ = Unit

abbrev SameManager : List Entry → Option Manager → Type 0
SameManager es none = Unit
SameManager es (some m) = Same es m.observers

inspect_fd-Same :
    (now : ℕ) (res timeout : ℤ) (out : PollFd) (m : Manager)
    → SameManager m.observers (inspect_fd now res timeout out m)
unfolding inspect_fd
inspect_fd-Same now res timeout out m = elim (Option-cases (find_fd out.fd m.observers)) [
  | inl absent ↦ rw (absent, inspect_fd) (λ j. refl)
  | inr (p, found) ↦ rw (found, inspect_fd) (ground (arith, touch_fd-Same out.fd now m.observers))
]

inspect_fds-Same :
    (now : ℕ) (res timeout : ℤ) (outs : List PollFd) (es : List Entry) (m : Manager)
    → Same es m.observers
    → SameManager es (inspect_fds now res timeout outs m)
unfolding inspect_fds
inspect_fds-Same now res timeout [] es m s = s
inspect_fds-Same now res timeout (out ∷ outs) es m s =
    next (inspect_fd now res timeout out m) (inspect_fd-Same now res timeout out m)
      (λ m' h. inspect_fds-Same now res timeout outs es m' (λ j. h j ∙ s j))
  where
    next :
        (o : Option Manager)
        → SameManager m.observers o
        → ((m' : Manager)
            → Same m.observers m'.observers
            → SameManager es (inspect_fds now res timeout outs m'))
        → SameManager es (elim o [ none ↦ none | some m' ↦ inspect_fds now res timeout outs m' ])
    next none h k = tt
    next (some m') h k = k m' h

deliver-Same : (es : List Entry) (m : Manager) → Same es m.observers → SameTurn es (deliver m)
unfolding deliver
deliver-Same es m s = (s, inl refl)

-- The loop around the poll never gives up.
poll_loop-ne-gave_up : (answers : List PollAnswer) → poll_loop 0 answers ≢ some gave_up
unfolding poll_loop
poll_loop-ne-gave_up [] e = cc
poll_loop-ne-gave_up (polled res outs ∷ answers) e = cc
poll_loop-ne-gave_up (poll_failed true ∷ answers) e = cc
poll_loop-ne-gave_up (poll_failed false ∷ answers) e = poll_loop-ne-gave_up answers e

finish_poll-Same :
    (now : ℕ) (timeout : ℤ) (es : List Entry) (m : Manager) (o : Option PollEnd)
    → o ≢ some gave_up
    → Same es m.observers
    → SameTurn es (finish_poll now timeout m o)
unfolding finish_poll
finish_poll-Same now timeout es m none ne s = tt
finish_poll-Same now timeout es m (some interrupted) ne s = (s, inl refl)
finish_poll-Same now timeout es m (some gave_up) ne s = absurd (ne refl)
finish_poll-Same now timeout es m (some (ended res outs)) ne s =
    next (inspect_fds now (pos res) timeout outs m)
      (inspect_fds-Same now (pos res) timeout outs es m s)
  where
    next :
        (o : Option Manager)
        → SameManager es o
        → SameTurn es (elim o [ none ↦ aborted | some m' ↦ deliver m' ])
    next none h = tt
    next (some m') h = deliver-Same es m' h

turn_cases :
    (now later : ℕ) (answers : List PollAnswer) (es : List Entry) (q : List Event)
    → SameTurn es (process_event now later answers (record { observers = es; queue = q }))
unfolding process_event
turn_cases now later answers es (e ∷ q) =
    deliver-Same es (record { observers = es; queue = e ∷ q }) (λ j. refl)
turn_cases now later answers [] [] = (λ j. refl, inr refl)
turn_cases now later answers (p ∷ ps) [] =
    let (entries, fds, timeout) = prepare_all now (negsuc 0) (p ∷ ps) in
    finish_poll-Same later timeout (p ∷ ps) (record { observers = entries; queue = [] })
      (poll_loop 0 answers) (poll_loop-ne-gave_up answers)
      (prepare_all-Same now (negsuc 0) (p ∷ ps))

pub process_event-Same :
    (now later : ℕ) (answers : List PollAnswer) (m : Manager)
    → SameTurn m.observers (process_event now later answers m)
process_event-Same now later answers m = turn_cases now later answers m.observers m.queue
