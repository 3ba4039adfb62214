-- ===== src/PduAssocThread/Passes.antt =====
-- src/yaz-pdu-assoc-thread.cpp: a pass of the thread's loop, and any number of passes.
use yazpp.Prelude.{
  ℕ, Bool, true, false, ◌≡◌, refl, subst, ◌∙◌, inl, inr, List, [], ◌∷◌, Option, none, some, ◌==◌,
  ◌&&◌, arith, Bool-cases, ==_refl,
}
use yazpp.Prelude.Int.{pos, ltb_ℤ}
use yazpp.SocketManager.Registry.{Entry, Event, Manager, lookup_observer}
use yazpp.SocketManager.Turn.{Turn, aborted, polling, turned, process_event}
use yazpp.SocketManager.Safety.{is_registered, Live, WellFormed, Same}
use yazpp.SocketManager.Loop.{TurnOk, process_event-ok}
use yazpp.SocketManager.Observers.{SameTurn, process_event-Same}
use yazpp.PduAssoc.State.{Assoc}
use yazpp.PduAssoc.Notify.{Outcome, socket_notify}
use yazpp.PduAssoc.Events.{GoodOutcome, GoodResult, append-GoodOutcome, socket_notify-Good}
use yazpp.PduAssocThread.{
  Worker, Handler, Input, Pass, went_on, finished, failed_assertion, waiting, dangling, null_read,
  react, resume, notified, notify, after_turn, pass, run,
}
use yazpp.PduAssocThread.Attached.{is_open, AloneIfAny, Linked}
use yazpp.PduAssocThread.Attached.Events.{Keeps, LinkedResult, socket_notify-Linked, react-Linked}
use yazpp.PduAssocThread.Observed.{Holds, apply_calls-Holds}

-- A worker between two passes: its association is well formed, and its manager has the association
-- registered exactly as long as it is open.
pub record Serves (this : ℕ) (w : Worker) : Type 0 where
  pub holds : Holds this (is_open w.assoc) w.manager
  pub assoc_ok : GoodOutcome (w.assoc, [])
  pub alone : AloneIfAny this w.assoc

-- How a pass may end.
abbrev pub PassOk : ℕ → Worker → Pass → Type 0
PassOk this w (went_on w') = Serves this w'
PassOk this w (finished w') = Serves this w' × (is_open w'.assoc ≡ false) × (w'.assoc ≡ w.assoc)
PassOk this w failed_assertion = Unit
PassOk this w waiting = Unit
PassOk this w _ = ⊥

react-Good :
    (this : ℕ) (h : Handler) (out : Outcome)
    → Keeps this h
    → GoodOutcome out
    → GoodOutcome (react h out)
unfolding react
react-Good this h (none, calls) k g = g
react-Good this h (some a, calls) k g = ground (
  arith,
  append-GoodOutcome calls (h.failed a) g.calls_ok (k.failed_good a g.state_ok),
  append-GoodOutcome calls (h.timed_out a) g.calls_ok (k.timed_out_good a g.state_ok),
)

notified-ok :
    (this : ℕ) (i : Input) (m : Manager) (w : Worker) (b : Bool) (out : Outcome)
    → Holds this b m
    → GoodOutcome out
    → Linked this b out
    → PassOk this w (notified i m (some out))
unfolding notified
notified-ok this i m w b (none, calls) h g l =
    let (m', e, h') = apply_calls-Holds this i.memory calls b m g l.own h in
    rw e (record { holds = subst (λ f. Holds this f m') l.flag h'; assoc_ok = tt; alone = tt })
notified-ok this i m w b (some a, calls) h g l =
    let (m', e, h') = apply_calls-Holds this i.memory calls b m g.calls_ok l.own h in
    rw e (record {
      holds = subst (λ f. Holds this f m') l.flag h';
      assoc_ok = record { state_ok = g.state_ok; calls_ok = tt };
      alone = l.alone;
    })

handled_ok :
    (this : ℕ) (h : Handler) (i : Input) (m : Manager) (w : Worker) (b : Bool) (r : Option Outcome)
    → Keeps this h
    → Holds this b m
    → GoodResult r
    → LinkedResult this b r
    → PassOk this w (notified i m (elim r [ none ↦ none | some o ↦ some (react h o) ]))
unfolding notified
handled_ok this h i m w b none k hm g l = tt
handled_ok this h i m w b (some out) k hm g l =
    notified-ok this i m w b (react h out) hm (react-Good this h out k g)
      (react-Linked this h k b out l)

-- An event for the worker's own association.
notify-ok :
    (this : ℕ) (h : Handler) (i : Input) (m : Manager) (w : Worker) (e : Event) (a : Option Assoc)
    → Keeps this h
    → Holds this (is_open a) m
    → GoodOutcome (a, [])
    → AloneIfAny this a
    → Live m.observers e
    → PassOk this w (notify h i m e a)
unfolding notify
notify-ok this h i m w e none k hm g l live = ground (arith, hm.only e.observer)
notify-ok this h i m w e (some a) k hm g l live =
    let mine : (e.observer == a.this) ≡ true = ground (arith, hm.only e.observer, l.named) in
    rw mine (
      handled_ok this h i m w (is_open (some a)) (socket_notify h.observer i.net e.event a) k hm
        (socket_notify-Good h.observer k.cooperates i.net e.event a g.state_ok)
        (socket_notify-Linked this h k i.net e.event a l))

Same-Holds :
    (this : ℕ) (b : Bool) (m m' : Manager)
    → Holds this b m
    → WellFormed m'
    → Same m.observers m'.observers
    → Holds this b m'
Same-Holds this b m m' h v same = record { well_formed = v; only = λ j. same j ∙ h.only j }

empty_closed : (this : ℕ) (b : Bool) (m : Manager) → Holds this b m → m.observers ≡ [] → b ≡ false
unfolding lookup_observer
empty_closed this b m h e =
    let only : is_registered this [] ≡ b && (this == this) =
      subst (λ es. is_registered this es ≡ b && (this == this)) e (h.only this) in
    ground (arith, ==_refl this)

after_turn-ok :
    (this : ℕ) (h : Handler) (i : Input) (w : Worker) (t : Turn)
    → Keeps this h
    → Serves this w
    → TurnOk t
    → SameTurn w.manager.observers t
    → PassOk this w (after_turn h i w.assoc t)
unfolding after_turn
after_turn-ok this h i w aborted k s ok same = tt
after_turn-ok this h i w polling k s ok same = tt
after_turn-ok this h i w (turned m none r) k s ok same =
    let holds = Same-Holds this (is_open w.assoc) w.manager m s.holds ok.0 same.0 in
    let serves : Serves this (record { manager = m; assoc = w.assoc }) = record {
      holds = holds;
      assoc_ok = s.assoc_ok;
      alone = s.alone;
    } in
    elim same.1 [
      | inl on ↦ rw on serves
      | inr nobody ↦
          let over = empty_closed this (is_open w.assoc) w.manager s.holds nobody in
          elim (Bool-cases (ltb_ℤ (pos 0) r)) [
            | inl on ↦ rw on serves
            | inr off ↦ rw off (serves, over, refl)
          ]
    ]
after_turn-ok this h i w (turned m (some ev) r) k s ok same =
    notify-ok this h i m w ev w.assoc k
      (Same-Holds this (is_open w.assoc) w.manager m s.holds ok.0 same.0) s.assoc_ok s.alone ok.1

pub pass-ok :
    (this : ℕ) (h : Handler) (i : Input) (w : Worker)
    → Keeps this h
    → Serves this w
    → PassOk this w (pass h i w)
unfolding pass
pass-ok this h i w k s =
    after_turn-ok this h i w (process_event i.now i.later i.answers w.manager) k s
      (process_event-ok i.now i.later i.answers w.manager s.holds.well_formed)
      (process_event-Same i.now i.later i.answers w.manager)

-- How a thread may be found: at work on an association that is well formed, over with one that is
-- closed or deleted, or in a call that has not come to its end or has failed its assertion.
abbrev pub RunOk : ℕ → Pass → Type 0
RunOk this (went_on w) = Serves this w
RunOk this (finished w) = (is_open w.assoc ≡ false) × (w.manager.observers ≡ [])
RunOk this failed_assertion = Unit
RunOk this waiting = Unit
RunOk this _ = ⊥

pub nobody_left : (this : ℕ) (m : Manager) → Holds this false m → m.observers ≡ []
unfolding lookup_observer
nobody_left this m h = nobody m.observers h.only
  where
    nobody : (es : List Entry) → ((j : ℕ) → is_registered j es ≡ false) → es ≡ []
    nobody [] f = refl
    nobody (e ∷ es) f = ground (arith, f e.observer, ==_refl e.observer)

pub run-ok :
    (this : ℕ) (h : Handler) (is : List Input) (w : Worker)
    → Keeps this h
    → Serves this w
    → RunOk this (run h is w)
unfolding run resume
run-ok this h [] w k s = s
run-ok this h (i ∷ is) w k s =
    next (pass h i w) (pass-ok this h i w k s) (λ w' s'. run-ok this h is w' k s')
  where
    next :
        (p : Pass)
        → PassOk this w p
        → ((w' : Worker) → Serves this w' → RunOk this (run h is w'))
        → RunOk this (resume (run h is) p)
    next (went_on w') ok f = f w' ok
    next (finished w') ok f =
        (ok.1, nobody_left this w'.manager (subst (λ b. Holds this b w'.manager) ok.1 ok.0.holds))
    next failed_assertion ok f = tt
    next waiting ok f = tt
    next dangling ok f = ok
    next null_read ok f = ok
