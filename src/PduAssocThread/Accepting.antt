-- ===== src/PduAssocThread/Accepting.antt =====
-- src/yaz-pdu-assoc-thread.cpp: what `childNotify` makes of a connection.
use yazpp.Prelude.{
  ℕ, Bool, true, false, ◌≡◌, refl, subst, ◌∙◌, [], ◌∷◌, ◌++◌, Option, none, some, All-append, arith,
  ==_refl,
}
use yazpp.Prelude.Int.{ℤ}
use yazpp.SocketManager.Registry.{Manager, new, lookup_observer}
use yazpp.PduAssoc.State.{Assoc, set_observer, init, shutdown, shutdown_children_calls}
use yazpp.PduAssoc.Output.{Pending, flush_pdu, flush_empty}
use yazpp.PduAssoc.Setup.{adopt}
use yazpp.PduAssoc.Opening.{adopt-Good}
use yazpp.PduAssoc.Safety
use yazpp.PduAssoc.Safety.{Safe}
use yazpp.PduAssoc.Closing.{closed_fds}
use yazpp.PduAssoc.Notify.{keep}
use yazpp.PduAssocThread.{apply_calls, serve, child_notify, Served, declined, threaded, unserved}
use yazpp.PduAssocThread.Attached.{attached, append-Linked, shutdown-Linked, is_open, Alone, Linked}
use yazpp.PduAssocThread.Observed.{Holds, apply_calls-Holds}
use yazpp.PduAssocThread.Passes.{Serves, nobody_left}

-- The association of an accepted connection.
adopt-Linked :
    (this fd : ℕ) (pending : Pending) (session : Option ℕ)
    → Linked this false
        (some (set_observer session (adopt this fd pending).0), (adopt this fd pending).1)
unfolding adopt init flush_pdu flush_empty
adopt-Linked this fd pending session = ground (arith, ==_refl this)

new-Holds : (this : ℕ) → Holds this false new
unfolding new lookup_observer
new-Holds this = record { well_formed = record { distinct = tt; live = tt }; only = λ j. refl }

-- What is made of an accepted connection: a worker that serves it, with a thread or without one;
-- or its descriptor is closed, once, and nobody is left in the manager.
abbrev pub ServedOk : ℕ → ℕ → ℤ → Option Served → Type 0
ServedOk this fd memory none = ⊥
ServedOk this fd memory (some (threaded w)) = Serves this w
ServedOk this fd memory (some (unserved w)) = Serves this w
ServedOk this fd memory (some (declined calls)) =
    (closed_fds calls ≡ fd ∷ [])
    × (m : Manager) × (apply_calls memory calls new ≡ some m)
    × (m.observers ≡ [])

serve-ok :
    (this fd : ℕ) (memory : ℤ) (created : Bool) (a : Assoc) (o : Option Manager) (m : Manager)
    → o ≡ some m
    → Serves this (record { manager = m; assoc = some a })
    → ServedOk this fd memory (serve created a o)
unfolding serve
serve-ok this fd memory created a none m e s = cc
serve-ok this fd memory true a (some n) m e s =
    subst (λ k. Serves this (record { manager = k; assoc = some a })) (cc) s
serve-ok this fd memory false a (some n) m e s =
    subst (λ k. Serves this (record { manager = k; assoc = some a })) (cc) s

adopt-closed_fds :
    (this fd : ℕ) (pending : Pending)
    → closed_fds ((adopt this fd pending).1 ++ (shutdown (adopt this fd pending).0).1) ≡ fd ∷ []
unfolding adopt init flush_pdu flush_empty shutdown shutdown_children_calls
adopt-closed_fds this fd pending = ground arith

shutdown-closed : (a : Assoc) → is_open (some (shutdown a).0) ≡ false
unfolding shutdown
shutdown-closed a = refl

-- `childNotify` serves the connection of an observer that takes it by a worker whose manager has
-- it registered, and closes one that is declined.
pub child_notify-Serves :
    (memory : ℤ) (this fd : ℕ) (pending : Pending) (session : Option ℕ) (created : Bool)
    → ServedOk this fd memory (child_notify memory this fd pending session created)
unfolding child_notify
child_notify-Serves memory this fd pending none created =
    let (fresh, calls) = adopt this fd pending in
    let linked = adopt-Linked this fd pending none in
    let alone : Alone this fresh = record {
      named = linked.alone.named;
      childless = linked.alone.childless;
      not_listening = linked.alone.not_listening;
    } in
    let shut =
      append-Linked this calls false (keep (shutdown fresh)) linked.own
        (shutdown-Linked this (attached this calls false) fresh alone) in
    let safe =
      All-append Safe calls (shutdown fresh).1 (adopt-Good this fd pending).calls_ok
        (Safety.shutdown-Good fresh).calls_ok in
    let (m, e, h) =
      apply_calls-Holds this memory (calls ++ (shutdown fresh).1) false new safe shut.own
        (new-Holds this) in
    (
      adopt-closed_fds this fd pending,
      m,
      e,
      nobody_left this m (subst (λ f. Holds this f m) (shut.flag ∙ shutdown-closed fresh) h),
    )
child_notify-Serves memory this fd pending (some o) created =
    let good = adopt-Good this fd pending in
    let linked = adopt-Linked this fd pending (some o) in
    let (m, e, h) =
      apply_calls-Holds this memory (adopt this fd pending).1 false new good.calls_ok linked.own
        (new-Holds this) in
    serve-ok this fd memory created _ _ m e (record {
      holds = subst (λ f. Holds this f m) linked.flag h;
      assoc_ok = record {
        state_ok = record {
          live = good.state_ok.live;
          queued = good.state_ok.queued;
          busy = good.state_ok.busy;
        };
        calls_ok = tt;
      };
      alone = linked.alone;
    })
