-- ===== src/PduAssocThread/Observed.antt =====
-- src/yaz-pdu-assoc-thread.cpp: what the calls of a worker's association do to its manager.
use yazpp.Prelude.{
  ℕ, Bool, ◌≡◌, refl, sym, subst, ◌∙◌, List, [], ◌∷◌, none, some, ◌==◌, ◌&&◌, All, arith,
}
use yazpp.Prelude.Int.{ℤ, pos, negsuc}
use yazpp.SocketManager.Registry.{Manager}
use yazpp.SocketManager.Safety.{
  is_registered, WellFormed, add_observer-WellFormed, delete_observer-WellFormed,
  mask_observer-WellFormed, timeout_observer-WellFormed,
}
use yazpp.SocketManager.Observers.{
  add_observer-registered, delete_observer-registered, mask_observer-registered,
  timeout_observer-registered,
}
use yazpp.PduAssoc.State.{
  Call, add_observer, delete_observer, mask_observer, timeout_observer, cs_close, put, fail_notify,
  timeout_notify, connect_notify,
}
use yazpp.PduAssoc.Safety.{Safe}
use yazpp.PduAssocThread.{apply_call, apply_calls}
use yazpp.PduAssocThread.Attached.{attached, attached-append, Own}

-- A manager that has the one observer, or nobody.
pub record Holds (this : ℕ) (b : Bool) (m : Manager) : Type 0 where
  pub well_formed : WellFormed m
  pub only : (j : ℕ) → is_registered j m.observers ≡ (b && (this == j))

-- One call.
abbrev after_call : ℕ → Call → Bool → Bool
after_call this c b = attached this (c ∷ []) b

apply_call-Holds :
    (this : ℕ) (memory : ℤ) (c : Call) (b : Bool) (m : Manager)
    → Safe c
    → Own this c
    → Holds this b m
    → (m' : Manager) × (apply_call memory c m ≡ some m') × Holds this (after_call this c b) m'
unfolding apply_call
apply_call-Holds this memory (add_observer o) b m safe own h = (
  _,
  refl,
  record {
    well_formed = add_observer-WellFormed memory (negsuc 0) o m h.well_formed;
    only = λ j. add_observer-registered memory (negsuc 0) o m j ∙ ground (arith, h.only j);
  },
)
apply_call-Holds this memory (delete_observer o) b m safe own h = (
  _,
  refl,
  record {
    well_formed = delete_observer-WellFormed o m h.well_formed;
    only = λ j. delete_observer-registered o m j h.well_formed.distinct ∙ ground (arith, h.only j);
  },
)
apply_call-Holds this memory (mask_observer o mask none) b m safe own h = cc
apply_call-Holds this memory (mask_observer o mask (some fd)) b m safe own h = (
  _,
  refl,
  record {
    well_formed = mask_observer-WellFormed o mask (pos fd) m h.well_formed;
    only = λ j. mask_observer-registered o mask (pos fd) m j ∙ h.only j;
  },
)
apply_call-Holds this memory (timeout_observer o t) b m safe own h = (
  _,
  refl,
  record {
    well_formed = timeout_observer-WellFormed o t m h.well_formed;
    only = λ j. timeout_observer-registered o t m j ∙ h.only j;
  },
)
apply_call-Holds this memory (cs_close fd) b m safe own h = (m, refl, h)
apply_call-Holds this memory (put p whole) b m safe own h = (m, refl, h)
apply_call-Holds this memory (fail_notify o) b m safe own h = (m, refl, h)
apply_call-Holds this memory (timeout_notify o) b m safe own h = (m, refl, h)
apply_call-Holds this memory (connect_notify o) b m safe own h = (m, refl, h)

attached-cons :
    (this : ℕ) (c : Call) (calls : List Call) (b : Bool)
    → attached this calls (after_call this c b) ≡ attached this (c ∷ calls) b
attached-cons this c calls b = sym (attached-append this (c ∷ []) calls b)

pub apply_calls-Holds :
    (this : ℕ) (memory : ℤ) (calls : List Call) (b : Bool) (m : Manager)
    → All Safe calls
    → All (Own this) calls
    → Holds this b m
    → (m' : Manager) × (apply_calls memory calls m ≡ some m')
      × Holds this (attached this calls b) m'
unfolding apply_calls
apply_calls-Holds this memory [] b m safe own h = (m, refl, h)
apply_calls-Holds this memory (c ∷ calls) b m safe own h =
    let (m', e, h') = apply_call-Holds this memory c b m safe.0 own.0 h in
    let (m'', e', h'') =
      apply_calls-Holds this memory calls (after_call this c b) m' safe.1 own.1 h' in
    (m'', rw (e, apply_calls) e', subst (λ f. Holds this f m'') (attached-cons this c calls b) h'')
