-- ===== src/SocketManager/Safety.antt =====
-- src/yaz-socket-manager.cpp: the events in the queue and the registered observers.
use yazpp.Prelude.{
  ℕ, Bool, true, false, ◌≡◌, ◌≢◌, refl, ap, ◌∙◌, inl, inr, List, [], ◌∷◌, is_some, if◌then◌else◌,
  ◌==◌, All, arith, Option-cases,
}
use yazpp.Prelude.Int.{ℤ}
use yazpp.Mask.{Mask, any}
use yazpp.SocketManager.Registry.{
  Entry, Event, Manager, remove_event, lookup_observer, update_observer, unlink_observer, reset,
  delete_observers, add_observer, delete_observer, mask_observer, timeout_observer,
}

abbrev pub is_registered : ℕ → List Entry → Bool
is_registered o es = is_some (lookup_observer o es)

-- No observer has two entries.
abbrev pub Distinct : List Entry → Type 0
Distinct [] = Unit {0}
Distinct (e ∷ es) = (is_registered e.observer es ≡ false) × Distinct es

-- An event that says something, for an observer that is there.
abbrev pub Live : List Entry → Event → Type 0
Live es e = (is_registered e.observer es ≡ true) × (any e.event ≡ true)

pub record WellFormed (m : Manager) : Type 0 where
  pub distinct : Distinct m.observers
  pub live : All (Live m.observers) m.queue

pub All-map {ℓ κ} :
    {A : Type ℓ} (P Q : A → Type κ) (xs : List A) → ((x : A) → P x → Q x) → All P xs → All Q xs
All-map P Q [] h a = tt
All-map P Q (x ∷ xs) h a = (h x a.0, All-map P Q xs h a.1)

-- Two lists of entries with the same observers.
abbrev pub Same : List Entry → List Entry → Type 0
Same es fs = (o : ℕ) → is_registered o fs ≡ is_registered o es

pub Live-Same :
    (es fs : List Entry) (q : List Event) → Same es fs → All (Live es) q → All (Live fs) q
Live-Same es fs q same = All-map (Live es) (Live fs) q (λ e l. (same e.observer ∙ l.0, l.1))

-- A function on entries that leaves the observer alone.
abbrev pub Keeps : (Entry → Entry) → Type 0
Keeps f = (e : Entry) → (f e).observer ≡ e.observer

pub update-Same :
    (o : ℕ) (f : Entry → Entry) (es : List Entry) → Keeps f → Same es (update_observer o f es)
unfolding update_observer lookup_observer
update-Same o f [] keeps j = refl
update-Same o f (e ∷ es) keeps j = ground (arith, keeps e, update-Same o f es keeps j)

update-Distinct :
    (o : ℕ) (f : Entry → Entry) (es : List Entry)
    → Keeps f
    → Distinct es
    → Distinct (update_observer o f es)
unfolding update_observer
update-Distinct o f [] keeps d = tt
update-Distinct o f (e ∷ es) keeps d =
    ground (arith, keeps e, update-Same o f es keeps e.observer, update-Distinct o f es keeps d.1)

update-WellFormed :
    (o : ℕ) (f : Entry → Entry) (m : Manager)
    → Keeps f
    → WellFormed m
    → WellFormed (record m { observers = update_observer o f m.observers })
update-WellFormed o f m keeps v = record {
  distinct = update-Distinct o f m.observers keeps v.distinct;
  live = Live-Same m.observers _ m.queue (update-Same o f m.observers keeps) v.live;
}

pub mask_observer-WellFormed :
    (o : ℕ) (mask : Mask) (fd : ℤ) (m : Manager)
    → WellFormed m
    → WellFormed (mask_observer o mask fd m)
unfolding mask_observer
mask_observer-WellFormed o mask fd m v = update-WellFormed o _ m (λ e. refl) v

pub timeout_observer-WellFormed :
    (o : ℕ) (t : ℤ) (m : Manager) → WellFormed m → WellFormed (timeout_observer o t m)
unfolding timeout_observer
timeout_observer-WellFormed o t m v = update-WellFormed o _ m (λ e. refl) v

lookup_cons :
    (e : Entry) (es : List Entry) (o : ℕ)
    → is_registered o es ≡ true
    → is_registered o (e ∷ es) ≡ true
unfolding lookup_observer
lookup_cons e es o h = ground arith

pub add_observer-WellFormed :
    (memory fd : ℤ) (o : ℕ) (m : Manager) → WellFormed m → WellFormed (add_observer memory fd o m)
unfolding add_observer
add_observer-WellFormed memory fd o m v = elim (Option-cases (lookup_observer o m.observers)) [
  | inl new_one ↦
      rw (new_one, add_observer)
        (record {
          distinct = (ap is_some new_one, v.distinct);
          live =
              All-map _ _ m.queue (λ e l. (lookup_cons _ m.observers e.observer l.0, l.1)) v.live;
        })
  | inr (e, old) ↦ rw (old, add_observer) (update-WellFormed o (reset fd) m (λ x. refl) v)
]

pub unlink-registered :
    (o : ℕ) (es : List Entry) (j : ℕ)
    → Distinct es
    → is_registered j (unlink_observer o es) ≡ (if o == j then false else is_registered j es)
unfolding unlink_observer lookup_observer
unlink-registered o [] j d = ground arith
unlink-registered o (e ∷ es) j d = ground (arith, unlink-registered o es j d.1)

unlink-Distinct : (o : ℕ) (es : List Entry) → Distinct es → Distinct (unlink_observer o es)
unfolding unlink_observer
unlink-Distinct o [] d = tt
unlink-Distinct o (e ∷ es) d =
    ground (arith, unlink-Distinct o es d.1, unlink-registered o es e.observer d.1)

remove_event-Live :
    (o : ℕ) (es : List Entry) (q : List Event)
    → Distinct es
    → All (Live es) q
    → All (Live (unlink_observer o es)) (remove_event o q)
unfolding remove_event
remove_event-Live o es [] d l = tt
remove_event-Live o es (e ∷ q) d l =
    ground (arith, remove_event-Live o es q d l.1, unlink-registered o es e.observer d)

pub delete_observer-WellFormed :
    (o : ℕ) (m : Manager) → WellFormed m → WellFormed (delete_observer o m)
unfolding delete_observer
delete_observer-WellFormed o m v = elim (Option-cases (lookup_observer o m.observers)) [
  | inl absent ↦ rw (absent, delete_observer) v
  | inr (e, there) ↦
      rw (there, delete_observer)
        (record {
          distinct = unlink-Distinct o m.observers v.distinct;
          live = remove_event-Live o m.observers m.queue v.distinct v.live;
        })
]

-- What the observable's clients do to a manager.
pub data Operation : Type 0 where
  adds : ℤ → ℤ → ℕ → Operation
  deletes : ℕ → Operation
  masks : ℕ → Mask → ℤ → Operation
  times : ℕ → ℤ → Operation
  deletes_all : Operation

pub operate : Operation → Manager → Manager
operate (adds memory fd o) m = add_observer memory fd o m
operate (deletes o) m = delete_observer o m
operate (masks o mask fd) m = mask_observer o mask fd m
operate (times o t) m = timeout_observer o t m
operate deletes_all m = delete_observers m

-- On a manager with one entry for each observer and no event of an observer that is not there,
-- every operation but `deleteObservers` leaves it so.
pub operate-WellFormed :
    (x : Operation) (m : Manager) → x ≢ deletes_all → WellFormed m → WellFormed (operate x m)
unfolding operate
operate-WellFormed (adds memory fd o) m ne v = add_observer-WellFormed memory fd o m v
operate-WellFormed (deletes o) m ne v = delete_observer-WellFormed o m v
operate-WellFormed (masks o mask fd) m ne v = mask_observer-WellFormed o mask fd m v
operate-WellFormed (times o t) m ne v = timeout_observer-WellFormed o t m v
operate-WellFormed deletes_all m ne v = absurd (ne refl)
