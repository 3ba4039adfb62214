-- ===== src/SocketManager/Registry.antt =====
-- src/yaz-socket-manager.cpp: the registered observers, and the queue of events, front first.
use yazpp.Prelude.{ℕ, List, [], ◌∷◌, ◌++◌, Option, none, some, if◌then◌else◌, ◌==◌, length}
use yazpp.Prelude.Int.{ℤ, negsuc, ◌==ℤ◌}
use yazpp.Mask.{Mask, no_events}

-- `SocketEntry`. An observer is known by a number; a `last_activity` of 0 means that there was none.
pub record Entry : Type 0 where
  pub observer : ℕ
  pub fd : ℤ
  pub mask : Mask
  pub timeout : ℤ
  pub timeout_this : ℤ
  pub last_activity : ℕ

pub record Event : Type 0 where
  pub observer : ℕ
  pub event : Mask

-- `SocketManager::Rep`.
pub record Manager : Type 0 where
  pub observers : List Entry
  pub queue : List Event

unfoldable pub new : Manager
new = record { observers = []; queue = [] }

-- `putEvent`, at the back.
unfoldable pub put_event : Event → List Event → List Event
put_event e q = q ++ e ∷ []

-- `getEvent`, from the front.
unfoldable pub get_event : List Event → Option Event × List Event
get_event [] = (none, [])
get_event (e ∷ q) = (some e, q)

-- `removeEvent`: every event of the observer goes.
unfoldable pub remove_event : ℕ → List Event → List Event
remove_event o [] = []
remove_event o (e ∷ q) = let rest = remove_event o q in if o == e.observer then rest else e ∷ rest

-- `lookupObserver`: the first entry of the observer.
unfoldable pub lookup_observer : ℕ → List Entry → Option Entry
lookup_observer o [] = none
lookup_observer o (e ∷ es) = if e.observer == o then some e else lookup_observer o es

-- A write to the entry that `lookupObserver` finds.
unfoldable pub update_observer : ℕ → (Entry → Entry) → List Entry → List Entry
update_observer o f [] = []
update_observer o f (e ∷ es) = if e.observer == o then f e ∷ es else e ∷ update_observer o f es

-- `*se = (*se)->next` at the place that `lookupObserver` finds.
unfoldable pub unlink_observer : ℕ → List Entry → List Entry
unlink_observer o [] = []
unlink_observer o (e ∷ es) = if e.observer == o then es else e ∷ unlink_observer o es

unfoldable pub number_of_observers : Manager → ℕ
number_of_observers m = length m.observers

-- The fields that `addObserver` sets.
abbrev pub reset : ℤ → Entry → Entry
reset fd e = record e { fd = fd; mask = no_events; last_activity = 0; timeout = negsuc 0 }

-- `memory` is what `timeout_this` of a new entry holds.
unfoldable pub add_observer : ℤ → ℤ → ℕ → Manager → Manager
add_observer memory fd o m =
    let fresh : Entry = record {
      observer = o;
      fd = fd;
      mask = no_events;
      timeout = negsuc 0;
      timeout_this = memory;
      last_activity = 0;
    } in
    elim (lookup_observer o m.observers) [
      | none ↦ record m { observers = fresh ∷ m.observers }
      | some e ↦ record m { observers = update_observer o (reset fd) m.observers }
    ]

unfoldable pub delete_observer : ℕ → Manager → Manager
delete_observer o m = elim (lookup_observer o m.observers) [
  | none ↦ m
  | some e ↦ record { observers = unlink_observer o m.observers; queue = remove_event o m.queue }
]

-- The queue stays as it is.
unfoldable pub delete_observers : Manager → Manager
delete_observers m = record m { observers = [] }

unfoldable pub mask_observer : ℕ → Mask → ℤ → Manager → Manager
mask_observer o mask fd m =
    let set_fd = λ (e : Entry). if fd ==ℤ negsuc 0 then e.fd else fd in
    record m {
      observers = update_observer o (λ e. record e { mask = mask; fd = set_fd e }) m.observers;
    }

unfoldable pub timeout_observer : ℕ → ℤ → Manager → Manager
timeout_observer o t m = record m {
  observers = update_observer o (λ e. record e { timeout = t }) m.observers;
}
