-- ===== src/LimitConnect/Totals.antt =====
-- What limit-connect.cpp counts.
use Prim.Native.String.{String}
use text.Mathlib.Text.{◌==◌ as str_eq}
use text.Mathlib.TextEquality.{eq_iff}
use yazpp.Prelude.{
  ℕ, suc, ◌+◌, ◌≤◌, ◌<◌, false, ◌&&◌, ◌≡◌, refl, sym, ap, ◌∙◌, List, [], ◌∷◌, if◌then◌else◌, ltb,
  leb, Option, none, some, length, arith, subst,
}
use yazpp.TimeStat.{TimeStat}
use yazpp.TimeStat
use yazpp.TimeStat.Again.{get_total_again}
use yazpp.TimeStat.Window.{InOrder, window_bytes, get_total-run}
use yazpp.LimitConnect.{
  LimitConnect, init, set_period, add_connect, get_total, cleanup, connect_all,
}
use yazpp.LimitConnect.Peers.{
  find, or_new, total_of, unless_idle, Distinct, find-add_connect, get_total-find,
  find-cleanup_peers,
}

total_of-unless_idle :
    (now : ℕ) (o : Option TimeStat) → total_of now (unless_idle now o) ≡ total_of now o
total_of-unless_idle now none = refl
total_of-unless_idle now (some bw) = ground (arith, get_total_again bw now)

-- Where no name stands twice, `cleanup(false)` keeps what every peer's total is at the time.
pub get_total-cleanup :
    (now : ℕ) (name : String) (s : LimitConnect)
    → Distinct s.peers
    → (get_total now name (cleanup false now s)).1 ≡ (get_total now name s).1
unfolding cleanup
get_total-cleanup now name s d =
    get_total-find now name (cleanup false now s)
    ∙ ap (total_of now) (find-cleanup_peers now name s.peers d)
    ∙ total_of-unless_idle now (find name s.peers)
    ∙ sym (get_total-find now name s)

-- The history of one peer, as calls of its `add_bytes`.
abbrev calls_of : String → List (ℕ × String) → List (ℕ × ℕ)
calls_of name [] = []
calls_of name ((t, other) ∷ calls) =
    let rest = calls_of name calls in if str_eq other name then (t, 1) ∷ rest else rest

-- A peer's record after calls, where the first call makes it.
abbrev after : List ℕ → Option TimeStat → List (ℕ × ℕ) → Option TimeStat
after memory o [] = o
after memory o ((t, b) ∷ calls) =
    after memory (some (TimeStat.add_bytes t b (or_new memory o))) calls

after-some :
    (memory : List ℕ) (bw : TimeStat) (calls : List (ℕ × ℕ))
    → after memory (some bw) calls ≡ some (TimeStat.run bw calls)
unfolding TimeStat.run
after-some memory bw [] = refl
after-some memory bw ((t, b) ∷ calls) = after-some memory (TimeStat.add_bytes t b bw) calls

add_connect-period :
    (memory : ℕ → List ℕ) (now : ℕ) (name : String) (s : LimitConnect)
    → (add_connect memory now name s).period ≡ s.period
unfolding add_connect
add_connect-period memory now name s = refl

find-connect_all :
    (memory : String → ℕ → List ℕ) (name : String) (calls : List (ℕ × String)) (s : LimitConnect)
    → find name (connect_all memory s calls).peers
      ≡ after (memory name s.period) (find name s.peers) (calls_of name calls)
unfolding connect_all
find-connect_all memory name [] s = refl
find-connect_all memory name ((t, other) ∷ calls) s = ground (
  arith,
  find-connect_all memory name calls (add_connect (memory other) t other s),
  find-add_connect (memory other) t other name s,
  add_connect-period (memory other) t other s,
  eq_iff other name,
)

-- The connects come in the order of their times.
abbrev pub InTime : ℕ → ℕ → List (ℕ × String) → Type 0
InTime from until [] = from ≤ until
InTime from until ((t, name) ∷ calls) = (from ≤ t) × InTime t until calls

-- How many connects of a peer fall in the `period` seconds that end at `now`.
abbrev pub connects_within : ℕ → ℕ → String → List (ℕ × String) → ℕ
connects_within period now name [] = 0
connects_within period now name ((t, other) ∷ calls) =
    (if str_eq other name && (leb t now && ltb now (t + period)) then 1 else 0)
    + connects_within period now name calls

calls_of-InOrder :
    (name : String) (from start until : ℕ) (calls : List (ℕ × String))
    → InTime start until calls
    → from ≤ start
    → InOrder from until (calls_of name calls)
calls_of-InOrder name from start until [] h le = omega arith
calls_of-InOrder name from start until ((t, other) ∷ calls) h le =
    ground (
      arith,
      calls_of-InOrder name t t until calls h.1,
      calls_of-InOrder name from t until calls h.1,
    )

window_bytes-calls_of :
    (period now : ℕ) (name : String) (calls : List (ℕ × String))
    → window_bytes period now (calls_of name calls) ≡ connects_within period now name calls
window_bytes-calls_of period now name [] = refl
window_bytes-calls_of period now name ((t, other) ∷ calls) =
    ground (arith, window_bytes-calls_of period now name calls)

first_total :
    (g : ℕ) (rest : List ℕ) (now : ℕ) (calls : List (ℕ × ℕ))
    → InOrder (suc (length rest)) now calls
    → now < 2147483648
    → total_of now (after (g ∷ rest) none calls) ≡ window_bytes (suc (length rest)) now calls
unfolding TimeStat.run
first_total g rest now [] order narrow = refl
first_total g rest now ((t, b) ∷ calls) order narrow =
    rw (after-some (g ∷ rest) (TimeStat.add_bytes t b (TimeStat.new (g ∷ rest))) calls)
      (get_total-run g rest t b calls now order.0 order.1 narrow)

-- The total of a new peer's record, whose buckets are as many as the period's seconds.
peer_total :
    (memory : List ℕ) (k now : ℕ) (calls : List (ℕ × ℕ))
    → length memory ≡ suc k
    → InOrder (suc k) now calls
    → now < 2147483648
    → total_of now (after memory none calls) ≡ window_bytes (suc k) now calls
peer_total [] k now calls sized order narrow = absurd (omega arith)
peer_total (g ∷ rest) k now calls sized order narrow =
    subst (λ n. total_of now (after (g ∷ rest) none calls) ≡ window_bytes n now calls) sized
      (first_total g rest now calls (subst (λ n. InOrder n now calls) (sym sized) order) narrow)

-- After any connects in the order of time, each peer's total at `now` is the number of its own
-- connects in the `period` seconds that end at `now`, for the period that was set, if it is not 0.
-- The memory of a new peer's buckets has as many numbers as were asked for, whatever they are. The
-- clock reads at least `period` at the first connect, and less than 2 ^ 31.
pub get_total-connect_all :
    (memory : String → ℕ → List ℕ)
    → ((name : String) (n : ℕ) → length (memory name n) ≡ n)
    → (k : ℕ) (calls : List (ℕ × String)) (now : ℕ) (name : String) → InTime (suc k) now calls
    → now < 2147483648
    → (get_total now name (connect_all memory (set_period (suc k) init) calls)).1
      ≡ connects_within (suc k) now name calls
unfolding set_period init
get_total-connect_all memory sized k calls now name order narrow =
    get_total-find now name (connect_all memory (set_period (suc k) init) calls)
    ∙ ap (total_of now) (find-connect_all memory name calls (set_period (suc k) init) ∙ none_there)
    ∙ peer_total (memory name (suc k)) k now (calls_of name calls) (sized name (suc k))
        (calls_of-InOrder name (suc k) (suc k) now calls order (omega arith)) narrow
    ∙ window_bytes-calls_of (suc k) now name calls
  where
    none_there :
        after
          (memory name (suc k))
          (find name (set_period (suc k) init).peers)
          (calls_of name calls)
        ≡ after (memory name (suc k)) none (calls_of name calls)
    none_there = unfold find in refl
