-- ===== src/LimitConnect/Peers.antt =====
-- The list of peers of limit-connect.cpp, seen as a map from names.
use Prim.Native.String.{String}
use text.Mathlib.Text.{◌==◌ as str_eq}
use text.Mathlib.TextEquality.{eq_iff}
use yazpp.Prelude.{
  ℕ, Bool, true, false, ◌≡◌, refl, List, [], ◌∷◌, if◌then◌else◌, ◌==◌, Option, none, some, arith,
}
use yazpp.TimeStat.{TimeStat}
use yazpp.TimeStat
use yazpp.LimitConnect.{
  Peer, LimitConnect, bump_peer, lookup, add_connect, get_total, cleanup_peers,
}

unfoldable pub find : String → List Peer → Option TimeStat
find name [] = none
find name (p ∷ ps) = if str_eq p.peername name then some p.bw else find name ps

-- The bandwidth record of a peer after a connect: its own, or a new one.
abbrev pub or_new : List ℕ → Option TimeStat → TimeStat
or_new memory none = TimeStat.new memory
or_new memory (some bw) = bw

-- The effect of `add_connect` on the list, without the walk to the place.
touch : List ℕ → ℕ → String → List Peer → List Peer
touch memory now name [] =
    record { peername = name; bw = TimeStat.add_bytes now 1 (TimeStat.new memory) } ∷ []
touch memory now name (p ∷ ps) =
    if str_eq p.peername name then bump_peer now p ∷ ps else p ∷ touch memory now name ps

add_connect-touch :
    (memory : ℕ → List ℕ) (now : ℕ) (name : String) (n : ℕ) (ps : List Peer)
    → (add_connect memory now name (record { period = n; peers = ps })).peers
      ≡ touch (memory n) now name ps
unfolding add_connect touch lookup bump_peer
add_connect-touch memory now name n [] = refl
add_connect-touch memory now name n (p ∷ ps) =
    ground (arith, add_connect-touch memory now name n ps)

find-touch :
    (memory : List ℕ) (now : ℕ) (name other : String) (ps : List Peer)
    → find other (touch memory now name ps) ≡ (
        if str_eq name other
        then some (TimeStat.add_bytes now 1 (or_new memory (find name ps)))
        else find other ps)
unfolding find touch bump_peer
find-touch memory now name other [] = refl
find-touch memory now name other (p ∷ ps) = ground (
  arith,
  eq_iff name other,
  eq_iff p.peername name,
  eq_iff p.peername other,
  find-touch memory now name other ps,
)

-- A connect counts for its own peer, which is made if it is not there, and for no other.
pub find-add_connect :
    (memory : ℕ → List ℕ) (now : ℕ) (name other : String) (s : LimitConnect)
    → find other (add_connect memory now name s).peers ≡ (
        if str_eq name other
        then some (TimeStat.add_bytes now 1 (or_new (memory s.period) (find name s.peers)))
        else find other s.peers)
find-add_connect memory now name other s =
    rw (add_connect-touch memory now name s.period s.peers)
      (find-touch (memory s.period) now name other s.peers)

-- The total that an object gives for a peer; one that is not there has none.
abbrev pub total_of : ℕ → Option TimeStat → ℕ
total_of now none = 0
total_of now (some bw) = (TimeStat.get_total now bw).1

get_total-find_list :
    (now : ℕ) (name : String) (n : ℕ) (ps : List Peer)
    → (get_total now name (record { period = n; peers = ps })).1 ≡ total_of now (find name ps)
unfolding get_total lookup find
get_total-find_list now name n [] = refl
get_total-find_list now name n (p ∷ ps) = ground (arith, get_total-find_list now name n ps)

pub get_total-find :
    (now : ℕ) (name : String) (s : LimitConnect)
    → (get_total now name s).1 ≡ total_of now (find name s.peers)
get_total-find now name s = get_total-find_list now name s.period s.peers

-- No name stands twice in the list.
abbrev pub Distinct : List Peer → Type 0
Distinct [] = Unit {0}
Distinct (p ∷ ps) = (find p.peername ps ≡ none) × Distinct ps

touch-Distinct :
    (memory : List ℕ) (now : ℕ) (name : String) (ps : List Peer)
    → Distinct ps
    → Distinct (touch memory now name ps)
unfolding touch bump_peer
touch-Distinct memory now name [] d = (unfold find in refl, tt)
touch-Distinct memory now name (p ∷ ps) d = ground (
  arith,
  find-touch memory now name p.peername ps,
  eq_iff name p.peername,
  eq_iff p.peername name,
  touch-Distinct memory now name ps d.1,
)

pub add_connect-Distinct :
    (memory : ℕ → List ℕ) (now : ℕ) (name : String) (s : LimitConnect)
    → Distinct s.peers
    → Distinct (add_connect memory now name s).peers
add_connect-Distinct memory now name s d =
    rw (add_connect-touch memory now name s.period s.peers)
      (touch-Distinct (memory s.period) now name s.peers d)

-- What `cleanup` leaves of a peer.
abbrev pub unless_idle : ℕ → Option TimeStat → Option TimeStat
unless_idle now none = none
unless_idle now (some bw) =
    let (bw', total) = TimeStat.get_total now bw in if total == 0 then none else some bw'

pub find-cleanup_peers :
    (now : ℕ) (name : String) (ps : List Peer)
    → Distinct ps
    → find name (cleanup_peers false now ps) ≡ unless_idle now (find name ps)
unfolding find cleanup_peers
find-cleanup_peers now name [] d = refl
find-cleanup_peers now name (p ∷ ps) d = ground (
  arith,
  find-cleanup_peers now name ps d.1,
  find-cleanup_peers now p.peername ps d.1,
  eq_iff p.peername name,
)

pub cleanup-Distinct :
    (all : Bool) (now : ℕ) (ps : List Peer) → Distinct ps → Distinct (cleanup_peers all now ps)
unfolding cleanup_peers
cleanup-Distinct true now [] d = tt
cleanup-Distinct false now [] d = tt
cleanup-Distinct true now (p ∷ ps) d = cleanup-Distinct true now ps d.1
cleanup-Distinct false now (p ∷ ps) d =
    ground (arith, cleanup-Distinct false now ps d.1, find-cleanup_peers now p.peername ps d.1)

pub cleanup_all : (now : ℕ) (ps : List Peer) → cleanup_peers true now ps ≡ []
unfolding cleanup_peers
cleanup_all now [] = refl
cleanup_all now (p ∷ ps) = cleanup_all now ps
