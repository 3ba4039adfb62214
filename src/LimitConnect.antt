-- ===== src/LimitConnect.antt =====
-- src/limit-connect.cpp: the peers of a server, each with its connects of the last seconds. The
-- clock is an argument of each call, and so is the memory that `new` gives for a new peer's buckets,
-- by their number.
pub mod Peers
pub mod Totals
use Prim.Native.String.{String}
use text.Mathlib.Text.{◌==◌ as str_eq}
use yazpp.Prelude.{ℕ, Bool, true, false, ◌||◌, List, [], ◌∷◌, ◌++◌, if◌then◌else◌, ◌==◌}
use yazpp.TimeStat.{TimeStat}
use yazpp.TimeStat

pub record Peer : Type 0 where
  pub peername : String
  pub bw : TimeStat

pub record LimitConnect : Type 0 where
  pub period : ℕ
  pub peers : List Peer

unfoldable pub init : LimitConnect
init = record { period = 60; peers = [] }

unfoldable pub set_period : ℕ → LimitConnect → LimitConnect
set_period sec s = record s { period = sec }

-- `Peer::add_connect`.
unfoldable pub bump_peer : ℕ → Peer → Peer
bump_peer now p = record p { bw = TimeStat.add_bytes now 1 p.bw }

-- `Rep::lookup`: the peers before the place that it returns, and those from it on.
unfoldable pub lookup : String → List Peer → List Peer × List Peer
lookup name [] = ([], [])
lookup name (p ∷ ps) =
    let (before, rest) = lookup name ps in
    if str_eq p.peername name then ([], p ∷ ps) else (p ∷ before, rest)

-- A new peer stands at the end of the list, with a bucket for each second of the period.
unfoldable pub add_connect : (ℕ → List ℕ) → ℕ → String → LimitConnect → LimitConnect
add_connect memory now name s =
    let (before, rest) = lookup name s.peers in
    let fresh : Peer = record { peername = name; bw = TimeStat.new (memory s.period) } in
    let place : List Peer = elim rest [ [] ↦ fresh ∷ [] | p ∷ ps ↦ p ∷ ps ] in
    record s { peers = before ++ elim place [ [] ↦ [] | p ∷ ps ↦ bump_peer now p ∷ ps ] }

unfoldable pub get_total : ℕ → String → LimitConnect → LimitConnect × ℕ
get_total now name s =
    let (before, rest) = lookup name s.peers in
    elim rest [
      | [] ↦ (s, 0)
      | p ∷ ps ↦
          let (bw, total) = TimeStat.get_total now p.bw in
          (record s { peers = before ++ record p { bw = bw } ∷ ps }, total)
    ]

-- With `all` the totals are not asked for.
unfoldable pub cleanup_peers : Bool → ℕ → List Peer → List Peer
cleanup_peers all now [] = []
cleanup_peers all now (p ∷ ps) =
    let rest = cleanup_peers all now ps in
    let (bw, total) = TimeStat.get_total now p.bw in
    if all then rest else (if total == 0 then rest else record p { bw = bw } ∷ rest)

unfoldable pub cleanup : Bool → ℕ → LimitConnect → LimitConnect
cleanup all now s = record s { peers = cleanup_peers all now s.peers }

-- The connects that an object has seen, each with its time; `memory` is what a new peer gets.
unfoldable pub connect_all : (String → ℕ → List ℕ) → LimitConnect → List (ℕ × String) → LimitConnect
connect_all memory s [] = s
connect_all memory s ((now, name) ∷ calls) =
    connect_all memory (add_connect (memory name) now name s) calls
