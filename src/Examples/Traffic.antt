-- ===== src/Examples/Traffic.antt =====
-- Inputs for src/timestat.cpp, src/limit-connect.cpp and src/gduqueue.cpp.
use Prim.Native.String.{String}
use yazpp.Prelude.{replicate, length-replicate, ℕ, ◌+◌, ◌≡◌, List, [], ◌∷◌, some, sum, arith}
use yazpp.TimeStat
use yazpp.TimeStat.{new, add_bytes, run}
use yazpp.TimeStat.Window.{window_bytes, get_total-run, get_total_late}
use yazpp.LimitConnect
use yazpp.LimitConnect.{LimitConnect, init, set_period, connect_all, add_connect, cleanup}
use yazpp.LimitConnect.Totals.{connects_within, get_total-connect_all}
use yazpp.GduQueue.Fifo
use yazpp.GduQueue.Fifo.{
  Op, put, get, items, run_spec, view, until_null, run-run_spec, clear_loop-until_null,
}

abbrev memory : List ℕ
memory = 8 ∷ 9 ∷ []

abbrev calls : List (ℕ × ℕ)
calls = (102, 4) ∷ []

get_total-run_example :
    (TimeStat.get_total 103 (run (new (7 ∷ memory)) ((100, 5) ∷ calls))).1
    ≡ window_bytes 3 103 ((100, 5) ∷ calls)
get_total-run_example =
    get_total-run 7 memory 100 5 calls 103 (ground arith) (ground arith) (ground arith)

get_total_late_example :
    sum (add_bytes 3000000000 5 (new (7 ∷ memory))).bucket ≡ sum (7 ∷ memory) + 5
get_total_late_example = get_total_late 7 memory 3000000000 5 (ground arith) (ground arith)

abbrev connects : List (ℕ × String)
connects = (100, "a") ∷ (101, "b") ∷ (102, "a") ∷ []

get_total-connect_all_example :
    (LimitConnect.get_total 103 "a"
      (connect_all (λ name n. replicate n 7) (set_period 3 init) connects)).1
    ≡ connects_within 3 103 "a" connects
get_total-connect_all_example =
    get_total-connect_all (λ name n. replicate n 7) (λ name n. length-replicate n 7) 2 connects 103
      "a" (ground arith) (ground arith)

abbrev program : List (Op ℕ)
program = put (some 1) ∷ put (some 2) ∷ get ∷ put (some 3) ∷ get ∷ []

run-run_spec_example :
    ((Fifo.run program []).0, items (Fifo.run program []).1) ≡ run_spec program (items [])
run-run_spec_example = run-run_spec program []
