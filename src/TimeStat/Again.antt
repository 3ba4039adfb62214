-- ===== src/TimeStat/Again.antt =====
-- Two totals of timestat.cpp at one time.
use yazpp.Prelude.{
  ℕ, zero, suc, ◌+◌, ◌≡◌, refl, List, [], ◌∷◌, set, get_or, sum, arith, leb, subst, true,
}
use yazpp.Prelude.Int.{to_int}
use yazpp.TimeStat.{TimeStat, advance_by, rounds, add_current, add_bytes, get_total}

rounds_none : (now size : ℕ) → rounds now now size ≡ 0
unfolding rounds to_int
rounds_none now size = ground arith

sum-set_self : (xs : List ℕ) (i : ℕ) → sum (set xs i (get_or xs i 0 + 0)) ≡ sum xs
sum-set_self [] i = refl
sum-set_self (x ∷ xs) zero = omega arith
sum-set_self (x ∷ xs) (suc i) = omega (arith, sum-set_self xs i)

add_nothing : (t : TimeStat) → sum (add_bytes t.sec 0 t).bucket ≡ sum t.bucket
unfolding add_bytes add_current advance_by
add_nothing t =
    let forward : leb t.sec t.sec ≡ true = ground arith in
    rw (forward, rounds_none t.sec t.size) (sum-set_self t.bucket t.ptr)

-- A total that is asked for again within the second is the same.
pub get_total_again :
    (s : TimeStat) (now : ℕ) → (get_total now (get_total now s).0).1 ≡ (get_total now s).1
unfolding get_total
get_total_again s now =
    let same : (add_bytes now 0 s).sec ≡ now = unfold add_bytes in refl in
    subst (λ u. sum (add_bytes u 0 (add_bytes now 0 s)).bucket ≡ sum (add_bytes now 0 s).bucket)
      same (add_nothing (add_bytes now 0 s))
