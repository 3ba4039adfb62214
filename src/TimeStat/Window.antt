-- ===== src/TimeStat/Window.antt =====
-- src/timestat.cpp: what the total counts.
use mathlib.Core.Path.{ap₂}
use mathlib.Core.List.{reverse}
use yazpp.Prelude.{
  ℕ, zero, suc, ◌+◌, ◌-◌, ◌≤◌, ◌<◌, ◌≡◌, refl, sym, ap, ◌∙◌, List, [], ◌∷◌, sum, length, arith,
  if◌then◌else◌, ltb, leb, ◌&&◌, length-reverse, subst,
}
use yazpp.Prelude.Int.{to_int}
use yazpp.TimeStat.{TimeStat, new, advance_by, rounds, add_current, add_bytes, get_total, run}
use yazpp.TimeStat.Ring.{sum-Ages, shift}
use yazpp.TimeStat.History.{
  recent, with_call, rounds-min, shift_all, Tracks, add_bytes-filled, size-add_bytes, size-run,
  filled-Tracks, add_bytes-Tracks, new-Ages,
}

-- The calls come in the order of their times, from `from` up to `until`.
abbrev pub InOrder : ℕ → ℕ → List (ℕ × ℕ) → Type 0
InOrder from until [] = from ≤ until
InOrder from until ((t, b) ∷ calls) = (from ≤ t) × InOrder t until calls

-- The bytes of the calls in the `size` seconds that end at `now`.
abbrev pub window_bytes : ℕ → ℕ → List (ℕ × ℕ) → ℕ
window_bytes size now [] = 0
window_bytes size now ((t, b) ∷ calls) =
    (if leb t now && ltb now (t + size) then b else 0) + window_bytes size now calls

abbrev with_calls : List (ℕ × ℕ) → (ℕ → ℕ) → ℕ → ℕ
with_calls [] h = h
with_calls ((t, b) ∷ calls) h = with_calls calls (with_call t b h)

InOrder-le : (from until : ℕ) (calls : List (ℕ × ℕ)) → InOrder from until calls → from ≤ until
InOrder-le from until [] h = h
InOrder-le from until ((t, b) ∷ calls) h = omega (arith, InOrder-le t until calls h.1)

sec-add_bytes : (s : TimeStat) (now b : ℕ) → (add_bytes now b s).sec ≡ now
unfolding add_bytes
sec-add_bytes s now b = refl

run-Tracks :
    (calls : List (ℕ × ℕ)) (s : TimeStat) (h : ℕ → ℕ) (until : ℕ)
    → Tracks s h
    → InOrder s.sec until calls
    → until < 2147483648
    → Tracks (run s calls) (with_calls calls h) × ((run s calls).sec ≤ until)
unfolding run
run-Tracks [] s h until tr order narrow = (tr, order)
run-Tracks ((t, b) ∷ calls) s h until tr order narrow =
    run-Tracks calls (add_bytes t b s) (with_call t b h) until
      (add_bytes-Tracks s h t b tr order.0
        (omega (arith, order.0, InOrder-le t until calls order.1)))
      (subst (λ u. InOrder u until calls) (sym (sec-add_bytes s t b)) order.1) narrow

sum-with_call :
    (h : ℕ → ℕ) (t b now n : ℕ)
    → n ≤ now
    → sum (recent (with_call t b h) now n)
      ≡ sum (recent h now n) + (if leb t now && ltb now (t + n) then b else 0)
sum-with_call h t b now zero le = ground arith
sum-with_call h t b now (suc n) le = ground (arith, sum-with_call h t b (now - 1) n (omega arith))

sum-with_calls :
    (calls : List (ℕ × ℕ)) (h : ℕ → ℕ) (now n : ℕ)
    → n ≤ now
    → sum (recent (with_calls calls h) now n) ≡ sum (recent h now n) + window_bytes n now calls
sum-with_calls [] h now n le = omega arith
sum-with_calls ((t, b) ∷ calls) h now n le =
    omega (arith, sum-with_calls calls (with_call t b h) now n le, sum-with_call h t b now n le)

sum-recent-zero : (now n : ℕ) → sum (recent (λ u. 0) now n) ≡ 0
sum-recent-zero now zero = refl
sum-recent-zero now (suc n) = omega (arith, sum-recent-zero (now - 1) n)

get_total-Tracks :
    (s : TimeStat) (h : ℕ → ℕ) (now : ℕ)
    → Tracks s h
    → s.sec ≤ now
    → now < 2147483648
    → (get_total now s).1 ≡ sum (recent h now s.size)
unfolding get_total
get_total-Tracks s h now tr le narrow =
    let after = add_bytes-Tracks s h now 0 tr le (omega arith) in
    ground (
      arith,
      sum-Ages _ _ after.ages,
      ap₂ (λ u n. sum (recent (with_call now 0 h) u n)) (sec-add_bytes s now 0)
          (size-add_bytes s now 0),
      sum-with_call h now 0 now s.size (omega (arith, tr.full)),
    )

-- The first call on a new object empties what the memory held, if the clock reads at least `size`.
first_call-Tracks :
    (g : ℕ) (memory : List ℕ) (t b : ℕ)
    → length (g ∷ memory) ≤ t
    → t < 2147483648
    → Tracks (add_bytes t b (new (g ∷ memory))) (with_call t b (λ u. 0))
unfolding new
first_call-Tracks g memory t b le narrow =
    rw (add_bytes-filled (new (g ∷ memory)) t b (omega arith)) (
      filled-Tracks (new (g ∷ memory)) (g ∷ reverse memory) (λ u. 0) t b (new-Ages g memory)
        (λ u later. refl) le (rw whole emptied))
  where
    measured : length (g ∷ reverse memory) ≡ suc (length memory)
    measured = ap suc (length-reverse memory)

    emptied :
        shift (suc (length memory)) (g ∷ reverse memory) ≡ recent (λ u. 0) t (suc (length memory))
    emptied =
        subst (λ n. shift n (g ∷ reverse memory) ≡ recent (λ u. 0) t n) measured
          (shift_all (g ∷ reverse memory) (λ u. 0) 0 t (λ u later. refl) (omega (arith, measured)))

    whole : rounds t 0 (suc (length memory)) ≡ suc (length memory)
    whole = rounds-min t 0 (suc (length memory)) (omega arith) ∙ ground arith

-- After any calls in the order of time, on a new object whose memory held anything at all, the
-- total at `now` is the bytes of the calls in the `size` seconds that end at `now`. The clock
-- reads at least `size` at the first call, and less than 2 ^ 31.
pub get_total-run :
    (g : ℕ) (memory : List ℕ) (t b : ℕ) (calls : List (ℕ × ℕ)) (now : ℕ)
    → length (g ∷ memory) ≤ t
    → InOrder t now calls
    → now < 2147483648
    → (get_total now (run (new (g ∷ memory)) ((t, b) ∷ calls))).1
      ≡ window_bytes (length (g ∷ memory)) now ((t, b) ∷ calls)
unfolding run
get_total-run g memory t b calls now le order narrow =
    let first = first_call-Tracks g memory t b le (omega (arith, InOrder-le t now calls order)) in
    let done =
      run-Tracks calls (add_bytes t b (new (g ∷ memory))) (with_call t b (λ u. 0)) now first
        (subst (λ u. InOrder u now calls) (sym (sec-add_bytes (new (g ∷ memory)) t b)) order)
        narrow in
    get_total-Tracks _ _ now done.0 done.1 narrow
    ∙ ap (λ n. sum (recent (with_calls ((t, b) ∷ calls) (λ u. 0)) now n)) size_kept
    ∙ sum-with_calls ((t, b) ∷ calls) (λ u. 0) now (length (g ∷ memory))
        (omega (arith, InOrder-le t now calls order))
    ∙ ap (λ n. n + window_bytes (length (g ∷ memory)) now ((t, b) ∷ calls))
        (sum-recent-zero now (length (g ∷ memory)))
    ∙ omega arith
  where
    size_kept : (run (add_bytes t b (new (g ∷ memory))) calls).size ≡ length (g ∷ memory)
    size_kept =
        size-run (add_bytes t b (new (g ∷ memory))) calls
        ∙ size-add_bytes (new (g ∷ memory)) t b
        ∙ unfold new in refl

-- A clock that has gone back empties nothing and counts nothing, and a later call starts from it.
pub add_bytes_backwards :
    (s : TimeStat) (now b : ℕ) → now < s.sec → add_bytes now b s ≡ record s { sec = now }
unfolding add_bytes
add_bytes_backwards s now b h = ground arith

-- From 2 ^ 31 seconds on, the first call on a new object empties no bucket: the total is what the
-- memory happened to hold, and the bytes of the call.
pub get_total_late :
    (g : ℕ) (memory : List ℕ) (t b : ℕ)
    → 2147483648 ≤ t
    → t < 4294967296
    → sum (add_bytes t b (new (g ∷ memory))).bucket ≡ sum (g ∷ memory) + b
unfolding new
get_total_late g memory t b late below =
    rw (add_bytes-filled (new (g ∷ memory)) t b (omega arith), none_cleared)
      (unfold advance_by add_current in omega arith)
  where
    none_cleared : rounds t 0 (suc (length memory)) ≡ 0
    none_cleared = unfold rounds to_int in ground arith
