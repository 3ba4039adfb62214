-- ===== src/TimeStat/History.antt =====
-- src/timestat.cpp: the buckets and the history of bytes by second.
use mathlib.Core.Path.{ap₂}
use mathlib.Core.List.{reverse}
use native.Mathlib.Nat.{add-suc, suc-add}
use yazpp.Prelude.{
  ℕ, zero, suc, ◌+◌, ◌-◌, ◌≤◌, ◌<◌, ◌≡◌, refl, sym, ap, ◌∙◌, List, [], ◌∷◌, ◌++◌, length, take,
  replicate, arith, if◌then◌else◌, ◌==◌, ltb, leb, inl, inr, Bool-cases, subst, true,
}
use yazpp.Prelude.Int.{to_int_id}
use yazpp.TimeStat.{TimeStat, new, advance_by, rounds, add_current, add_bytes, run, advance}
use yazpp.TimeStat.Ring.{Ages, shift, shift-replicate, advance_by-Ages, bump, add_current-Ages}

-- The bytes of the seconds t, t - 1, …, for `n` seconds.
abbrev pub recent : (ℕ → ℕ) → ℕ → ℕ → List ℕ
recent h t zero = []
recent h t (suc n) = h t ∷ recent h (t - 1) n

length-recent : (h : ℕ → ℕ) (t n : ℕ) → length (recent h t n) ≡ n
length-recent h t zero = refl
length-recent h t (suc n) = ap suc (length-recent h (t - 1) n)

take-recent : (h : ℕ → ℕ) (t m d : ℕ) → take m (recent h t (d + m)) ≡ recent h t m
take-recent h t zero d = refl
take-recent h t (suc m) d = rw (add-suc d m) (ap (λ w. h t ∷ w) (take-recent h (t - 1) m d))

abbrev QuietAfter : (ℕ → ℕ) → ℕ → Type 0
QuietAfter h t = (u : ℕ) → t < u → h u ≡ 0

recent-quiet :
    (h : ℕ → ℕ) (t d m : ℕ)
    → QuietAfter h t
    → recent h (t + d) (d + m) ≡ replicate d 0 ++ recent h t m
recent-quiet h t zero m quiet = ap₂ (recent h) (omega arith) (omega arith)
recent-quiet h t (suc d) m quiet = rw (suc-add d m) (
    ap₂ (λ (x : ℕ) w. x ∷ w) (quiet (t + suc d) (omega arith))
      (ap (λ u. recent h u (d + m)) (omega arith) ∙ recent-quiet h t d m quiet))

recent-agree : (h k : ℕ → ℕ) (t n : ℕ) → ((u : ℕ) → u ≤ t → h u ≡ k u) → recent h t n ≡ recent k t n
recent-agree h k t zero same = refl
recent-agree h k t (suc n) same =
    ap₂ (λ (x : ℕ) w. x ∷ w) (same t (omega arith))
      (recent-agree h k (t - 1) n (λ u le. same u (omega arith)))

-- The bytes of each second, after a call at `now` with `b`.
abbrev pub with_call : ℕ → ℕ → (ℕ → ℕ) → ℕ → ℕ
with_call now b h u = h u + (if now == u then b else 0)

bump-recent :
    (h : ℕ → ℕ) (now b n : ℕ) → n ≤ now → bump b (recent h now n) ≡ recent (with_call now b h) now n
bump-recent h now b zero le = refl
bump-recent h now b (suc n) le =
    ap₂ (λ (x : ℕ) w. x ∷ w) (ground arith)
      (recent-agree h (with_call now b h) (now - 1) n (λ u below. ground arith))

pub rounds-min :
    (now sec size : ℕ)
    → now - sec < 2147483648
    → rounds now sec size ≡ (if ltb size (now - sec) then size else now - sec)
unfolding rounds
rounds-min now sec size narrow = rw (to_int_id (now - sec) (ground arith)) (ground arith)

-- As many rounds as there are buckets empty the ring.
pub shift_all :
    (w : List ℕ) (h : ℕ → ℕ) (t now : ℕ)
    → QuietAfter h t
    → t + length w ≤ now
    → shift (length w) w ≡ recent h now (length w)
shift_all w h t now quiet far =
    shift-replicate (length w) 0 w (omega arith)
    ∙ sym (recent-quiet h (now - length w) (length w) 0 (λ u lt. quiet u (omega arith)))
    ∙ ap₂ (recent h) (omega arith) (omega arith)

-- The clearing loop of one call.
shift-recent :
    (h : ℕ → ℕ) (sec now size : ℕ)
    → QuietAfter h sec
    → sec ≤ now
    → now - sec < 2147483648
    → shift (rounds now sec size) (recent h sec size) ≡ recent h now size
shift-recent h sec now size quiet le narrow =
    rw (rounds-min now sec size narrow) (elim (Bool-cases (ltb size (now - sec))) [
      | inl far ↦ rw far (
          subst (λ n. shift n (recent h sec size) ≡ recent h now n) (length-recent h sec size)
            (shift_all (recent h sec size) h sec now quiet
              (ground (arith, length-recent h sec size))))
      | inr near ↦ rw near (few (now - sec) (size - (now - sec)) (ground arith) (omega arith))
    ])
  where
    few : (d m : ℕ) → d + m ≡ size → sec + d ≡ now → shift d (recent h sec size) ≡ recent h now size
    few d m total reach =
        shift-replicate d m (recent h sec size) (omega (arith, length-recent h sec size))
        ∙ ap (λ w. replicate d 0 ++ w)
            (ap (λ n. take m (recent h sec n)) (sym total) ∙ take-recent h sec m d)
        ∙ sym (recent-quiet h sec d m quiet)
        ∙ ap₂ (recent h) reach total

-- The ring holds, for each second up to `sec`, the bytes that `h` gives it.
pub record Tracks (s : TimeStat) (h : ℕ → ℕ) : Type 0 where
  pub ages : Ages s (recent h s.sec s.size)
  pub quiet : QuietAfter h s.sec
  pub full : s.size ≤ s.sec

Ages-at : (s : TimeStat) (w : List ℕ) (now : ℕ) → Ages s w → Ages (record s { sec = now }) w
Ages-at s w now a = record {
  before = a.before;
  newest = a.newest;
  after = a.after;
  layout = a.layout;
  position = a.position;
  extent = a.extent;
  order = a.order;
}

-- The object after a call that does not go back in time.
abbrev filled : TimeStat → ℕ → ℕ → TimeStat
filled s now b = record (add_current b (advance_by (rounds now s.sec s.size) s)) { sec = now }

pub add_bytes-filled : (s : TimeStat) (now b : ℕ) → s.sec ≤ now → add_bytes now b s ≡ filled s now b
unfolding add_bytes
add_bytes-filled s now b le = let forward : leb s.sec now ≡ true = ground arith in rw forward

size-advance_by : (d : ℕ) (s : TimeStat) → (advance_by d s).size ≡ s.size
unfolding advance_by advance
size-advance_by zero s = refl
size-advance_by (suc d) s = size-advance_by d (advance s)

size-filled : (s : TimeStat) (now b : ℕ) → (filled s now b).size ≡ s.size
unfolding add_current
size-filled s now b = size-advance_by (rounds now s.sec s.size) s

pub size-add_bytes : (s : TimeStat) (now b : ℕ) → (add_bytes now b s).size ≡ s.size
unfolding add_bytes
size-add_bytes s now b = ground (arith, size-filled s now b)

pub size-run : (s : TimeStat) (calls : List (ℕ × ℕ)) → (run s calls).size ≡ s.size
unfolding run
size-run s [] = refl
size-run s ((now, b) ∷ calls) = size-run (add_bytes now b s) calls ∙ size-add_bytes s now b

pub filled-Tracks :
    (s : TimeStat) (w : List ℕ) (h : ℕ → ℕ) (now b : ℕ)
    → Ages s w
    → QuietAfter h now
    → s.size ≤ now
    → shift (rounds now s.sec s.size) w ≡ recent h now s.size
    → Tracks (filled s now b) (with_call now b h)
filled-Tracks s w h now b a quiet full shifted = record {
  ages =
      subst (λ n. Ages (filled s now b) (recent (with_call now b h) now n)) kept
        (Ages-at _ _ now (
          subst (Ages _) (ap (bump b) shifted ∙ bump-recent h now b s.size full)
            (add_current-Ages b _ _ (advance_by-Ages (rounds now s.sec s.size) s w a))));
  quiet = λ u later. ground (arith, quiet u later);
  full = omega (arith, kept);
}
  where
    kept : s.size ≡ (filled s now b).size
    kept = sym (size-filled s now b)

pub add_bytes-Tracks :
    (s : TimeStat) (h : ℕ → ℕ) (now b : ℕ)
    → Tracks s h
    → s.sec ≤ now
    → now - s.sec < 2147483648
    → Tracks (add_bytes now b s) (with_call now b h)
add_bytes-Tracks s h now b tr le narrow = rw (add_bytes-filled s now b le) (
    filled-Tracks s (recent h s.sec s.size) h now b tr.ages (λ u later. tr.quiet u (omega arith))
      (omega (arith, tr.full)) (shift-recent h s.sec now s.size tr.quiet le narrow))

pub new-Ages : (g : ℕ) (memory : List ℕ) → Ages (new (g ∷ memory)) (g ∷ reverse memory)
unfolding new
new-Ages g memory = record {
  before = [];
  newest = g;
  after = memory;
  layout = refl;
  position = refl;
  extent = refl;
  order = refl;
}
