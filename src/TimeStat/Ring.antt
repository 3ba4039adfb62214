-- ===== src/TimeStat/Ring.antt =====
-- The ring of timestat.cpp read from the newest bucket to the oldest.
use mathlib.Core.List.{reverse, reverse-append, append-nil, append_assoc}
use yazpp.Prelude.{
  ℕ, zero, suc, ◌+◌, ◌≤◌, ◌≡◌, refl, sym, ap, ◌∙◌, List, [], ◌∷◌, ◌++◌, sum, length, length-append,
  length-set, length-reverse, set-append, get_or-append, sum-append, sum-reverse, take, replicate,
  arith, if◌then◌else◌, ◌==◌,
}
use yazpp.TimeStat.{TimeStat, advance, advance_by, add_current}

abbrev pub drop_last : List ℕ → List ℕ
drop_last [] = []
drop_last (x ∷ []) = []
drop_last (x ∷ y ∷ ys) = x ∷ drop_last (y ∷ ys)

drop_last-append : (xs : List ℕ) (z : ℕ) → drop_last (xs ++ z ∷ []) ≡ xs
drop_last-append [] z = refl
drop_last-append (x ∷ []) z = refl
drop_last-append (x ∷ y ∷ ys) z = ap (◌∷◌ x) (drop_last-append (y ∷ ys) z)

-- The bucket at `ptr` is the newest; the ones before it are older, then those at the far end.
pub record Ages (s : TimeStat) (w : List ℕ) : Type 0 where
  pub before : List ℕ
  pub newest : ℕ
  pub after : List ℕ
  pub layout : s.bucket ≡ before ++ newest ∷ after
  pub position : length before ≡ s.ptr
  pub extent : length s.bucket ≡ s.size
  pub order : w ≡ newest ∷ (reverse before ++ reverse after)

pub sum-Ages : (s : TimeStat) (w : List ℕ) → Ages s w → sum s.bucket ≡ sum w
sum-Ages s w a = omega (
  arith,
  ap sum a.layout,
  ap sum a.order,
  sum-append a.before (a.newest ∷ a.after),
  sum-append (reverse a.before) (reverse a.after),
  sum-reverse a.before,
  sum-reverse a.after,
)

pub length-Ages : (s : TimeStat) (w : List ℕ) → Ages s w → length w ≡ s.size
length-Ages s w a = omega (
  arith,
  a.extent,
  ap length a.layout,
  ap length a.order,
  length-append a.before (a.newest ∷ a.after),
  length-append (reverse a.before) (reverse a.after),
  length-reverse a.before,
  length-reverse a.after,
)

-- The place that the clearing loop moves to.
abbrev next_place : TimeStat → ℕ
next_place s = if s.ptr + 1 == s.size then 0 else s.ptr + 1

-- One round of the clearing loop, while the newest bucket is not the last one in memory.
advance_inside :
    (s : TimeStat) (before after : List ℕ) (y z : ℕ)
    → s.bucket ≡ before ++ y ∷ z ∷ after
    → length before ≡ s.ptr
    → length s.bucket ≡ s.size
    → Ages (advance s) (0 ∷ drop_last (y ∷ (reverse before ++ reverse (z ∷ after))))
unfolding advance
advance_inside s before after y z layout position extent = record {
  before = before ++ y ∷ [];
  newest = 0;
  after = after;
  layout = rw (moved, regrouped) (set-append (before ++ y ∷ []) after z 0);
  position = sym moved;
  extent = length-set s.bucket (next_place s) 0 ∙ extent;
  order = ap (◌∷◌ 0) shorter;
}
  where
    regrouped : s.bucket ≡ (before ++ y ∷ []) ++ z ∷ after
    regrouped = layout ∙ sym (append_assoc before (y ∷ []) (z ∷ after))

    moved : next_place s ≡ length (before ++ y ∷ [])
    moved = ground (
      arith,
      ap length layout,
      length-append before (y ∷ z ∷ after),
      length-append before (y ∷ []),
    )

    shorter :
        drop_last (y ∷ (reverse before ++ reverse (z ∷ after)))
        ≡ reverse (before ++ y ∷ []) ++ reverse after
    shorter =
        rw (reverse-append (z ∷ []) after, reverse-append before (y ∷ []))
          (ap drop_last (sym (append_assoc (y ∷ reverse before) (reverse after) (z ∷ [])))
            ∙ drop_last-append (y ∷ (reverse before ++ reverse after)) z)

-- The round that comes back to the start of the memory.
advance_wrap :
    (s : TimeStat) (before : List ℕ) (y : ℕ)
    → s.bucket ≡ before ++ y ∷ []
    → length before ≡ s.ptr
    → length s.bucket ≡ s.size
    → Ages (advance s) (0 ∷ drop_last (y ∷ (reverse before ++ [])))
unfolding advance
advance_wrap s [] y layout position extent = record {
  before = [];
  newest = 0;
  after = [];
  layout = rw (start, layout) refl;
  position = sym start;
  extent = length-set s.bucket (next_place s) 0 ∙ extent;
  order = refl;
}
  where
    start : next_place s ≡ 0
    start = ground (arith, ap length layout)
advance_wrap s (x ∷ xs) y layout position extent = record {
  before = [];
  newest = 0;
  after = xs ++ y ∷ [];
  layout = rw (start, layout) refl;
  position = sym start;
  extent = length-set s.bucket (next_place s) 0 ∙ extent;
  order = ap (◌∷◌ 0) shorter;
}
  where
    start : next_place s ≡ 0
    start = ground (arith, ap length layout, length-append (x ∷ xs) (y ∷ []))

    shorter : drop_last (y ∷ (reverse (x ∷ xs) ++ [])) ≡ reverse (xs ++ y ∷ [])
    shorter =
        rw (append-nil, reverse-append (x ∷ []) xs, reverse-append xs (y ∷ []))
          (drop_last-append (y ∷ reverse xs) x)

advance_cases :
    (s : TimeStat) (before after : List ℕ) (y : ℕ)
    → s.bucket ≡ before ++ y ∷ after
    → length before ≡ s.ptr
    → length s.bucket ≡ s.size
    → Ages (advance s) (0 ∷ drop_last (y ∷ (reverse before ++ reverse after)))
advance_cases s before [] y layout position extent = advance_wrap s before y layout position extent
advance_cases s before (z ∷ after) y layout position extent =
    advance_inside s before after y z layout position extent

pub advance-Ages : (s : TimeStat) (w : List ℕ) → Ages s w → Ages (advance s) (0 ∷ drop_last w)
advance-Ages s w a =
    rw a.order (advance_cases s a.before a.after a.newest a.layout a.position a.extent)

-- The clearing loop, on the buckets in order of age.
abbrev pub shift : ℕ → List ℕ → List ℕ
shift zero w = w
shift (suc d) w = shift d (0 ∷ drop_last w)

pub advance_by-Ages :
    (d : ℕ) (s : TimeStat) (w : List ℕ) → Ages s w → Ages (advance_by d s) (shift d w)
unfolding advance_by
advance_by-Ages zero s w a = a
advance_by-Ages (suc d) s w a = advance_by-Ages d (advance s) (0 ∷ drop_last w) (advance-Ages s w a)

abbrev pub bump : ℕ → List ℕ → List ℕ
bump b [] = []
bump b (x ∷ xs) = (x + b) ∷ xs

pub add_current-Ages :
    (b : ℕ) (s : TimeStat) (w : List ℕ) → Ages s w → Ages (add_current b s) (bump b w)
unfolding add_current
add_current-Ages b s w a = record {
  before = a.before;
  newest = a.newest + b;
  after = a.after;
  layout =
      rw (← a.position, a.layout, get_or-append a.before a.after a.newest 0)
        (set-append a.before a.after a.newest (a.newest + b));
  position = a.position;
  extent = length-set s.bucket s.ptr _ ∙ a.extent;
  order = ap (bump b) a.order;
}

take-drop_last : (m : ℕ) (w : List ℕ) → suc m ≤ length w → take m (drop_last w) ≡ take m w
take-drop_last zero w h = refl
take-drop_last (suc m) [] h = refl
take-drop_last (suc m) (x ∷ []) h = absurd (omega arith)
take-drop_last (suc m) (x ∷ y ∷ ys) h = ap (◌∷◌ x) (take-drop_last m (y ∷ ys) (omega arith))

length-drop_last : (x : ℕ) (xs : List ℕ) → length (drop_last (x ∷ xs)) ≡ length xs
length-drop_last x [] = refl
length-drop_last x (y ∷ ys) = ap suc (length-drop_last y ys)

replicate-cons : (d : ℕ) (w : List ℕ) → replicate d 0 ++ 0 ∷ w ≡ replicate (suc d) 0 ++ w
replicate-cons zero w = refl
replicate-cons (suc d) w = ap (◌∷◌ 0) (replicate-cons d w)

pub take_all : (m : ℕ) (w : List ℕ) → length w ≡ m → take m w ≡ w
take_all zero [] h = refl
take_all zero (x ∷ xs) h = absurd (omega arith)
take_all (suc m) [] h = refl
take_all (suc m) (x ∷ xs) h = ap (◌∷◌ x) (take_all m xs (omega arith))

-- `d` rounds leave `d` empty buckets before the newest ones of the rest.
pub shift-replicate :
    (d m : ℕ) (w : List ℕ) → length w ≡ d + m → shift d w ≡ replicate d 0 ++ take m w
shift-replicate zero m w h = sym (take_all m w (omega arith))
shift-replicate (suc d) m [] h = absurd (omega arith)
shift-replicate (suc d) m (x ∷ xs) h =
    shift-replicate d (suc m) (0 ∷ drop_last (x ∷ xs)) (omega (arith, length-drop_last x xs))
    ∙ replicate-cons d (take m (drop_last (x ∷ xs)))
    ∙ ap (λ v. replicate (suc d) 0 ++ v) (take-drop_last m (x ∷ xs) (omega arith))
