-- ===== src/TimeStat.antt =====
-- src/timestat.cpp: a ring of one-second buckets. `time(0)` is an argument of each call. The
-- buckets of a new object are not initialised, so their contents are an argument of `new`.
-- Byte counts are not negative, and so is what the memory held. The sum of the buckets is taken to
-- fit an `int`; then each bucket does, and each sum on the way to it, which are at most that.
mod Ring
pub mod Again
mod History
pub mod Window
use yazpp.Prelude.{
  ℕ, zero, suc, ◌+◌, ◌-◌, List, [], ◌∷◌, set, sum, ltb, leb, ◌==◌, if◌then◌else◌, length, get_or,
}
use yazpp.Prelude.Int.{ℤ, pos, pos_part, ltb_ℤ, to_int}

-- `TimeStat::Rep`; `sec` is the time of the bucket at `ptr`.
pub record TimeStat : Type 0 where
  pub sec : ℕ
  pub bucket : List ℕ
  pub ptr : ℕ
  pub size : ℕ

-- The constructor, over the memory that `new int[size]` returns.
unfoldable pub new : List ℕ → TimeStat
new memory = record { sec = 0; bucket = memory; ptr = 0; size = length memory }

-- The body of the clearing loop: the next bucket becomes the newest one, and is emptied.
unfoldable pub advance : TimeStat → TimeStat
advance s =
    let next = if s.ptr + 1 == s.size then 0 else s.ptr + 1 in
    record s { ptr = next; bucket = set s.bucket next 0 }

-- `while (--d >= 0)`, for the rounds that it makes.
unfoldable pub advance_by : ℕ → TimeStat → TimeStat
advance_by zero s = s
advance_by (suc d) s = advance_by d (advance s)

-- `int d = now - sec`, capped at the number of buckets; a `d` below 1 makes no round.
unfoldable pub rounds : ℕ → ℕ → ℕ → ℕ
rounds now sec size =
    let d = to_int (pos (now - sec)) in pos_part (if ltb_ℤ (pos size) d then pos size else d)

-- `bucket[ptr] += b`.
unfoldable pub add_current : ℕ → TimeStat → TimeStat
add_current b s = record s { bucket = set s.bucket s.ptr (get_or s.bucket s.ptr 0 + b) }

unfoldable pub add_bytes : ℕ → ℕ → TimeStat → TimeStat
add_bytes now b s =
    let filled = add_current b (advance_by (rounds now s.sec s.size) s) in
    let counted = if leb s.sec now then filled else s in record counted { sec = now }

-- The total of the buckets, at the time of the call.
unfoldable pub get_total : ℕ → TimeStat → TimeStat × ℕ
get_total now s = let s' = add_bytes now 0 s in (s', sum s'.bucket)

-- The calls of `add_bytes` that an object has seen, each with the time that it reads.
unfoldable pub run : TimeStat → List (ℕ × ℕ) → TimeStat
run s [] = s
run s ((now, b) ∷ calls) = run (add_bytes now b s) calls
