-- ===== src/Retrieval.antt =====
-- src/yaz-z-server-sr.cpp: the retrieval facility of a server, which packs the records of a search
-- or present response. The database behind it (`sr_record`, `sr_search`, `sr_present`) is a
-- parameter, and so is what `odr_total` reads. Record numbers and counts do not wrap.
pub mod Packing
pub mod Piggyback
pub mod Requests
use yazpp.Prelude.{
  ℕ, zero, suc, ◌+◌, Bool, true, false, List, [], ◌∷◌, Option, none, some, if◌then◌else◌,
}
use yazpp.Prelude.Int.{ℤ, pos, pos_part, ◌+ℤ◌, ◌-ℤ◌, ltb_ℤ, leb_ℤ}

-- A `Z_NamePlusRecord` over the records of the database: a database record, which the handler may
-- leave null, a surrogate diagnostic with its condition, or a fragment.
pub data Payload {ℓ} (A : Type ℓ) : Type ℓ where
  database : A → Payload A
  null_record : Payload A
  surrogate : ℕ → Payload A
  fragment : A → Payload A

-- What one call of `sr_record` leaves: `none` if it turned the response into a non-surrogate
-- diagnostic. `total` is what `odr_total` gives after it.
pub record Fetched {ℓ} (A : Type ℓ) : Type ℓ where
  pub payload : Option (Payload A)
  pub total : ℕ

pub data PresentStatus : Type 0 where
  success partial_2 failure : PresentStatus

-- What `pack_records` gives: the list of records, or `none` for a non-surrogate diagnostic.
pub record Packed {ℓ} (A : Type ℓ) : Type ℓ where
  pub records : Option (List (Payload A))
  pub next : ℕ
  pub status : PresentStatus

-- `m_preferredMessageSize` and `m_maximumRecordSize`.
pub record Sizes : Type 0 where
  pub preferred : ℤ
  pub maximum : ℤ

-- What the tests on the sizes decide about a record.
pub data Verdict : Type 0 where
  stop too_big dropped kept : Verdict

unfoldable pub judge : Sizes → ℤ → ℤ → ℤ → Verdict
judge sizes toget total_length this_length =
    if ltb_ℤ sizes.preferred (this_length +ℤ total_length)
    then (if leb_ℤ this_length sizes.preferred
        then stop
        else if leb_ℤ sizes.maximum this_length
        then too_big
        else if ltb_ℤ (pos 1) toget
        then dropped
        else kept)
    else kept

module _ {ℓ} {A : Type ℓ} where
  -- The handler did not return a record.
  abbrev pub or_diagnostic : Payload A → Payload A
  or_diagnostic null_record = surrogate 14
  or_diagnostic p = p

  -- One more record before the others.
  abbrev pub put_first : Payload A → Packed A → Packed A
  put_first p r = record r { records = elim r.records [ none ↦ none | some l ↦ some (p ∷ l) ] }

  -- The round for a record that the handler left, with `continue` for the rounds that follow.
  unfoldable pub pack_round : Sizes → ℤ → ℕ → ℕ → ℤ → ℕ → Payload A → (ℤ → ℕ → Packed A) → Packed A
  pack_round sizes toget recno total dumped_records next p continue =
      let total_length = pos total -ℤ dumped_records in
      let this_length = pos total -ℤ total_length in
      elim (judge sizes toget total_length this_length) [
        | stop ↦ record { records = some []; next = next; status = partial_2 }
        | too_big ↦ put_first (surrogate 17) (continue (dumped_records +ℤ this_length) (recno + 1))
        | dropped ↦ put_first (surrogate 16) (continue (dumped_records +ℤ this_length) (recno + 1))
        | kept ↦ put_first (or_diagnostic p) (continue dumped_records (recno + 1))
      ]

  -- The loop, for the rounds that are left: each round that goes on adds a record.
  unfoldable pub pack_loop : Sizes → (ℕ → Fetched A) → ℤ → ℕ → ℕ → ℤ → ℕ → Packed A
  pack_loop sizes sr_record toget zero recno dumped next = record {
    records = some [];
    next = next;
    status = success;
  }
  pack_loop sizes sr_record toget (suc left) recno dumped next =
      let continue = λ (dumped' : ℤ) (next' : ℕ).
        pack_loop sizes sr_record toget left (recno + 1) dumped' next' in
      elim (sr_record recno).payload [
        | none ↦ record { records = none; next = next; status = failure }
        | some p ↦ pack_round sizes toget recno (sr_record recno).total dumped next p continue
      ]

  unfoldable pub pack_records : Sizes → (ℕ → Fetched A) → ℕ → ℤ → Packed A
  pack_records sizes sr_record start xnum =
      pack_loop sizes sr_record xnum (pos_part xnum) start (pos 0) 0
