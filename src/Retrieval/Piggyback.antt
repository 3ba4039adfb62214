-- ===== src/Retrieval/Piggyback.antt =====
-- src/yaz-z-server-sr.cpp: the records that go with a search response, and those of a present
-- response. `sr_record` is given the element set names that the code passes on.
use yazpp.Prelude.{
  ℕ, ◌≤◌, ◌<◌, true, not, ◌&&◌, ◌≡◌, List, Option, none, some, is_none, if◌then◌else◌, length,
  arith,
}
use yazpp.Prelude.Int.{to_int, ℤ, pos, pos_part, ◌≤ℤ◌, ◌==ℤ◌, ltb_ℤ, leb_ℤ}
use yazpp.Retrieval.{Payload, Fetched, PresentStatus, Sizes, pack_records}
use yazpp.Retrieval.Packing.{pack_records-Promised, Promised}

-- The fields of a `Z_SearchRequest` that the piggyback reads; an element set name is a number.
pub record SearchRequest : Type 0 where
  pub small_set_upper_bound : ℤ
  pub large_set_lower_bound : ℤ
  pub medium_set_present_number : ℤ
  pub small_set_names : Option ℕ
  pub medium_set_names : Option ℕ

-- The fields of a `Z_SearchResponse` that it writes. `records` is null, a diagnostic or a list.
pub record SearchResponse {ℓ} (A : Type ℓ) : Type ℓ where
  pub result_count : ℤ
  pub records : Option (Option (List (Payload A)))
  pub number_returned : ℕ
  pub next_position : ℕ
  pub present_status : Option PresentStatus

-- The fields of a `Z_PresentRequest` and a `Z_PresentResponse`.
pub record PresentRequest : Type 0 where
  pub start_point : ℕ
  pub number_requested : ℤ
  pub composition : Option ℕ

pub record PresentResponse {ℓ} (A : Type ℓ) : Type ℓ where
  pub records : Option (Option (List (Payload A)))
  pub number_returned : ℕ
  pub next_position : ℕ
  pub present_status : PresentStatus

-- How many of the `hits` the user agent wants, and by which element set names.
unfoldable pub wanted : SearchRequest → ℤ → ℤ × Option ℕ
wanted req hits =
    let medium =
      let asked = to_int req.medium_set_present_number in
      if ltb_ℤ hits asked then hits else asked in
    if leb_ℤ hits req.small_set_upper_bound
    then (hits, req.small_set_names)
    else if ltb_ℤ hits req.large_set_lower_bound
    then (medium, req.medium_set_names)
    else (pos 0, none)

small_set :
    (req : SearchRequest) (hits : ℕ)
    → pos hits ≤ℤ req.small_set_upper_bound
    → wanted req (pos hits) ≡ (pos hits, req.small_set_names)
unfolding wanted
small_set req hits h = ground arith

large_set :
    (req : SearchRequest) (hits : ℕ)
    → ltb_ℤ req.small_set_upper_bound (pos hits) ≡ true
    → req.large_set_lower_bound ≤ℤ pos hits
    → wanted req (pos hits) ≡ (pos 0, none)
unfolding wanted
large_set req hits over h = ground arith

wanted-le-hits : (req : SearchRequest) (hits : ℕ) → pos_part (wanted req (pos hits)).0 ≤ hits
unfolding wanted
wanted-le-hits req hits = ground arith

module _ {ℓ} {A : Type ℓ} where
  -- `num_records` of a list of records, or what it was.
  abbrev pub count_records : Option (List (Payload A)) → ℕ → ℕ
  count_records none n = n
  count_records (some l) n = length l

  unfoldable pub fetch_via_piggyback :
      Sizes → (Option ℕ → ℕ → Fetched A) → SearchRequest → SearchResponse A → SearchResponse A
  fetch_via_piggyback sizes sr_record req res =
      let hits = to_int res.result_count in
      let (toget, names) = wanted req hits in
      let packed = pack_records sizes (sr_record names) 1 toget in
      if not (toget ==ℤ pos 0) && is_none res.records
      then record res {
        records = some packed.records;
        number_returned = count_records packed.records res.number_returned;
        next_position = packed.next;
        present_status = some packed.status;
      }
      else record res {
        number_returned = 0;
        next_position = if hits ==ℤ pos 0 then res.next_position else 1;
        present_status = none;
      }

  -- `fetch_via_present`; `next_position` and `present_status` are written by `pack_records`.
  unfoldable pub fetch_via_present :
      Sizes → (Option ℕ → ℕ → Fetched A) → PresentRequest → PresentResponse A → PresentResponse A
  fetch_via_present sizes sr_record req res =
      let packed =
        pack_records sizes (sr_record req.composition) req.start_point
          (to_int req.number_requested) in
      record res {
        records = some packed.records;
        number_returned = count_records packed.records res.number_returned;
        next_position = packed.next;
        present_status = packed.status;
      }

  -- What `pack_records` counts is no more than was asked for.
  count_records-le :
      (limit : ℕ) (maximum xnum : ℤ) (sr_record : ℕ → Fetched A) (start : ℕ)
      → let sizes : Sizes = record { preferred = pos limit; maximum = maximum } in
        count_records (pack_records sizes sr_record start xnum).records 0 ≤ pos_part xnum
  count_records-le limit maximum xnum sr_record start =
      by_records _ _ _ (pack_records-Promised limit maximum xnum sr_record start)
    where
      by_records :
          (o : Option (List (Payload A))) (n : ℕ) (status : PresentStatus)
          → Promised (pos_part xnum) start 0 o n status
          → count_records o 0 ≤ pos_part xnum
      by_records none n status h = omega arith
      by_records (some l) n status h = h.0

  -- A result set that is over the bound of the small ones and not under that of the large ones
  -- leaves the records of the response as they are, with a count of 0 and no present status. The
  -- hits are counted as an `int`.
  pub piggyback_large_set :
      (sizes : Sizes) (sr_record : Option ℕ → ℕ → Fetched A) (req : SearchRequest)
      (res : SearchResponse A) (hits : ℕ)
      → to_int res.result_count ≡ pos hits
      → ltb_ℤ req.small_set_upper_bound (pos hits) ≡ true
      → req.large_set_lower_bound ≤ℤ pos hits
      → let out = fetch_via_piggyback sizes sr_record req res in
        (out.records ≡ res.records) × (out.number_returned ≡ 0) × (out.present_status ≡ none)
  unfolding fetch_via_piggyback
  piggyback_large_set sizes sr_record req res hits count over large =
      ground (arith, large_set req hits over large)

  -- A response that had no records returns at most as many as there are hits, for a preferred
  -- message size that is not negative. The hits, as an `int`, are not negative.
  pub piggyback-le-hits :
      (limit : ℕ) (maximum : ℤ) (sr_record : Option ℕ → ℕ → Fetched A) (req : SearchRequest)
      (res : SearchResponse A) (hits : ℕ)
      → to_int res.result_count ≡ pos hits
      → res.records ≡ none
      → res.number_returned ≡ 0
      → let sizes : Sizes = record { preferred = pos limit; maximum = maximum } in
        let out = fetch_via_piggyback sizes sr_record req res in out.number_returned ≤ hits
  unfolding fetch_via_piggyback
  piggyback-le-hits limit maximum sr_record req res hits count empty none_yet =
      let w = wanted req (pos hits) in
      ground (arith, count_records-le limit maximum w.0 (sr_record w.1) 1, wanted-le-hits req hits)

  -- A small set that is not empty comes whole with a response that had no records: all the hits are
  -- asked for from the first on, by the element set names for small sets. The hits are counted as an `int`.
  pub piggyback_small_set :
      (sizes : Sizes) (sr_record : Option ℕ → ℕ → Fetched A) (req : SearchRequest)
      (res : SearchResponse A) (hits : ℕ)
      → to_int res.result_count ≡ pos hits
      → res.records ≡ none
      → pos hits ≤ℤ req.small_set_upper_bound
      → 0 < hits
      → (fetch_via_piggyback sizes sr_record req res).records
        ≡ some (pack_records sizes (sr_record req.small_set_names) 1 (pos hits)).records
  unfolding fetch_via_piggyback
  piggyback_small_set sizes sr_record req res hits count empty small some_hits =
      ground (arith, small_set req hits small)
