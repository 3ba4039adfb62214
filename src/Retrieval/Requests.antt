-- ===== src/Retrieval/Requests.antt =====
-- src/yaz-z-server-sr.cpp: the requests that the facility handles. The backend's functions are
-- arguments, and so are the responses that `create_Z_PDU` makes.
use yazpp.Prelude.{ℕ, true, ◌||◌, ◌≡◌, ◌≤◌, refl, Option, none, some, is_none, if◌then◌else◌, arith}
use yazpp.Prelude.Int.{ℤ, pos, to_int}
use yazpp.Apdu.{
  Kind, search_response, present_response, Options, Apdu, has_reference_id, transfer_reference_id,
}
use yazpp.Retrieval.{Fetched, Sizes}
use yazpp.Retrieval.Piggyback.{
  SearchRequest, SearchResponse, PresentRequest, PresentResponse, fetch_via_piggyback,
  fetch_via_present, piggyback-le-hits,
}

-- `init`, up to `sr_init`: the options of the response, and the sizes that are kept.
unfoldable pub init : ℤ → ℤ → Options → Options → Options × Sizes
init preferred maximum asked offered = (
  record offered {
    search = asked.search || offered.search;
    present = asked.present || offered.present;
  },
  record { preferred = to_int preferred; maximum = to_int maximum },
)

-- A request, by its kind.
pub data Request : Type 0 where
  searches : SearchRequest → Request
  presents : PresentRequest → Request
  another : Request

pub data Response {ℓ} (A : Type ℓ) : Type ℓ where
  searched : SearchResponse A → Response A
  presented : PresentResponse A → Response A

-- The backend, and the responses before it fills them in.
pub record Backend {ℓ} (A : Type ℓ) : Type ℓ where
  pub sr_search : SearchRequest → SearchResponse A → SearchResponse A
  pub sr_present : PresentRequest → PresentResponse A → PresentResponse A
  pub sr_record : Option ℕ → ℕ → Fetched A
  pub fresh_search : SearchResponse A
  pub fresh_present : PresentResponse A

abbrev pub response_apdu : Kind → Apdu
response_apdu k = record { kind = k; reference_id = none; other_info = none }

module _ {ℓ} {A : Type ℓ} where
  -- `recv`: the response that is sent, `none` for a request that it does not take.
  unfoldable pub recv : Sizes → Backend A → Apdu → Request → Option (Apdu × Response A)
  recv sizes back from (searches req) =
      let res = back.sr_search req back.fresh_search in
      let fetched = fetch_via_piggyback sizes back.sr_record req res in
      some (
        transfer_reference_id from (response_apdu search_response),
        searched (if is_none res.records then fetched else res),
      )
  recv sizes back from (presents req) =
      let res = back.sr_present req back.fresh_present in
      let fetched = fetch_via_present sizes back.sr_record req res in
      some (
        transfer_reference_id from (response_apdu present_response),
        presented (if is_none res.records then fetched else res),
      )
  recv sizes back from another = none

  -- A search is answered with its own reference id. For a backend that sets a number of hits and no
  -- records, a count of 0, and a preferred message size that is not negative, the count is at most
  -- the hits.
  pub recv_search :
      (limit : ℕ) (maximum : ℤ) (back : Backend A) (from : Apdu) (req : SearchRequest) (hits : ℕ)
      → has_reference_id from.kind ≡ true
      → to_int (back.sr_search req back.fresh_search).result_count ≡ pos hits
      → (back.sr_search req back.fresh_search).records ≡ none
      → (back.sr_search req back.fresh_search).number_returned ≡ 0
      → (out : Apdu) × (res : SearchResponse A) × (recv
            (record { preferred = pos limit; maximum = maximum })
            back
            from
            (searches req)
          ≡ some (out, searched res))
        × (out.kind ≡ search_response)
        × (out.reference_id ≡ from.reference_id)
        × (res.number_returned ≤ hits)
  unfolding recv transfer_reference_id has_reference_id
  recv_search limit maximum back from req hits has count empty zero =
      let res = back.sr_search req back.fresh_search in
      let sizes : Sizes = record { preferred = pos limit; maximum = maximum } in
      (
        transfer_reference_id from (response_apdu search_response),
        fetch_via_piggyback sizes back.sr_record req res,
        ground arith,
        refl,
        ground arith,
        piggyback-le-hits limit maximum back.sr_record req res hits count empty zero,
      )
