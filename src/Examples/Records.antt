-- ===== src/Examples/Records.antt =====
-- Inputs for src/yaz-z-cache.cpp, src/yaz-z-server-sr.cpp, src/yaz-z-server.cpp and
-- src/yaz-z-assoc.cpp.
use yazpp.Prelude.{
  ℕ, ◌*◌, ◌≤◌, ◌≡◌, refl, List, [], ◌∷◌, ◌++◌, Option, none, some, arith, length, get_elem?,
}
use yazpp.Prelude.Int.{to_int, pos}
use yazpp.RecordCache.{Composition, Cache, add, lookup}
use yazpp.RecordCache.Lookup.{First, lookup-add, lookup_sound}
use yazpp.Retrieval.{database, Fetched, Sizes}
use yazpp.Retrieval.Piggyback.{
  SearchRequest, SearchResponse, fetch_via_piggyback, piggyback-le-hits,
}

-- Compositions encode to one byte, no composition to no buffer, and every record is of syntax 5.
abbrev encoded : Option Composition → Option (List ℕ)
encoded none = none
encoded (some c) = some (1 ∷ [])

abbrev syntax_of : ℕ → Option (List ℕ)
syntax_of r = some (5 ∷ [])

abbrev cache : Cache ℕ
cache = record { entries = []; search_request = none; present_request = none; max_size = 1000 }

abbrev found : List ℕ
found = 22 ∷ 23 ∷ []

abbrev full : Cache ℕ
full = add 10 ((21 ∷ []) ++ (found ++ (24 ∷ []))) 1 none cache

lookup-add_example : lookup encoded syntax_of 2 2 (some (5 ∷ [])) none full ≡ some found
lookup-add_example =
    lookup-add encoded syntax_of (5 ∷ []) none (21 ∷ []) found (24 ∷ []) 1 10 cache (ground arith)
      refl (refl, (refl, (refl, (refl, tt))))

lookup_sound_example :
    (length found ≡ 2)
    × ((r : ℕ) × (get_elem? found 1 ≡ some r)
        × First encoded syntax_of (some (5 ∷ [])) 3 none full.entries r)
lookup_sound_example =
    lookup_sound encoded syntax_of 2 2 (some (5 ∷ [])) none full found 1 lookup-add_example
      (ground arith)

-- The record's number is its content, and each takes 40 bytes.
abbrev sr_record : ℕ → Fetched ℕ
sr_record n = record { payload = some (database n); total = 40 * n }

abbrev sizes : Sizes
sizes = record { preferred = pos 100; maximum = pos 500 }

abbrev request : SearchRequest
request = record {
  small_set_upper_bound = pos 2;
  large_set_lower_bound = pos 10;
  medium_set_present_number = pos 5;
  small_set_names = none;
  medium_set_names = none;
}

abbrev response : ℕ → SearchResponse ℕ
response hits = record {
  result_count = pos hits;
  records = none;
  number_returned = 0;
  next_position = 0;
  present_status = none;
}

piggyback-le-hits_example :
    (fetch_via_piggyback sizes (λ names. sr_record) request (response 4)).number_returned ≤ 4
unfolding to_int
piggyback-le-hits_example =
    piggyback-le-hits 100 (pos 500) (λ names. sr_record) request (response 4) 4 refl refl refl
