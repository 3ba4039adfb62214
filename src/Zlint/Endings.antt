-- ===== src/Zlint/Endings.antt =====
-- zlint/test-search-01.cpp: the end of the test that goes through three arrays.
use Prim.Native.String.{String}
use yazpp.Prelude.{
  ℕ, ◌+◌, ◌-◌, ◌≤◌, ◌<◌, ◌≡◌, refl, inl, inr, Bool, true, false, ◌&&◌, Option, none, some,
  if◌then◌else◌, length, arith, Bool-cases,
}
use yazpp.Apdu.{Octets}
use yazpp.Zlint.{
  Checks, msg_check_ok, Records, database_record, surrogate_diagnostic, fragment, non_surrogate,
  multiple_non_surrogate, database_or_surrogate, Gdu, z3950, init_response, search_response,
  present_response, sort_response, Request, InitRequest, asks_init, asks_search, asks_present,
  asks_sort, asks_scan, accepts,
}
use yazpp.Zlint.Elements.{element, element-word, element-cases}
use yazpp.Zlint.Search.{
  try_query, try_syntax, try_sort, Yaz, SearchTest, new_search_test, send_search, send_sort,
  send_present, send_test, no_hits, presented, recv_search_01,
}
use yazpp.Zlint.Talk.{answers, Proceeds, stop, go_on, Ends, talk, talk-Ends}

-- The indices are inside of the arrays or at their ends.
abbrev pub Fits : SearchTest → Type 0
Fits s =
    (s.query_no ≤ length try_query)
    × (s.record_syntax_no ≤ length try_syntax)
    × (s.sort_no ≤ length try_sort)

-- What holds while the response to a request is awaited.
abbrev pub AwaitsSearch : Request → SearchTest → Type 0
AwaitsSearch (asks_init req) s = Fits s
AwaitsSearch (asks_search database q) s =
    Fits s × (s.got_result_set ≡ false) × (s.query_no < length try_query)
AwaitsSearch (asks_present syntax) s =
    Fits s × (s.got_result_set ≡ true) × (s.record_syntax_no < length try_syntax)
AwaitsSearch (asks_sort spec) s = Fits s × (s.got_result_set ≡ true) × (s.sort_no < length try_sort)
AwaitsSearch (asks_scan database q) s = false ≡ true

-- How many responses there may be after the next one.
abbrev pub left_search : Request → SearchTest → ℕ
left_search (asks_init req) s = 26
left_search (asks_search database q) s = 25 - s.query_no
left_search _ s = 10 - (s.record_syntax_no + s.sort_no)

send_sort-Proceeds :
    (bound : ℕ) (s : SearchTest) (c : Checks)
    → Fits s
    → s.got_result_set ≡ true
    → (s.sort_no < length try_sort → 10 - (s.record_syntax_no + s.sort_no) < bound)
    → Proceeds AwaitsSearch left_search bound (send_sort (element try_sort s.sort_no) s c)
send_sort-Proceeds bound s c fits got less = elim (element-cases try_sort s.sort_no fits.2) [
  | inl (x, lt, e) ↦ rw e (go_on (asks_sort x) s _ (fits, got, lt) (less lt))
  | inr (at_end, e) ↦ rw e (stop s c)
]

send_present-Proceeds :
    (bound : ℕ) (s : SearchTest) (c : Checks)
    → Fits s
    → s.got_result_set ≡ true
    → (s.record_syntax_no + s.sort_no < 11 → 10 - (s.record_syntax_no + s.sort_no) < bound)
    → Proceeds AwaitsSearch left_search bound
        (send_present (element try_syntax s.record_syntax_no) s c)
unfolding try_syntax try_sort
send_present-Proceeds bound s c fits got less =
    elim (element-cases try_syntax s.record_syntax_no fits.1) [
      | inl (x, lt, e) ↦
          rw e (go_on (asks_present x) s _ (fits, got, lt) (less (omega (arith, fits.2))))
      | inr (at_end, e) ↦
          rw e (send_sort-Proceeds bound s c fits got (λ lt. less (omega (arith, at_end))))
    ]

send_search-Proceeds :
    (yaz : Yaz) (database : Octets) (bound : ℕ) (s : SearchTest) (c : Checks)
    → Fits s
    → s.got_result_set ≡ false
    → 25 - s.query_no < bound
    → Proceeds AwaitsSearch left_search bound
        (send_search yaz database (element try_query s.query_no) s c)
send_search-Proceeds yaz database bound s c fits got less =
    elim (element-cases try_query s.query_no fits.0) [
      | inl (x, lt, e) ↦ rw e (elim (Bool-cases (yaz.parses x)) [
        | inl ok ↦ rw ok (go_on (asks_search database x) s c (fits, got, lt) less)
        | inr bad ↦ rw bad (stop s _)
      ])
      | inr (at_end, e) ↦ rw e (stop s _)
    ]

send_test-Proceeds :
    (yaz : Yaz) (database : Octets) (bound : ℕ) (s : SearchTest) (c : Checks)
    → Fits s
    → (s.got_result_set ≡ true
        → s.record_syntax_no + s.sort_no < 11
        → 10 - (s.record_syntax_no + s.sort_no) < bound)
    → (s.got_result_set ≡ false → 25 - s.query_no < bound)
    → Proceeds AwaitsSearch left_search bound (send_test yaz database s c)
unfolding send_test
send_test-Proceeds yaz database bound s c fits less fewer = by_result s.got_result_set refl
  where
    by_result :
        (got : Bool)
        → s.got_result_set ≡ got
        → Proceeds AwaitsSearch left_search bound (
            if got
            then send_present (element try_syntax s.record_syntax_no) s c
            else send_search yaz database (element try_query s.query_no) s c)
    by_result true e = send_present-Proceeds bound s c fits e (less e)
    by_result false e = send_search-Proceeds yaz database bound s c fits e (fewer e)

-- A database record that comes first in a present response has its syntax.
abbrev pub described : Gdu → Bool
described (z3950 (present_response (some (database_or_surrogate (some (database_record none)))))) =
    false
described _ = true

abbrev pub answers_described : Request → Gdu → Bool
answers_described r g = answers r g && described g

-- Where an index is inside of its array and the syntax is there, nothing is read outside.
presented-some :
    (yaz : Yaz) (records : Option Records) (x : String) (c : Checks)
    → described (z3950 (present_response records)) ≡ true
    → (c' : Checks) × (presented yaz records (some (some x)) c ≡ some c')
presented-some yaz none x c h = (_, refl)
presented-some yaz (some non_surrogate) x c h = (_, refl)
presented-some yaz (some multiple_non_surrogate) x c h = (_, refl)
presented-some yaz (some (database_or_surrogate none)) x c h = (_, refl)
presented-some yaz (some (database_or_surrogate (some (database_record none)))) x c h = ground arith
presented-some yaz (some (database_or_surrogate (some (database_record (some oid))))) x c h =
    (_, refl)
presented-some yaz (some (database_or_surrogate (some surrogate_diagnostic))) x c h = (_, refl)
presented-some yaz (some (database_or_surrogate (some fragment))) x c h = (_, refl)

pub recv_search_01-Proceeds :
    (yaz : Yaz) (database : Octets) (g : Gdu) (r : Request) (s : SearchTest) (c : Checks)
    → answers_described r g ≡ true
    → AwaitsSearch r s
    → Proceeds AwaitsSearch left_search (left_search r s) (recv_search_01 yaz database g s c)
unfolding recv_search_01 try_query try_syntax try_sort
recv_search_01-Proceeds yaz database (z3950 (init_response res)) (asks_init req) s c e fits =
    elim (Bool-cases (accepts res.result)) [
      | inl accepted ↦
          rw accepted (
            send_test-Proceeds yaz database 26 s c fits (λ got lt. omega arith)
              (λ got. omega arith))
      | inr rejected ↦ rw rejected (stop s _)
    ]
recv_search_01-Proceeds yaz database (z3950 (search_response records count)) (asks_search d q) s c e
      (fits, got, lt) =
    let (x, there) = element-word try_query s.query_no lt in
    elim (Bool-cases (no_hits records count)) [
      | inl missed ↦ rw missed (
          send_test-Proceeds yaz database _ (record s { query_no = s.query_no + 1 }) c
            (omega arith, fits.1, fits.2) (λ got' lt'. ground arith) (λ got'. omega arith))
      | inr hit ↦
          rw (hit, there)
            (send_test-Proceeds yaz database _ (record s { got_result_set = true }) _ fits
              (λ got' lt'. omega arith) (λ got'. ground arith))
    ]
recv_search_01-Proceeds yaz database (z3950 (present_response records)) (asks_present x) s c e
      (fits, got, lt) =
    let (y, there) = element-word try_syntax s.record_syntax_no lt in
    let (c', checked) = presented-some yaz records y c e in
    rw (there, checked)
      (send_test-Proceeds yaz database _ (record s { record_syntax_no = s.record_syntax_no + 1 }) c'
        (fits.0, omega arith, fits.2) (λ got' lt'. omega arith) (λ got'. ground arith))
recv_search_01-Proceeds yaz database (z3950 (sort_response diagnostics)) (asks_sort x) s c e
      (fits, got, lt) =
    let (y, there) = element-word try_sort s.sort_no lt in
    let further =
      send_test-Proceeds yaz database (10 - (s.record_syntax_no + s.sort_no))
        (record s { sort_no = s.sort_no + 1 }) (msg_check_ok c) (fits.0, fits.1, omega arith)
        (λ got' lt'. omega arith) (λ got'. ground arith) in
    elim (Bool-cases diagnostics) [
      | inl given ↦ rw (given, there) further
      | inr ungiven ↦ rw ungiven further
    ]
recv_search_01-Proceeds yaz database g r s c e a = ground arith

-- The search test comes to its end, and reads nothing outside of its arrays, if the target answers
-- each request with a response of that kind, in which a database record that comes first has its
-- syntax, whatever else the response says: it is over after 27 responses at most.
pub talk-recv_search_01 :
    (yaz : Yaz) (database : Octets) (target : ℕ → Request → Gdu)
    → ((n : ℕ) (r : Request) → answers_described r (target n r) ≡ true)
    → (req : InitRequest) (c : Checks)
    → Ends (talk (recv_search_01 yaz database) target 27 (asks_init req) new_search_test c)
unfolding new_search_test
talk-recv_search_01 yaz database target fair req c =
    talk-Ends (recv_search_01 yaz database) target answers_described AwaitsSearch left_search
      (recv_search_01-Proceeds yaz database) fair 27 (asks_init req) new_search_test c
      (omega arith, omega arith, omega arith) (omega arith)
