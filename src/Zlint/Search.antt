-- ===== src/Zlint/Search.antt =====
-- zlint/test-search-01.cpp: searches until one has hits, then presents its first record in each
-- syntax, then sorts it. A read outside of an array or through a null
-- pointer gives `none`.
use Prim.Native.String.{String}
use yazpp.Prelude.{ℕ, ◌+◌, Bool, true, false, List, [], ◌∷◌, Option, none, some, if◌then◌else◌}
use yazpp.Prelude.Int.{ℤ, pos, ◌==ℤ◌}
use yazpp.Apdu.{Octets}
use yazpp.Zlint.{
  finished, continues, Checks, msg_check_for, msg_check_ok, msg_check_fail, msg_check_notapp,
  mask_set, InitRequest, accepts, database_record, surrogate_diagnostic, fragment, Records,
  non_surrogate, multiple_non_surrogate, database_or_surrogate, init_response, search_response,
  present_response, sort_response, scan_response, another_response, Gdu, http, z3950, Request,
  asks_search, asks_present, asks_sort, Done,
}
use yazpp.Zlint.Elements.{element, printing}
use yazpp.Zlint.Init.{Numbers, sends, with_version_3}

-- The third line of the source's array with `sword` has no comma.
unfoldable pub try_query : List String
try_query =
    "@attr 1=4 petersson" ∷ "@attr 1=1016 petersson" ∷ "@attr 1=4 kingdom" ∷ "@attr 1=1016 kingdom"
    ∷ "@attr 1=62 sword" ∷ "swordseven" ∷ "@attr 1=4 water" ∷ "@attr 1=1016 water" ∷ "computer"
    ∷ "@attr 1=4 computer" ∷ "@attr 1=1016 computer" ∷ "water" ∷ "join" ∷ "about" ∷ "map" ∷ []

unfoldable pub try_syntax : List String
try_syntax = "usmarc" ∷ "unimarc" ∷ "danmarc" ∷ "sutrs" ∷ "grs1" ∷ "xml" ∷ "normarc" ∷ []

unfoldable pub try_sort : List String
try_sort = "1=4 <" ∷ "1=4 >" ∷ "1=62 >" ∷ "1=62 <" ∷ []

-- What the test asks of YAZ: whether a query can be parsed, and whether the syntax of a record is
-- the one of a name.
pub record Yaz : Type 0 where
  pub parses : String → Bool
  pub is_syntax : Option String → Octets → Bool

-- The members of `Zlint_test_search_01`.
pub record SearchTest : Type 0 where
  pub query_no : ℕ
  pub got_result_set : Bool
  pub record_syntax_no : ℕ
  pub sort_no : ℕ

unfoldable pub new_search_test : SearchTest
new_search_test = record { query_no = 0; got_result_set = false; record_syntax_no = 0; sort_no = 0 }

unfoldable pub init_search : Numbers → InitRequest → ℤ → SearchTest → Checks → Done SearchTest
init_search num fresh r s c =
    let options = mask_set (mask_set fresh.options num.named_result_sets) num.sort in
    let req = record (with_version_3 num fresh) { options = options } in
    sends r (req ∷ []) s (msg_check_for c)

-- The ends of the functions.
abbrev pub stops : SearchTest → Checks → Option (Done SearchTest)
stops s c = some (record { code = finished; state = s; checks = c; sent = [] })

abbrev pub asks : Request → SearchTest → Checks → Option (Done SearchTest)
asks r s c = some (record { code = continues; state = s; checks = c; sent = r ∷ [] })

-- The branches of `sendTest`, by the element that it reads.
abbrev pub send_search :
    Yaz → Octets → Option (Option String) → SearchTest → Checks → Option (Done SearchTest)
send_search yaz database none s c = none
send_search yaz database (some none) s c = stops s (msg_check_notapp c)
send_search yaz database (some (some q)) s c =
    if yaz.parses q then asks (asks_search database q) s c else stops s (msg_check_fail c)

abbrev pub send_sort : Option (Option String) → SearchTest → Checks → Option (Done SearchTest)
send_sort none s c = none
send_sort (some none) s c = stops s c
send_sort (some (some spec)) s c = asks (asks_sort spec) s (msg_check_for c)

abbrev pub send_present : Option (Option String) → SearchTest → Checks → Option (Done SearchTest)
send_present none s c = none
send_present (some none) s c = send_sort (element try_sort s.sort_no) s c
send_present (some (some syntax)) s c = asks (asks_present syntax) s (msg_check_for c)

unfoldable pub send_test : Yaz → Octets → SearchTest → Checks → Option (Done SearchTest)
send_test yaz database s c =
    if s.got_result_set
    then send_present (element try_syntax s.record_syntax_no) s c
    else send_search yaz database (element try_query s.query_no) s c

-- Whether a search response says that there are no records to be had.
abbrev pub no_hits : Option Records → Option ℤ → Bool
no_hits (some non_surrogate) count = true
no_hits (some multiple_non_surrogate) count = true
no_hits (some (database_or_surrogate first)) none = true
no_hits (some (database_or_surrogate first)) (some n) = n ==ℤ pos 0
no_hits none none = true
no_hits none (some n) = n ==ℤ pos 0

-- What a present response does to the check; the element is the syntax that the test has asked for.
abbrev pub presented : Yaz → Option Records → Option (Option String) → Checks → Option Checks
presented yaz (some non_surrogate) e c = printing e (some (msg_check_ok c))
presented yaz (some multiple_non_surrogate) e c = printing e (some (msg_check_ok c))
presented yaz (some (database_or_surrogate (some (database_record none)))) e c = none
presented yaz (some (database_or_surrogate (some (database_record (some oid))))) none c = none
presented yaz (some (database_or_surrogate (some (database_record (some oid))))) (some e) c =
    some (if yaz.is_syntax e oid then msg_check_ok c else msg_check_fail c)
presented yaz (some (database_or_surrogate (some surrogate_diagnostic))) e c =
    printing e (some (msg_check_ok c))
presented yaz (some (database_or_surrogate (some fragment))) e c =
    printing e (some (msg_check_ok c))
presented yaz (some (database_or_surrogate none)) e c = some (msg_check_fail c)
presented yaz none e c = some (msg_check_fail c)

-- The end of a branch, where its messages did not read outside of an array.
abbrev pub then_send : Yaz → Octets → SearchTest → Option Checks → Option (Done SearchTest)
then_send yaz database s none = none
then_send yaz database s (some c) = send_test yaz database s c

unfoldable pub recv_search_01 : Yaz → Octets → Gdu → SearchTest → Checks → Option (Done SearchTest)
recv_search_01 yaz database http s c = stops s (msg_check_fail c)
recv_search_01 yaz database (z3950 (init_response res)) s c =
    if accepts res.result then send_test yaz database s c else stops s (msg_check_notapp c)
recv_search_01 yaz database (z3950 (search_response records count)) s c =
    if no_hits records count
    then send_test yaz database (record s { query_no = s.query_no + 1 }) c
    else then_send yaz database (record s { got_result_set = true })
        (printing (element try_query s.query_no) (some (msg_check_ok c)))
recv_search_01 yaz database (z3950 (present_response records)) s c =
    then_send yaz database (record s { record_syntax_no = s.record_syntax_no + 1 })
      (presented yaz records (element try_syntax s.record_syntax_no) c)
recv_search_01 yaz database (z3950 (sort_response diagnostics)) s c =
    let ok = some (msg_check_ok c) in
    let checked = if diagnostics then printing (element try_sort s.sort_no) ok else ok in
    then_send yaz database (record s { sort_no = s.sort_no + 1 }) checked
recv_search_01 yaz database (z3950 (scan_response entries)) s c = stops s (msg_check_fail c)
recv_search_01 yaz database (z3950 another_response) s c = stops s (msg_check_fail c)
