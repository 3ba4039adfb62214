-- ===== src/Zlint/Scan.antt =====
-- zlint/test-scan-01.cpp: scans for some terms, where the target supports it. `none` is a read
-- outside of the array, through a null pointer, or of an HTTP package as an APDU.
use Prim.Native.String.{String}
use yazpp.Prelude.{ℕ, ◌+◌, ◌||◌, List, [], ◌∷◌, Option, none, some, if◌then◌else◌, ltb}
use yazpp.Prelude.Int.{ℤ}
use yazpp.Apdu.{Octets}
use yazpp.Zlint.{
  finished, continues, Checks, msg_check_for, msg_check_ok, msg_check_fail, msg_check_notapp, Bits,
  mask_get, mask_set, init_response_get_version, InitRequest, InitResponse, accepts, ScanEntries,
  init_response, search_response, present_response, sort_response, scan_response, another_response,
  Gdu, http, z3950, asks_scan, Done,
}
use yazpp.Zlint.Init.{Numbers, sends, with_version_3}
use yazpp.Zlint.Answers.{fail_if}
use yazpp.Zlint.Elements.{element, printing}

unfoldable pub try_scan : List String
try_scan = "@attr 1=4 ab" ∷ "@attr 1=1003 ab" ∷ "@attr 1=1016 ab" ∷ []

-- It starts no check.
unfoldable pub init_scan : Numbers → InitRequest → ℤ → ℕ → Checks → Done ℕ
init_scan num fresh r scan_no c =
    let options = mask_set (mask_set fresh.options num.named_result_sets) num.scan in
    sends r (record (with_version_3 num fresh) { options = options } ∷ []) scan_no c

abbrev pub scan_ends : ℕ → Checks → Done ℕ
scan_ends scan_no c = record { code = finished; state = scan_no; checks = c; sent = [] }

abbrev pub send_scan : Octets → Option (Option String) → ℕ → Checks → Option (Done ℕ)
send_scan database none scan_no c = none
send_scan database (some none) scan_no c = some (scan_ends scan_no c)
send_scan database (some (some q)) scan_no c = some (record {
  code = continues;
  state = scan_no;
  checks = msg_check_for c;
  sent = asks_scan database q ∷ [];
})

-- `sendTest`.
unfoldable pub send_scan_test : Octets → ℕ → Checks → Option (Done ℕ)
send_scan_test database scan_no c = send_scan database (element try_scan scan_no) scan_no c

-- The code of `sendTest` is dropped.
abbrev pub continuing : Option (Done ℕ) → Option (Done ℕ)
continuing none = none
continuing (some d) = some (record d { code = continues })

abbrev pub scan_started :
    Numbers → Octets → InitResponse → ℕ → Checks → Option Bits → Option (Done ℕ)
scan_started num database res scan_no c options =
    if accepts res.result
    then elim options [
      | none ↦ none
      | some bits ↦
          if mask_get bits num.scan
          then continuing (send_scan_test database scan_no c)
          else some (scan_ends scan_no (msg_check_notapp c))
    ]
    else some (scan_ends scan_no (msg_check_fail c))

-- What the entries of a scan response do to the check.
abbrev pub scanned : Option ScanEntries → Option (Option String) → Checks → Option Checks
scanned none e c = none
scanned (some entries) e c =
    let listed =
      if ltb 0 entries.terms then some (msg_check_ok c) else printing e (some (msg_check_fail c)) in
    if entries.diagnostics then printing e (some (msg_check_ok c)) else listed

abbrev pub next_scan : Octets → ℕ → Option Checks → Option (Done ℕ)
next_scan database scan_no none = none
next_scan database scan_no (some c) = send_scan_test database (scan_no + 1) c

unfoldable pub recv_scan_01 : Numbers → Octets → Gdu → ℕ → Checks → Option (Done ℕ)
recv_scan_01 num database http scan_no c = none
recv_scan_01 num database (z3950 (init_response res)) scan_no c =
    let ver = init_response_get_version res.protocol_version in
    scan_started num database res scan_no (fail_if (ltb 3 ver || ltb ver 2) c) res.options
recv_scan_01 num database (z3950 (scan_response entries)) scan_no c =
    next_scan database scan_no (scanned entries (element try_scan scan_no) c)
recv_scan_01 num database (z3950 (search_response records count)) scan_no c =
    some (scan_ends scan_no (msg_check_fail c))
recv_scan_01 num database (z3950 (present_response records)) scan_no c =
    some (scan_ends scan_no (msg_check_fail c))
recv_scan_01 num database (z3950 (sort_response diagnostics)) scan_no c =
    some (scan_ends scan_no (msg_check_fail c))
recv_scan_01 num database (z3950 another_response) scan_no c =
    some (scan_ends scan_no (msg_check_fail c))

unfoldable pub recv_fail_scan : ℕ → Checks → Done ℕ
recv_fail_scan scan_no c = scan_ends (scan_no + 1) (msg_check_fail c)
