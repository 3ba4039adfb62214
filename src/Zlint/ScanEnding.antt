-- ===== src/Zlint/ScanEnding.antt =====
-- zlint/test-scan-01.cpp: the end of the test.
use Prim.Native.String.{String}
use yazpp.Prelude.{
  ℕ, ◌+◌, ◌-◌, ltb, ◌<◌, ◌≤◌, ◌≡◌, inl, inr, Bool, true, false, ◌&&◌, none, some, length, arith,
  Bool-cases, Option-cases, is_some,
}
use yazpp.Apdu.{Octets}
use yazpp.Zlint.{
  Checks, Bits, mask_get, msg_check_ok, msg_check_fail, Gdu, z3950, init_response, scan_response,
  Request, ScanEntries, InitRequest, InitResponse, asks_init, asks_scan, accepts,
}
use yazpp.Zlint.Init.{Numbers}
use yazpp.Zlint.Elements.{element-word, element-cases}
use yazpp.Zlint.Scan.{try_scan, send_scan_test, scanned, scan_started, recv_scan_01}
use yazpp.Zlint.Talk.{answers, Proceeds, stop, go_on, Ends, talk, talk-Ends}

-- A response of the right kind that has the optional parts that the test reads.
abbrev pub complete : Gdu → Bool
complete (z3950 (init_response res)) = is_some res.options
complete (z3950 (scan_response entries)) = is_some entries
complete _ = true

abbrev pub suits : Request → Gdu → Bool
suits r g = answers r g && complete g

abbrev pub AwaitsScan : Request → ℕ → Type 0
AwaitsScan (asks_init req) scan_no = scan_no < length try_scan
AwaitsScan (asks_scan database q) scan_no = scan_no < length try_scan
AwaitsScan _ scan_no = false ≡ true

-- How many responses there may be after the next one.
abbrev pub left_scan : Request → ℕ → ℕ
left_scan (asks_init req) scan_no = 3
left_scan _ scan_no = 2 - scan_no

send_scan_test-Proceeds :
    (database : Octets) (bound scan_no : ℕ) (c : Checks)
    → scan_no ≤ length try_scan
    → (scan_no < length try_scan → 2 - scan_no < bound)
    → Proceeds AwaitsScan left_scan bound (send_scan_test database scan_no c)
unfolding send_scan_test
send_scan_test-Proceeds database bound scan_no c le less =
    elim (element-cases try_scan scan_no le) [
      | inl (x, lt, e) ↦ rw e (go_on (asks_scan database x) scan_no _ lt (less lt))
      | inr (at_end, e) ↦ rw e (stop scan_no c)
    ]

scanned-some :
    (entries : ScanEntries) (x : String) (c : Checks)
    → (c' : Checks) × (scanned (some entries) (some (some x)) c ≡ some c')
scanned-some entries x c = elim (Bool-cases entries.diagnostics) [
  | inl given ↦ (msg_check_ok c, rw given)
  | inr ungiven ↦ elim (Bool-cases (ltb 0 entries.terms)) [
    | inl listed ↦ (msg_check_ok c, rw (ungiven, listed))
    | inr empty ↦ (msg_check_fail c, rw (ungiven, empty))
  ]
]

scan_started-Proceeds :
    (num : Numbers) (database : Octets) (res : InitResponse) (scan_no : ℕ) (c : Checks)
    (bits : Bits)
    → scan_no < length try_scan
    → Proceeds AwaitsScan left_scan 3 (scan_started num database res scan_no c (some bits))
unfolding send_scan_test
scan_started-Proceeds num database res scan_no c bits lt =
    let (x, there) = element-word try_scan scan_no lt in
    elim (Bool-cases (accepts res.result)) [
      | inl accepted ↦ elim (Bool-cases (mask_get bits num.scan)) [
        | inl supported ↦
            rw (accepted, supported, there)
              (go_on (asks_scan database x) scan_no _ lt (omega arith))
        | inr unsupported ↦ rw (accepted, unsupported) (stop scan_no _)
      ]
      | inr rejected ↦ rw rejected (stop scan_no _)
    ]

pub recv_scan_01-Proceeds :
    (num : Numbers) (database : Octets) (g : Gdu) (r : Request) (scan_no : ℕ) (c : Checks)
    → suits r g ≡ true
    → AwaitsScan r scan_no
    → Proceeds AwaitsScan left_scan (left_scan r scan_no) (recv_scan_01 num database g scan_no c)
unfolding recv_scan_01 try_scan
recv_scan_01-Proceeds num database (z3950 (init_response res)) (asks_init req) scan_no c e lt =
    elim (Option-cases res.options) [
      | inl missing ↦ ground (arith, missing)
      | inr (bits, given) ↦ rw given (scan_started-Proceeds num database res scan_no _ bits lt)
    ]
recv_scan_01-Proceeds num database (z3950 (scan_response none)) (asks_scan d q) scan_no c e lt =
    ground arith
recv_scan_01-Proceeds num database (z3950 (scan_response (some entries))) (asks_scan d q) scan_no c
      e lt =
    let (x, there) = element-word try_scan scan_no lt in
    let (c', checked) = scanned-some entries x c in
    rw (there, checked)
      (send_scan_test-Proceeds database _ (scan_no + 1) c' (omega arith) (λ lt'. omega arith))
recv_scan_01-Proceeds num database g r scan_no c e a = ground arith

-- The scan test comes to its end, and reads nothing that is not there, if the target answers each
-- request with a response of that kind, an init response with its options and a scan response with
-- its entries: it is over after 4 responses at most.
pub talk-recv_scan_01 :
    (num : Numbers) (database : Octets) (target : ℕ → Request → Gdu)
    → ((n : ℕ) (r : Request) → suits r (target n r) ≡ true)
    → (req : InitRequest) (c : Checks)
    → Ends (talk (recv_scan_01 num database) target 4 (asks_init req) 0 c)
unfolding try_scan
talk-recv_scan_01 num database target fair req c =
    talk-Ends (recv_scan_01 num database) target suits AwaitsScan left_scan
      (recv_scan_01-Proceeds num database) fair 4 (asks_init req) 0 c (omega arith) (omega arith)
