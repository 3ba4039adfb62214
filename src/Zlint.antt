-- ===== src/Zlint.antt =====
-- zlint/zlint.h and zlint/zlint.cpp: what the tests of a Z39.50 target share, which are the
-- verdict of a check, the versions of a response and the packages that the tests look at. What is
-- printed is left out.
pub mod Versions
pub mod Init
pub mod Answers
pub mod Search
pub mod Scan
pub mod Talk
pub mod Endings
pub mod ScanEnding
pub mod Driver
pub mod Order
pub mod Session
pub mod Whole
pub mod InitEndings
pub mod MemberEndings
pub mod Completion
pub mod Program
pub mod Verdicts
pub mod Callbacks
pub mod Elements
use Prim.Native.String.{String}
use yazpp.Prelude.{
  ℕ, zero, suc, ◌+◌, Bool, true, false, List, [], ◌∷◌, Option, none, some, if◌then◌else◌, ◌==◌,
}
use yazpp.Prelude.Int.{ℤ, pos, ◌==ℤ◌}
use yazpp.Apdu.{Octets}

-- `Zlint_code`.
pub data Code : Type 0 where
  finished continues reopens : Code

-- The members of `Zlint_t` that the messages set: `m_test_ok` is 0, 1 or 2.
pub record Checks : Type 0 where
  pub sequence : ℕ
  pub ok : ℕ
  pub reported : Bool

unfoldable pub new_checks : Checks
new_checks = record { sequence = 0; ok = 0; reported = false }

unfoldable pub msg_check_for : Checks → Checks
msg_check_for c = record { sequence = c.sequence + 1; ok = 0; reported = false }

-- Only the first report of a check counts.
abbrev pub report : ℕ → Checks → Checks
report verdict c = if c.reported then c else record c { ok = verdict; reported = true }

unfoldable pub msg_check_ok : Checks → Checks
msg_check_ok c = report 1 c

unfoldable pub msg_check_fail : Checks → Checks
msg_check_fail c = report 0 c

unfoldable pub msg_check_notapp : Checks → Checks
msg_check_notapp c = report 2 c

-- A bit mask, as the numbers of the bits that are set; `ODR_MASK_GET` and `ODR_MASK_SET` on it.
abbrev pub Bits : Type 0
Bits = List ℕ

abbrev pub mask_get : Bits → ℕ → Bool
mask_get [] bit = false
mask_get (b ∷ bits) bit = if b == bit then true else mask_get bits bit

abbrev pub mask_set : Bits → ℕ → Bits
mask_set bits bit = bit ∷ bits

-- The loop of `initResponseGetVersion` with `n` rounds to go, from round `i`.
unfoldable pub version_from : ℕ → ℕ → Bits → ℕ → ℕ
version_from zero i bits version = version
version_from (suc n) i bits version =
    version_from n (i + 1) bits (if mask_get bits version then i + 1 else version)

unfoldable pub init_response_get_version : Bits → ℕ
init_response_get_version bits = version_from 12 0 bits 0

-- The parts of an init request that tests set.
pub record InitRequest : Type 0 where
  pub protocol_version : Bits
  pub options : Bits
  pub reference_id : Option Octets
  pub maximum_record_size : ℕ
  pub preferred_message_size : ℕ
  pub charset_proposal : Bool

-- The parts of an init response that tests look at; `charset_record` is what
-- `yaz_get_charneg_record` finds, and whether it names a character set.
pub record InitResponse : Type 0 where
  pub protocol_version : Bits
  pub options : Option Bits
  pub result : Option ℤ
  pub reference_id : Option Octets
  pub maximum_record_size : ℤ
  pub preferred_message_size : ℤ
  pub charset_record : Option Bool

-- Whether a response accepts the session; `result` is an optional member.
abbrev pub accepts : Option ℤ → Bool
accepts none = false
accepts (some r) = if r ==ℤ pos 0 then false else true

-- `Z_Records` of a response: what the first record of `DBOSD` is, if there is one. A database
-- record may have no `direct_reference`.
pub data FirstRecord : Type 0 where
  database_record : Option Octets → FirstRecord
  surrogate_diagnostic fragment : FirstRecord

pub data Records : Type 0 where
  non_surrogate multiple_non_surrogate : Records
  database_or_surrogate : Option FirstRecord → Records

-- `scan_response` has the `entries`, if there are any: whether they have diagnostics of their own,
-- and the number of terms.
pub record ScanEntries : Type 0 where
  pub diagnostics : Bool
  pub terms : ℕ

pub data Response : Type 0 where
  init_response : InitResponse → Response
  search_response : Option Records → Option ℤ → Response
  present_response : Option Records → Response
  sort_response : Bool → Response
  scan_response : Option ScanEntries → Response
  another_response : Response

-- A GDU that a target sends: HTTP or a Z39.50 APDU.
pub data Gdu : Type 0 where
  http : Gdu
  z3950 : Response → Gdu

-- The condition that all tests begin with.
abbrev pub init_answer : Gdu → Option InitResponse
init_answer (z3950 (init_response r)) = some r
init_answer _ = none

-- The requests that tests send, those but of init with a query, a record syntax or a sort
-- specification, as the text that it is made of.
pub data Request : Type 0 where
  asks_init : InitRequest → Request
  asks_search : Octets → String → Request
  asks_present asks_sort : String → Request
  asks_scan : Octets → String → Request

-- What a function of a test gives: its code, the members of the test, the checks, and the requests
-- that it has passed to `send_Z_PDU`.
pub record Done {ℓ} (S : Type ℓ) : Type ℓ where
  pub code : Code
  pub state : S
  pub checks : Checks
  pub sent : List Request
