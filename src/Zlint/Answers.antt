-- ===== src/Zlint/Answers.antt =====
-- zlint/test-init-01.cpp to zlint/test-init-08.cpp: what the tests of init make of a package, and
-- `recv_fail` of a test. Where a function reads through a null pointer, or
-- prints a number as a string, it gives `none`.
use yazpp.Prelude.{
  ℕ, ◌+◌, Bool, true, false, ◌||◌, ◌&&◌, not, [], Option, none, some, if◌then◌else◌, ltb, ◌==◌,
}
use yazpp.Prelude.Int.{pos, ltb_ℤ}
use yazpp.Apdu.{Octets}
use yazpp.ZDatabases.{same_string}
use yazpp.Zlint.{
  continues, reopens, Checks, msg_check_ok, msg_check_fail, msg_check_notapp, Bits, mask_get,
  init_response_get_version, InitResponse, accepts, Gdu, init_answer, Done,
}
use yazpp.Zlint.Init.{Numbers, refid_1, refid_2, mask_count, proposed_size, ends}

abbrev pub fail_if : Bool → Checks → Checks
fail_if b c = if b then msg_check_fail c else c

-- Whether a response has a reference id, and that one.
abbrev pub has_refid : Octets → Option Octets → Bool
has_refid refid none = false
has_refid refid (some id) = same_string id refid

-- The test of the option bits that are set.
abbrev pub suspicious : Bits → Bool
suspicious bits = let (on, off) = mask_count 25 0 bits in ltb on 2 || (off == 0)

module _ {ℓ} {S : Type ℓ} where
  -- The `else` of all these functions.
  abbrev pub no_answer : S → Checks → Option (Done S)
  no_answer s c = some (ends s (msg_check_fail c))

  unfoldable pub recv_01 : Gdu → S → Checks → Option (Done S)
  recv_01 gdu s c = elim (init_answer gdu) [
    | none ↦ no_answer s c
    | some res ↦
        let ver = init_response_get_version res.protocol_version in
        let checked = fail_if (ltb 3 ver || ltb ver 2) c in
        some (ends s (if accepts res.result then msg_check_ok checked else msg_check_fail checked))
  ]

  unfoldable pub recv_02 : Gdu → S → Checks → Option (Done S)
  recv_02 gdu s c = elim (init_answer gdu) [
    | none ↦ no_answer s c
    | some res ↦
        let ver = init_response_get_version res.protocol_version in
        some (ends s (msg_check_ok (fail_if (not (ver == 2)) c)))
  ]

  -- Its message for another version has a `%s` for which there is no string.
  unfoldable pub recv_03 : Gdu → S → Checks → Option (Done S)
  recv_03 gdu s c = elim (init_answer gdu) [
    | none ↦ no_answer s c
    | some res ↦
        let ver = init_response_get_version res.protocol_version in
        if ltb ver 2 || ltb 5 ver then none else some (ends s (msg_check_ok c))
  ]

  unfoldable pub recv_04 : Gdu → S → Checks → Option (Done S)
  recv_04 gdu s c = elim (init_answer gdu) [
    | none ↦ no_answer s c
    | some res ↦ some (ends s (msg_check_ok (fail_if (not (has_refid refid_1 res.reference_id)) c)))
  ]

  unfoldable pub recv_06 : Gdu → S → Checks → Option (Done S)
  recv_06 gdu s c = elim (init_answer gdu) [
    | none ↦ no_answer s c
    | some res ↦ elim res.options [
      | none ↦ some (ends s (msg_check_ok c))
      | some bits ↦ some (ends s (if suspicious bits then msg_check_fail c else msg_check_ok c))
    ]
  ]

  -- Without a name of a character set, a null pointer is printed as a string.
  abbrev pub accepted_charset : Option Bool → S → Checks → Option (Done S)
  accepted_charset none s c = some (ends s (msg_check_notapp c))
  accepted_charset (some false) s c = none
  accepted_charset (some true) s c = some (ends s (msg_check_ok c))

  unfoldable pub recv_07 : Numbers → Gdu → S → Checks → Option (Done S)
  recv_07 num gdu s c = elim (init_answer gdu) [
    | none ↦ no_answer s c
    | some res ↦ elim res.options [
      | none ↦ none
      | some bits ↦
          if mask_get bits num.negotiation_model
          then accepted_charset res.charset_record s c
          else some (ends s (msg_check_notapp c))
    ]
  ]

  -- `recv_fail` of `Zlint_test_simple`.
  unfoldable pub recv_fail_simple : S → Checks → Done S
  recv_fail_simple s c = ends s (msg_check_fail c)

-- The two answers of the fifth test; `no` of the source is `got`.
abbrev pub second_answer : InitResponse → ℕ → Checks → Done ℕ
second_answer res got c =
    let checked = fail_if (not (has_refid refid_2 res.reference_id)) c in
    ends got (if accepts res.result then msg_check_ok checked else msg_check_fail checked)

abbrev pub first_answer : InitResponse → Checks → Done ℕ
first_answer res c =
    if has_refid refid_1 res.reference_id && accepts res.result
    then record { code = continues; state = 1; checks = c; sent = [] }
    else ends 0 (msg_check_fail c)

unfoldable pub recv_05 : Gdu → ℕ → Checks → Option (Done ℕ)
recv_05 gdu got c = elim (init_answer gdu) [
  | none ↦ no_answer got c
  | some res ↦ some (if got == 0 then first_answer res c else second_answer res got c)
]

-- Another round, as long as the round is below 2.
abbrev pub next_round : ℕ → Checks → Done ℕ
next_round round c =
    if ltb round 2
    then record { code = reopens; state = round + 1; checks = c; sent = [] }
    else ends round c

unfoldable pub recv_08 : Gdu → ℕ → Checks → Option (Done ℕ)
recv_08 gdu round c = elim (init_answer gdu) [
  | none ↦ no_answer round c
  | some res ↦
      let larger = ltb_ℤ (pos (proposed_size round)) res.maximum_record_size in
      let longer = ltb_ℤ (pos (proposed_size round)) res.preferred_message_size in
      some (next_round round (msg_check_ok (fail_if longer (fail_if larger c))))
]

unfoldable pub recv_fail_08 : ℕ → Checks → Done ℕ
recv_fail_08 round c = next_round round (msg_check_fail c)
