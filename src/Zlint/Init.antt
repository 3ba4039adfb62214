-- ===== src/Zlint/Init.antt =====
-- zlint/test-init-01.cpp to zlint/test-init-08.cpp: the tests of init. An `init` function takes
-- `r`, the result of `send_Z_PDU`, and the request of `create_Z_PDU`; where a function reads
-- through a null pointer it gives `none`.
use yazpp.Prelude.{
  ℕ, zero, suc, ◌+◌, ◌*◌, Bool, true, false, List, [], ◌∷◌, Option, none, some, map, if◌then◌else◌,
}
use yazpp.Prelude.Int.{ℤ, pos, ltb_ℤ}
use yazpp.Apdu.{Octets}
use yazpp.Zlint.{
  finished, continues, Checks, msg_check_for, msg_check_fail, Bits, mask_get, mask_set, InitRequest,
  asks_init, Done,
}

-- The numbers of the bits in Z39.50's masks.
pub record Numbers : Type 0 where
  pub version_1 : ℕ
  pub version_2 : ℕ
  pub version_3 : ℕ
  pub scan : ℕ
  pub sort : ℕ
  pub concurrent_operations : ℕ
  pub named_result_sets : ℕ
  pub negotiation_model : ℕ

abbrev pub refid_1 : Octets
refid_1 = b'z' ∷ b'l' ∷ b'i' ∷ b'n' ∷ b't' ∷ 0 ∷ b'c' ∷ b'h' ∷ b'e' ∷ b'c' ∷ b'k' ∷ b'1' ∷ []

abbrev pub refid_2 : Octets
refid_2 = b'z' ∷ b'l' ∷ b'i' ∷ b'n' ∷ b't' ∷ 0 ∷ b'c' ∷ b'h' ∷ b'e' ∷ b'c' ∷ b'k' ∷ b'2' ∷ []

-- The bits from `i` on, `n` of them.
abbrev pub mask_set_all : ℕ → ℕ → Bits → Bits
mask_set_all zero i bits = bits
mask_set_all (suc n) i bits = mask_set_all n (i + 1) (mask_set bits i)

-- How many of the `n` bits from `i` on are set, and how many are not.
unfoldable pub mask_count : ℕ → ℕ → Bits → ℕ × ℕ
mask_count zero i bits = (0, 0)
mask_count (suc n) i bits =
    let (on, off) = mask_count n (i + 1) bits in
    if mask_get bits i then (on + 1, off) else (on, off + 1)

-- The size that the third test of sizes proposes in round `round`.
abbrev pub proposed_size : ℕ → ℕ
proposed_size round = round * round * 100000 + 2000

module _ {ℓ} {S : Type ℓ} where
  -- The end of a function that sends nothing.
  abbrev pub ends : S → Checks → Done S
  ends s c = record { code = finished; state = s; checks = c; sent = [] }

  -- From `send_Z_PDU` on.
  abbrev pub sends : ℤ → List InitRequest → S → Checks → Done S
  sends r reqs s c =
      if ltb_ℤ r (pos 0)
      then record {
        code = finished;
        state = s;
        checks = msg_check_fail c;
        sent = map asks_init reqs;
      }
      else record { code = continues; state = s; checks = c; sent = map asks_init reqs }

module _ (num : Numbers) where
  abbrev pub with_version_3 : InitRequest → InitRequest
  with_version_3 req = record req { protocol_version = mask_set req.protocol_version num.version_3 }

  abbrev pub concurrent_request : InitRequest → Octets → InitRequest
  concurrent_request fresh id = record (with_version_3 fresh) {
    options = mask_set fresh.options num.concurrent_operations;
    reference_id = some id;
  }

  unfoldable pub init_08 : InitRequest → ℤ → ℕ → Checks → Done ℕ
  init_08 fresh r round c =
      let req = record (with_version_3 fresh) {
        maximum_record_size = proposed_size round;
        preferred_message_size = proposed_size round;
      } in
      sends r (req ∷ []) round (msg_check_for c)

module _ {ℓ} {S : Type ℓ} (num : Numbers) where
  unfoldable pub init_01 : InitRequest → ℤ → S → Checks → Done S
  init_01 fresh r s c =
      let bits = mask_set (mask_set (mask_set [] num.version_1) num.version_2) num.version_3 in
      sends r (record fresh { protocol_version = bits } ∷ []) s (msg_check_for c)

  unfoldable pub init_02 : InitRequest → ℤ → S → Checks → Done S
  init_02 fresh r s c =
      let bits = mask_set (mask_set [] num.version_1) num.version_2 in
      sends r (record fresh { protocol_version = bits } ∷ []) s (msg_check_for c)

  unfoldable pub init_03 : InitRequest → ℤ → S → Checks → Done S
  init_03 fresh r s c =
      sends r (record fresh { protocol_version = mask_set_all 9 0 [] } ∷ []) s (msg_check_for c)

  unfoldable pub init_04 : InitRequest → ℤ → S → Checks → Done S
  init_04 fresh r s c =
      let req = record (with_version_3 num fresh) { reference_id = some refid_1 } in
      sends r (req ∷ []) s (msg_check_for c)

  -- The second request is sent after the first, with the result `r'`.
  unfoldable pub init_05 : InitRequest → ℤ → ℤ → S → Checks → Done S
  init_05 fresh r r' s c =
      let first = concurrent_request num fresh refid_1 in
      let second = concurrent_request num fresh refid_2 in
      if ltb_ℤ r (pos 0)
      then sends r (first ∷ []) s (msg_check_for c)
      else sends r' (first ∷ second ∷ []) s (msg_check_for c)

  unfoldable pub init_06 : InitRequest → ℤ → S → Checks → Done S
  init_06 fresh r s c =
      let req = record (with_version_3 num fresh) { options = mask_set_all 25 0 [] } in
      sends r (req ∷ []) s (msg_check_for c)

  -- `room` says whether `yaz_oi_APDU` finds a place for other information and whether
  -- `yaz_oi_update` makes a unit there.
  unfoldable pub init_07 : Option Bool → InitRequest → ℤ → S → Checks → Done S
  init_07 none fresh r s c = ends s (msg_check_fail (msg_check_for c))
  init_07 (some false) fresh r s c = sends r (with_version_3 num fresh ∷ []) s (msg_check_for c)
  init_07 (some true) fresh r s c =
      let req = record (with_version_3 num fresh) {
        options = mask_set fresh.options num.negotiation_model;
        charset_proposal = true;
      } in
      sends r (req ∷ []) s (msg_check_for c)
