-- ===== src/Apdu/Reference.antt =====
-- src/yaz-z-assoc.cpp: which places an APDU has.
use yazpp.Prelude.{true, false, ◌≡◌, Option, none, arith}
use yazpp.Apdu.{
  Kind, Octets, Apdu, has_reference_id, has_other_info, transfer_reference_id,
  set_other_information,
}

-- Every APDU that takes other information has a reference id as well.
pub other_info-reference_id : (k : Kind) → has_other_info k ≡ true → has_reference_id k ≡ true
unfolding has_other_info has_reference_id
other_info-reference_id k h = ground arith

-- An APDU of a kind that has a reference id gets that of the request, or none if the request has
-- none, and nothing else of it changes; one of another kind stays as it is.
pub transfer_reference_id_lem :
    (from to : Apdu)
    → let out = transfer_reference_id from to in
      (out.kind ≡ to.kind)
      × (out.other_info ≡ to.other_info)
      × (has_reference_id to.kind ≡ true
          → has_reference_id from.kind ≡ true
          → out.reference_id ≡ from.reference_id)
      × (has_reference_id to.kind ≡ true
          → has_reference_id from.kind ≡ false
          → out.reference_id ≡ none)
      × (has_reference_id to.kind ≡ false → out ≡ to)
unfolding transfer_reference_id
transfer_reference_id_lem from to =
    (ground arith, ground arith, (λ h k. ground arith), (λ h k. ground arith), (λ h. ground arith))

-- Other information may be set before the reference id is transferred, or after it.
pub transfer-set_other :
    (from to : Apdu) (updated : Option Octets → Option Octets)
    → transfer_reference_id from (set_other_information updated to)
      ≡ set_other_information updated (transfer_reference_id from to)
unfolding transfer_reference_id set_other_information
transfer-set_other from to updated = ground arith
