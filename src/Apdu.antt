-- ===== src/Apdu.antt =====
-- src/yaz-z-assoc.cpp: the reference id and the other information of an APDU, by its kind.
pub mod Reference
use yazpp.Prelude.{ℕ, Bool, true, false, List, Option, none, some, if◌then◌else◌}

-- `which` of a `Z_APDU`; `other` stands for the kinds that the functions do not name.
pub data Kind : Type 0 where
  init_request init_response search_request search_response present_request : Kind
  present_response delete_result_set_request delete_result_set_response : Kind
  access_control_request access_control_response resource_control_request : Kind
  resource_control_response trigger_resource_control_request resource_report_request : Kind
  resource_report_response scan_request scan_response sort_request sort_response : Kind
  segment_request extended_services_request extended_services_response close other : Kind

-- Bytes of an octet string.
abbrev pub Octets : Type 0
Octets = List ℕ

pub record Apdu : Type 0 where
  pub kind : Kind
  pub reference_id : Option Octets
  pub other_info : Option Octets

-- The options of an init request and its response that the facilities look at.
pub record Options : Type 0 where
  pub search : Bool
  pub present : Bool
  pub extended_services : Bool

-- `get_referenceIdP`: whether there is a place for the reference id.
unfoldable pub has_reference_id : Kind → Bool
has_reference_id other = false
has_reference_id _ = true

-- `get_otherInfoAPDU`: whether there is a place for other information.
unfoldable pub has_other_info : Kind → Bool
has_other_info init_request = true
has_other_info search_request = true
has_other_info present_request = true
has_other_info sort_request = true
has_other_info scan_request = true
has_other_info extended_services_request = true
has_other_info delete_result_set_request = true
has_other_info init_response = true
has_other_info search_response = true
has_other_info present_response = true
has_other_info sort_response = true
has_other_info scan_response = true
has_other_info extended_services_response = true
has_other_info delete_result_set_response = true
has_other_info _ = false

-- `transfer_referenceId`, to the second one.
unfoldable pub transfer_reference_id : Apdu → Apdu → Apdu
transfer_reference_id from to =
    if has_reference_id to.kind
    then record to { reference_id = if has_reference_id from.kind then from.reference_id else none }
    else to

-- `set_otherInformationString`: `updated` is what `yaz_oi_update` and the new string make of the
-- information, `none` if there is no room for a new unit.
unfoldable pub set_other_information : (Option Octets → Option Octets) → Apdu → Apdu
set_other_information updated a =
    if has_other_info a.kind
    then elim (updated a.other_info) [ none ↦ a | some info ↦ record a { other_info = some info } ]
    else a
