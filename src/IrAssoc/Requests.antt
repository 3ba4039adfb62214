-- ===== src/IrAssoc/Requests.antt =====
-- src/yaz-ir-assoc.cpp: the requests that a client session sends, and what it does with an APDU
-- that it receives. The class of record syntaxes and the units of other information of YAZ are
-- parameters, and so is the type of queries.
use yazpp.Prelude.{ℕ, List, [], ◌∷◌, Option, none, some}
use yazpp.Prelude.Int.{ℤ, pos, negsuc}
use yazpp.Apdu.{
  Kind, init_request, init_response, search_request, search_response, present_request,
  present_response, delete_result_set_request, Octets, Apdu, set_other_information,
}
use yazpp.PduAssoc.State.{Assoc, Call}
use yazpp.PduAssoc.Output.{Answer}
use yazpp.ZAssoc.{Codec, reference_id_of, send_gdu}
use yazpp.IrAssoc.{Session, get_preferred_record_syntax}

-- The user information that a session sends along.
pub data InfoUnit : Type 0 where
  cookie_unit proxy_unit : InfoUnit

-- The object identifier of a syntax, and `yaz_oi_update` with a new string: `none` if it fails.
pub record Yaz : Type 0 where
  pub syntax_oid : Octets → Option Octets
  pub oi_string : InfoUnit → Octets → Option Octets → Option Octets

-- The options that an init request of a session has.
pub data InitOption : Type 0 where
  search present named_result_sets trigger_resource_ctrl scan sort : InitOption
  extended_services del_set : InitOption

-- The members of the APDUs; a result set `none` leaves the one of `create_Z_PDU`, or means all of
-- them in a delete request. `answers` has none that the session sets.
pub data Body {ℓ} (Q : Type ℓ) : Type ℓ where
  searches :
      (query : Q) (database_names : List Octets) (record_syntax result_set : Option Octets) → Body Q
  presents : (start number : ℤ) (record_syntax element_sets result_set : Option Octets) → Body Q
  inits : (options : List InitOption) (versions : List ℕ) → Body Q
  deletes : (result_set : Option Octets) → Body Q
  answers : Body Q

pub record Pdu {ℓ} (Q : Type ℓ) : Type ℓ where
  pub apdu : Apdu
  pub body : Body Q

-- `create_Z_PDU`, as far as it matters here.
abbrev pub created : Kind → Apdu
created k = record { kind = k; reference_id = none; other_info = none }

-- `if (pRefId) ... getRefID`.
unfoldable pub with_reference_id : Option Octets → Apdu → Apdu
with_reference_id none a = a
with_reference_id (some id) a = record a { reference_id = reference_id_of (some id) }

module _ (yaz : Yaz) where
  abbrev pub with_unit : InfoUnit → Option Octets → Apdu → Apdu
  with_unit u none a = a
  with_unit u (some str) a = set_other_information (yaz.oi_string u str) a

  -- `if (m_proxy && m_host)`.
  abbrev pub proxied : Option Octets → Option Octets → Option Octets
  proxied none host = none
  proxied (some proxy) host = host

  unfoldable pub with_cookie : Session → Apdu → Apdu
  with_cookie s a = with_unit cookie_unit s.cookie a

  unfoldable pub with_proxy : Session → Apdu → Apdu
  with_proxy s a = with_unit proxy_unit (proxied s.proxy s.host) a

  -- `if (recordSyntax && *recordSyntax)`.
  abbrev pub oid_of : Octets → Option Octets
  oid_of [] = none
  oid_of (c ∷ cs) = yaz.syntax_oid (c ∷ cs)

  unfoldable pub syntax_of : Session → Option Octets
  syntax_of s = oid_of (get_preferred_record_syntax s)

abbrev pub init_options : List InitOption
init_options =
    search ∷ present ∷ named_result_sets ∷ trigger_resource_ctrl ∷ scan ∷ sort ∷ extended_services
    ∷ del_set ∷ []

module _ {ℓ} {Q : Type ℓ} (yaz : Yaz) where
  unfoldable pub search_pdu : Q → Option Octets → Option Octets → Session → Pdu Q
  search_pdu query set id s = record {
    apdu = with_reference_id id (with_cookie yaz s (created search_request));
    body = searches query s.database_names (syntax_of yaz s) set;
  }

  unfoldable pub present_pdu : ℤ → ℤ → Option Octets → Option Octets → Session → Pdu Q
  present_pdu start number set id s = record {
    apdu = with_reference_id id (with_cookie yaz s (created present_request));
    body = presents start number (syntax_of yaz s) s.element_set_names set;
  }

  unfoldable pub init_pdu : Option Octets → Session → Pdu Q
  init_pdu id s = record {
    apdu = with_cookie yaz s (with_proxy yaz s (with_reference_id id (created init_request)));
    body = inits init_options (1 ∷ 2 ∷ 3 ∷ []);
  }

  unfoldable pub delete_pdu : Option Octets → Option Octets → Session → Pdu Q
  delete_pdu set id s =
      let apdu = with_reference_id id (created delete_result_set_request) in
      record { apdu = with_cookie yaz s (with_proxy yaz s apdu); body = deletes set }

-- The result of a function that sends.
abbrev pub Sent : Type 0
Sent = (Assoc × List Call × ℤ) × Option ℕ

module _ {ℓ} {Q : Type ℓ} (yaz : Yaz) (codec : Codec (Pdu Q)) where
  abbrev pub search_with :
      Option Q → Option Octets → Option Octets → Session → Answer → Assoc → Sent
  search_with none set id s answer a = ((a, [], negsuc 0), none)
  search_with (some query) set id s answer a =
      send_gdu codec answer (search_pdu yaz query set id s) a

  -- `send_searchRequest`; `get_z_query` is what the query object gives.
  unfoldable pub send_search_request :
      Option Q → Option Octets → Option Octets → Session → Answer → Assoc → Sent
  send_search_request get_z_query set id s answer a = search_with get_z_query set id s answer a

  unfoldable pub send_present_request :
      ℤ → ℤ → Option Octets → Option Octets → Session → Answer → Assoc → Sent
  send_present_request start number set id s answer a =
      send_gdu codec answer (present_pdu yaz start number set id s) a

  unfoldable pub send_init_request : Option Octets → Session → Answer → Assoc → Sent
  send_init_request id s answer a = send_gdu codec answer (init_pdu yaz id s) a

  unfoldable pub send_delete_result_set_request :
      Option Octets → Option Octets → Session → Answer → Assoc → Sent
  send_delete_result_set_request set id s answer a =
      send_gdu codec answer (delete_pdu yaz set id s) a

  -- The response to a request of these kinds, and to no other APDU.
  abbrev pub response_kind : Kind → Option Kind
  response_kind init_request = some init_response
  response_kind search_request = some search_response
  response_kind present_request = some present_response
  response_kind _ = none

  abbrev pub send_response : Option Kind → Answer → Assoc → Sent
  send_response none answer a = ((a, [], negsuc 0), none)
  send_response (some k) answer a =
      send_gdu codec answer (record { apdu = created k; body = answers }) a

  -- `recv_Z_PDU`, where the subclass does nothing with a response; `which` numbers the kinds. What
  -- it sends is not looked at.
  unfoldable pub recv_z_pdu : (Kind → ℕ) → Kind → Answer → Session → Assoc → Session × Sent
  recv_z_pdu which k answer s a =
      (record s { last_received = pos (which k) }, send_response (response_kind k) answer a)

  -- `recv_GDU`: HTTP, `none`, is ignored.
  unfoldable pub recv_gdu : (Kind → ℕ) → Option Kind → Answer → Session → Assoc → Session × Sent
  recv_gdu which none answer s a = (s, ((a, [], negsuc 0), none))
  recv_gdu which (some k) answer s a = recv_z_pdu which k answer s a
