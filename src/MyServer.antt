-- ===== src/MyServer.antt =====
-- src/yaz-my-server.cpp: the sample server. It takes the number of hits from the term of a query
-- and its records from src/yaz-marc-sample.cpp. What an APDU carries beside the members of
-- `Message`, the responses that `create_Z_PDU` makes, `odr_total`, `options` and the answers of
-- sockets are arguments.
pub mod Records
pub mod Serving
pub mod Program
pub mod Threads
use yazpp.Prelude.{
  ℕ, suc, ◌+◌, ◌-◌, ◌*◌, Bool, true, false, ◌&&◌, ◌||◌, List, [], ◌∷◌, ◌++◌, Option, none, some,
  if◌then◌else◌, leb, ltb, ◌==◌,
}
use yazpp.Prelude.Int.{ℤ, pos, negsuc}
use yazpp.Prelude.Text.{codes}
use yazpp.Apdu.{Kind, search_request, present_request, Octets, Apdu}
use yazpp.MarcSample.{get_record}
use yazpp.Server.{Message, Facility, facility_add}
use yazpp.ExtendedServices.{Reply, Wire, Services, ill, update_facility}
use yazpp.Retrieval.{Payload, database, surrogate, Fetched, Sizes}
use yazpp.Retrieval.Piggyback.{SearchRequest, SearchResponse, PresentRequest, PresentResponse}
use yazpp.Retrieval.Requests.{Request, searches, presents, another, Response, Backend, init, recv}
use yazpp.PduAssoc.State.{Assoc, Call}
use yazpp.PduAssoc.Setup.{destroy}
use yazpp.PduAssoc.Notify.{Outcome}
use yazpp.PduAssocThread.{Handler}
use yazpp.ZAssoc
use yazpp.ZAssoc.{Codec, Session, LogFile, new_session, timeout, set_apdu_log}

-- `isspace`, and what `atoi` reads: blanks, a sign, digits. Beyond an `int` the result is not
-- defined, `none`.
abbrev is_space : ℕ → Bool
is_space c = c == 32 || (leb 9 c && leb c 13)

abbrev pub is_digit : ℕ → Bool
is_digit c = leb b'0' c && leb c b'9'

unfoldable pub read_digits : ℕ → Octets → ℕ
read_digits n [] = n
read_digits n (c ∷ cs) =
    let longer = read_digits (n * 10 + (c - b'0')) cs in if is_digit c then longer else n

abbrev minus : ℕ → Option ℤ
minus n = if n == 0 then some (pos 0) else if leb n 2147483648 then some (negsuc (n - 1)) else none

abbrev plus : ℕ → Option ℤ
plus n = if ltb n 2147483648 then some (pos n) else none

abbrev signed : Octets → Option ℤ
signed [] = some (pos 0)
signed (c ∷ cs) =
    if c == b'-'
    then minus (read_digits 0 cs)
    else plus (read_digits 0 (if c == b'+' then cs else c ∷ cs))

unfoldable pub atoi : Octets → Option ℤ
unfolding read_digits
atoi [] = some (pos 0)
atoi (c ∷ cs) = let rest = atoi cs in if is_space c then rest else signed (c ∷ cs)

-- The query of a search request, as far as `sr_search` looks: the term of a type-1 query that is
-- one operand with attributes and a general term.
pub data Query : Type 0 where
  general_term : Octets → Query
  another_query : Query

-- `sr_search`; the response stays as it is for another query.
unfoldable pub sr_search {ℓ} : {A : Type ℓ} → Query → SearchResponse A → Option (SearchResponse A)
unfolding atoi
sr_search another_query res = some res
sr_search (general_term term) res = elim (atoi term) [
  | none ↦ none
  | some n ↦ some (record res { result_count = n })
]

-- `sr_record`: a record of the syntax USMARC, or the surrogate diagnostic "present request out of
-- range".
unfoldable pub record_at : Option Octets → Payload Octets
record_at none = surrogate 13
record_at (some rec) = database rec

unfoldable pub sr_record : (ℕ → ℕ) → ℕ → Fetched Octets
unfolding record_at get_record
sr_record total position = record {
  payload = some (record_at (get_record position));
  total = total position;
}

-- What an APDU carries: the members of a search and of a present request, and the sizes of an init
-- request.
pub record Content : Type 0 where
  pub query : Message → Query
  pub search : Message → SearchRequest
  pub present : Message → PresentRequest
  pub preferred_size : Message → ℤ
  pub maximum_size : Message → ℤ
  pub total : ℕ → ℕ
  pub fresh_search : SearchResponse Octets
  pub fresh_present : PresentResponse Octets

-- A reply of the server: that of an extended service or of the retrieval facility.
pub data Body : Type 0 where
  service : Body
  retrieved : Response Octets → Body

-- What the facilities of a server work on; `m_preferredMessageSize` and `m_maximumRecordSize` are
-- its state.
abbrev pub World : Type 0
World = Wire Body Sizes

-- `switch (apdu_request->which)` of the retrieval facility.
unfoldable pub request_of : Content → Kind → Message → Request
request_of c search_request req = searches (c.search req)
request_of c present_request req = presents (c.present req)
request_of c _ req = another

-- The sample's own functions behind the facility; a response whose number of hits is not defined
-- stays as it is.
unfoldable pub backend : Content → Message → Backend Octets
unfolding sr_search sr_record
backend c req = record {
  sr_search = λ search res. elim (sr_search (c.query req) res) [ none ↦ res | some res' ↦ res' ];
  sr_present = λ present res. res;
  sr_record = λ names position. sr_record c.total position;
  fresh_search = c.fresh_search;
  fresh_present = c.fresh_present;
}

abbrev pub send_response : Option (Apdu × Response Octets) → World → Bool × World
send_response none w = (false, w)
send_response (some (apdu, res)) w =
    (true, record w { sent = w.sent ++ record { apdu = apdu; body = retrieved res } ∷ [] })

-- `Yaz_Facility_Retrieval` with the functions of `MyRetrieval`.
unfoldable pub retrieval : Content → Facility World
unfolding request_of backend
retrieval c = record {
  init = λ req resp w.
      let (options, sizes) =
        init (c.preferred_size req) (c.maximum_size req) req.options resp.options in
      (record resp { options = options }, record w { backend = sizes });
  recv = λ req w.
      send_response (recv w.backend (backend c req) req.apdu (request_of c req.apdu.kind req)) w;
}

-- `MyILL` and `MyUpdate`, whose services leave the response as it is.
unfoldable pub services : Services Body Sizes
services = record {
  fresh = service;
  ill_service = λ req res s. (res, s);
  update_service = λ req res s. (res, s);
  update_service0 = λ req res s. (res, s);
}

-- The facilities that `sessionNotify` adds to a new server.
unfoldable pub facilities : Content → List (Facility World × Octets)
unfolding retrieval services
facilities c =
    facility_add (update_facility services) (codes "my update")
      (facility_add (ill services) (codes "my ill") (facility_add (retrieval c) (codes "my sr") []))
