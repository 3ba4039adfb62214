-- ===== src/Examples/Sessions.antt =====
-- Inputs for src/yaz-ir-assoc.cpp and src/yaz-z-databases.cpp.
use yazpp.Prelude.{◌≡◌, refl, List, [], ◌∷◌, none, some}
use yazpp.Apdu.{Octets}
use yazpp.IrAssoc.{Session, new_session, set_proxy, client}
use yazpp.IrAssoc.Requests as Requests
use yazpp.IrAssoc.Requests.{Pdu, searches, syntax_of, search_pdu, send_search_request}
use yazpp.IrAssoc.Carried.{send_search_request-client}
use yazpp.PduAssoc.State.{Assoc, nil, init}
use yazpp.PduAssoc.Output.{Answer, send_pdu}
use yazpp.ZAssoc.{Codec}
use yazpp.Prelude.Int.{pos, negsuc}
use yazpp.Prelude.{false, ℕ}

abbrev names : List Octets
names = (97 ∷ 98 ∷ []) ∷ (99 ∷ []) ∷ []

abbrev proxied : Session
proxied = set_proxy (some (112 ∷ [])) new_session

-- A codec that knows one package, the request that it decodes.
abbrev yaz : Requests.Yaz
yaz = record { syntax_oid = λ name. some (7 ∷ name); oi_string = λ u str info. some str }

abbrev session : Session
session = (client (some (97 ∷ 98 ∷ 43 ∷ 99 ∷ [])) (104 ∷ []) proxied).0

abbrev request : Pdu ℕ
request = search_pdu yaz 5 none (some (1 ∷ [])) session

abbrev one_package : Codec (Pdu ℕ)
one_package = record { encode = λ g. some (8 ∷ []); decode = λ buf. some request }

abbrev answered : Answer
answered = record { res = pos 0; pending = record { want_read = false; want_write = false } }

abbrev association : Assoc
association = record { priv = init 1; children = nil }

send_search_request-client_example :
    (send_search_request yaz one_package (some 5) none (some (1 ∷ [])) session answered association
      ≡ (send_pdu answered (8 ∷ []) association, some 1))
    × ((out : Pdu ℕ) × (one_package.decode (8 ∷ []) ≡ some out)
        × (out.body ≡ searches 5 names (syntax_of yaz proxied) none)
        × (out.apdu.reference_id ≡ some (1 ∷ [])))
    × (send_search_request yaz one_package none none (some (1 ∷ [])) session answered association
        ≡ ((association, [], negsuc 0), none))
send_search_request-client_example =
    send_search_request-client yaz one_package names (104 ∷ []) (97 ∷ 98 ∷ 43 ∷ 99 ∷ []) proxied
      refl (λ e. cc) (((λ e. cc), (refl, (refl, tt))), (((λ e. cc), (refl, tt)), tt)) 5 none
      (1 ∷ []) answered association 8 [] refl refl
