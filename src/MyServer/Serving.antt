-- ===== src/MyServer/Serving.antt =====
-- src/yaz-my-server.cpp: what the server answers.
use yazpp.Prelude.{◌≡◌, [], ◌∷◌, ◌++◌, Option, none, some}
use yazpp.Apdu.{
  Octets, Options, Kind, search_request, search_response, present_request, present_response,
  extended_services_request, extended_services_response,
}
use yazpp.Server.{Versions, Task, item_order, update, update0, Message, Handled, taken, deleted}
use yazpp.ExtendedServices.{Reply}
use yazpp.MyServer.{Body, World}

-- The kind of the reply to a request that is no init request; `none` for one that nobody takes.
abbrev pub reply_kind : Kind → Option Task → Option Kind
reply_kind search_request t = some search_response
reply_kind present_request t = some present_response
reply_kind extended_services_request (some item_order) = some extended_services_response
reply_kind extended_services_request (some update) = some extended_services_response
reply_kind extended_services_request (some update0) = some extended_services_response
reply_kind _ t = none

-- One reply of a kind, or none and the end of the server.
abbrev pub Replied : Option Kind → Message → World → Handled × World → Type 0
Replied none req w (h, w') = (h ≡ deleted) × (w' ≡ w)
Replied (some k) req w (h, w') =
    (h ≡ taken)
    × (reply : Reply Body) × (w'.sent ≡ w.sent ++ reply ∷ [])
    × (reply.apdu.kind ≡ k)
    × (reply.apdu.reference_id ≡ req.apdu.reference_id)
    × (w'.backend ≡ w.backend)

-- A request by its members.
abbrev asked : Kind → Option Octets → Option Octets → Versions → Options → Option Task → Message
asked k id info vs os t = record {
  apdu = record { kind = k; reference_id = id; other_info = info };
  versions = vs;
  options = os;
  task = t;
}
