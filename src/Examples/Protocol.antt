-- ===== src/Examples/Protocol.antt =====
-- Inputs for src/yaz-z-assoc.cpp, src/yaz-ir-assoc.cpp, src/yaz-z-query.cpp and the facilities of
-- extended services.
use yazpp.Prelude.{
  ◌⊎◌, ℕ, ◌+◌, ◌≡◌, sym, ◌⊎◌, refl, List, [], ◌∷◌, ◌++◌, Option, none, some, true, false, map,
  is_some,
}
use yazpp.Prelude.Int.{ℤ, pos, negsuc}
use yazpp.Apdu.{extended_services_request, Octets}
use yazpp.PduAssoc.State.{ready, nil, Packet, Assoc, init}
use yazpp.PduAssoc.Output.{Answer}
use yazpp.PduAssoc.Sending.{completed}
use yazpp.ZAssoc.{Codec}
use yazpp.ZAssoc.Delivery.{Sending, gdu, ready_again, run_sending, decoded_in_order}
use yazpp.Server.{Message, item_order, recv_gdu}
use yazpp.ExtendedServices.{Wire, Services, task_of, ill, update_facility}
use yazpp.ExtendedServices.Replies.{service_of, answered, recv_gdu-answered}
use yazpp.ZQuery.{
  ZQuery, new_query, copy, assign, match_query, set_z_query, set_rpn, get_z_query, print_query,
}
use yazpp.ZQuery as ZQuery
use yazpp.ZQuery.Reading.{Unset, SetTo, get_z_query-set, copy-set_rpn}
use yazpp.CqlToRpn as CqlToRpn
use yazpp.CqlToRpn.{query_transform}
use yazpp.CqlToRpn.Outcome.{Succeeds, query_transform-zero}
use yazpp.ZQuery.Printing.{Fits, print_query-Fits}

-- A connection on descriptor 7.
abbrev connection : Assoc
connection = record {
  priv = record (init 1) { observer = some 3; state = ready; cs = some 7; queue_out = [] };
  children = nil;
}

abbrev answer : ℤ → Answer
answer res = record { res = res; pending = record { want_read = false; want_write = false } }

-- GDUs that are their own encoding.
abbrev plain : Codec Packet
plain = record { encode = λ g. some g; decode = λ buf. some buf }

abbrev steps : List (Sending Packet)
steps =
    gdu (5 ∷ []) (answer (pos 1))
    ∷ gdu (6 ∷ []) (answer (pos 0))
    ∷ ready_again (answer (pos 0))
    ∷ []

decoded_in_order_example :
    let (b, calls, went) = run_sending plain steps connection in
    (rest : List (Option Packet)) × (map plain.decode (completed calls) ++ rest ≡ map some went)
    × ((is_some b.cs ≡ false) ⊎ (rest ≡ map plain.decode b.queue_out))
decoded_in_order_example = decoded_in_order plain steps connection (λ g buf e. sym e) refl

-- Services that count their calls and answer with the count.
abbrev services : Services ℕ ℕ
services = record {
  fresh = 0;
  ill_service = λ req res calls. (calls + 1, calls + 1);
  update_service = λ req res calls. (calls + 2, calls + 1);
  update_service0 = λ req res calls. (calls + 3, calls + 1);
}

abbrev wire : Wire ℕ ℕ
wire = record { sent = []; backend = 4 }

abbrev order : Message
order = record {
  apdu = record {
    kind = extended_services_request;
    reference_id = some (1 ∷ []);
    other_info = none;
  };
  versions = record { v1 = true; v2 = true; v3 = true };
  options = record { search = false; present = false; extended_services = true };
  task = some item_order;
}

recv_gdu-answered_example :
    (recv_gdu order ((ill services, []) ∷ (update_facility services, []) ∷ []) (some order) wire
      ≡ answered 0 (service_of services (some item_order)) order wire)
    × (recv_gdu order ((update_facility services, []) ∷ (ill services, []) ∷ []) (some order) wire
        ≡ answered 0 (service_of services (some item_order)) order wire)
unfolding task_of
recv_gdu-answered_example = recv_gdu-answered services order order [] [] wire refl

-- Queries that are their own encoding, and their own text; no RPN can be parsed.
abbrev yaz : ZQuery.Yaz Octets
yaz = record {
  parse = λ rpn. none;
  encode = λ q. some q;
  decode = λ bytes. some bytes;
  print = λ q. q;
}

abbrev query : Octets
query = 3 ∷ 4 ∷ []

get_z_query-set_example :
    (get_z_query yaz (set_z_query yaz query new_query) ≡ some query)
    × ((c : ZQuery) × (copy (set_z_query yaz query new_query) ≡ some c)
        × (get_z_query yaz c ≡ some query))
    × (get_z_query yaz (assign (set_z_query yaz query new_query)) ≡ some query)
get_z_query-set_example = get_z_query-set yaz query query new_query refl refl

copy-set_rpn_example :
    let set = set_rpn yaz "@and" (set_z_query yaz query new_query) in
    Unset yaz "@and" (set_z_query yaz query new_query) set ⊎ SetTo yaz "@and" set
copy-set_rpn_example = copy-set_rpn yaz "@and" (set_z_query yaz query new_query)

print_query-Fits_example : Fits 2 (print_query yaz 2 (set_z_query yaz query new_query))
print_query-Fits_example = print_query-Fits yaz (set_z_query yaz query new_query) 1

-- A transformer for which each text is its own tree, with one transform.
abbrev cql : CqlToRpn.Yaz ℕ Octets Octets
cql = record {
  create = 0;
  open_fname = λ fname. some 1;
  define_fname = λ fname t. (t, pos 0);
  define_pattern = λ pattern value t. (t, pos 0);
  parse_cql = λ q. some q;
  transform = λ t tree. (pos 0, [], tree);
  sort_keys = λ tree. some [];
  with_sort = λ keys pqf. pqf;
  parse_pqf = λ pqf. some pqf;
  rpn2cql = λ t q. (pos 0, [], q);
  syntax_error = pos 10;
  unsupported_sort = pos 92;
  unavailable = pos 2;
}

query_transform-zero_example :
    ((rpn : Octets)
      → Succeeds cql 0 query rpn
      → query_transform cql query (some 0)
        ≡ record { code = pos 0; rpn_query = some (some rpn); addinfo = some none })
    × ((query_transform cql query (some 0)).code ≡ pos 0
        → (rpn : Octets) × Succeeds cql 0 query rpn)
    × (query_transform cql query none
        ≡ record { code = negsuc 2; rpn_query = none; addinfo = none })
query_transform-zero_example =
    query_transform-zero cql (record { syntax_ok = λ e. cc; sort_ok = λ e. cc; pqf_ok = λ e. cc }) 0
      query
