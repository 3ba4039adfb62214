-- ===== src/Examples/Dialogues.antt =====
-- Inputs for src/yaz-my-server.cpp and src/yaz-my-client.cpp.
use yazpp.Prelude.{
  ℕ, ◌≡◌, ◌⊎◌, refl, Bool, true, false, ◌||◌, List, [], ◌∷◌, Option, none, some, is_none, ltb, take,
  length, All, arith,
}
use yazpp.Prelude.Int.{ℤ, pos, to_int_id}
use yazpp.Prelude.Text.{codes}
use yazpp.Apdu.{present_request, present_response, transfer_reference_id, Octets}
use yazpp.PduAssoc.State.{ready, nil, init, Assoc}
use yazpp.PduAssoc.Output.{Answer}
use yazpp.Server.{Message}
use yazpp.Retrieval.{Payload, success, Sizes}
use yazpp.Retrieval.Piggyback.{PresentRequest, PresentResponse}
use yazpp.Retrieval.Requests.{presents, presented, response_apdu, recv}
use yazpp.ZAssoc as ZAssoc
use yazpp.ZAssoc.{Codec, send_gdu, encode_gdu}
use yazpp.IrAssoc as IrAssoc
use yazpp.IrAssoc.Requests.{Yaz, Pdu, present_pdu}
use yazpp.IrAssoc.Requests
use yazpp.MyServer.{Content, World, another_query, backend}
use yazpp.MyServer.Records.{Sampled, recv_present}
use yazpp.MyClient.Typing.{get_command, split_command}
use yazpp.MyClient.Lines.{Fits, Passes, Kept, commands, commands-Fits, get_command-Kept}
use yazpp.MyClient.Typing.{is_blank}
use yazpp.MyClient.{Client}
use yazpp.MyClient.Display.{Output}
use yazpp.MyClient.Commands.{Scene, type_lines}
use yazpp.MyClient.Options.{Given, host, proxy, has_unknown, hosts, main, main-usage}
use yazpp.MyClient.Paging.{Lossless, Writes, Shown, shows, client_at, type_lines-shows}

abbrev idle : Answer
idle = record { res = pos 0; pending = record { want_read = false; want_write = false } }

-- A server whose responses stay small.
abbrev content : Content
content = record {
  query = λ req. another_query;
  search = λ req. record {
    small_set_upper_bound = pos 0;
    large_set_lower_bound = pos 1;
    medium_set_present_number = pos 0;
    small_set_names = none;
    medium_set_names = none;
  };
  present = λ req. record { start_point = 1; number_requested = pos 2; composition = none };
  preferred_size = λ req. pos 1000;
  maximum_size = λ req. pos 1000;
  total = λ position. 500;
  fresh_search = record {
    result_count = pos 0;
    records = none;
    number_returned = 0;
    next_position = 0;
    present_status = none;
  };
  fresh_present = record {
    records = none;
    number_returned = 0;
    next_position = 0;
    present_status = success;
  };
}

abbrev asking : Message
asking = record {
  apdu = record { kind = present_request; reference_id = some (1 ∷ []); other_info = none };
  versions = record { v1 = true; v2 = true; v3 = true };
  options = record { search = true; present = true; extended_services = false };
  task = none;
}

abbrev world : World
world = record { sent = []; backend = record { preferred = pos 1000; maximum = pos 1000 } }

-- Records 22 to 25, of which the sample has two.
abbrev last_ones : PresentRequest
last_ones = record { start_point = 22; number_requested = pos 4; composition = none }

recv_present_example :
    let sizes : Sizes = record { preferred = pos 1000; maximum = pos 1000 } in
    (res : PresentResponse Octets) × (l : List (Payload Octets)) × (recv sizes
        (backend content asking)
        asking.apdu
        (presents last_ones)
      ≡ some (transfer_reference_id asking.apdu (response_apdu present_response), presented res))
    × (res.records ≡ some (some l))
    × Sampled 22 l
    × (length l ≡ 4)
    × (res.number_returned ≡ 4)
    × (res.present_status ≡ success)
recv_present_example =
    recv_present content asking asking.apdu 1000 4 (pos 1000) last_ones (to_int_id 4 refl) refl
      (λ position. omega arith)

-- A client on descriptor 7, for which a present request is its position.
abbrev yaz : Yaz
yaz = record { syntax_oid = λ s. none; oi_string = λ u s o. none }

abbrev encoded : Pdu Octets → Octets
encoded g = elim g.body [
  | Requests.presents (pos start) number syntax names set ↦ 1 ∷ start ∷ []
  | _ ↦ 1 ∷ []
]

abbrev decoded : Octets → Option (Pdu Octets)
decoded (b ∷ start ∷ []) = some (present_pdu yaz (pos start) (pos 1) none none IrAssoc.new_session)
decoded _ = none

abbrev codec : Codec (Pdu Octets)
codec = record { encode = λ g. some (encoded g); decode = decoded }

abbrev line : Assoc
line = record {
  priv = record (init 1) { observer = some 3; state = ready; cs = some 7 };
  children = nil;
}

abbrev session : ZAssoc.Session
session = record {
  pdu = line;
  apdu_file = ZAssoc.no_file;
  apdu_fname = none;
  hostname = none;
  apdu_yazlog = pos 0;
}

abbrev marc_only : Option Octets → Bool
marc_only oid = true

given_back :
    Lossless 3 marc_only
      (λ s. none)
      yaz
      codec
      (codes "usmarc")
      (λ names. none)
      content
      asking
      asking.apdu
      1000
      (pos 1000)
      session
      IrAssoc.new_session
      true
      idle
      23
unfolding present_pdu IrAssoc.set_last_received IrAssoc.new_session Requests.with_cookie
    Requests.syntax_of IrAssoc.get_preferred_record_syntax
given_back k start = (1, start ∷ [], refl, refl)

open_line : Writes idle line
unfolding init
open_line = (7, refl, refl, refl, refl)

abbrev now_at : ℤ → Octets → ℕ → Client
now_at k last start =
    client_at 3 marc_only (λ s. none) yaz codec (codes "usmarc") (λ names. none) content asking
      asking.apdu 1000 (pos 1000) session IrAssoc.new_session true idle 23 k last start

type_lines-shows_example :
    (k' : ℤ) × (last' : Octets) × (out : List Output) × (type_lines 3 marc_only
        (λ s. none)
        yaz
        codec
        (shows 3 marc_only
          (λ s. none)
          yaz
          codec
          (codes "usmarc")
          (λ names. none)
          content
          asking
          asking.apdu
          1000
          (pos 1000)
          session
          IrAssoc.new_session
          true
          idle
          23
          3
          (now_at (pos 0) [] 22))
        (now_at (pos 0) [] 22)
      ≡ (now_at k' last' 25, out))
    × Shown 3 marc_only
        (λ s. none)
        yaz
        codec
        (codes "usmarc")
        (λ names. none)
        content
        asking
        asking.apdu
        1000
        (pos 1000)
        session
        IrAssoc.new_session
        true
        idle
        23
        3
        22
        out
type_lines-shows_example =
    type_lines-shows 3 marc_only (λ s. none) yaz codec (codes "usmarc") (λ names. none) content
      asking asking.apdu 1000 (pos 1000) session IrAssoc.new_session true idle 23 (pos 0) [] 3 22
      given_back open_line refl (λ position. omega arith)

-- Lines as they are typed.
commands-Fits_example :
    All (λ cmd. Fits (split_command cmd)) (commands (codes " find water" ∷ [] ∷ []) [])
commands-Fits_example = commands-Fits (codes " find water" ∷ [] ∷ []) [] (omega arith)

get_command-Kept_example :
    (Passes is_blank (take 1023 (codes " show 3 ")) × (get_command (codes " show 3 ") [] ≡ []))
    ⊎ Kept (take 1023 (codes " show 3 ")) (get_command (codes " show 3 ") [])
get_command-Kept_example = get_command-Kept (codes " show 3 ") []

abbrev given : List Given
given = proxy (codes "a") ∷ proxy (codes "b") ∷ host (codes "c") ∷ []

abbrev scene : Scene
scene = record {
  dbpart = none;
  comstack = none;
  connected = idle;
  put = idle;
  first = [];
  second = [];
}

main-usage_example :
    is_none (main 3 marc_only (λ s. none) yaz codec given scene [] line)
    ≡ (has_unknown given || ltb 1 (hosts given))
main-usage_example = main-usage 3 marc_only (λ s. none) yaz codec given scene [] line
