-- ===== src/MyClient/Paging.antt =====
-- src/yaz-my-client.cpp and src/yaz-my-server.cpp: the sample client at the sample server. A present
-- response reaches the client as the server makes it for the package that the client has sent.
use native.Mathlib.Nat.{add-zero}
use yazpp.Prelude.{
  ℕ, zero, suc, ◌+◌, ◌≡◌, ◌≤◌, refl, ap, ◌∙◌, Bool, true, false, List, [], ◌∷◌, ◌++◌, Option, none,
  some, map, length, arith, ◌==◌, Bool-cases, inl, inr,
}
use yazpp.Prelude.Int.{ℤ, pos, ◌+ℤ◌, ◌==ℤ◌, to_int_id}
use yazpp.Prelude.Text.{codes}
use yazpp.Apdu.{Octets, Apdu, present_response, transfer_reference_id}
use yazpp.PduAssoc.State.{Assoc, Call, Packet}
use yazpp.PduAssoc.State
use yazpp.PduAssoc.Output.{Answer, is_neg, can_write, flush_sent, flush_first, flush_pdu, send_pdu}
use yazpp.Server.{Message}
use yazpp.Retrieval.{Payload, database, null_record, surrogate, fragment}
use yazpp.Retrieval.Piggyback.{PresentRequest, PresentResponse}
use yazpp.Retrieval.Requests.{presents, presented, Response, response_apdu, recv}
use yazpp.MyServer.{Content, backend}
use yazpp.MyServer.Records.{PayloadAt, Sampled, recv_present}
use yazpp.ZAssoc
use yazpp.ZAssoc.{Codec}
use yazpp.IrAssoc
use yazpp.IrAssoc.{set_last_received}
use yazpp.IrAssoc.Requests.{Yaz, Pdu, Body, present_pdu, send_present_request}
use yazpp.IrAssoc.Requests
use yazpp.IrAssoc.Carried.{send_gdu-encoded}
use yazpp.MyClient
use yazpp.MyClient.{Client, Happening, received, recv_response, notice, wait, wait_loop}
use yazpp.MyClient.Display
use yazpp.MyClient.Display.{
  Item, DatabaseRecord, Records, dbosd, Output, present_status, octet_aligned, another,
  default_format, recv_items, recv_records,
}
use yazpp.MyClient.Typing.{get_command, split_command, find_command, scan_range, scan_number}
use yazpp.MyClient.Commands.{
  Scene, run_command, show_sends, cmd_show, process_command, next_line, type_lines, went_out,
}

-- A record of a response as the client has it, of the syntax `usmarc`.
abbrev pub carried : Octets → Payload Octets → Item
carried usmarc (database r) =
    Display.found none (record { direct_reference = some usmarc; body = octet_aligned r })
carried usmarc (surrogate n) = Display.surrogate none (default_format (pos n) none)
carried usmarc (fragment r) =
    Display.found none (record { direct_reference = none; body = another })
carried usmarc null_record = Display.found none (record { direct_reference = none; body = another })

abbrev records_of : Octets → Option (Option (List (Payload Octets))) → Option Records
records_of usmarc (some (some l)) = some (dbosd (map (carried usmarc) l))
records_of usmarc _ = none

abbrev response_of : Octets → Option (Apdu × Response Octets) → Option Records
response_of usmarc (some (apdu, presented res)) = records_of usmarc res.records
response_of usmarc _ = none

next_position : (start : ℕ) → pos start +ℤ pos 1 ≡ pos (start + 1)
unfolding ◌+ℤ◌
next_position start = ground arith

-- The first package that is put to the connection.
abbrev first_put : List Call → Option Packet
first_put [] = none
first_put (State.put q whole ∷ calls) = some q
first_put (call ∷ calls) = first_put calls

-- An open connection with nothing queued, to which `cs_put` writes without an error.
abbrev pub Writes : Answer → Assoc → Type 0
Writes answer a =
    (fd : ℕ) × (a.cs ≡ some fd)
    × (a.queue_out ≡ [])
    × (can_write a.state ≡ true)
    × (is_neg answer.res ≡ false)

send_pdu-put :
    (answer : Answer) (buf : Packet) (a : Assoc)
    → Writes answer a
    → (first_put (send_pdu answer buf a).1 ≡ some buf) × (is_neg (send_pdu answer buf a).2 ≡ false)
unfolding send_pdu flush_pdu flush_first flush_sent
send_pdu-put answer buf a (fd, up, empty, can, ok) = elim (Bool-cases (answer.res ==ℤ pos 1)) [
  | inl part ↦ rw (up, empty, can, ok, part) (refl, ok)
  | inr whole ↦ elim (Bool-cases a.session_is_dead) [
    | inl dead ↦ rw (up, empty, can, ok, whole, dead) (refl, ok)
    | inr alive ↦ rw (up, empty, can, ok, whole, alive) (refl, ok)
  ]
]

module _ {ℓ} {Q : Type ℓ} (this : ℕ) (is_iso2709 : Option Octets → Bool) (parse : Octets → Option Q)
    (yaz : Yaz) (codec : Codec (Pdu Q)) (usmarc : Octets) (composed : Option Octets → Option ℕ)
    (c : Content) (msg : Message) (from : Apdu) (limit : ℕ) (maximum : ℤ) (z : ZAssoc.Session)
    (ir : IrAssoc.Session) (flag : Bool) (put : Answer) (w : ℕ) where
  -- The present request that a body is, as the server has it.
  abbrev as_request : Body Q → Option PresentRequest
  as_request (Requests.presents (pos start) number syntax names set) =
      some (record { start_point = start; number_requested = number; composition = composed names })
  as_request _ = none

  abbrev decoded : Option (Pdu Q) → Option PresentRequest
  decoded none = none
  decoded (some g) = as_request g.body

  abbrev received_request : Option Packet → Option PresentRequest
  received_request none = none
  received_request (some buf) = decoded (codec.decode buf)

  -- What the server answers to a request.
  abbrev pub reply_to : Option PresentRequest → Option Records
  reply_to none = none
  reply_to (some req) = response_of usmarc (
      recv (record { preferred = pos limit; maximum = maximum }) (backend c msg) from
        (presents req))

  -- The wait of `show` gets the server's answer to the package that the client has put to its
  -- connection, and the association is as it was.
  abbrev pub scene_for : Client → Scene
  scene_for cl = record {
    dbpart = none;
    comstack = none;
    connected = put;
    put = put;
    first =
        record {
          assoc = z.pdu;
          notice = received (suc w) (
              MyClient.presented (
                reply_to (
                  received_request
                    (first_put (show_sends this is_iso2709 parse yaz codec [] put cl).0.1))));
        }
        ∷ [];
    second = [];
  }

  abbrev pub client_at : ℤ → Octets → ℕ → Client
  client_at k last start = record {
    z = z;
    ir = set_last_received k ir;
    interactive_flag = flag;
    last_command = last;
    set_offset = pos start;
  }

  -- The line "show", again and again, from a client on.
  abbrev pub shows : ℕ → Client → List (Octets × Scene)
  shows zero cl = []
  shows (suc n) cl =
      let now = record cl { last_command = codes "show" } in
      (codes "show", scene_for now)
      ∷ shows n
          (process_command this is_iso2709 parse yaz codec (codes "show") (scene_for now) now).0

  -- What is printed: for each position its record, or the diagnostic where there is none.
  abbrev pub Shown : ℕ → ℕ → List Output → Type 0
  Shown zero start out = out ≡ []
  Shown (suc n) start out =
      (p : Payload Octets) × (rest : List Output) × (out
        ≡ (present_status ∷ recv_items is_iso2709 (carried usmarc p ∷ [])) ++ rest)
      × PayloadAt start p
      × Shown n (start + 1) rest

  -- The request for the record at a position.
  abbrev pub asked_pdu : ℤ → ℕ → Pdu Q
  asked_pdu k start = present_pdu yaz (pos start) (pos 1) none none (set_last_received k ir)

  -- The codec gives back such a request, which it encodes to at least one byte.
  abbrev pub Lossless : Type ℓ
  Lossless =
      (k : ℤ) (start : ℕ)
      → (b : ℕ) × (buf : Octets) × (codec.encode (asked_pdu k start) ≡ some (b ∷ buf))
        × (codec.decode (b ∷ buf) ≡ some (asked_pdu k start))

  -- A request for the one record at a position.
  abbrev request_at : ℤ → ℕ → PresentRequest
  request_at k start = record {
    start_point = start;
    number_requested = pos 1;
    composition = composed (set_last_received k ir).element_set_names;
  }

  -- The client goes out with a request for the record at its position.
  show_sends-request :
      (k : ℤ) (last : Octets) (start : ℕ)
      → Lossless
      → Writes put z.pdu
      → let sent = show_sends this is_iso2709 parse yaz codec [] put (client_at k last start) in
        (received_request (first_put sent.0.1) ≡ some (request_at k start))
        × (went_out this is_iso2709 parse yaz codec sent ≡ true)
  unfolding show_sends scan_range scan_number send_present_request present_pdu
  show_sends-request k last start lossless writes =
      let (b, buf, enc, dec) = lossless k start in
      let (there, ok) = send_pdu-put put (b ∷ buf) z.pdu writes in
      rw (send_gdu-encoded yaz codec put (asked_pdu k start) b buf z.pdu enc)
        (rw (there, dec) refl, rw ok refl)

  reply_lem :
      (k : ℤ) (start : ℕ)
      → c.fresh_present.records ≡ none
      → ((position : ℕ) → c.total position ≤ limit)
      → (p : Payload Octets) × (reply_to (some (request_at k start))
          ≡ some (dbosd (carried usmarc p ∷ [])))
        × PayloadAt start p
  reply_lem k start empty fits =
      let (res, l, e, e', held, n, counted, ok) =
        recv_present c msg from limit 1 maximum (request_at k start) (to_int_id 1 refl) empty
          fits in
      one (transfer_reference_id from (response_apdu present_response)) res l e e' held n
    where
      one :
          (apdu : Apdu) (res : PresentResponse Octets) (l : List (Payload Octets))
          → recv
              (record { preferred = pos limit; maximum = maximum })
              (backend c msg)
              from
              (presents (request_at k start))
            ≡ some (apdu, presented res)
          → res.records ≡ some (some l)
          → Sampled start l
          → length l ≡ 1
          → (p : Payload Octets) × (reply_to (some (request_at k start))
              ≡ some (dbosd (carried usmarc p ∷ [])))
            × PayloadAt start p
      one apdu res [] e e' held n = absurd (omega (arith, n))
      one apdu res (p ∷ []) e e' held n =
          (p, ap (response_of usmarc) e ∙ ap (records_of usmarc) e', held.0)
      one apdu res (p ∷ q ∷ l) e e' held n = absurd (omega (arith, n))

  show_step :
      (k : ℤ) (last : Octets) (start : ℕ)
      → Lossless
      → Writes put z.pdu
      → c.fresh_present.records ≡ none
      → ((position : ℕ) → c.total position ≤ limit)
      → (p : Payload Octets) × (process_command this is_iso2709 parse yaz codec
            (codes "show")
            (scene_for (client_at k last start))
            (client_at k last start)
          ≡ (
            client_at (pos (suc w)) last (start + 1),
            present_status ∷ recv_items is_iso2709 (carried usmarc p ∷ []),
            true,
          ))
        × PayloadAt start p
  unfolding process_command split_command find_command run_command cmd_show scan_range scan_number
      wait wait_loop notice recv_response recv_records set_last_received
  show_step k last start lossless writes empty fits =
      let (asked, goes) = show_sends-request k last start lossless writes in
      let (p, e, held) = reply_lem k start empty fits in
      let positive : (suc w == 0) ≡ false = ground arith in
      (p, rw (asked, goes, positive, e, next_position start) refl, held)

  -- Typing "show" again and again shows the records of the sample one after the other, from the
  -- client's position on, each the MARC record with the control number of its position, and the
  -- diagnostic 13 past the last one; the position ends after them. Each response is the server's to
  -- the package that the client has sent, and has room for each record; the codec gives
  -- back the requests, the connection takes what is written, and the association is as it was after each response.
  pub type_lines-shows :
      (k : ℤ) (last : Octets) (n start : ℕ)
      → Lossless
      → Writes put z.pdu
      → c.fresh_present.records ≡ none
      → ((position : ℕ) → c.total position ≤ limit)
      → (k' : ℤ) × (last' : Octets) × (out : List Output) × (type_lines this is_iso2709 parse yaz
            codec
            (shows n (client_at k last start))
            (client_at k last start)
          ≡ (client_at k' last' (start + n), out))
        × Shown n start out
  unfolding type_lines next_line get_command
  type_lines-shows k last zero start lossless writes empty fits =
      (k, last, [], rw add-zero refl, refl)
  type_lines-shows k last (suc n) start lossless writes empty fits =
      let (p, e, held) = show_step k (codes "show") start lossless writes empty fits in
      let (k', last', rest, e', shown) =
        type_lines-shows (pos (suc w)) (codes "show") n (start + 1) lossless writes empty fits in
      let out = (present_status ∷ recv_items is_iso2709 (carried usmarc p ∷ [])) ++ rest in
      let moved : start + 1 + n ≡ start + suc n = omega arith in
      (
        k',
        last',
        out,
        ap (λ d. next_line (type_lines this is_iso2709 parse yaz codec (shows n d.0)) d) e
            ∙ ap
                (λ (r : Client × List Output).
                  (r.0, (present_status ∷ recv_items is_iso2709 (carried usmarc p ∷ [])) ++ r.1))
                e'
            ∙ ap (λ i. (client_at k' last' i, out)) moved,
        (p, rest, refl, held, shown),
      )
