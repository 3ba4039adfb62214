-- ===== src/MyClient.antt =====
-- src/yaz-my-client.cpp: the sample client, a client session with a list of commands. What it
-- prints is a list of outputs. YAZ's parser of queries, its displays of records, what it finds in
-- a response and the answers of sockets are arguments.
pub mod Display
pub mod Commands
pub mod Typing
pub mod Lines
pub mod Options
pub mod Paging
use yazpp.Prelude.{
  ℕ, ◌+◌, Bool, true, false, not, ◌&&◌, ◌||◌, List, [], ◌∷◌, ◌++◌, Option, none, some,
  if◌then◌else◌, length,
}
use yazpp.Prelude.Int.{ℤ, pos, negsuc, ◌+ℤ◌, ◌==ℤ◌}
use yazpp.Apdu.{Octets}
use yazpp.PduAssoc.State.{Assoc, Call}
use yazpp.PduAssocThread.{any_call, tells_failure}
use yazpp.ZAssoc
use yazpp.IrAssoc
use yazpp.IrAssoc.{set_last_received, set_cookie}
use yazpp.MyClient.Display.{Records, Output, recv_records}

-- What `recv_Z_PDU` hands to the client: the cookie is what `get_cookie` finds.
pub data Response : Type 0 where
  initialized : Bool → Option Octets → Response
  searched : Bool → ℤ → Option Records → Response
  presented : Option Records → Response
  another : Response

-- What one turn of the manager brings, with the association that it leaves; `which` numbers the
-- kinds of APDUs from 1.
pub data Notice : Type 0 where
  nothing connected failed timed_out : Notice
  received : (which : ℕ) → Response → Notice

pub record Happening : Type 0 where
  pub assoc : Assoc
  pub notice : Notice

-- `MyClient`: the session over its association, and the private fields.
pub record Client : Type 0 where
  pub z : ZAssoc.Session
  pub ir : IrAssoc.Session
  pub interactive_flag : Bool
  pub last_command : Octets
  pub set_offset : ℤ

unfoldable pub new_client : Assoc → Client
new_client a = record {
  z = ZAssoc.new_session a;
  ir = IrAssoc.new_session;
  interactive_flag = true;
  last_command = [];
  set_offset = pos 1;
}

abbrev pub with_received : ℤ → Client → Client
with_received n c = record c { ir = set_last_received n c.ir }

-- `connectNotify`, `failNotify` and `timeoutNotify`.
unfoldable pub connect_notify : Client → Client × List Output
connect_notify c = (with_received (negsuc 0) c, Output.accepted ∷ [])

unfoldable pub fail_notify : Client → Client × List Output
fail_notify c = (with_received (negsuc 0) c, Output.closed_by_target ∷ [])

-- `close()`, at which the association may tell the client of the end.
unfoldable pub close : Client → Client × List Output
unfolding fail_notify
close c =
    let (z, calls) = ZAssoc.close c.z in
    let shut = record c { z = z } in
    if any_call tells_failure calls then fail_notify shut else (shut, [])

unfoldable pub timeout_notify : Client → Client × List Output
unfolding close
timeout_notify c = let (c', out) = close c in (c', Output.timed_out ∷ out)

module _ (is_iso2709 : Option Octets → Bool) where
  abbrev pub shown : Output → Option Records → Client → Client × List Output
  shown line records c =
      let (offset, out) = recv_records is_iso2709 records c.set_offset in
      (record c { set_offset = offset }, line ∷ out)

  -- The handlers of responses.
  unfoldable pub recv_init_response : Bool → Option Octets → Client → Client × List Output
  recv_init_response true (some cookie) c = (
    record c { ir = set_cookie (some cookie) c.ir },
    Output.init_status true ∷ Output.cookie_is cookie ∷ [],
  )
  recv_init_response result cookie c = (c, Output.init_status result ∷ [])

  unfoldable pub recv_search_response : Bool → ℤ → Option Records → Client → Client × List Output
  recv_search_response true count records c =
      let (c', out) = shown (Output.hits count) records c in (c', Output.search_status true ∷ out)
  recv_search_response false count records c = shown (Output.search_status false) records c

  unfoldable pub recv_present_response : Option Records → Client → Client × List Output
  recv_present_response records c = shown Output.present_status records c

  -- `recv_Z_PDU`, with the kind noted.
  unfoldable pub recv_response : Response → Client → Client × List Output
  unfolding recv_init_response recv_search_response recv_present_response
  recv_response (initialized result cookie) c = recv_init_response result cookie c
  recv_response (searched result count records) c = recv_search_response result count records c
  recv_response (presented records) c = recv_present_response records c
  recv_response another c = (c, [])

  -- A turn of the manager, for the client: `recv_Z_PDU` notes the kind first.
  unfoldable pub notice : Notice → Client → Client × List Output
  unfolding recv_response connect_notify fail_notify timeout_notify
  notice nothing c = (c, [])
  notice connected c = connect_notify c
  notice failed c = fail_notify c
  notice timed_out c = timeout_notify c
  notice (received which r) c = recv_response r (with_received (pos which) c)

  abbrev pub happen : Happening → Client → Client × List Output
  happen h c = notice h.notice (record c { z = record (c.z) { pdu = h.assoc } })

  -- The loop of `wait`, until the manager has nobody left; the flag is its result.
  unfoldable pub wait_loop : List Happening → Client → Client × List Output × Bool
  unfolding notice
  wait_loop [] c = (c, [], false)
  wait_loop (h ∷ hs) c =
      let (c', out) = happen h c in
      let (last, more, result) = wait_loop hs c' in
      if not (c'.ir.last_received ==ℤ pos 0) then (c', out, true) else (last, out ++ more, result)

  unfoldable pub wait : List Happening → Client → Client × List Output × Bool
  unfolding wait_loop
  wait hs c = wait_loop hs (with_received (pos 0) c)
