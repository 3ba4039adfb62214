-- ===== src/MyClient/Commands.antt =====
-- src/yaz-my-client.cpp: the commands, and the loop over what is typed.
use yazpp.Prelude.{
  ℕ, Bool, true, false, not, List, [], ◌∷◌, ◌++◌, Option, none, some, if◌then◌else◌,
}
use yazpp.Prelude.Int.{ℤ, pos, negsuc}
use yazpp.Apdu.{Octets}
use yazpp.PduAssoc.Output.{Answer, is_neg}
use yazpp.ZAssoc
use yazpp.ZAssoc.{Codec}
use yazpp.IrAssoc
use yazpp.IrAssoc.{set_cookie, set_proxy, set_preferred_record_syntax}
use yazpp.IrAssoc.Requests.{
  Yaz, Pdu, Sent, send_init_request, send_search_request, send_present_request,
}
use yazpp.MyClient.{Client, Happening, close, wait}
use yazpp.MyClient.Display.{Output, bad_query, not_connected, unknown_command}
use yazpp.MyClient.Typing.{
  Command, open_host, connect_host, quit, close_session, find, show, cookie, init, format, proxy,
  table, get_command, split_command, find_command, scan_range,
}

-- What a command meets: what `cs_get_host_args` finds in a host, the object that `cs_create_host`
-- makes, the results of `cs_connect` and of `cs_put`, and the turns of the manager in its waits.
pub record Scene : Type 0 where
  pub dbpart : Option Octets
  pub comstack : Option ℕ
  pub connected : Answer
  pub put : Answer
  pub first : List Happening
  pub second : List Happening

-- A command's client, its output, and whether the program goes on.
abbrev pub Done : Type 0
Done = Client × List Output × Bool

abbrev pub go_on : Client × List Output → Done
go_on (c, out) = (c, out, true)

abbrev pub set_timeout : ℤ → Client → Client
set_timeout t c = record c { z = (ZAssoc.timeout t c.z).0 }

-- `client(host)`; `this` is the client as its association's observer.
unfoldable pub call_host : ℕ → Octets → Scene → Client → Client
call_host this host s c =
    let (ir, addr) = IrAssoc.client s.dbpart host c.ir in
    record c { z = (ZAssoc.client this addr s.comstack s.connected c.z).0; ir = ir }

-- The commands that need no connection.
unfoldable pub cmd_quit : Client → Done
cmd_quit c = (c, [], false)

unfoldable pub cmd_close : Client → Done
unfolding close
cmd_close c = go_on (close c)

abbrev unless_empty : Octets → Option Octets
unless_empty [] = none
unless_empty (c ∷ cs) = some (c ∷ cs)

unfoldable pub cmd_cookie : Octets → Client → Done
cmd_cookie args c = (record c { ir = set_cookie (unless_empty args) c.ir }, [], true)

unfoldable pub cmd_format : Octets → Client → Done
cmd_format args c = (record c { ir = set_preferred_record_syntax (some args) c.ir }, [], true)

unfoldable pub cmd_proxy : Octets → Client → Done
cmd_proxy args c = (record c { ir = set_proxy (some args) c.ir }, [], true)

-- The test of the loop over what is typed, on what `processCommand` returns.
unfoldable pub next_line : (Client → Client × List Output) → Done → Client × List Output
next_line next (c, out, true) = let (last, rest) = next c in (last, out ++ rest)
next_line next (c, out, false) = (c, out)

-- `set_rpn` on a string and `get_Z_Query`, or the failure of the first.
module _ {ℓ} {Q : Type ℓ} (this : ℕ) (is_iso2709 : Option Octets → Bool) (parse : Octets → Option Q)
    (yaz : Yaz) (codec : Codec (Pdu Q)) where
  abbrev waited : List Happening → Client → Client × List Output
  waited hs c = let (c', out, result) = wait is_iso2709 hs c in (c', out)

  -- What is left by a function that sends, and whether its result is at least 0.
  abbrev pub after : Sent → Client → Client
  after r c = record c { z = record (c.z) { pdu = r.0.0 } }

  abbrev pub went_out : Sent → Bool
  went_out r = not (is_neg r.0.2)

  -- `if (send_… (…) >= 0) wait(); else printf("Not connected\n")`.
  abbrev pub wait_if_sent : Sent → List Happening → Client → Client × List Output
  wait_if_sent r hs c =
      if went_out r then waited hs (after r c) else (after r c, not_connected ∷ [])

  unfoldable pub cmd_connect : Octets → Scene → Client → Done
  unfolding call_host
  cmd_connect host s c =
      let (c', out) = waited s.first (set_timeout (pos 10) (call_host this host s c)) in
      (set_timeout (negsuc 0) c', out, true)

  unfoldable pub cmd_open : Octets → Scene → Client → Done
  unfolding cmd_connect
  cmd_open host s c =
      let (up, out, more) = cmd_connect host s c in
      let sent = send_init_request yaz codec none up.ir s.put up.z.pdu in
      let (c', out') = waited s.second (after sent up) in (c', out ++ out', true)

  unfoldable pub cmd_init : Scene → Client → Done
  unfolding close
  cmd_init s c =
      let sent = send_init_request yaz codec none c.ir s.put c.z.pdu in
      if went_out sent then go_on (waited s.first (after sent c)) else go_on (close (after sent c))

  unfoldable pub cmd_find : Octets → Scene → Client → Done
  cmd_find args s c = elim (parse args) [
    | none ↦ (c, bad_query ∷ [], true)
    | some q ↦
        let sent = send_search_request yaz codec (some q) none none c.ir s.put c.z.pdu in
        go_on (wait_if_sent sent s.first c)
  ]

  -- `send_presentRequest(start, number)`, with what the arguments say.
  unfoldable pub show_sends : Octets → Answer → Client → Sent
  unfolding scan_range
  show_sends args answer c =
      let (start, number) = scan_range c.set_offset (pos 1) args in
      send_present_request yaz codec start number none none c.ir answer c.z.pdu

  unfoldable pub cmd_show : Octets → Scene → Client → Done
  unfolding scan_range show_sends
  cmd_show args s c =
      let (start, number) = scan_range c.set_offset (pos 1) args in
      let moved = record c { set_offset = start } in
      go_on (wait_if_sent (show_sends args s.put c) s.first moved)

  -- The handler of a command.
  unfoldable pub run_command : Command → Octets → Scene → Client → Done
  unfolding cmd_open cmd_connect cmd_init cmd_find cmd_show cmd_quit cmd_close cmd_cookie cmd_format
      cmd_proxy
  run_command open_host args s c = cmd_open args s c
  run_command connect_host args s c = cmd_connect args s c
  run_command quit args s c = cmd_quit c
  run_command close_session args s c = cmd_close c
  run_command find args s c = cmd_find args s c
  run_command show args s c = cmd_show args s c
  run_command cookie args s c = cmd_cookie args c
  run_command init args s c = cmd_init s c
  run_command format args s c = cmd_format args c
  run_command proxy args s c = cmd_proxy args c

  abbrev dispatch : Option (Octets × Octets) → Scene → Client → Done
  dispatch none s c = (c, [], true)
  dispatch (some (word, args)) s c = elim (find_command word table) [
    | none ↦ (c, unknown_command word ∷ [], true)
    | some cmd ↦ run_command cmd args s c
  ]

  unfoldable pub process_command : Octets → Scene → Client → Done
  unfolding split_command find_command run_command
  process_command line s c = dispatch (split_command line) s c

  -- The loop of `interactive`, for the lines that are typed, each with its scene; the end of the
  -- input ends it.
  unfoldable pub type_lines : List (Octets × Scene) → Client → Client × List Output
  type_lines [] c = (c, [])
  type_lines ((line, s) ∷ lines) c =
      let cmd = get_command line c.last_command in
      next_line (type_lines lines) (process_command cmd s (record c { last_command = cmd }))

  unfoldable pub interactive : List (Octets × Scene) → Client → Client × List Output
  unfolding type_lines
  interactive lines c = if c.interactive_flag then type_lines lines c else (c, [])
