-- ===== src/MyServer/Program.antt =====
-- src/yaz-my-server.cpp: a server for each session, and the program. What `options` reads from the
-- command line is a list of its results.
use yazpp.Prelude.{ℕ, ◌+◌, Bool, true, false, List, [], ◌∷◌, Option, none, some}
use yazpp.Prelude.Int.{ℤ, pos}
use yazpp.Prelude.Text.{codes}
use yazpp.Apdu.{Octets}
use yazpp.Server.{Facility}
use yazpp.ZAssoc
use yazpp.ZAssoc.{Session, new_session, timeout, set_apdu_log}
use yazpp.PduAssoc.State.{Packet, Assoc, Call, init, nil}
use yazpp.PduAssoc.Setup.{destroy, set_cert_fname}
use yazpp.PduAssoc.Notify.{Outcome}
use yazpp.PduAssocThread.{Handler}
use yazpp.MyServer.{Content, World, facilities}

-- `MyServer`: the association, the facilities, and the number of sessions.
pub record MyServer : Type 0 where
  pub session : Session
  pub served : List (Facility World × Octets)
  pub no : ℕ

-- The constructor.
unfoldable pub new_server : Assoc → MyServer
new_server a = record { session = new_session a; served = []; no = 0 }

-- `sessionNotify`: the server itself, and the new one with the calls that `timeout` makes.
unfoldable pub session_notify : Bool → Content → Assoc → MyServer → MyServer × MyServer × List Call
session_notify fopen c a s =
    let fresh = new_server a in
    let (timed, calls) = timeout (pos 900) fresh.session in
    (
      record s { no = s.no + 1 },
      record fresh {
        session = set_apdu_log fopen s.session.apdu_fname timed;
        served = facilities c;
      },
      calls,
    )

-- `timeoutNotify` and `failNotify`: `delete this`, whose association is destroyed.
unfoldable pub deleted : Assoc → Outcome
deleted a = let (left, calls, siblings, flag) = destroy none a in (none, calls)

-- A session's server as the observer of its connection; `connectNotify` does nothing.
unfoldable pub handler : (Packet → Assoc → Option Assoc × List Call) → Handler
handler recv_pdu = record {
  observer = record { recv_pdu = recv_pdu; connected = λ a. (a, []) };
  failed = deleted;
  timed_out = deleted;
}

-- A result of `options`: an argument, -a, -C, -v with theirs, -T, or one that is not known.
pub data Given : Type 0 where
  address log_file certificate level : Octets → Given
  threads unknown : Given

-- The variables of `main` before the server is made.
pub record Config : Type 0 where
  pub thread_flag : Bool
  pub addr : Octets
  pub cert_fname : Option Octets
  pub apdu_log : Option Octets

abbrev pub defaults : Config
defaults = record {
  thread_flag = false;
  addr = codes "tcp:@:9999";
  cert_fname = none;
  apdu_log = none;
}

-- The loop over the options; `none` where `usage` ends the program.
unfoldable pub read_options : List Given → Config → Option Config
read_options [] k = some k
read_options (address a ∷ gs) k = read_options gs (record k { addr = a })
read_options (log_file f ∷ gs) k = read_options gs (record k { apdu_log = some f })
read_options (certificate f ∷ gs) k = read_options gs (record k { cert_fname = some f })
read_options (level l ∷ gs) k = read_options gs k
read_options (threads ∷ gs) k = read_options gs (record k { thread_flag = true })
read_options (unknown ∷ gs) k = none

abbrev logged : Bool → Option Octets → Session → Session
logged fopen none s = s
logged fopen (some f) s = set_apdu_log fopen (some f) s

-- From the association to the loop of `main`, whose manager gets the calls; `this` is the
-- association and `z` the server, as its observer. What `server` returns is not looked at.
unfoldable pub start : ℕ → ℕ → Option ℕ → ℤ → Bool → Config → MyServer × List Call
start this z comstack bound fopen k =
    let assoc = set_cert_fname k.cert_fname (record { priv = init this; children = nil }) in
    let made = new_server assoc in
    let (listening, calls, r) = ZAssoc.server z k.addr comstack bound made.session in
    (record made { session = logged fopen k.apdu_log listening }, calls)
