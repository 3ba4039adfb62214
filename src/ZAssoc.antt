-- ===== src/ZAssoc.antt =====
-- src/yaz-z-assoc.cpp: GDUs over an association. The encoder and the decoder of ODR, which are not
-- part of the program, are a parameter, and so is the type of GDUs; logging is left out.
pub mod Delivery
use yazpp.Prelude.{
  ℕ, ◌+◌, Bool, true, false, ◌≡◌, List, [], ◌∷◌, ◌++◌, Option, none, some, if◌then◌else◌, length,
  ◌==◌,
}
use yazpp.Prelude.Int.{ℤ, pos, negsuc}
use yazpp.Apdu.{Kind, init_request, Octets}
use yazpp.PduAssoc.State.{Packet, Assoc, Call, fail_notify, shutdown}
use yazpp.PduAssoc.Output.{Answer, send_pdu, close_session}
use yazpp.PduAssoc.Setup.{listen_on, connect, set_idle_time}
use yazpp.PduAssoc.Notify.{Observer, Outcome}

-- `z_GDU` on `odr_out` and on `odr_in`; `none` where it fails.
pub record Codec {ℓ} (G : Type ℓ) : Type ℓ where
  pub encode : G → Option Packet
  pub decode : Packet → Option G

-- `APDU_file`: none, the standard error stream, or a file that `fopen` opened.
pub data LogFile : Type 0 where
  no_file standard_error : LogFile
  opened : Octets → LogFile

-- `Z_Assoc_priv`, with the association that it observes as `pdu`.
pub record Session : Type 0 where
  pub pdu : Assoc
  pub apdu_file : LogFile
  pub apdu_fname : Option Octets
  pub hostname : Option Octets
  pub apdu_yazlog : ℤ

unfoldable pub new_session : Assoc → Session
new_session a = record {
  pdu = a;
  apdu_file = no_file;
  apdu_fname = none;
  hostname = none;
  apdu_yazlog = pos 0;
}

-- The file after the first lines of `set_APDU_log`, which close what `fopen` opened.
abbrev pub closed_log : LogFile → LogFile
closed_log (opened fname) = no_file
closed_log no_file = no_file
closed_log standard_error = standard_error

abbrev pub is_dash : Octets → Bool
is_dash (c ∷ []) = c == b'-'
is_dash _ = false

-- What a name stands for; `fopen` says whether the file could be opened.
abbrev pub log_of : Bool → Octets → LogFile
log_of fopen [] = no_file
log_of fopen (c ∷ fname) =
    if is_dash (c ∷ fname) then standard_error else if fopen then opened (c ∷ fname) else no_file

unfoldable pub set_apdu_log : Bool → Option Octets → Session → Session
set_apdu_log fopen none s = record s { apdu_file = closed_log s.apdu_file; apdu_fname = none }
set_apdu_log fopen (some fname) s = record s {
  apdu_file = log_of fopen fname;
  apdu_fname = some fname;
}

unfoldable pub set_apdu_yazlog : ℤ → Session → Session × ℤ
set_apdu_yazlog v s = (record s { apdu_yazlog = v }, s.apdu_yazlog)

abbrev pub yazpp_suffix : Octets
yazpp_suffix = b' ' ∷ b'Y' ∷ b'A' ∷ b'Z' ∷ b'+' ∷ b'+' ∷ []

-- `create_Z_PDU`: the implementation name of an APDU of a kind, where `zget_APDU` gives it `name`.
unfoldable pub implementation_name : Kind → Octets → Octets
implementation_name init_request name = name ++ yazpp_suffix
implementation_name _ name = name

-- `getRefID`.
unfoldable pub reference_id_of : Option Octets → Option Octets
reference_id_of none = none
reference_id_of (some str) = some str

-- A call on the association.
abbrev pub on_pdu : (Assoc → Assoc × List Call × ℤ) → Session → Session × List Call × ℤ
on_pdu f s = let (a, calls, r) = f s.pdu in (record s { pdu = a }, calls, r)

-- `client` and `server`; `this` is the object itself, as the association's observer.
unfoldable pub client : ℕ → Octets → Option ℕ → Answer → Session → Session × List Call × ℤ
client this addr comstack answer s =
    on_pdu (connect this comstack answer) (record s { hostname = some addr })

unfoldable pub server : ℕ → Octets → Option ℕ → ℤ → Session → Session × List Call × ℤ
server this addr comstack bound s =
    on_pdu (listen_on this addr comstack bound) (record s { hostname = some addr })

unfoldable pub close : Session → Session × List Call
close s = let (a, calls) = close_session s.pdu in (record s { pdu = a }, calls)

unfoldable pub timeout : ℤ → Session → Session × List Call
timeout t s = let (a, calls) = set_idle_time t s.pdu in (record s { pdu = a }, calls)

-- What `send_GDU` does with the package; -1 and no call if there is none.
abbrev pub send_encoded : Answer → Option Packet → Assoc → (Assoc × List Call × ℤ) × Option ℕ
send_encoded answer none a = ((a, [], negsuc 0), none)
send_encoded answer (some buf) a = (send_pdu answer buf a, some (length buf))

-- What `recv_PDU` does with what it has decoded; `failNotify` is that of the observer.
abbrev pub recv_decoded {ℓ} :
    {G : Type ℓ}
    → (G → ℕ → Assoc → Option Assoc × List Call)
    → Option G
    → Packet
    → Assoc
    → Option Assoc × List Call
recv_decoded recv_gdu none buf a =
    let (shut, calls) = shutdown a in (some shut, calls ++ fail_notify a.observer ∷ [])
recv_decoded recv_gdu (some g) buf a = recv_gdu g (length buf) a

module _ {ℓ} {G : Type ℓ} (codec : Codec G) where
  -- `encode_GDU`, with a package that holds no byte as `send_GDU` sees it, by `> 0`.
  unfoldable pub encode_gdu : G → Option Packet
  encode_gdu g = elim (codec.encode g) [
    | none ↦ none
    | some [] ↦ none
    | some (c ∷ buf) ↦ some (c ∷ buf)
  ]

  -- `send_GDU`: with the result, the length that `plen` is set to, if it is.
  unfoldable pub send_gdu : Answer → G → Assoc → (Assoc × List Call × ℤ) × Option ℕ
  send_gdu answer g a = send_encoded answer (encode_gdu g) a

  -- `recv_PDU`; `recv_gdu` is the code of the subclass.
  unfoldable pub recv_pdu :
      (G → ℕ → Assoc → Option Assoc × List Call) → Packet → Assoc → Option Assoc × List Call
  recv_pdu recv_gdu buf a = recv_decoded recv_gdu (codec.decode buf) buf a

  -- The object as the observer of its association.
  abbrev pub observer_of :
      (G → ℕ → Assoc → Option Assoc × List Call) → (Assoc → Assoc × List Call) → Observer
  observer_of recv_gdu connected = record { recv_pdu = recv_pdu recv_gdu; connected = connected }
