-- ===== src/PduAssoc/State.antt =====
-- src/yaz-pdu-assoc.cpp: `PDU_Assoc_priv`, the children, and `shutdown`. What a function does to
-- the socket manager, to COMSTACK and to the observer is a list of calls, in the order made.
use yazpp.Prelude.{ℕ, Bool, false, List, [], ◌∷◌, ◌++◌, Option, none, some}
use yazpp.Prelude.Int.{ℤ, pos}
use yazpp.Mask.{Mask}

pub data State : Type 0 where
  connecting listen ready closed writing accepting : State

-- A package: the bytes of a `PDU_Queue` element.
abbrev pub Packet : Type 0
Packet = List ℕ

-- `PDU_Assoc_priv` and the observer. An object and an observer are known by a number, `cs` by its
-- file descriptor; `none` is a null pointer. `destroyed` says that the pointer of that name is
-- set, and `input` holds the bytes of `input_buf`.
pub record Priv : Type 0 where
  pub this : ℕ
  pub observer : Option ℕ
  pub state : State
  pub cs : Option ℕ
  pub input : Option Packet
  pub queue_out : List Packet
  pub destroyed : Bool
  pub idle_time : ℤ
  pub session_is_dead : Bool
  pub cert_fname : Option Packet

-- `pdu_children` and `pdu_next`: a first child, its own children, and the children after it.
pub data Children : Type 0 where
  nil : Children
  child : Priv → Children → Children → Children

pub record Assoc : Type 0 where
  pub priv : Priv
  pub open priv use *
  pub children : Children

-- Writes to fields.
abbrev pub set_state : State → Assoc → Assoc
set_state s a = record a { priv = record (a.priv) { state = s } }

abbrev pub set_queue : List Packet → Assoc → Assoc
set_queue q a = record a { priv = record (a.priv) { queue_out = q } }

abbrev pub set_observer : Option ℕ → Assoc → Assoc
set_observer o a = record a { priv = record (a.priv) { observer = o } }

abbrev pub set_cs : Option ℕ → Assoc → Assoc
set_cs cs a = record a { priv = record (a.priv) { cs = cs } }

abbrev pub set_input : Option Packet → Assoc → Assoc
set_input buf a = record a { priv = record (a.priv) { input = buf } }

abbrev pub set_destroyed : Bool → Assoc → Assoc
set_destroyed b a = record a { priv = record (a.priv) { destroyed = b } }

abbrev pub set_dead : Bool → Assoc → Assoc
set_dead b a = record a { priv = record (a.priv) { session_is_dead = b } }

-- The calls that leave the file. A mask call carries the descriptor that `cs_fileno` gives, and
-- `none` there is a read through a null `cs`. A `put` carries the package and whether all of it
-- was sent.
pub data Call : Type 0 where
  add_observer : ℕ → Call
  delete_observer : ℕ → Call
  mask_observer : ℕ → Mask → Option ℕ → Call
  timeout_observer : ℕ → ℤ → Call
  cs_close : ℕ → Call
  put : Packet → Bool → Call
  fail_notify : Option ℕ → Call
  timeout_notify : Option ℕ → Call
  connect_notify : Option ℕ → Call

-- `PDU_Assoc_priv::init` and the constructor on a socket manager alone.
unfoldable pub init : ℕ → Priv
init this = record {
  this = this;
  observer = none;
  state = closed;
  cs = none;
  input = none;
  queue_out = [];
  destroyed = false;
  idle_time = pos 0;
  session_is_dead = false;
  cert_fname = none;
}

abbrev pub close_cs : Option ℕ → List Call
close_cs none = []
close_cs (some fd) = cs_close fd ∷ []

-- `shutdown` of one object, its children apart.
unfoldable pub shutdown_priv : Priv → Priv
shutdown_priv p = record p { state = closed; cs = none; queue_out = []; input = none }

unfoldable pub shutdown_calls : Priv → List Call
shutdown_calls p = delete_observer p.this ∷ close_cs p.cs

-- The loop over the children, each of which shuts its own children down first.
unfoldable pub shutdown_children : Children → Children
unfolding shutdown_priv
shutdown_children nil = nil
shutdown_children (child p below next) =
    child (shutdown_priv p) (shutdown_children below) (shutdown_children next)

unfoldable pub shutdown_children_calls : Children → List Call
unfolding shutdown_calls
shutdown_children_calls nil = []
shutdown_children_calls (child p below next) =
    shutdown_children_calls below ++ (shutdown_calls p ++ shutdown_children_calls next)

unfoldable pub shutdown : Assoc → Assoc × List Call
unfolding shutdown_priv shutdown_calls
shutdown a = (
  record { priv = shutdown_priv a.priv; children = shutdown_children a.children },
  shutdown_children_calls a.children ++ shutdown_calls a.priv,
)

-- `shutdown(); m_PDU_Observer->failNotify();`
unfoldable pub fail : Assoc → Assoc × List Call
unfolding shutdown
fail a = let (a', calls) = shutdown a in (a', calls ++ fail_notify a.observer ∷ [])
