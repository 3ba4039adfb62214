-- ===== src/Server.antt =====
-- src/yaz-z-server.cpp: a server hands each request to its facilities. A facility's own code works
-- on a state of any type.
pub mod Dispatch
pub mod Utility
use yazpp.Prelude.{
  ℕ, Bool, true, false, ◌||◌, List, [], ◌∷◌, ◌++◌, Option, none, some, if◌then◌else◌,
}
use yazpp.Apdu.{Kind, init_request, init_response, Octets, Apdu, Options, transfer_reference_id}

-- Protocol versions 1, 2 and 3 of a bit mask.
pub record Versions : Type 0 where
  pub v1 : Bool
  pub v2 : Bool
  pub v3 : Bool

-- `create_Z_PDU` gives `fresh` versions, and those of the request are set as well.
abbrev pub with_versions : Versions → Versions → Versions
with_versions fresh asked = record {
  v1 = asked.v1 || fresh.v1;
  v2 = asked.v2 || fresh.v2;
  v3 = asked.v3 || fresh.v3;
}

-- `which` of the `taskSpecificParameters` of an extended services request.
pub data Task : Type 0 where
  item_order update update0 another_task : Task

-- A request or a response. The kinds of init alone have versions and options, and extended
-- services requests alone may have a task.
pub record Message : Type 0 where
  pub apdu : Apdu
  pub versions : Versions
  pub options : Options
  pub task : Option Task

-- `IServer_Facility`: `init` may change the response, `recv` says whether it took the request.
pub record Facility {ℓ} (S : Type ℓ) : Type ℓ where
  pub init : Message → Message → S → Message × S
  pub recv : Message → S → Bool × S

-- What a request leads to: a response that is sent, a facility that took it, or the deletion of
-- the server.
pub data Handled : Type 0 where
  responded : Message → Handled
  taken : Handled
  deleted : Handled

abbrev pub is_init : Kind → Bool
is_init init_request = true
is_init _ = false

module _ {ℓ} {S : Type ℓ} where
  unfoldable pub facility_reset : List (Facility S × Octets) → List (Facility S × Octets)
  facility_reset fs = []

  -- The facility goes to the end of the list.
  unfoldable pub facility_add :
      Facility S → Octets → List (Facility S × Octets) → List (Facility S × Octets)
  facility_add f name fs = fs ++ (f, name) ∷ []

  unfoldable pub init_all : List (Facility S × Octets) → Message → Message → S → Message × S
  init_all [] req resp s = (resp, s)
  init_all ((f, name) ∷ fs) req resp s =
      let (resp', s') = f.init req resp s in init_all fs req resp' s'

  unfoldable pub recv_first : List (Facility S × Octets) → Message → S → Bool × S
  recv_first [] req s = (false, s)
  recv_first ((f, name) ∷ fs) req s =
      let (took, s') = f.recv req s in
      let rest = recv_first fs req s' in if took then (true, s') else rest

  -- `fresh` is the init response that `create_Z_PDU` makes.
  unfoldable pub recv_z_pdu : Message → List (Facility S × Octets) → Message → S → Handled × S
  recv_z_pdu fresh fs req s =
      let offered = record fresh { versions = with_versions fresh.versions req.versions } in
      let (resp, s') = init_all fs req offered s in
      let reply = record resp { apdu = transfer_reference_id req.apdu resp.apdu } in
      let (took, s'') = recv_first fs req s in
      if is_init req.apdu.kind
      then (responded reply, s')
      else (if took then taken else deleted, s'')

  -- `recv_GDU`: a package that is no Z39.50 APDU, `none`, deletes the server.
  unfoldable pub recv_gdu : Message → List (Facility S × Octets) → Option Message → S → Handled × S
  recv_gdu fresh fs none s = (deleted, s)
  recv_gdu fresh fs (some req) s = recv_z_pdu fresh fs req s
