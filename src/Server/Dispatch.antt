-- ===== src/Server/Dispatch.antt =====
-- src/yaz-z-server.cpp: who handles a request.
use yazpp.Prelude.{
  Bool, true, false, ◌≡◌, refl, ◌∙◌, List, [], ◌∷◌, ◌++◌, some, if◌then◌else◌, arith,
}
use yazpp.Apdu.{Octets}
use yazpp.Server.{Message, Facility, taken, deleted, is_init, recv_first, recv_z_pdu, recv_gdu}

-- The facilities decline a request one after the other; the second state is what they leave.
pub data Decline {ℓ} {S : Type ℓ} (req : Message)
    : List (Facility S × Octets) → S → S → Type ℓ where
  nobody : {s : S} → Decline req [] s s
  declined :
      {f : Facility S}
      → {name : Octets} → {fs : List (Facility S × Octets)} → {s s' t : S}
      → f.recv req s ≡ (false, s')
      → Decline req fs s' t
      → Decline req ((f, name) ∷ fs) s t

module _ {ℓ} {S : Type ℓ} where
  pub recv_first-Decline :
      (req : Message) (before after : List (Facility S × Octets)) (s t : S)
      → Decline req before s t
      → recv_first (before ++ after) req s ≡ recv_first after req t
  unfolding recv_first
  recv_first-Decline req _ after s _ nobody = refl
  recv_first-Decline req _ after s t (declined {f = f} {fs = fs} {s' = s'} e ds) =
      let ih = recv_first-Decline req fs after s' t ds in ground arith

  pub recv_first-takes :
      (req : Message) (f : Facility S) (name : Octets) (after : List (Facility S × Octets))
      (t u : S)
      → f.recv req t ≡ (true, u)
      → recv_first ((f, name) ∷ after) req t ≡ (true, u)
  unfolding recv_first
  recv_first-takes req f name after t u e = ground arith

  recv_first-declined :
      (req : Message) (fs : List (Facility S × Octets)) (s t : S)
      → Decline req fs s t
      → recv_first fs req s ≡ (false, t)
  unfolding recv_first
  recv_first-declined req _ s _ nobody = refl
  recv_first-declined req _ s t (declined {fs = fs} {s' = s'} e ds) =
      let ih = recv_first-declined req fs s' t ds in ground arith

  recv_z_pdu-asked :
      (fresh : Message) (fs : List (Facility S × Octets)) (req : Message) (s u : S) (took : Bool)
      → is_init req.apdu.kind ≡ false
      → recv_first fs req s ≡ (took, u)
      → recv_z_pdu fresh fs req s ≡ (if took then taken else deleted, u)
  unfolding recv_z_pdu
  recv_z_pdu-asked fresh fs req s u took ni e = ground arith

  -- A request that is no init request goes to the facilities in their order: once one has taken
  -- it, no later one is asked, and the state is what that facility has left.
  pub recv_gdu-takes :
      (fresh req : Message) (before after : List (Facility S × Octets)) (f : Facility S)
      (name : Octets) (s t u : S)
      → is_init req.apdu.kind ≡ false
      → Decline req before s t
      → f.recv req t ≡ (true, u)
      → recv_gdu fresh (before ++ (f, name) ∷ after) (some req) s ≡ (taken, u)
  unfolding recv_gdu
  recv_gdu-takes fresh req before after f name s t u ni ds e =
      recv_z_pdu-asked fresh (before ++ (f, name) ∷ after) req s u true ni (
        recv_first-Decline req before ((f, name) ∷ after) s t ds
        ∙ recv_first-takes req f name after t u e)

  -- A request that is no init request and that every facility declines deletes the server.
  pub recv_gdu-declined :
      (fresh req : Message) (fs : List (Facility S × Octets)) (s t : S)
      → is_init req.apdu.kind ≡ false
      → Decline req fs s t
      → recv_gdu fresh fs (some req) s ≡ (deleted, t)
  unfolding recv_gdu
  recv_gdu-declined fresh req fs s t ni ds =
      recv_z_pdu-asked fresh fs req s t false ni (recv_first-declined req fs s t ds)
