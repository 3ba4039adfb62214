-- ===== src/ExtendedServices/Replies.antt =====
-- src/yaz-z-server-ill.cpp and src/yaz-z-server-update.cpp: a server with both facilities.
use yazpp.Prelude.{true, false, ◌≡◌, refl, [], ◌∷◌, ◌++◌, Option, none, some, arith}
use yazpp.Apdu.{Kind, extended_services_request, Octets, has_reference_id, transfer_reference_id}
use yazpp.Server.{
  Task, item_order, update, update0, another_task, Message, Handled, taken, deleted, is_init,
  recv_first, recv_z_pdu, recv_gdu,
}
use yazpp.ExtendedServices.{
  Reply, Wire, Services, blank_apdu, task_of, reply_with, ill_task, update_task, ill,
  update_facility,
}

task_of-kind :
    (k : Kind) (t : Option Task) (task : Task)
    → task_of k t ≡ some task
    → k ≡ extended_services_request
unfolding task_of
task_of-kind extended_services_request t task e = refl
task_of-kind _ t task e = ground arith

module _ {ℓ ℓ'} {R : Type ℓ} {S : Type ℓ'} where
  -- What the two facilities promise, whoever is asked first: the service of the task gives the one
  -- reply, and no other task has one.
  abbrev pub service_of : Services R S → Option Task → Option (Message → R → S → R × S)
  service_of sv (some item_order) = some sv.ill_service
  service_of sv (some update) = some sv.update_service
  service_of sv (some update0) = some sv.update_service0
  service_of sv _ = none

  abbrev pub with_reply : R → (Message → R → S → R × S) → Message → Wire R S → Wire R S
  with_reply fresh service req w =
      let (res, b) = service req fresh w.backend in
      let reply : Reply R = record {
        apdu = record blank_apdu { reference_id = req.apdu.reference_id };
        body = res;
      } in
      record { sent = w.sent ++ reply ∷ []; backend = b }

  abbrev pub answered :
      R → Option (Message → R → S → R × S) → Message → Wire R S → Handled × Wire R S
  answered fresh none req w = (deleted, w)
  answered fresh (some service) req w = (taken, with_reply fresh service req w)

  reply_with-with_reply :
      (fresh : R) (service : Message → R → S → R × S) (req : Message) (w : Wire R S)
      → req.apdu.kind ≡ extended_services_request
      → reply_with service fresh req w ≡ (true, with_reply fresh service req w)
  unfolding reply_with transfer_reference_id has_reference_id
  reply_with-with_reply fresh service req w k = simp k

  ill_first :
      (sv : Services R S) (fresh req : Message) (name name' : Octets) (w : Wire R S)
      (t : Option Task)
      → is_init req.apdu.kind ≡ false
      → task_of req.apdu.kind req.task ≡ t
      → recv_gdu fresh ((ill sv, name) ∷ (update_facility sv, name') ∷ []) (some req) w
        ≡ answered sv.fresh (service_of sv t) req w
  unfolding recv_gdu recv_z_pdu recv_first ill update_facility ill_task update_task
  ill_first sv fresh req name name' w (some item_order) ni e = ground (
    arith,
    reply_with-with_reply sv.fresh sv.ill_service req w
        (task_of-kind req.apdu.kind req.task item_order e),
  )
  ill_first sv fresh req name name' w (some update) ni e = ground (
    arith,
    reply_with-with_reply sv.fresh sv.update_service req w
        (task_of-kind req.apdu.kind req.task update e),
  )
  ill_first sv fresh req name name' w (some update0) ni e = ground (
    arith,
    reply_with-with_reply sv.fresh sv.update_service0 req w
        (task_of-kind req.apdu.kind req.task update0 e),
  )
  ill_first sv fresh req name name' w (some another_task) ni e = rw (ni, e)
  ill_first sv fresh req name name' w none ni e = rw (ni, e)

  update_first :
      (sv : Services R S) (fresh req : Message) (name name' : Octets) (w : Wire R S)
      (t : Option Task)
      → is_init req.apdu.kind ≡ false
      → task_of req.apdu.kind req.task ≡ t
      → recv_gdu fresh ((update_facility sv, name') ∷ (ill sv, name) ∷ []) (some req) w
        ≡ answered sv.fresh (service_of sv t) req w
  unfolding recv_gdu recv_z_pdu recv_first ill update_facility ill_task update_task
  update_first sv fresh req name name' w (some item_order) ni e = ground (
    arith,
    reply_with-with_reply sv.fresh sv.ill_service req w
        (task_of-kind req.apdu.kind req.task item_order e),
  )
  update_first sv fresh req name name' w (some update) ni e = ground (
    arith,
    reply_with-with_reply sv.fresh sv.update_service req w
        (task_of-kind req.apdu.kind req.task update e),
  )
  update_first sv fresh req name name' w (some update0) ni e = ground (
    arith,
    reply_with-with_reply sv.fresh sv.update_service0 req w
        (task_of-kind req.apdu.kind req.task update0 e),
  )
  update_first sv fresh req name name' w (some another_task) ni e = rw (ni, e)
  update_first sv fresh req name name' w none ni e = rw (ni, e)

  -- A server with the ILL and the update facility, in either order, handles every request that is
  -- no init request alike: an extended services request with a task of item order, update or update0
  -- is taken, and its reply, what the task's service makes of a fresh response, is sent last, with
  -- the request's reference id; any other request sends nothing and deletes the server.
  pub recv_gdu-answered :
      (sv : Services R S) (fresh req : Message) (name name' : Octets) (w : Wire R S)
      → is_init req.apdu.kind ≡ false
      → (recv_gdu fresh ((ill sv, name) ∷ (update_facility sv, name') ∷ []) (some req) w
          ≡ answered sv.fresh (service_of sv (task_of req.apdu.kind req.task)) req w)
        × (recv_gdu fresh ((update_facility sv, name') ∷ (ill sv, name) ∷ []) (some req) w
            ≡ answered sv.fresh (service_of sv (task_of req.apdu.kind req.task)) req w)
  recv_gdu-answered sv fresh req name name' w ni = (
    ill_first sv fresh req name name' w _ ni refl,
    update_first sv fresh req name name' w _ ni refl,
  )
