-- ===== src/ExtendedServices.antt =====
-- src/yaz-z-server-ill.cpp and src/yaz-z-server-update.cpp: the facilities of the extended
-- services. What a service makes of its response is the backend's code, a parameter; of the
-- response, `R` is all but the reference id, which the facility sets afterwards.

pub mod Replies
use yazpp.Prelude.{Bool, true, false, ◌||◌, List, [], ◌∷◌, ◌++◌, Option, none, some}
use yazpp.Apdu.{
  Kind, extended_services_request, extended_services_response, Octets, Apdu, Options,
  transfer_reference_id,
}
use yazpp.Server.{Task, item_order, update, update0, another_task, Message, Facility}

pub record Reply {ℓ} (R : Type ℓ) : Type ℓ where
  pub apdu : Apdu
  pub body : R

-- What a facility works on: the replies that `send_Z_PDU` was given, and the backend's state.
pub record Wire {ℓ ℓ'} (R : Type ℓ) (S : Type ℓ') : Type (ℓ ⊔ ℓ') where
  pub sent : List (Reply R)
  pub backend : S

-- The three functions of the backend, and the response of `create_Z_PDU`.
pub record Services {ℓ ℓ'} (R : Type ℓ) (S : Type ℓ') : Type (ℓ ⊔ ℓ') where
  pub fresh : R
  pub ill_service : Message → R → S → R × S
  pub update_service : Message → R → S → R × S
  pub update_service0 : Message → R → S → R × S

-- The body of both `init` functions.
unfoldable pub init_options : Options → Options → Options
init_options asked offered = record offered {
  extended_services = asked.extended_services || offered.extended_services;
}

abbrev pub init_message {ℓ} : {W : Type ℓ} → Message → Message → W → Message × W
init_message req resp w = (record resp { options = init_options req.options resp.options }, w)

abbrev pub blank_apdu : Apdu
blank_apdu = record { kind = extended_services_response; reference_id = none; other_info = none }

-- The task of an extended services request.
unfoldable pub task_of : Kind → Option Task → Option Task
task_of extended_services_request t = t
task_of _ t = none

module _ {ℓ ℓ'} {R : Type ℓ} {S : Type ℓ'} where
  -- From `create_Z_PDU` to `send_Z_PDU`.
  unfoldable pub reply_with : (Message → R → S → R × S) → R → Message → Wire R S → Bool × Wire R S
  reply_with service fresh req w =
      let (res, b) = service req fresh w.backend in
      let reply : Reply R = record {
        apdu = transfer_reference_id req.apdu blank_apdu;
        body = res;
      } in
      (true, record { sent = w.sent ++ reply ∷ []; backend = b })

  -- The tests of the two `recv` functions, on the task.
  unfoldable pub ill_task : Services R S → Option Task → Message → Wire R S → Bool × Wire R S
  ill_task sv (some item_order) req w = reply_with sv.ill_service sv.fresh req w
  ill_task sv _ req w = (false, w)

  unfoldable pub update_task : Services R S → Option Task → Message → Wire R S → Bool × Wire R S
  update_task sv (some update) req w = reply_with sv.update_service sv.fresh req w
  update_task sv (some update0) req w = reply_with sv.update_service0 sv.fresh req w
  update_task sv _ req w = (false, w)

  unfoldable pub ill : Services R S → Facility (Wire R S)
  ill sv = record {
    init = init_message;
    recv = λ req w. ill_task sv (task_of req.apdu.kind req.task) req w;
  }

  unfoldable pub update_facility : Services R S → Facility (Wire R S)
  update_facility sv = record {
    init = init_message;
    recv = λ req w. update_task sv (task_of req.apdu.kind req.task) req w;
  }
