-- ===== src/PduAssoc/Opening.antt =====
-- src/yaz-pdu-assoc.cpp: what opens an association.
use yazpp.Prelude.{
  ℕ, true, false, ◌≡◌, ◌≢◌, refl, inl, inr, List, [], ◌∷◌, ◌++◌, Option, none, some, All,
  All-append, arith,
}
use yazpp.Prelude.Int.{ℤ}
use yazpp.Mask.{Mask}
use yazpp.PduAssoc.State.{
  State, connecting, listen, closed, writing, Packet, Assoc, Call, add_observer, mask_observer,
  init, shutdown, set_state, set_cs, set_observer,
}
use yazpp.PduAssoc.Output.{Pending, Answer, flush_empty, flush_pdu, events, pending_mask}
use yazpp.PduAssoc.Setup.{adopt, stop_listen, start_listen, listen_on, connect, child_notify}
use yazpp.PduAssoc.Safety.{WellFormed, Safe, Good, shutdown-Good, close_cs-Safe}

-- The calls of two parts, one after the other.
append-Good : (a b : Assoc) (xs ys : List Call) → Good a xs → Good b ys → Good b (xs ++ ys)
append-Good a b xs ys g h = record {
  state_ok = h.state_ok;
  calls_ok = All-append Safe xs ys g.calls_ok h.calls_ok;
}

shutdown_fields :
    (a : Assoc)
    → ((shutdown a).0.state ≡ closed)
      × ((shutdown a).0.cs ≡ none)
      × ((shutdown a).0.queue_out ≡ [])
      × ((shutdown a).0.this ≡ a.this)
unfolding shutdown
shutdown_fields a = (refl, refl, refl, refl)

-- After a shutdown, an observer and a mask for a connection.
masked-Safe :
    (a : Assoc) (this : ℕ) (mask : Mask) (fd : ℕ)
    → All Safe ((shutdown a).1 ++ add_observer a.this ∷ mask_observer this mask (some fd) ∷ [])
masked-Safe a this mask fd =
    All-append Safe (shutdown a).1 _ (shutdown-Good a).calls_ok (tt, (refl, tt))

opened-WellFormed :
    (o : ℕ) (cs : Option ℕ) (a : Assoc)
    → WellFormed (set_cs cs (set_observer (some o) (shutdown a).0))
opened-WellFormed o cs a = ground (arith, shutdown_fields a)

live-WellFormed :
    (s : State) (o fd : ℕ) (a : Assoc)
    → s ≢ writing
    → WellFormed (set_state s (set_cs (some fd) (set_observer (some o) (shutdown a).0)))
live-WellFormed s o fd a h = record { live = inr refl; queued = inr refl; busy = λ e. absurd (h e) }

pub connect-Good :
    (o : ℕ) (comstack : Option ℕ) (answer : Answer) (a : Assoc)
    → Good (connect o comstack answer a).0 (connect o comstack answer a).1
unfolding connect
connect-Good o none answer a = record {
  state_ok = opened-WellFormed o none a;
  calls_ok = (shutdown-Good a).calls_ok;
}
connect-Good o (some fd) answer a =
    let this = (shutdown a).0.this in
    ground (
      arith,
      opened-WellFormed o (some fd) a,
      live-WellFormed connecting o fd a,
      masked-Safe a this (record { read = true; write = true; except = true; timeout = false }) fd,
      masked-Safe a this (record { read = false; write = true; except = true; timeout = false }) fd,
      masked-Safe a this (pending_mask answer.pending) fd,
    )

start_listen-Good :
    (o : ℕ) (comstack : Option ℕ) (bound : ℤ) (a : Assoc)
    → Good (start_listen o comstack bound a).0 (start_listen o comstack bound a).1
unfolding start_listen
start_listen-Good o none bound a = record {
  state_ok = opened-WellFormed o none a;
  calls_ok = (shutdown-Good a).calls_ok;
}
start_listen-Good o (some fd) bound a = ground (
  arith,
  opened-WellFormed o (some fd) a,
  live-WellFormed listen o fd a,
  (shutdown-Good a).calls_ok,
  masked-Safe a (shutdown a).0.this (events true false) fd,
)

stop_listen-Good : (a : Assoc) → Good (stop_listen a).0 (stop_listen a).1
unfolding stop_listen
stop_listen-Good a = record {
  state_ok = record { live = inl refl; queued = inl refl; busy = λ e. cc };
  calls_ok = (tt, close_cs-Safe a.cs);
}

pub listen_on-Good :
    (o : ℕ) (addr : Packet) (comstack : Option ℕ) (bound : ℤ) (a : Assoc)
    → Good (listen_on o addr comstack bound a).0 (listen_on o addr comstack bound a).1
unfolding listen_on
listen_on-Good o [] comstack bound a = stop_listen-Good a
listen_on-Good o (c ∷ cs) comstack bound a = start_listen-Good o comstack bound a

pub adopt-Good :
    (this fd : ℕ) (pending : Pending) → Good (adopt this fd pending).0 (adopt this fd pending).1
unfolding adopt init flush_pdu flush_empty
adopt-Good this fd pending = ground arith

pub child_notify-Good :
    (this fd : ℕ) (pending : Pending) (session : Option ℕ) (a : Assoc)
    → WellFormed a
    → Good (child_notify this fd pending session a).0 (child_notify this fd pending session a).1
unfolding child_notify
child_notify-Good this fd pending none a v = record {
  state_ok = v;
  calls_ok =
      All-append Safe (adopt this fd pending).1 _ (adopt-Good this fd pending).calls_ok
        (shutdown-Good (adopt this fd pending).0).calls_ok;
}
child_notify-Good this fd pending (some o) a v = record {
  state_ok = record { live = v.live; queued = v.queued; busy = v.busy };
  calls_ok = (adopt-Good this fd pending).calls_ok;
}
