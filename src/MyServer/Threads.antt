-- ===== src/MyServer/Threads.antt =====
-- src/yaz-my-server.cpp: a session's server keeps to its association, so that a thread may serve it.
use yazpp.Prelude.{ℕ, ◌≡◌, refl, ◌∙◌, Option, some, false, List}
use yazpp.PduAssoc.State.{Packet, Assoc, Call, shutdown}
use yazpp.PduAssoc.Setup.{destroy}
use yazpp.PduAssoc.Safety.{WellFormed, shutdown-Good}
use yazpp.PduAssoc.Events.{GoodOutcome}
use yazpp.PduAssocThread.Attached.{is_open, Alone, Linked, shutdown-Linked}
use yazpp.PduAssocThread.Attached.Events.{Keeps}
use yazpp.MyServer.Program.{deleted, handler}

deleted-Good : (a : Assoc) → GoodOutcome (deleted a)
unfolding deleted destroy
deleted-Good a = (shutdown-Good a).calls_ok

deleted-Linked : (this : ℕ) (a : Assoc) → Alone this a → Linked this (is_open (some a)) (deleted a)
unfolding deleted destroy
deleted-Linked this a l =
    let s = shutdown-Linked this (is_open (some a)) a l in
    record { flag = s.flag ∙ closed_now a; own = s.own; alone = tt }
  where
    closed_now : (b : Assoc) → is_open (some (shutdown b).0) ≡ false
    closed_now b = unfold shutdown in refl

-- A server whose `recv_PDU` keeps to the association does so with all of its code.
pub handler-Keeps :
    (this : ℕ) (recv_pdu : Packet → Assoc → Option Assoc × List Call)
    → ((buf : Packet) (a : Assoc) → WellFormed a → GoodOutcome (recv_pdu buf a))
    → ((buf : Packet) (a : Assoc) → Alone this a → Linked this (is_open (some a)) (recv_pdu buf a))
    → Keeps this (handler recv_pdu)
unfolding handler
handler-Keeps this recv_pdu good linked = record {
  cooperates = record {
    recv_ok = good;
    connected_ok = λ a v. record { state_ok = v; calls_ok = tt };
  };
  recv_linked = linked;
  connected_linked = λ a l. record { flag = refl; own = tt; alone = l };
  failed_good = λ a v. deleted-Good a;
  failed_linked = deleted-Linked this;
  timed_out_good = λ a v. deleted-Good a;
  timed_out_linked = deleted-Linked this;
}
