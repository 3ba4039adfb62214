-- ===== src/Examples/Sockets.antt =====
-- Inputs for src/yaz-socket-manager.cpp.
use yazpp.Prelude.{◌≡◌, ◌≢◌, refl, List, [], ◌∷◌, true, false, arith}
use yazpp.Prelude.Int.{pos, negsuc}
use yazpp.Mask.{Mask}
use yazpp.SocketManager.Registry.{lookup_observer, Manager}
use yazpp.SocketManager.Turn.{PollAnswer, poll_failed, polled, process_event, aborted}
use yazpp.SocketManager.Safety.{WellFormed, deletes, operate, operate-WellFormed}
use yazpp.SocketManager.Loop.{TurnOk, process_event-ok}
use yazpp.SocketManager.Polling.{failures, process_event-ne-aborted, process_event-failures}

abbrev reading : Mask
reading = record { read = true; write = false; except = true; timeout = false }

-- Two observers; the first one waits for ten seconds.
abbrev manager : Manager
manager = record {
  observers =
      record {
        observer = 1;
        fd = pos 4;
        mask = reading;
        timeout = pos 10;
        timeout_this = pos 0;
        last_activity = 100;
      }
      ∷ record {
        observer = 2;
        fd = pos 5;
        mask = reading;
        timeout = negsuc 0;
        timeout_this = pos 0;
        last_activity = 0;
      }
      ∷ [];
  queue = [];
}

manager-WellFormed : WellFormed manager
unfolding lookup_observer
manager-WellFormed = record { distinct = (refl, (refl, tt)); live = tt }

abbrev answers : List PollAnswer
answers =
    poll_failed false
    ∷ polled 1 (record { fd = pos 5; read = true; write = false; except = false } ∷ [])
    ∷ []

process_event-ok_example : TurnOk (process_event 101 102 answers manager)
process_event-ok_example = process_event-ok 101 102 answers manager manager-WellFormed

process_event-ne-aborted_example : process_event 101 102 answers manager ≢ aborted
process_event-ne-aborted_example =
    process_event-ne-aborted 101 102 answers manager (ground arith) (ground arith)
      (λ e. ground arith, tt)

process_event-failures_example :
    process_event 101 102 (failures 50 answers) manager ≡ process_event 101 102 answers manager
process_event-failures_example = process_event-failures 101 102 50 answers manager

operate-WellFormed_example : WellFormed (operate (deletes 2) manager)
operate-WellFormed_example = operate-WellFormed (deletes 2) manager (λ e. cc) manager-WellFormed
