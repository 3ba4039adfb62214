-- ===== src/Examples/Samples.antt =====
-- Inputs for src/yaz-pdu-assoc-thread.cpp, src/yaz-my-server.cpp, src/yaz-my-client.cpp and
-- src/yaz-marc-sample.cpp.
use yazpp.Prelude.{ℕ, ◌≡◌, ◌↔◌, refl, true, false, [], ◌∷◌, none, some}
use yazpp.Prelude.Int.{pos, negsuc}
use yazpp.Mask.{Mask}
use yazpp.SocketManager.Registry.{
  Entry, new, add_observer, delete_observer, mask_observer, lookup_observer, update_observer,
  unlink_observer, remove_event, put_event, get_event,
}
use yazpp.SocketManager.Turn.{
  polled, process_event, prepare_all, prepare, poll_loop, finish_poll, inspect_fds, inspect_fd,
  find_fd, touch_fd, deliver,
}
use yazpp.PduAssoc.State.{
  ready, nil, init, Assoc, fail, shutdown, shutdown_children, shutdown_children_calls,
}
use yazpp.PduAssoc.Output.{Answer, flush_pdu, flush_empty}
use yazpp.PduAssoc.Setup.{adopt, destroy}
use yazpp.PduAssoc.Notify.{socket_notify}
use yazpp.PduAssocThread.{
  Worker, Input, went_on, finished, threaded, child_notify, serve, apply_calls, apply_call, resume,
  after_turn, notify, notified, react, run, pass,
}
use yazpp.PduAssocThread.Attached.{is_open}
use yazpp.PduAssocThread.Attached.Events.{Keeps}
use yazpp.PduAssocThread.Passes.{RunOk}
use yazpp.PduAssocThread.Accepting.{ServedOk, child_notify-Serves}
use yazpp.PduAssocThread.Ending.{run-served, thread_ends}
use yazpp.MarcSample.{get_record}
use yazpp.MarcSample.Format.{SampleAt, get_record-SampleAt}
use yazpp.MyServer.Program.{handler, deleted}
use yazpp.MyServer.Threads.{handler-Keeps}

abbrev idle : Answer
idle = record { res = pos 0; pending = record { want_read = false; want_write = false } }

-- A connection on descriptor 7 that is ready, served by a thread.
abbrev entry : Mask → Entry
entry mask = record {
  observer = 1;
  fd = pos 7;
  mask = mask;
  timeout = negsuc 0;
  timeout_this = pos 0;
  last_activity = 0;
}

abbrev ready_at : ℕ → Assoc
ready_at fd = record {
  priv = record (init 1) { observer = some 3; state = ready; cs = some fd };
  children = nil;
}

abbrev worker : Worker
worker = record {
  manager = record {
    observers = entry (record { read = true; write = true; except = true; timeout = false }) ∷ [];
    queue = [];
  };
  assoc = some (ready_at 7);
}

made : child_notify (pos 0) 1 7 idle.pending (some 3) true ≡ some (threaded worker)
unfolding child_notify adopt init flush_pdu flush_empty apply_calls apply_call add_observer
    lookup_observer mask_observer update_observer new serve
made = refl

still : Keeps 1 (handler (λ buf a. (some a, [])))
still =
    handler-Keeps 1 (λ buf a. (some a, [])) (λ buf a v. record { state_ok = v; calls_ok = tt })
      (λ buf a l. record { flag = refl; own = tt; alone = l })

-- The poll reports an exception on the descriptor.
abbrev broken : Input
broken = record {
  now = 5;
  later = 6;
  answers = polled 1 (record { fd = pos 7; read = false; write = false; except = true } ∷ []) ∷ [];
  net = record {
    accepted = none;
    rcvconnect = idle;
    listened = pos 1;
    new_line = none;
    gets = [];
    flushed = idle;
  };
  memory = pos 0;
}

abbrev left : Worker
left = record { manager = record { observers = []; queue = [] }; assoc = none }

ran : run (handler (λ buf a. (some a, []))) (broken ∷ []) worker ≡ went_on left
unfolding run resume pass after_turn notify notified react handler deleted destroy apply_calls
    apply_call init process_event prepare_all prepare poll_loop finish_poll inspect_fds inspect_fd
    find_fd touch_fd put_event deliver get_event socket_notify fail shutdown shutdown_children
    shutdown_children_calls delete_observer lookup_observer unlink_observer remove_event
ran = refl

run-served_example : RunOk 1 (run (handler (λ buf a. (some a, []))) (broken ∷ []) worker)
run-served_example =
    run-served (pos 0) 1 7 idle.pending (some 3) (handler (λ buf a. (some a, []))) (broken ∷ [])
      worker still made

thread_ends_example :
    (is_open left.assoc ≡ false)
    ↔ (pass (handler (λ buf a. (some a, []))) broken left ≡ finished left)
thread_ends_example =
    thread_ends (pos 0) 1 7 idle.pending (some 3) (handler (λ buf a. (some a, []))) (broken ∷ [])
      broken worker left still made ran

child_notify-Serves_example : ServedOk 1 7 (pos 0) (child_notify (pos 0) 1 7 idle.pending none true)
child_notify-Serves_example = child_notify-Serves (pos 0) 1 7 idle.pending none true

get_record-SampleAt_example : SampleAt 2 (get_record 2)
get_record-SampleAt_example = get_record-SampleAt 2
