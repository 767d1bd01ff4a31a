-- ===== src/Socket/Tests.antt =====
-- Sockets at concrete inputs. The listeners append to a log.
use datapath.Base.{
  ℕ, ◌-◌, ◌^◌, ◌≤◌, ◌<◌, ◌≡◌, refl, ap, ◌≢◌, ◌⊎◌, true, false, Option, none, some, List, [], ◌∷◌,
  ◌++◌, arith,
}
use datapath.Base.Int.{pos}
use datapath.Error.{success, failure, closed, invalid_path}
use datapath.Event.{Event, call, call_all, to_bool, empty}
use datapath.Overlapped
use datapath.Overlapped.{Overlapped}
use datapath.Socket.{
  Socket, other_thread, disconnect_named_pipe, Opened, connect, connect_handle, close, good,
  open_failed, write, write_file_ex, or_new,
}
use datapath.Socket.Watcher.{
  Slot, unknown, header, content, header_ov, content_ov, Input, next, round, run, is_live, then_run,
}
use datapath.Socket.Coherence.{run-IsCoherent}
use datapath.Socket.Traffic.{Delivery, IsDelivery, IsIdle, all_inputs}
use datapath.Socket.Reads.{view, reading, idle_round}
use datapath.Socket.Delivery.{messages_read}
use datapath.Socket.Silence.{refused_reads, message_kept}
use datapath.Socket.Lifecycle.{connect_cases, close-other_thread, opened_for}
use datapath.Frame.{write_size, read_size}
use datapath.Task
use datapath.Task.{Task, task_data, task_length}
use datapath.Socket.Writes.{write-frame}
use datapath.Waitable.{Answer, wait_object_0, wait_timeout}

abbrev log_message : Event (List ℕ → List (List ℕ) → List (List ℕ))
log_message = record { listeners = (λ m log. log ++ m ∷ []) ∷ []; on_add = none; on_remove = none }

abbrev log_close : Event (Unit {0} → List (List ℕ) → List (List ℕ))
log_close = record { listeners = (λ _ log. log ++ [] ∷ []) ∷ []; on_add = none; on_remove = none }

abbrev socket : Socket (List (List ℕ))
socket = record {
  is_connected = true;
  socket_handle = some 3;
  shutdown = false;
  joinable = true;
  on_message = log_message;
  on_close = log_close;
}

abbrev deaf : Socket (List (List ℕ))
deaf = record socket { on_message = record { listeners = []; on_add = none; on_remove = none } }

abbrev answer : ℕ → List Answer
answer r = record { result = r; elapsed = pos 0 } ∷ []

abbrev idle : Input
idle = record {
  header_ok = true;
  content_ok = true;
  arrived = [];
  first = answer wait_timeout;
  second = answer wait_timeout;
}

abbrev arrival : List ℕ → Input
arrival bytes = record {
  header_ok = true;
  content_ok = true;
  arrived = bytes;
  first = answer wait_object_0;
  second = [];
}

abbrev refusal : Input
refusal = record idle { header_ok = false }

abbrev operation : Overlapped
operation = record { overlapped_ptr = none; handle = none; user_data = 0 }

-- The message 65 66 in two reads, with a wait before each.
abbrev delivery : Delivery
delivery = record {
  message = 65 ∷ 66 ∷ [];
  operation = operation;
  header_idles = idle ∷ [];
  header_input = arrival (2 ∷ 0 ∷ 0 ∷ 0 ∷ []);
  content_idles = idle ∷ [];
  content_input = arrival (65 ∷ 66 ∷ []);
}

idle-IsIdle : IsIdle idle
idle-IsIdle = record { begun = refl; first_timeout = refl; second_timeout = refl }

delivery-IsDelivery : IsDelivery delivery
unfolding Task.assign Task.task_data write_size
delivery-IsDelivery = record {
  small = omega arith;
  header_waits = (idle-IsIdle, tt);
  header_arrives = record {
    header_begun = refl;
    content_begun = refl;
    complete = refl;
    signaled = refl;
  };
  content_waits = (idle-IsIdle, tt);
  content_arrives = record {
    header_begun = refl;
    content_begun = refl;
    complete = refl;
    signaled = refl;
  };
}

to_bool_log : to_bool socket.on_message ≡ true
unfolding to_bool empty
to_bool_log = refl

to_bool_deaf : to_bool deaf.on_message ≡ false
unfolding to_bool empty
to_bool_deaf = refl

messages_read_example :
    (buffer : List ℕ) × (run socket
        (all_inputs (delivery ∷ delivery ∷ []))
        (view unknown none [] [])
      ≡ next socket (view unknown none buffer ((65 ∷ 66 ∷ []) ∷ (65 ∷ 66 ∷ []) ∷ [])))
unfolding call call_all
messages_read_example =
    messages_read socket refl to_bool_log (delivery ∷ delivery ∷ []) [] []
      (delivery-IsDelivery, (delivery-IsDelivery, tt))

refused_reads_example :
    (buffer : List ℕ) × (run socket (refusal ∷ refusal ∷ []) (view unknown none [] [])
      ≡ next socket (view unknown none buffer []))
refused_reads_example = refused_reads socket refl (refusal ∷ refusal ∷ []) [] [] (refl, (refl, tt))

message_kept_example :
    (run deaf (arrival (65 ∷ []) ∷ idle ∷ []) (reading content_ov (0 ∷ []) [])
      ≡ next deaf (view content none (65 ∷ []) []))
    × (round socket idle (view content none (65 ∷ []) [])
        ≡ next socket (view unknown none (65 ∷ []) ((65 ∷ []) ∷ [])))
unfolding call call_all
message_kept_example =
    message_kept deaf socket (65 ∷ []) (0 ∷ []) [] (arrival (65 ∷ [])) idle (idle ∷ []) refl refl
      to_bool_deaf to_bool_log refl refl refl

run-idle :
    run socket (idle ∷ []) (reading header_ov (0 ∷ 0 ∷ 0 ∷ 0 ∷ []) [])
    ≡ next socket (reading header_ov (0 ∷ 0 ∷ 0 ∷ 0 ∷ []) [])
unfolding run
run-idle =
    ap (then_run (λ t u. next t u))
      (idle_round socket refl header_ov (0 ∷ 0 ∷ 0 ∷ 0 ∷ []) [] idle idle-IsIdle)

run-IsCoherent_example :
    (socket ≡ socket)
    × (◌≡◌ {A = Option Slot} (some header_ov) (some header_ov) × ◌≡◌ {A = ℕ} 4 4)
    × ((header ≢ header) ⊎ (read_size (0 ∷ 0 ∷ 0 ∷ 0 ∷ []) ≢ none))
run-IsCoherent_example =
    run-IsCoherent socket socket (idle ∷ []) (reading header_ov (0 ∷ 0 ∷ 0 ∷ 0 ∷ []) [])
      (reading header_ov (0 ∷ 0 ∷ 0 ∷ 0 ∷ []) []) refl (refl, refl) run-idle

abbrev open_pipe : List ℕ → Opened
open_pipe name = record { handle = some 9; last_error = 0 }

connect_cases_example :
    ((250 ≤ 1) × (connect {W = ℕ} open_pipe none (97 ∷ []) ≡ some (invalid_path, none)))
    ⊎ ((1 < 250)
        × (open_failed (opened_for open_pipe (97 ∷ [])) ≡ true)
        × (connect {W = ℕ} open_pipe none (97 ∷ []) ≡ some (failure, none)))
    ⊎ ((s : Socket ℕ) × (1 < 250)
        × (open_failed (opened_for open_pipe (97 ∷ [])) ≡ false)
        × (connect open_pipe none (97 ∷ []) ≡ some (success, some s))
        × (s.socket_handle ≡ some 9)
        × (good s ≡ true)
        × (is_live s ≡ true)
        × (s.joinable ≡ true)
        × (to_bool s.on_message ≡ false)
        × (to_bool s.on_close ≡ false))
connect_cases_example = connect_cases open_pipe (97 ∷ [])

close-other_thread_example :
    (s' : Socket (List (List ℕ))) × (close other_thread socket []
      ≡ some (success, s', [] ∷ [], disconnect_named_pipe (some 3) ∷ []))
    × (good s' ≡ false)
    × (is_live s' ≡ false)
    × (close other_thread s' ([] ∷ []) ≡ some (closed, s', [] ∷ [], []))
    × (connect_handle s' (some 4) ≡ some (record socket { socket_handle = some 4 }))
unfolding call call_all
close-other_thread_example = close-other_thread socket [] 4 refl

abbrev no_task : Option (Task (List (List ℕ)))
no_task = none

write-frame_example :
    let (code, obj, calls, _) = write socket no_task (65 ∷ 66 ∷ []) 7 true in
    (calls ≡ write_file_ex (some 3) (2 ∷ 0 ∷ 0 ∷ 0 ∷ 65 ∷ 66 ∷ []) 6 ∷ [])
    × (task_data obj ≡ 2 ∷ 0 ∷ 0 ∷ 0 ∷ 65 ∷ 66 ∷ [])
    × (((2 < 2 ^ 32 - 4) × (6 ≡ task_length obj)) ⊎ ((2 ^ 32 - 4 ≤ 2) × (6 < task_length obj)))
    × (obj.overlapped ≡ some (Overlapped.construct 7).0)
    × (obj.on_success ≡ (or_new no_task).on_success)
    × (obj.on_failure ≡ (or_new no_task).on_failure)
    × (code ≡ success)
unfolding write_size
write-frame_example = write-frame socket no_task (65 ∷ 66 ∷ []) 7 true
