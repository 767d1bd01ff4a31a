-- ===== src/Samples/Ends/Tests.antt =====
-- The ends of the servers at concrete inputs: two clients, of which one is connected.
use datapath.Base.{
  ◌==◌, if◌then◌else◌, times, ℕ, ◌+◌, ◌≡◌, refl, ◌⊎◌, true, false, Option, some, List, [], ◌∷◌, map,
}
use datapath.Event.{init, add, call, to_bool}
use datapath.Samples.Echo.{Echo}
use datapath.Samples.Ends.{
  Clients, dying, undefined, Meanwhile, destroy_tasks, destroy_benchmark, destroy_single,
}
use datapath.Samples.Ends.Closing.{told_each, clients_closes}
use datapath.Samples.Ends.Life.{life-closes}
use datapath.Samples.Host.{Host, construct, handle_accept}
use datapath.Samples.Host.Pipes.{here, behind}
use datapath.Samples.Host.Serves.{served}
use datapath.Samples.Trip.Tests.{os}
use datapath.Server.Backlog.{made_for}
use datapath.Server.Dialing.{dial_each, wait_ops}
use datapath.Server.Offers.{notify_pending, update}
use datapath.Server.Watcher.{Input, Round, next, round, first_gone}
use datapath.Utility.{make_pipe_path}
use datapath.Samples.Ends.Fatal.{attached, any_connected, destroy_single-cases}
use datapath.Server.{Server, Call, of_socket, close_handles}
use datapath.Server
use datapath.Server.Closes.{closes}
use datapath.Socket.{Socket}
use datapath.Socket
use datapath.Task
use datapath.Overlapped
use datapath.Overlapped.Handles.{close_count}

abbrev serving {κ} : {W : Type κ} → Server W
serving = record Server.construct {
  sockets = 1 ∷ 2 ∷ 3 ∷ [];
  waiting_sockets = 3 ∷ [];
  active_sockets = 1 ∷ 2 ∷ [];
  joinable = true;
}

abbrev echo {κ} : {W : Type κ} → Echo W
echo = record { tasks = []; shutdown = false }

-- The program counts the ends.
abbrev counting : Socket ℕ
counting = record Socket.construct {
  is_connected = true;
  socket_handle = some 1;
  on_close = add init (λ _ n. n + 1);
}

abbrev clients : List (Socket ℕ × Echo ℕ)
clients = (counting, echo) ∷ (record counting { is_connected = false }, echo) ∷ []

told_once : told_each clients 0 ≡ 1
unfolding add init call
told_once = refl

abbrev eight_pipes : List (Option ℕ)
eight_pipes = map some (1 ∷ 2 ∷ 3 ∷ 4 ∷ 5 ∷ 6 ∷ 7 ∷ 8 ∷ [])

abbrev made : Server (Host (Unit {0}))
made = record Server.construct {
  is_created = true;
  max_clients = 0;
  path = 97 ∷ [];
  sockets = 1 ∷ 2 ∷ 3 ∷ 4 ∷ 5 ∷ 6 ∷ 7 ∷ 8 ∷ [];
  waiting_sockets = 1 ∷ 2 ∷ 3 ∷ 4 ∷ 5 ∷ 6 ∷ 7 ∷ 8 ∷ [];
  joinable = true;
  on_accept = add init (handle_accept os);
}

made-construct : construct os (97 ∷ []) eight_pipes ≡ some made
unfolding construct Server.create make_pipe_path add init Server.construct
made-construct = refl

-- A client has connected to the second pipe.
abbrev input : Input (Host (Unit {0}))
input = record {
  first = [];
  second = [];
  dial = λ h. record { event = 50; suc_result = false; last_error = if h == 2 then 535 else 997 };
  pipes = [];
  peer = λ h. some (record Socket.construct { is_connected = true });
}

abbrev nobody : Host (Unit {0})
nobody = record { sockets = []; replies = 0 }

abbrev served_one : Server (Host (Unit {0}))
served_one = record made {
  waiting_sockets = 1 ∷ 3 ∷ 4 ∷ 5 ∷ 6 ∷ 7 ∷ 8 ∷ [];
  active_sockets = 2 ∷ [];
}

abbrev calls_of : Round (Host (Unit {0})) → List Call
calls_of (next s v calls) = calls
calls_of r = []

made-round :
    round input made (record { ovmap = []; world = nobody })
    ≡ next served_one
        (record { ovmap = []; world = served os (2 ∷ []) nobody })
        (calls_of (round input made (record { ovmap = []; world = nobody })))
unfolding round wait_ops dial_each update notify_pending first_gone call add to_bool Socket.good
    init handle_accept Socket.construct Server.construct
made-round = refl

abbrev guest : Socket (Host (Unit {0}))
guest = record Socket.construct { is_connected = true; socket_handle = some 2 }

-- It has a task.
abbrev busy : Echo (Host (Unit {0}))
busy = record {
  tasks = (9, record Task.construct { overlapped = some (Overlapped.construct 70).0 }) ∷ [];
  shutdown = false;
}

abbrev meanwhile : Host (Unit {0}) → Meanwhile (Host (Unit {0}))
meanwhile w = record { server = some served_one; world = w; late = [] }

life-closes_example :
    (end : Server (Host (Unit {0}))) × (calls : List Call) × (ends : List Overlapped.Call)
    × (destroy_benchmark os.has_completed ((guest, busy) ∷ []) meanwhile nobody
        ≡ some (told_each [] (told_each ((guest, busy) ∷ []) nobody), some end, calls, ends))
    × (end.sockets ≡ [])
    × (end.joinable ≡ false)
    × ((h : ℕ) → closes h calls ≡ times h (made_for (97 ∷ []) eight_pipes))
    × ((event : ℕ)
        → close_count event ends
          ≡ clients_closes os.has_completed event ((guest, busy) ∷ [])
            + clients_closes {W = Host (Unit {0})} os.has_completed event [])
life-closes_example =
    life-closes os (97 ∷ []) eight_pipes made served_one ((guest, busy) ∷ []) nobody meanwhile
      made-construct
      (behind input made (record { ovmap = []; world = nobody }) served_one
        (record { ovmap = []; world = served os (2 ∷ []) nobody })
        (calls_of (round input made (record { ovmap = []; world = nobody }))) here made-round)
      refl

abbrev plain : Socket Clients
plain = record Socket.construct { is_connected = true; socket_handle = some 1 }

abbrev both : List (Socket Clients × Echo Clients)
both = (record plain { is_connected = false }, echo) ∷ (plain, echo) ∷ []

destroy_single-cases_example :
    (s' : Server Clients) × (calls : List Call) × (((any_connected both ≡ false)
        × (destroy_single (λ n. true) (attached both) (some serving)
            ≡ some (dying, some s', close_handles (1 ∷ 2 ∷ 3 ∷ []), []))
        × (s'.sockets ≡ []))
      ⊎ ((any_connected both ≡ true)
          × (ends : List Overlapped.Call) × (destroy_single
                (λ n. true)
                (attached both)
                (some serving)
              ≡ some (undefined, some s', calls, ends))))
unfolding Server.construct Socket.construct destroy_tasks
destroy_single-cases_example = destroy_single-cases (λ n. true) both serving (refl, (refl, tt))
