-- ===== src/Server/Tests.antt =====
-- The server at concrete inputs: eight pipes, of which a client has connected to the second. The
-- listener keeps a list of the handles that it has been offered, and accepts all but number 3.
use datapath.Base.{
  ltb, ◌==◌, if◌then◌else◌, length, times, ℕ, ◌+◌, ◌<◌, ◌≡◌, refl, ◌⊎◌, true, false, not, Option,
  none, some, List, [], ◌∷◌, ◌++◌, map, arith,
}
use datapath.Error.{Error, success, critical_failure}
use datapath.Event.{Event, init, call, to_bool}
use datapath.Server.{Server, Call, Guest, construct, create}
use datapath.Server.Backlog.{create_cases}
use datapath.Server.Closes.{closes}
use datapath.Server.Dialing.{dial_each, wait_ops}
use datapath.Server.Handles.{IsPartitioned}
use datapath.Server.Capacity.{Reach-IsWithin, IsWithin}
use datapath.Server.Offers.{notify_pending, update}
use datapath.Server.Reach.{Reach, made, created, listened, watched, Reach-IsPartitioned}
use datapath.Server.Service.{clients, told, round-told}
use datapath.Server.Stages.{Turn, waiting, active}
use datapath.Server.Turns.{round-Turn}
use datapath.Server.Watcher.{Input, View, Round, next, round, first_gone}
use datapath.Socket.{Socket, other_thread}
use datapath.Socket
use datapath.Utility.{make_pipe_path}

abbrev handle_or_zero : Option ℕ → ℕ
handle_or_zero none = 0
handle_or_zero (some h) = h

abbrev listener : Unit {0} → Guest (List ℕ) → Guest (List ℕ)
listener u g =
    let h = handle_or_zero g.sock.socket_handle in
    record g { accept = not (h == 3); world = g.world ++ h ∷ [] }

abbrev listening : Event (Unit {0} → Guest (List ℕ) → Guest (List ℕ))
listening = record { listeners = listener ∷ []; on_add = none; on_remove = none }

abbrev eight : List ℕ
eight = 1 ∷ 2 ∷ 3 ∷ 4 ∷ 5 ∷ 6 ∷ 7 ∷ 8 ∷ []

abbrev eight_pipes : List (Option ℕ)
eight_pipes = map some eight

abbrev hosted : Server (List ℕ)
hosted = record {
  is_created = true;
  max_clients = 20;
  path = 97 ∷ [];
  sockets = eight;
  waiting_sockets = eight;
  pending_sockets = [];
  active_sockets = [];
  shutdown = false;
  joinable = true;
  on_accept = listening;
}

create_cases_example :
    (s' : Server (List ℕ)) × (calls : List Call) × (((length eight ≡ 8)
        × (create other_thread hosted (97 ∷ []) 20 eight_pipes ≡ some (success, s', calls))
        × (s' ≡ hosted)
        × ((h : ℕ) → closes h calls ≡ times h eight))
      ⊎ ((length eight < 8)
          × (create other_thread hosted (97 ∷ []) 20 eight_pipes
              ≡ some (critical_failure, s', calls))
          × (s' ≡ record hosted {
            sockets = [];
            waiting_sockets = [];
            shutdown = true;
            joinable = false;
          })
          × ((h : ℕ) → closes h calls ≡ times h eight + times h eight)))
unfolding make_pipe_path
create_cases_example = create_cases hosted (97 ∷ []) 20 eight_pipes

-- Clients have connected to the handles of a list; the sockets of the active ones are good.
abbrev good_socket : ℕ → Socket (List ℕ)
good_socket h = record {
  is_connected = true;
  socket_handle = some h;
  shutdown = false;
  joinable = true;
  on_message = init;
  on_close = init;
}

abbrev input : List ℕ → Input (List ℕ)
input clients = record {
  first = [];
  second = [];
  dial = λ h. record {
    event = 50;
    suc_result = false;
    last_error = if ltb 0 (times h clients) then 535 else 997;
  };
  pipes = some 20 ∷ [];
  peer = λ h. some (good_socket h);
}

abbrev calls_of : Round (List ℕ) → List Call
calls_of (next s v calls) = calls
calls_of r = []

abbrev no_ops : View (List ℕ)
no_ops = record { ovmap = []; world = [] }

-- Behind a round with clients on 2 and 3.
abbrev served : Server (List ℕ)
served = record hosted { waiting_sockets = 1 ∷ 4 ∷ 5 ∷ 6 ∷ 7 ∷ 8 ∷ 3 ∷ []; active_sockets = 2 ∷ [] }

abbrev told_two : View (List ℕ)
told_two = record { ovmap = []; world = 2 ∷ 3 ∷ [] }

hosted-round :
    round (input (2 ∷ 3 ∷ [])) hosted no_ops
    ≡ next served told_two (calls_of (round (input (2 ∷ 3 ∷ [])) hosted no_ops))
unfolding round wait_ops dial_each update notify_pending first_gone call to_bool Socket.good init
hosted-round = refl

-- Behind another one, with a client on 4.
abbrev grown_server : Server (List ℕ)
grown_server = record hosted {
  sockets = eight ++ 20 ∷ [];
  waiting_sockets = 1 ∷ 5 ∷ 6 ∷ 7 ∷ 8 ∷ 3 ∷ 20 ∷ [];
  active_sockets = 2 ∷ 4 ∷ [];
}

abbrev told_three : View (List ℕ)
told_three = record { ovmap = []; world = 2 ∷ 3 ∷ 4 ∷ [] }

served-round :
    round (input (4 ∷ [])) served told_two
    ≡ next grown_server told_three (calls_of (round (input (4 ∷ [])) served told_two))
unfolding round wait_ops dial_each update notify_pending first_gone call to_bool Socket.good
    make_pipe_path
served-round = refl

abbrev created_calls : Option (Error × Server (List ℕ) × List Call) → List Call
created_calls none = []
created_calls (some r) = r.2

abbrev before : Server (List ℕ)
before = record construct { on_accept = listening }

before-create :
    create other_thread before (97 ∷ []) 20 eight_pipes
    ≡ some (success, hosted, created_calls (create other_thread before (97 ∷ []) 20 eight_pipes))
unfolding create make_pipe_path construct
before-create = refl

hosted-Reach : Reach hosted
hosted-Reach =
    created before (97 ∷ []) 20 eight_pipes success hosted
      (created_calls (create other_thread before (97 ∷ []) 20 eight_pipes))
      (listened construct listening made) (λ h. ground arith) before-create

grown-Reach : Reach grown_server
grown-Reach =
    let first =
      watched (input (2 ∷ 3 ∷ [])) hosted no_ops served told_two
        (calls_of (round (input (2 ∷ 3 ∷ [])) hosted no_ops)) hosted-Reach
        (record { fresh = λ h. ground arith }) hosted-round in
    watched (input (4 ∷ [])) served told_two grown_server told_three
      (calls_of (round (input (4 ∷ [])) served told_two)) first
      (record { fresh = λ h. ground arith }) served-round

Reach-IsPartitioned_example : IsPartitioned grown_server
Reach-IsPartitioned_example = Reach-IsPartitioned grown_server grown-Reach

Reach-IsWithin_example : IsWithin grown_server
Reach-IsWithin_example = Reach-IsWithin grown_server grown-Reach

-- The program has dropped the socket of 4.
abbrev dropped : Input (List ℕ)
dropped = record (input []) { peer = λ h. if h == 4 then none else some (good_socket h) }

hosted_listens : to_bool hosted.on_accept ≡ true
unfolding to_bool
hosted_listens = refl

round-told_example :
    told_two.world
    ≡ told hosted.on_accept
        (hosted.pending_sockets ++ clients (input (2 ∷ 3 ∷ [])).dial hosted.waiting_sockets)
        []
round-told_example =
    round-told (input (2 ∷ 3 ∷ [])) hosted [] served told_two
      (calls_of (round (input (2 ∷ 3 ∷ [])) hosted no_ops)) hosted_listens
      (refl, (refl, (refl, (refl, (refl, (refl, (refl, (refl, tt)))))))) hosted-round

-- The handle 2 by the first round.
round-Turn_example : Turn true true waiting active
unfolding to_bool
round-Turn_example =
    round-Turn (input (2 ∷ 3 ∷ [])) hosted no_ops served told_two
      (calls_of (round (input (2 ∷ 3 ∷ [])) hosted no_ops)) 2 hosted-Reach
      (record { fresh = λ h. ground arith }) hosted-round
