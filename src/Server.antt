-- ===== src/Server.antt =====
-- include/iserver.hpp, source/windows/server.hpp and server.cpp: the end that accepts connections.
-- The watcher thread is in Server.Watcher; what it is made of and the calls of the program are here.
-- A listener of `on_accept` decides on a socket that it may keep and change; that it calls back into
-- the server, whose lock is held, is not modelled. The security attributes are left out: they are
-- the same for every pipe, and the permissions are not used. What CreateNamedPipeW returns is a list
-- of answers, and fails where the list ends. In a result `none` is the end of the process.
pub mod Dialing
pub mod Offers
pub mod Watcher
pub mod Results
pub mod Closes
pub mod Backlog
pub mod Handles
pub mod Rounds
pub mod Reach
pub mod Limits
pub mod Capacity
pub mod Gone
pub mod Sound
pub mod Service
pub mod Stages
pub mod Bounded
pub mod Turns
pub mod Tests
use datapath.Base.{
  if◌then◌else◌, ◌>>=◌, ℕ, zero, suc, ◌-◌, ◌^◌, Bool, true, false, Option, none, some, List, [],
  ◌∷◌, ◌++◌,
}
use datapath.Error.{Error, success, critical_failure}
use datapath.Event.{Event, init}
use datapath.Overlapped
use datapath.Socket.{Socket, Thread, watcher_thread, other_thread}
use datapath.Socket
use datapath.Utility.{make_pipe_path}

-- Calls of the operating system.
pub data Call : Type 0 where
  create_named_pipe : (name : List ℕ) (initial : Bool) → Call
  connect_named_pipe : ℕ → Call
  disconnect_named_pipe : ℕ → Call
  close_handle : ℕ → Call
  of_overlapped : Overlapped.Call → Call
  of_socket : Socket.Call → Call

-- The arguments of `on_accept`, and the state of the program.
pub record Guest {κ} (W : Type κ) : Type κ where
  pub accept : Bool
  pub sock : Socket W
  pub world : W

-- A handle is a number. Of the map `active_sockets` the keys are kept, in order; each value is a
-- weak pointer, and the watcher is told what it points to.
pub record Server {κ} (W : Type κ) : Type κ where
  pub is_created : Bool
  pub max_clients : ℕ
  pub path : List ℕ
  pub sockets : List ℕ
  pub waiting_sockets : List ℕ
  pub pending_sockets : List ℕ
  pub active_sockets : List ℕ
  pub shutdown : Bool
  pub joinable : Bool
  pub on_accept : Event (Unit {0} → Guest W → Guest W)

abbrev pub backlog_num : ℕ
backlog_num = 8

abbrev next_pipe : List (Option ℕ) → Option ℕ × List (Option ℕ)
next_pipe [] = (none, [])
next_pipe (p ∷ pipes) = (p, pipes)

-- The new handle, the answers that are left, and the calls.
unfoldable pub create_socket :
    List ℕ → Bool → List (Option ℕ) → Option ℕ × List (Option ℕ) × List Call
create_socket path initial pipes =
    let (fits, name) = make_pipe_path path in
    if fits
    then (let (p, rest) = next_pipe pipes in (p, rest, create_named_pipe name initial ∷ []))
    else (none, pipes, [])

unfoldable pub close_handles : List ℕ → List Call
close_handles [] = []
close_handles (h ∷ hs) = disconnect_named_pipe h ∷ close_handle h ∷ close_handles hs

module _ {κ} {W : Type κ} where
  unfoldable pub construct : Server W
  construct = record {
    is_created = false;
    max_clients = 2 ^ 64 - 1;
    path = [];
    sockets = [];
    waiting_sockets = [];
    pending_sockets = [];
    active_sockets = [];
    shutdown = false;
    joinable = false;
    on_accept = init;
  }

  abbrev join : Thread → Server W → Option (Server W)
  join watcher_thread s = none
  join other_thread s = some (record s { joinable = false })

  abbrev stop_watcher : Thread → Server W → Option (Server W)
  stop_watcher thread s =
      let stopped = record s { shutdown = true } in
      if s.joinable then join thread stopped else some stopped

  abbrev cleared : Server W → Server W
  cleared s = record s {
    sockets = [];
    waiting_sockets = [];
    pending_sockets = [];
    active_sockets = [];
  }

  unfoldable pub close : Thread → Server W → Option (Error × Server W × List Call)
  unfolding close_handles
  close thread s =
      stop_watcher thread s >>= λ s'. some (success, cleared s', close_handles s'.sockets)

  abbrev pub push_waiting : ℕ → Server W → Server W
  push_waiting h s = record s {
    sockets = s.sockets ++ h ∷ [];
    waiting_sockets = s.waiting_sockets ++ h ∷ [];
  }

  abbrev pub after_socket :
      (List (Option ℕ) → Server W → Bool × Server W × List Call)
      → Server W
      → Option ℕ × List (Option ℕ) × List Call
      → Bool × Server W × List Call
  after_socket rest s (none, pipes, calls) = (false, s, calls)
  after_socket rest s (some h, pipes, calls) =
      let (done, s', more) = rest pipes (push_waiting h s) in (done, s', calls ++ more)

  -- The loop of `create`, with as many rounds left: whether it came to its end.
  unfoldable pub stock_backlog : ℕ → Bool → List (Option ℕ) → Server W → Bool × Server W × List Call
  unfolding create_socket
  stock_backlog zero initial pipes s = (true, s, [])
  stock_backlog (suc n) initial pipes s =
      after_socket (stock_backlog n false) s (create_socket s.path initial pipes)

  -- The end of `create`: `close` once more, or the thread.
  abbrev settle : Thread → Bool → Server W → Option (Error × Server W × List Call)
  settle thread false s = close thread s >>= λ r. some (critical_failure, r.1, r.2)
  settle thread true s =
      if s.joinable
      then none
      else some (success, record s { is_created = true; shutdown = false; joinable = true }, [])

  unfoldable pub create :
      Thread → Server W → List ℕ → ℕ → List (Option ℕ) → Option (Error × Server W × List Call)
  unfolding close stock_backlog
  create thread s path max_clients pipes = close thread s >>= λ r.
      (let (done, s', calls) =
          stock_backlog backlog_num true pipes
            (record r.1 { max_clients = max_clients; path = path }) in
        settle thread done s' >>= λ e. some (e.0, e.1, r.2 ++ calls ++ e.2))

  abbrev or_fresh : Option (Server W) → Server W
  or_fresh none = construct
  or_fresh (some s) = s

  -- `host` with a server or a null pointer.
  unfoldable pub host :
      Thread
      → Option (Server W)
      → List ℕ
      → ℕ
      → List (Option ℕ)
      → Option (Error × Server W × List Call)
  unfolding create construct
  host thread s path max_clients pipes = create thread (or_fresh s) path max_clients pipes
