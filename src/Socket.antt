-- ===== src/Socket.antt =====
-- include/isocket.hpp, source/windows/socket.hpp and socket.cpp: one end of a connection. `W` is the
-- state of the program, on which the listeners act; that a listener calls back into its own socket
-- is not modelled. The socket without its watcher is here; the watcher thread, which reads the
-- messages, is in Socket.Watcher. What the operating system answers is an argument of each call.
-- In a result `none` stands for the end of the process: std::thread throws, or terminates.
pub mod Watcher
pub mod Waits
pub mod Coherence
pub mod Traffic
pub mod Reads
pub mod Delivery
pub mod Silence
pub mod Lifecycle
pub mod Writes
pub mod Tests
use datapath.Base.{
  ◌==◌, if◌then◌else◌, ◌>>=◌, length, ℕ, ◌%◌, ◌^◌, Bool, true, false, not, Option, none, some, List,
  [], ◌∷◌, ◌++◌,
}
use datapath.Error.{Error, success, failure, closed, invalid_path}
use datapath.Event.{Event, init, to_bool, call}
use datapath.Overlapped.{Overlapped}
use datapath.Overlapped
use datapath.Task.{Task, assign, task_data}
use datapath.Task
use datapath.Utility.{make_pipe_path}

-- INVALID_HANDLE_VALUE is `none`. `joinable` says that `watcher.task` is a thread.
pub record Socket {κ} (W : Type κ) : Type κ where
  pub is_connected : Bool
  pub socket_handle : Option ℕ
  pub shutdown : Bool
  pub joinable : Bool
  pub on_message : Event (List ℕ → W → W)
  pub on_close : Event (Unit {0} → W → W)

-- The thread that makes a call.
pub data Thread : Type 0 where
  watcher_thread other_thread : Thread

-- Calls of the operating system.
pub data Call : Type 0 where
  disconnect_named_pipe : Option ℕ → Call
  write_file_ex : (handle : Option ℕ) (bytes : List ℕ) (size : ℕ) → Call

module _ {κ} {W : Type κ} where
  unfoldable pub construct : Socket W
  construct = record {
    is_connected = false;
    socket_handle = none;
    shutdown = false;
    joinable = false;
    on_message = init;
    on_close = init;
  }

  abbrev start_watcher : Socket W → Option (Socket W)
  start_watcher s =
      if s.joinable
      then none
      else some (record s { is_connected = true; shutdown = false; joinable = true })

  -- `_connect`: the assignment to a `std::thread` that is joinable terminates.
  unfoldable pub connect_handle : Socket W → Option ℕ → Option (Socket W)
  connect_handle s none = some (record s { socket_handle = none })
  connect_handle s (some h) = start_watcher (record s { socket_handle = some h })

  abbrev join : Thread → Socket W → W → Option (Socket W × W)
  join watcher_thread s w = none
  join other_thread s w = some (record s { joinable = false; is_connected = false }, w)

  -- `_disconnect`: a thread that joins itself throws.
  unfoldable pub disconnect : Thread → Socket W → W → Option (Socket W × W)
  disconnect thread s w =
      let w' = if to_bool s.on_close then call s.on_close tt w else w in
      let stopped = record s { shutdown = true } in
      if s.joinable
      then join thread stopped w'
      else some (record stopped { is_connected = false }, w')

  unfoldable pub good : Socket W → Bool
  good s = s.is_connected

  -- `close`, which the destructor calls too.
  unfoldable pub close : Thread → Socket W → W → Option (Error × Socket W × W × List Call)
  unfolding disconnect
  close thread s w =
      if s.is_connected
      then (disconnect thread s w >>= λ r.
          some (success, r.0, r.1, disconnect_named_pipe s.socket_handle ∷ []))
      else some (closed, s, w, [])

  abbrev or_fresh : Option (Socket W) → Socket W
  or_fresh none = construct
  or_fresh (some s) = s

module _ {κ} {W : Type κ} where
  abbrev pub or_new : Option (Task W) → Task W
  or_new none = Task.construct
  or_new (some t) = t

module _ {κ ℓ} {W : Type κ} {V : Type ℓ} where
  -- `write` into the caller's task, or a new one, whose listeners act on a state of their own. CreateEventW gives the new operation `event`, and
  -- `written` is what WriteFileEx returns. The size that it gets is a DWORD.
  unfoldable pub write :
      Socket V
      → Option (Task W)
      → List ℕ
      → ℕ
      → Bool
      → Error × Task W × List Call × List Overlapped.Call
  unfolding Task.construct Overlapped.construct
  write s task payload event written =
      let (ov, created) = Overlapped.construct event in
      let (obj, dropped) = assign (or_new task) payload ov in
      (
        if written then success else failure,
        obj,
        write_file_ex s.socket_handle (task_data obj) (length (task_data obj) % 2 ^ 32) ∷ [],
        created ++ dropped,
      )

-- What CreateFileW returns, and GetLastError behind it.
pub record Opened : Type 0 where
  pub handle : Option ℕ
  pub last_error : ℕ

abbrev pub open_failed : Opened → Bool
open_failed o = elim o.handle [ none ↦ true | some h ↦ not (o.last_error == 0) ]

module _ {κ} {W : Type κ} where
  -- `connect` with a socket or a null pointer, where `create_file` converts the name to UTF-16 and
  -- opens the named pipe. The result of SetNamedPipeHandleState is not used.
  unfoldable pub connect :
      (List ℕ → Opened) → Option (Socket W) → List ℕ → Option (Error × Option (Socket W))
  unfolding construct connect_handle
  connect create_file s path =
      let (fits, name) = make_pipe_path path in
      let opened = create_file name in
      if not fits
      then some (invalid_path, s)
      else if open_failed opened
      then some (failure, s)
      else (connect_handle (or_fresh s) opened.handle >>= λ obj. some (success, some obj))
