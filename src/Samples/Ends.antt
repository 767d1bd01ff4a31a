-- ===== src/Samples/Ends.antt =====
-- samples/benchmark/main.cpp and samples/single-process-ipc/main.cpp: how the servers end. A client of
-- a server is its socket and its watcher, and the map of the server the list of its clients in the
-- order of the map. The destructor of a client joins its watcher, whose waits time out. The calls
-- for the operations of tasks are apart from those for pipes.
pub mod Closing
pub mod Fatal
pub mod Life
pub mod Tests
use datapath.Base.{
  if◌then◌else◌, ◌>>=◌, ℕ, Bool, true, false, ◌||◌, Option, none, some, List, [], ◌∷◌, ◌++◌, map,
}
use datapath.Event.{add}
use datapath.Samples.Echo.{Echo}
use datapath.Samples.Host.{same_handle}
use datapath.Server.{Server, Call, of_socket}
use datapath.Server
use datapath.Socket.{Socket, other_thread}
use datapath.Socket
use datapath.Overlapped
use datapath.Task.{Task}
use datapath.Task

module _ {κ} {W : Type κ} (has_completed : ℕ → Bool) where
  -- The tasks of a list that is destroyed, which has the only pointers to them.
  unfoldable pub destroy_tasks : List (ℕ × Task W) → List Overlapped.Call
  destroy_tasks [] = []
  destroy_tasks (t ∷ ts) = Task.destroy has_completed t.1 ++ destroy_tasks ts

  -- `~client` of the server: the flag and the close; then the tasks are destroyed, and the socket, to
  -- which the map and the client have the only pointers: its destructor closes it again.
  unfoldable pub destroy_client :
      Socket W → Echo W → W → Option (Echo W × W × List Socket.Call × List Overlapped.Call)
  unfolding destroy_tasks
  destroy_client s e w = Socket.close other_thread s w >>= λ r.
      (Socket.close other_thread r.1 r.2 >>= λ q.
      some (record e { shutdown = true; tasks = [] }, q.2, r.3 ++ q.3, destroy_tasks e.tasks))

  -- The clients of a map that is cleared or destroyed.
  unfoldable pub destroy_each :
      List (Socket W × Echo W) → W → Option (W × List Socket.Call × List Overlapped.Call)
  unfolding destroy_client
  destroy_each [] w = some (w, [], [])
  destroy_each ((s, e) ∷ es) w = destroy_client s e w >>= λ r.
      (destroy_each es r.1 >>= λ q. some (q.0, r.2 ++ q.1, r.3 ++ q.2))

-- What the watcher of the server and its listeners have made by the time of the close, while the
-- destructor has cleared the map: the server, the program, and the clients that are new.
pub record Meanwhile {κ} (W : Type κ) : Type κ where
  pub server : Option (Server W)
  pub world : W
  pub late : List (Socket W × Echo W)

module _ {κ} {W : Type κ} where
  -- `if (dp) dp->close()`
  unfoldable pub close_hosted : Option (Server W) → Option (Option (Server W) × List Call)
  close_hosted none = some (none, [])
  close_hosted (some s) = Server.close other_thread s >>= λ r. some (some r.1, r.2)

  -- `~server` of the benchmark, which clears the map first; the watcher of the server goes on until
  -- the close. Behind the body the map is destroyed with the clients that have come meanwhile.
  unfoldable pub destroy_benchmark :
      (has_completed : ℕ → Bool)
      → List (Socket W × Echo W)
      → (meanwhile : W → Meanwhile W) → W
      → Option (W × Option (Server W) × List Call × List Overlapped.Call)
  unfolding destroy_each close_hosted
  destroy_benchmark has_completed es meanwhile w = destroy_each has_completed es w >>= λ q.
      (let m = meanwhile q.0 in
        close_hosted m.server >>= λ r.
        (destroy_each has_completed m.late m.world >>= λ p.
        some (p.0, r.0, map of_socket q.1 ++ r.1 ++ map of_socket p.1, q.2 ++ p.2)))

-- The map of the server in the single process, by the handles of its sockets: in use, or taken down by
-- the destructor of the server; and behind what the language does not define.
pub data Clients : Type 0 where
  kept : List (Option ℕ) → Clients
  dying : Clients
  undefined : Clients

abbrev pub has_client : Option ℕ → List (Option ℕ) → Bool
has_client key [] = false
has_client key (k ∷ ks) = same_handle k key || has_client key ks

-- `handle_close` in the single process. The map is locked while it is erased from, and the client that
-- is erased closes its socket, which is connected still while its listeners run: they run again, and
-- lock what the same thread has locked. A map that is being destroyed cannot be erased from.
unfoldable pub handle_close : Option ℕ → Clients → Clients
handle_close key (kept ks) = if has_client key ks then undefined else kept ks
handle_close key dying = undefined
handle_close key undefined = undefined

unfoldable pub attach_close : Socket Clients → Socket Clients
unfolding handle_close add
attach_close s = record s { on_close = add s.on_close (λ _ m. handle_close s.socket_handle m) }

-- `~server` of the single process: the members are destroyed behind its body.
unfoldable pub destroy_single :
    (has_completed : ℕ → Bool)
    → List (Socket Clients × Echo Clients)
    → Option (Server Clients)
    → Option (Clients × Option (Server Clients) × List Call × List Overlapped.Call)
unfolding destroy_each close_hosted
destroy_single has_completed es dp = close_hosted dp >>= λ r.
    (destroy_each has_completed es dying >>= λ q. some (q.0, r.0, r.1 ++ map of_socket q.1, q.2))
