-- ===== src/Samples/Ends/Closing.antt =====
-- samples/benchmark/main.cpp, `~server`: what it closes, and whom it tells.
use datapath.Base.{
  if◌then◌else◌, Bool-cases, ◌>>=◌, times, ℕ, ◌+◌, Bool, ◌≡◌, refl, ap, ◌∙◌, inl, inr, true, false,
  some, List, [], ◌∷◌, ◌++◌, map, append-nil, arith,
}
use datapath.Error.{Error, success, closed}
use datapath.Event.{call}
use datapath.Samples.Echo.{Echo}
use datapath.Samples.Ends.{
  destroy_tasks, destroy_client, destroy_each, close_hosted, destroy_benchmark, Meanwhile,
}
use datapath.Server.{Server, Call, of_socket, close_handles}
use datapath.Server
use datapath.Server.Backlog
use datapath.Server.Closes.{closes, closes-append, closes-close_handles}
use datapath.Socket.{Socket, other_thread, disconnect_named_pipe}
use datapath.Socket
use datapath.Overlapped
use datapath.Overlapped.Handles.{close_count, close_count-append}
use datapath.Task.{Task, is_completed}
use datapath.Task
use datapath.Task.Handles.{event_closes, destroy-event_closes}
use datapath.Socket.Lifecycle

no_closes : (h : ℕ) (cs : List Socket.Call) → closes h (map of_socket cs) ≡ 0
no_closes h [] = refl
no_closes h (c ∷ cs) = no_closes h cs

-- How often the destruction of tasks closes an event: for each task of which it is the event, once if
-- its operation has completed, and twice if it is pending.
abbrev pub tasks_closes {κ} : {W : Type κ} → (ℕ → Bool) → ℕ → List (ℕ × Task W) → ℕ
tasks_closes has_completed event [] = 0
tasks_closes has_completed event (t ∷ ts) =
    event_closes (is_completed has_completed t.1) event (t.1.overlapped >>= Overlapped.get_waitable)
    + tasks_closes has_completed event ts

abbrev pub clients_closes {κ} : {W : Type κ} → (ℕ → Bool) → ℕ → List (Socket W × Echo W) → ℕ
clients_closes has_completed event [] = 0
clients_closes has_completed event ((s, e) ∷ es) =
    tasks_closes has_completed event e.tasks + clients_closes has_completed event es

module _ {κ} {W : Type κ} where
  -- The listeners of a socket that is connected, and the call that ends its connection.
  abbrev pub told_one : Socket W → W → W
  told_one s w = if s.is_connected then call s.on_close tt w else w

  abbrev pub goodbye : Socket W → List Socket.Call
  goodbye s = if s.is_connected then disconnect_named_pipe s.socket_handle ∷ [] else []

  abbrev pub told_each : List (Socket W × Echo W) → W → W
  told_each [] w = w
  told_each ((s, e) ∷ es) w = told_each es (told_one s w)

  abbrev pub goodbyes : List (Socket W × Echo W) → List Socket.Call
  goodbyes [] = []
  goodbyes ((s, e) ∷ es) = goodbye s ++ goodbyes es

  close_unconnected :
      (s : Socket W) (w : W)
      → s.is_connected ≡ false
      → Socket.close other_thread s w ≡ some (closed, s, w, [])
  unfolding Socket.close
  close_unconnected s w c = rw c

  -- A close by another thread, in either state.
  close_once :
      (s : Socket W) (w : W)
      → (code : Error) × (s' : Socket W) × (Socket.close other_thread s w
          ≡ some (code, s', told_one s w, goodbye s))
        × (s'.is_connected ≡ false)
  unfolding Socket.good
  close_once s w = elim (Bool-cases s.is_connected) [
    | inl c ↦
        let (s', e, off, live, again, more) = Socket.Lifecycle.close-other_thread s w 0 c in
        (success, s', e ∙ rw c refl, off)
    | inr c ↦ (closed, s, close_unconnected s w c ∙ rw c refl, c)
  ]

  abbrev pub task_ends : (ℕ → Bool) → List (Socket W × Echo W) → List Overlapped.Call
  task_ends has_completed [] = []
  task_ends has_completed ((s, e) ∷ es) =
      destroy_tasks has_completed e.tasks ++ task_ends has_completed es

  module _ (has_completed : ℕ → Bool) where
    destroy_client_lem :
        (s : Socket W) (e : Echo W) (w : W)
        → destroy_client has_completed s e w
          ≡ some (
            record e { shutdown = true; tasks = [] },
            told_one s w,
            goodbye s,
            destroy_tasks has_completed e.tasks,
          )
    unfolding destroy_client
    destroy_client_lem s e w =
        let (code, s', first, off) = close_once s w in
        let ended = record e { shutdown = true; tasks = [] } in
        let ends = destroy_tasks has_completed e.tasks in
        ap
          (λ o. o >>= λ r.
            Socket.close other_thread r.1 r.2 >>= λ q. some (ended, q.2, r.3 ++ q.3, ends))
          first
        ∙ ap (λ o. o >>= λ q. some (ended, q.2, goodbye s ++ q.3, ends))
            (close_unconnected s' (told_one s w) off)
        ∙ ap (λ l. some (ended, told_one s w, l, ends)) (append-nil (goodbye s))

    pub destroy_each_lem :
        (es : List (Socket W × Echo W)) (w : W)
        → destroy_each has_completed es w
          ≡ some (told_each es w, goodbyes es, task_ends has_completed es)
    unfolding destroy_each
    destroy_each_lem [] w = refl
    destroy_each_lem ((s, e) ∷ es) w =
        rw (destroy_client_lem s e w, destroy_each_lem es (told_one s w)) refl

    destroy_tasks-closes :
        (event : ℕ) (ts : List (ℕ × Task W))
        → close_count event (destroy_tasks has_completed ts) ≡ tasks_closes has_completed event ts
    unfolding destroy_tasks
    destroy_tasks-closes event [] = refl
    destroy_tasks-closes event (t ∷ ts) = omega (
      arith,
      close_count-append event (Task.destroy has_completed t.1) (destroy_tasks has_completed ts),
      destroy-event_closes has_completed event t.1,
      destroy_tasks-closes event ts,
    )

    task_ends-closes :
        (event : ℕ) (es : List (Socket W × Echo W))
        → close_count event (task_ends has_completed es) ≡ clients_closes has_completed event es
    task_ends-closes event [] = refl
    task_ends-closes event ((s, e) ∷ es) = omega (
      arith,
      close_count-append event (destroy_tasks has_completed e.tasks) (task_ends has_completed es),
      destroy_tasks-closes event e.tasks,
      task_ends-closes event es,
    )

    -- The destructor of the benchmark's server, whatever clients it has and whatever its watcher does
    -- until the close: who is told, and what is closed.
    pub destroy_benchmark-closes :
        (es : List (Socket W × Echo W)) (meanwhile : W → Meanwhile W) (w : W) (s : Server W)
        → (meanwhile (told_each es w)).server ≡ some s
        → let m = meanwhile (told_each es w) in
          (end : Server W) × (calls : List Call) × (ends : List Overlapped.Call)
          × (destroy_benchmark has_completed es meanwhile w
              ≡ some (told_each m.late m.world, some end, calls, ends))
          × (end.sockets ≡ [])
          × (end.joinable ≡ false)
          × ((h : ℕ) → closes h calls ≡ times h s.sockets)
          × ((event : ℕ)
              → close_count event ends
                ≡ clients_closes has_completed event es + clients_closes has_completed event m.late)
    unfolding destroy_benchmark close_hosted
    destroy_benchmark-closes es meanwhile w s found =
        let m = meanwhile (told_each es w) in
        let goodbyes_early = map of_socket (goodbyes es) in
        let goodbyes_late = map of_socket (goodbyes m.late) in
        (
          record s {
            sockets = [];
            waiting_sockets = [];
            pending_sockets = [];
            active_sockets = [];
            shutdown = true;
            joinable = false;
          },
          goodbyes_early ++ close_handles s.sockets ++ goodbyes_late,
          task_ends has_completed es ++ task_ends has_completed m.late,
          rw
              (
                destroy_each_lem es w,
                found,
                Server.Backlog.close-other_thread s,
                destroy_each_lem m.late m.world,
              )
              refl,
          refl,
          refl,
          λ h. omega (
            arith,
            closes-append h (goodbyes_early ++ close_handles s.sockets) goodbyes_late,
            closes-append h goodbyes_early (close_handles s.sockets),
            no_closes h (goodbyes es),
            no_closes h (goodbyes m.late),
            closes-close_handles h s.sockets,
          ),
          λ event. omega (
            arith,
            close_count-append event (task_ends has_completed es) (task_ends has_completed m.late),
            task_ends-closes event es,
            task_ends-closes event m.late,
          ),
        )
