-- ===== src/Samples/Echo.antt =====
-- samples/benchmark/main.cpp and samples/single-process-ipc/main.cpp: `server` and `server::client`,
-- which sends every message back. The two programs differ in the objects that the watcher waits for.
-- A task is a pair of its address and itself. Nobody adds listeners to these tasks, so that the state
-- `W` that such listeners act on has nothing to do with the server.
pub mod Waits
pub mod Erasing
pub mod Rounds
pub mod Limit
pub mod Replies
pub mod Tests
use datapath.Base.{
  leb, ◌==◌, if◌then◌else◌, ◌>>=◌, length, get_elem?, ℕ, ◌+◌, Bool, false, Option, none, some, List,
  [], ◌∷◌, ◌++◌, map,
}
use datapath.Base.Int.{pos}
use datapath.Error.{Error, success, is_success}
use datapath.Event.{add}
use datapath.Overlapped
use datapath.Socket.{Socket, write}
use datapath.Socket
use datapath.Task.{Task, waitable}
use datapath.Task
use datapath.Waitable.{Waitable, Answer, Outcome, returned, waiting, fault}
use datapath.Waitable.Many.{wait_any, is_count}

-- `server::client`
pub record Echo {κ} (W : Type κ) : Type κ where
  pub tasks : List (ℕ × Task W)
  pub shutdown : Bool

-- What happens during a round: the tasks that are pushed before the tasks are copied and behind
-- that, and the answers to the two waits.
pub record Input {κ} (W : Type κ) : Type κ where
  pub early : List (ℕ × Task W)
  pub late : List (ℕ × Task W)
  pub first : List Answer
  pub second : List Answer

-- A round of the watcher: the end of the loop, a sleep, a wait that has returned or has not, an
-- assertion that fails, which ends the process, or behaviour that the language does not define. A
-- build without assertions is not modelled.
pub data Pass {κ} (W : Type κ) : Type κ where
  ended : Pass W
  slept : Echo W → Pass W
  passed : Error → Echo W → W → Pass W
  blocked : Pass W
  aborted : Pass W
  undefined : Pass W

module _ {κ} {W : Type κ} where
  unfoldable pub construct : Echo W
  construct = record { tasks = []; shutdown = false }

  -- The copy of the tasks in the benchmark, where `waits` has `n` objects.
  unfoldable pub collect : ℕ → List (ℕ × Task W) → List (ℕ × Task W)
  collect n [] = []
  collect n (t ∷ ts) = let rest = collect (n + 1) ts in t ∷ (if leb 64 (n + 1) then [] else rest)

  unfoldable pub collect_64 : List (ℕ × Task W) → List (ℕ × Task W)
  unfolding collect
  collect_64 ts = collect 0 ts

  -- The copy of the tasks in the other program.
  unfoldable pub collect_all : List (ℕ × Task W) → List (ℕ × Task W)
  collect_all [] = []
  collect_all (t ∷ ts) = t ∷ collect_all ts

  abbrev pub objects : List (ℕ × Task W) → List (Option (Waitable W))
  objects ts = map (λ t. some (waitable t.1)) ts

  -- The search for an address and the erasure; an iterator that points nowhere is not erased.
  unfoldable pub erase_task : ℕ → List (ℕ × Task W) → Option (List (ℕ × Task W))
  erase_task a [] = none
  erase_task a (t ∷ ts) =
      let rest = erase_task a ts in if t.0 == a then some ts else (rest >>= λ us. some (t ∷ us))

  abbrev pub erased : Error → Echo W → W → Option (List (ℕ × Task W)) → Pass W
  erased ec e w none = undefined
  erased ec e w (some ts) = passed ec (record e { tasks = ts }) w

  abbrev pub erase_at : Error → Echo W → W → Option (ℕ × Task W) → Pass W
  erase_at ec e w none = undefined
  erase_at ec e w (some t) = erased ec e w (erase_task t.0 e.tasks)

  -- Behind the waits for `waits`, where the tasks are those of `e` by then. The assertion of `wait_any`
  -- is about the number of the objects.
  abbrev pub after_wait : List (ℕ × Task W) → Echo W → Outcome (ℕ × W) → Pass W
  after_wait waits e (returned success (index, w)) = erase_at success e w (get_elem? waits index)
  after_wait waits e (returned ec (index, w)) = passed ec e w
  after_wait waits e (waiting v) = blocked
  after_wait waits e fault = if is_count (objects waits) then undefined else aborted

  -- The second wait, of a millisecond, if the first one was no success.
  abbrev pub wait_again : List (ℕ × Task W) → List Answer → Outcome (ℕ × W) → Outcome (ℕ × W)
  wait_again waits answers (returned success v) = returned success v
  wait_again waits answers (returned ec v) = (wait_any (objects waits) (pos 1000000) answers v).1
  wait_again waits answers (waiting v) = waiting v
  wait_again waits answers fault = fault

  abbrev pub pass :
      (List (ℕ × Task W) → List (ℕ × Task W)) → Input W → List (ℕ × Task W) → Echo W → W → Pass W
  pass gather i [] e w = slept (record e { tasks = i.early ++ i.late })
  pass gather i (t ∷ ts) e w =
      let waits = gather (t ∷ ts ++ i.early) in
      after_wait waits (record e { tasks = t ∷ ts ++ i.early ++ i.late })
        (wait_again waits i.second (wait_any (objects waits) (pos 0) i.first (0, w)).1)

  -- `_watcher`, one round of its loop; `gather` is the copy of the tasks.
  unfoldable pub round : (List (ℕ × Task W) → List (ℕ × Task W)) → Input W → Echo W → W → Pass W
  unfolding erase_task
  round gather i e w = if e.shutdown then ended else pass gather i e.tasks e w

module _ {κ ℓ} {W : Type κ} {V : Type ℓ} (has_completed : ℕ → Bool) where
  -- `handle_message`: the write makes a task, at `address` here; it is dropped if the write fails.
  unfoldable pub handle_message :
      Socket V
      → Echo W
      → List ℕ
      → (address event : ℕ) → Bool
      → Echo W × List Socket.Call × List Overlapped.Call
  handle_message s e message address event written =
      let (ec, task, calls, events) = write s none message event written in
      if is_success ec
      then (record e { tasks = e.tasks ++ (address, task) ∷ [] }, calls, events)
      else (e, calls, events ++ Task.destroy has_completed task)

-- The program that the listeners act on: the watcher's tasks, and the calls so far.
pub record Program {κ} (W : Type κ) : Type κ where
  pub echo : Echo W
  pub calls : List Socket.Call

-- What the operating system does for the write behind `n` others: the address of the new task, its
-- event, and whether the write is accepted.
pub record System : Type 0 where
  pub address : ℕ → ℕ
  pub event : ℕ → ℕ
  pub accepts : ℕ → Bool
  pub has_completed : ℕ → Bool

module _ {κ} {W : Type κ} where
  -- `handle_message` as a listener.
  unfoldable pub reply : System → Socket (Program W) → List ℕ → Program W → Program W
  unfolding handle_message
  reply os s message p =
      let n = length p.calls in
      let (e, calls, events) =
        handle_message os.has_completed s p.echo message (os.address n) (os.event n)
          (os.accepts n) in
      record { echo = e; calls = p.calls ++ calls }

  -- The constructor: both listeners, of which that of the end does nothing, or has nothing to do with
  -- the messages.
  unfoldable pub attach :
      System → (Unit {0} → Program W → Program W) → Socket (Program W) → Socket (Program W)
  unfolding add reply
  attach os handle_close s = record s {
    on_close = add s.on_close handle_close;
    on_message = add s.on_message (reply os s);
  }
