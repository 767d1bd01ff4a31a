-- ===== src/ThreadPool/Runner.antt =====
-- source/threadpool.cpp, worker::runner: the thread of a worker, and the calls of other threads that
-- come between its steps. The lock makes each of its blocks one step; the function of a task runs
-- without it. The wait for the signal is taken apart, since the destructor does not take the lock.
use datapath.Base.{if◌then◌else◌, ℕ, true, false, Option, none, some, List, [], ◌∷◌, ◌++◌}
use datapath.ThreadPool.{Worker, Task, worker_push, worker_clear}

-- Where the thread is: at the condition of the loop, behind the first block with `my_task`, behind
-- the function, at the condition of the wait, in the wait behind a condition that was false, which
-- has the lock still, in the wait and without the lock, behind the loop, or in behaviour that the
-- language does not define, a pop of an empty queue. A push that comes at the condition of the wait
-- is let in, although the lock makes it come later.
pub data Phase : Type 0 where
  grabbing : Phase
  executing : Option Task → Phase
  removing : Option Task → Phase
  waiting : Phase
  entering : Phase
  blocked : Phase
  stopped : Phase
  undefined : Phase

-- A worker with its thread; `executed` and `pushed` are the tasks so far, in order.
pub record State : Type 0 where
  pub worker : Worker
  pub phase : Phase
  pub executed : List Task
  pub pushed : List Task

abbrev pub front : List Task → Option Task
front [] = none
front (t ∷ ts) = some t

abbrev pub log_of : Option Task → List Task
log_of none = []
log_of (some t) = elim t.function [ none ↦ [] | some f ↦ t ∷ [] ]

-- `queue.pop()` in the third block.
abbrev pub pop : Option Task → List Task → Option (List Task)
pop none ts = some ts
pop (some t) [] = none
pop (some t) (u ∷ ts) = some ts

-- Behind the third block: an empty queue is followed by the wait, which begins with its condition.
abbrev pub after_pop : State → Option (List Task) → State
after_pop s none = record s { phase = undefined }
after_pop s (some []) = record s { worker = record s.worker { queue = [] }; phase = waiting }
after_pop s (some (t ∷ ts)) = record s {
  worker = record s.worker { queue = t ∷ ts };
  phase = grabbing;
}

-- The condition of the wait, for what is queued.
abbrev pub after_test : State → List Task → State
after_test s [] =
    if s.worker.should_stop then record s { phase = grabbing } else record s { phase = entering }
after_test s (t ∷ ts) = record s { phase = grabbing }

abbrev pub run_phase : Phase → State → State
run_phase grabbing s =
    if s.worker.should_stop
    then record s { phase = stopped }
    else record s { phase = executing (front s.worker.queue) }
run_phase (executing t) s = record s { executed = s.executed ++ log_of t; phase = removing t }
run_phase (removing t) s = after_pop s (pop t s.worker.queue)
run_phase waiting s = after_test s s.worker.queue
run_phase entering s = record s { phase = blocked }
run_phase blocked s = s
run_phase stopped s = s
run_phase undefined s = s

-- A step of the thread.
unfoldable pub run : State → State
run s = run_phase s.phase s

-- A call that needs the lock waits for it until the thread is in the wait.
abbrev pub released : Phase → Phase
released entering = blocked
released p = p

-- `notify_all`
abbrev pub woken : Phase → Phase
woken blocked = waiting
woken p = p

-- What happens: a step of the thread, a push, a clear, the flag of the destructor, or a signal. A push
-- and the destructor send a signal behind what they do; a wait may also end by itself, which is a
-- signal of no call.
pub data Move : Type 0 where
  runs : Move
  pushes : Task → Move
  clears : Move
  stops : Move
  signals : Move

unfoldable pub move : Move → State → State
unfolding run worker_push worker_clear
move runs s = run s
move (pushes t) s = record s {
  worker = worker_push t s.worker;
  phase = released s.phase;
  pushed = s.pushed ++ t ∷ [];
}
move clears s = record s { worker = worker_clear s.worker; phase = released s.phase }
move stops s = record s { worker = record s.worker { should_stop = true } }
move signals s = record s { phase = woken s.phase }

unfoldable pub moves : List Move → State → State
unfolding move
moves [] s = s
moves (m ∷ ms) s = moves ms (move m s)

unfoldable pub start : ℕ → State
start affinity = record {
  worker = record { affinity = affinity; should_stop = false; queue = [] };
  phase = grabbing;
  executed = [];
  pushed = [];
}
