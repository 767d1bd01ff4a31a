-- ===== src/ThreadPool/Tests.antt =====
-- The pool and a worker at concrete inputs.
use datapath.Base.{All, map, ℕ, ◌≡◌, refl, ◌⊎◌, true, false, none, some, List, [], ◌∷◌, ◌++◌, arith}
use datapath.ThreadPool.{Task, Pool, returned, fits_none, push, worker_push}
use datapath.ThreadPool.Choice.{IsUnmatched, Lowest, push_cases}
use datapath.ThreadPool.Drain.{running, moves_drain, thrice}
use datapath.ThreadPool.Order.{is_defined, moves_prefix}
use datapath.ThreadPool.Runner.{
  Move, runs, pushes, stops, signals, grabbing, waiting, stopped, move, moves, start,
}
use datapath.ThreadPool.Ends.{Course, destroy, last_state, all_heard, HasEnded, destroy_cases}
use datapath.ThreadPool.Stop.{moves_stopped}

abbrev task : ℕ → Task
task f = record { function = some f; mask = 3 }

abbrev script : List Move
script = pushes (task 1) ∷ runs ∷ pushes (task 2) ∷ runs ∷ runs ∷ []

moves_prefix_example :
    (is_defined (moves script (start 1)).phase ≡ true)
    × (rest : List Task) × ((moves script (start 1)).pushed
        ≡ (moves script (start 1)).executed ++ rest)
moves_prefix_example = moves_prefix 1 script ((1, refl), (tt, ((2, refl), (tt, (tt, tt)))))

moves_drain_example :
    moves (thrice 2) (running 1 grabbing (task 1 ∷ task 2 ∷ []) [] (task 1 ∷ task 2 ∷ []))
    ≡ running 1 waiting [] (task 1 ∷ task 2 ∷ []) (task 1 ∷ task 2 ∷ [])
moves_drain_example =
    moves_drain 1 (task 1) (task 2 ∷ []) [] (task 1 ∷ task 2 ∷ []) ((1, refl), ((2, refl), tt))

-- Two workers; the first is busy.
abbrev two : Pool
two = record {
  workers =
      (0, record { affinity = 1; should_stop = false; queue = task 1 ∷ [] })
      ∷ (1, record { affinity = 2; should_stop = false; queue = [] })
      ∷ [];
}

push_cases_example :
    (All (IsUnmatched 3) two.workers × (push two (some (task 5)) ≡ returned (false, two)))
    ⊎ ((l : Lowest 3 two.workers) × (push two (some (task 5))
          ≡ returned (
            true,
            record { workers = l.before ++ (l.id, worker_push (task 5) l.worker) ∷ l.after },
          )))
unfolding fits_none
push_cases_example =
    push_cases two (task 5) 5 (omega arith, (omega arith, tt)) (omega arith, (omega arith, tt)) refl
      refl

moves_stopped_example :
    let flagged = moves (pushes (task 2) ∷ []) (move stops (moves script (start 1))) in
    (moves (runs ∷ runs ∷ runs ∷ runs ∷ []) (move signals flagged)).phase ≡ stopped
unfolding moves start
moves_stopped_example =
    moves_stopped 1 script (pushes (task 2) ∷ []) (runs ∷ runs ∷ runs ∷ runs ∷ [])
      ((1, refl), (tt, ((2, refl), (tt, (tt, tt))))) ((2, refl), tt) (tt, (tt, (tt, (tt, tt)))) refl
      (omega arith)

-- A pool of two workers: one is executing when its flag is set, with a task behind, and the other is
-- in its wait.
abbrev courses : List Course
courses =
    record { affinity = 1; before = script; between = runs ∷ []; later = 4 }
    ∷ record { affinity = 2; before = thrice 2; between = []; later = 5 }
    ∷ []

destroy_cases_example :
    ((all_heard courses ≡ true)
      × (destroy courses ≡ some (map last_state courses))
      × All HasEnded (map last_state courses))
    ⊎ ((all_heard courses ≡ false) × (destroy courses ≡ none))
destroy_cases_example = destroy_cases courses (
  (((1, refl), (tt, ((2, refl), (tt, (tt, tt))))), (tt, tt), omega arith),
  (((tt, (tt, (tt, (tt, (tt, (tt, tt)))))), tt, omega arith), tt),
)

-- The second worker is new, and its thread goes into its wait when the signal comes.
abbrev unheard : List Course
unheard =
    record { affinity = 1; before = script; between = []; later = 4 }
    ∷ record { affinity = 2; before = runs ∷ runs ∷ runs ∷ runs ∷ []; between = []; later = 9 }
    ∷ []

unheard_hangs : destroy unheard ≡ none
unfolding destroy
unheard_hangs = refl

courses_end : destroy courses ≡ some (map last_state courses)
unfolding destroy
courses_end = refl
