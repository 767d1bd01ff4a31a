-- ===== src/ThreadPool/Drain.antt =====
-- source/threadpool.cpp, worker::runner: a queue that is worked off, and one that is cleared.
use datapath.Base.{
  length, replicate, All, ℕ, zero, suc, ◌≡◌, refl, ap, ◌∙◌, false, some, List, [], ◌∷◌, ◌++◌,
  append_assoc,
}
use datapath.ThreadPool.{Task}
use datapath.ThreadPool.Order.{HasFunction}
use datapath.ThreadPool.Runner.{
  State, Phase, grabbing, executing, waiting, undefined, Move, runs, pushes, clears, run, move,
  moves, log_of,
}

log_of-some : (t : Task) → HasFunction t → log_of (some t) ≡ t ∷ []
log_of-some t (f, has) = simp has

abbrev resting : List Task → Phase
resting [] = waiting
resting (t ∷ ts) = grabbing

module _ (a : ℕ) where
  abbrev pub running : Phase → (queue executed pushed : List Task) → State
  running p q done all = record {
    worker = record { affinity = a; should_stop = false; queue = q };
    phase = p;
    executed = done;
    pushed = all;
  }

  -- The three steps of the thread for one task.
  one_task :
      (t : Task) (ts done all : List Task)
      → HasFunction t
      → moves (replicate 3 runs) (running grabbing (t ∷ ts) done all)
        ≡ running (resting ts) ts (done ++ t ∷ []) all
  unfolding moves run
  one_task t [] done all f = ap (λ l. running waiting [] (done ++ l) all) (log_of-some t f)
  one_task t (u ∷ us) done all f =
      ap (λ l. running grabbing (u ∷ us) (done ++ l) all) (log_of-some t f)

moves-append : (ms ns : List Move) (s : State) → moves (ms ++ ns) s ≡ moves ns (moves ms s)
unfolding moves
moves-append [] ns s = refl
moves-append (m ∷ ms) ns s = moves-append ms ns (move m s)

-- As many times three steps.
abbrev pub thrice : ℕ → List Move
thrice zero = []
thrice (suc n) = replicate 3 runs ++ thrice n

-- A thread that is not stopped and finds tasks, each with a function, executes all of them in their
-- order by three steps for each, and then waits with an empty queue.
pub moves_drain :
    (affinity : ℕ) (t : Task) (ts done all : List Task)
    → All HasFunction (t ∷ ts)
    → moves (thrice (length (t ∷ ts))) (running affinity grabbing (t ∷ ts) done all)
      ≡ running affinity waiting [] (done ++ t ∷ ts) all
moves_drain affinity t [] done all h = one_task affinity t [] done all h.0
moves_drain affinity t (u ∷ us) done all h =
    moves-append (replicate 3 runs) (thrice (length (u ∷ us)))
      (running affinity grabbing (t ∷ u ∷ us) done all)
    ∙ ap (moves (thrice (length (u ∷ us)))) (one_task affinity t (u ∷ us) done all h.0)
    ∙ moves_drain affinity u us (done ++ t ∷ []) all h.1
    ∙ ap (λ x. running affinity waiting [] x all) (append_assoc done (t ∷ []) (u ∷ us))

-- A clear while the thread executes a task, whatever is queued behind it: if nothing is pushed until
-- it has done, it pops an empty queue; a task that is pushed by then is taken off in its place and
-- never executed.
moves_clear :
    (affinity : ℕ) (t u : Task) (ts done all : List Task)
    → HasFunction t
    → let s = running affinity (executing (some t)) (t ∷ ts) done all in
      ((moves (clears ∷ runs ∷ runs ∷ []) s).phase ≡ undefined)
      × (moves (clears ∷ pushes u ∷ runs ∷ runs ∷ []) s
          ≡ running affinity waiting [] (done ++ t ∷ []) (all ++ u ∷ []))
unfolding moves run
moves_clear affinity t u ts done all f =
    (refl, ap (λ l. running affinity waiting [] (done ++ l) (all ++ u ∷ [])) (log_of-some t f))
