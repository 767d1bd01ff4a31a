-- ===== src/ThreadPool/Steps.antt =====
-- source/threadpool.cpp, worker::runner: the steps of a thread whose flag is set.
use datapath.Base.{
  All, ℕ, suc, ◌+◌, ◌-◌, ◌≤◌, ◌≡◌, refl, ◌∙◌, Bool, true, false, Option, none, some, List, [], ◌∷◌,
  arith,
}
use datapath.ThreadPool.Runner.{
  State, Phase, Move, grabbing, executing, removing, waiting, entering, blocked, stopped, undefined,
  runs, pushes, clears, stops, signals, run, run_phase, after_pop, after_test, move, moves,
  released, woken, pop,
}
use datapath.ThreadPool.Order.{IsPlain, IsOrdered, Ordered, move-IsOrdered}
use datapath.ThreadPool.{Task}

-- How many steps of the thread are left once the flag is set, where it is not in the wait.
abbrev pub steps_left : Phase → ℕ
steps_left stopped = 0
steps_left grabbing = 1
steps_left waiting = 2
steps_left (removing t) = 3
steps_left (executing t) = 4
steps_left entering = 5
steps_left blocked = 5
steps_left undefined = 5

abbrev pub runs_in : List Move → ℕ
runs_in [] = 0
runs_in (runs ∷ ms) = suc (runs_in ms)
runs_in (m ∷ ms) = runs_in ms

abbrev pub is_entering : Phase → Bool
is_entering entering = true
is_entering p = false

after_pop-steps : (s : State) (ts : List Task) → steps_left (after_pop s (some ts)).phase ≤ 2
after_pop-steps s [] = omega arith
after_pop-steps s (t ∷ ts) = omega arith

after_test-steps :
    (s : State) (ts : List Task)
    → s.worker.should_stop ≡ true
    → steps_left (after_test s ts).phase ≤ 1
after_test-steps s [] f = rw f (omega arith)
after_test-steps s (t ∷ ts) f = omega arith

run_phase-steps :
    (p : Phase) (s : State)
    → s.phase ≡ p
    → Ordered p s.worker.queue s.executed s.pushed
    → s.worker.should_stop ≡ true
    → steps_left p ≤ 4
    → steps_left (run_phase p s).phase ≤ steps_left p - 1
run_phase-steps grabbing s q o f h = rw f (omega arith)
run_phase-steps (executing t) s q o f h = omega arith
run_phase-steps (removing none) s q o f h = after_pop-steps s s.worker.queue
run_phase-steps (removing (some t)) s q (rest, e, o) f h = rw e (after_pop-steps s rest)
run_phase-steps waiting s q o f h = after_test-steps s s.worker.queue f
run_phase-steps entering s q o f h = absurd (omega arith)
run_phase-steps blocked s q o f h = absurd (omega arith)
run_phase-steps stopped s q o f h = rw q (omega arith)
run_phase-steps undefined s q o f h = absurd (omega arith)

after_pop-flag :
    (s : State) (o : Option (List Task)) → (after_pop s o).worker.should_stop ≡ s.worker.should_stop
after_pop-flag s none = refl
after_pop-flag s (some []) = refl
after_pop-flag s (some (t ∷ ts)) = refl

after_test-flag :
    (s : State) (ts : List Task) → (after_test s ts).worker.should_stop ≡ s.worker.should_stop
after_test-flag s [] = ground arith
after_test-flag s (t ∷ ts) = refl

run_phase-flag : (p : Phase) (s : State) → (run_phase p s).worker.should_stop ≡ s.worker.should_stop
run_phase-flag grabbing s = ground arith
run_phase-flag (executing t) s = refl
run_phase-flag (removing t) s = after_pop-flag s (pop t s.worker.queue)
run_phase-flag waiting s = after_test-flag s s.worker.queue
run_phase-flag entering s = refl
run_phase-flag blocked s = refl
run_phase-flag stopped s = refl
run_phase-flag undefined s = refl

move-flag :
    (m : Move) (s : State) → s.worker.should_stop ≡ true → (move m s).worker.should_stop ≡ true
unfolding move run
move-flag runs s f = run_phase-flag s.phase s ∙ f
move-flag (pushes t) s f = f
move-flag clears s f = f
move-flag stops s f = refl
move-flag signals s f = f

released-steps : (p : Phase) → steps_left p ≤ 4 → steps_left (released p) ≤ steps_left p
released-steps grabbing h = omega arith
released-steps (executing t) h = omega arith
released-steps (removing t) h = omega arith
released-steps waiting h = omega arith
released-steps entering h = absurd (omega arith)
released-steps blocked h = omega arith
released-steps stopped h = omega arith
released-steps undefined h = omega arith

woken-steps : (p : Phase) → steps_left (woken p) ≤ steps_left p
woken-steps grabbing = omega arith
woken-steps (executing t) = omega arith
woken-steps (removing t) = omega arith
woken-steps waiting = omega arith
woken-steps entering = omega arith
woken-steps blocked = omega arith
woken-steps stopped = omega arith
woken-steps undefined = omega arith

move-steps :
    (m : Move) (s : State)
    → IsOrdered s
    → s.worker.should_stop ≡ true
    → steps_left s.phase ≤ 4
    → steps_left (move m s).phase ≤ steps_left s.phase - runs_in (m ∷ [])
unfolding move run
move-steps runs s o f h = run_phase-steps s.phase s refl o.0 f h
move-steps (pushes t) s o f h = omega (arith, released-steps s.phase h)
move-steps clears s o f h = omega (arith, released-steps s.phase h)
move-steps stops s o f h = omega arith
move-steps signals s o f h = omega (arith, woken-steps s.phase)

runs_in-cons : (m : Move) (ms : List Move) → runs_in (m ∷ ms) ≡ runs_in (m ∷ []) + runs_in ms
runs_in-cons runs ms = omega arith
runs_in-cons (pushes t) ms = omega arith
runs_in-cons clears ms = omega arith
runs_in-cons stops ms = omega arith
runs_in-cons signals ms = omega arith

pub moves-steps :
    (ms : List Move) (s : State)
    → All IsPlain ms
    → IsOrdered s
    → s.worker.should_stop ≡ true
    → steps_left s.phase ≤ 4
    → steps_left (moves ms s).phase ≤ steps_left s.phase - runs_in ms
unfolding moves
moves-steps [] s p o f h = omega arith
moves-steps (m ∷ ms) s (p, ps) o f h =
    let now = move-steps m s o f h in
    omega (
      arith,
      now,
      runs_in-cons m ms,
      moves-steps ms (move m s) ps (move-IsOrdered m s p o) (move-flag m s f) (omega (arith, now)),
    )

pub moves-flag :
    (ms : List Move) (s : State)
    → s.worker.should_stop ≡ true
    → (moves ms s).worker.should_stop ≡ true
unfolding moves
moves-flag [] s f = f
moves-flag (m ∷ ms) s f = moves-flag ms (move m s) (move-flag m s f)

pub no_steps_left : (p : Phase) → steps_left p ≤ 0 → p ≡ stopped
no_steps_left grabbing h = absurd (omega arith)
no_steps_left (executing t) h = absurd (omega arith)
no_steps_left (removing t) h = absurd (omega arith)
no_steps_left waiting h = absurd (omega arith)
no_steps_left entering h = absurd (omega arith)
no_steps_left blocked h = absurd (omega arith)
no_steps_left stopped h = refl
no_steps_left undefined h = absurd (omega arith)
