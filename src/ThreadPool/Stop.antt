-- ===== src/ThreadPool/Stop.antt =====
-- source/threadpool.cpp, worker::~worker and worker::runner: the destructor sets its flag, sends a
-- signal and waits for the thread to end.
use datapath.Base.{
  replicate, All, ℕ, zero, suc, ◌≤◌, ◌≡◌, refl, sym, subst, true, false, List, arith,
}
use datapath.ThreadPool.Runner.{
  State, Phase, Move, grabbing, executing, removing, waiting, entering, blocked, stopped, undefined,
  runs, stops, signals, run, run_phase, move, moves, start, woken,
}
use datapath.ThreadPool.Order.{IsPlain, Ordered, move-IsOrdered, moves-IsOrdered}
use datapath.ThreadPool.{Task}
use datapath.ThreadPool.Steps.{
  steps_left, runs_in, is_entering, moves-steps, moves-flag, no_steps_left,
}

signaled-steps :
    (p : Phase) (queue executed pushed : List Task)
    → Ordered p queue executed pushed
    → is_entering p ≡ false
    → steps_left (woken p) ≤ 4
signaled-steps grabbing q d a o e = omega arith
signaled-steps (executing t) q d a o e = omega arith
signaled-steps (removing t) q d a o e = omega arith
signaled-steps waiting q d a o e = omega arith
signaled-steps entering q d a o e = absurd (ground arith)
signaled-steps blocked q d a o e = omega arith
signaled-steps stopped q d a o e = omega arith
signaled-steps undefined q d a o e = absurd (ground arith)

-- The destructor of a worker, whose queue nobody clears, and to which tasks are pushed before and
-- after, each with a function: if the thread is not just between the condition of its wait and the
-- wait when the signal is sent, it ends, by four of its steps at most.
pub moves_stopped :
    (affinity : ℕ) (ms ks ns : List Move)
    → All IsPlain ms
    → All IsPlain ks
    → All IsPlain ns
    → let flagged = moves ks (move stops (moves ms (start affinity))) in
      is_entering flagged.phase ≡ false
      → 4 ≤ runs_in ns
      → (moves ns (move signals flagged)).phase ≡ stopped
unfolding move start
moves_stopped affinity ms ks ns p q r outside enough =
    let before = moves ms (start affinity) in
    let before_ordered = moves-IsOrdered ms (start affinity) p (refl, tt) in
    let flagged = moves ks (move stops before) in
    let flagged_ordered =
      moves-IsOrdered ks (move stops before) q (move-IsOrdered stops before tt before_ordered) in
    let awake =
      signaled-steps flagged.phase flagged.worker.queue flagged.executed flagged.pushed
        flagged_ordered.0 outside in
    no_steps_left (moves ns (move signals flagged)).phase (
      omega (
        arith,
        moves-steps ns (move signals flagged) r (move-IsOrdered signals flagged tt flagged_ordered)
            (moves-flag ks (move stops before) refl) awake,
        awake,
      ))

blocked-runs :
    (n : ℕ) (s : State) → s.phase ≡ blocked → (moves (replicate n runs) s).phase ≡ blocked
unfolding moves move run
blocked-runs zero s e = e
blocked-runs (suc n) s e =
    blocked-runs n (run_phase s.phase s) (subst (λ p. (run_phase p s).phase ≡ blocked) (sym e) e)

pub signal-lost :
    (n : ℕ) (s : State)
    → s.phase ≡ entering
    → (moves (replicate (suc n) runs) (move signals s)).phase ≡ blocked
unfolding move run moves
signal-lost n s e =
    blocked-runs n (move runs (move signals s))
      (subst (λ p. (run_phase (woken p) (move signals s)).phase ≡ blocked) (sym e) refl)

-- A signal of the destructor that is sent while the thread is between the condition of its wait,
-- which was false, and the wait: the signal is lost, and however many steps the thread is given, it
-- does not end, although the flag is set.
moves_lost :
    (n : ℕ) (s : State)
    → s.phase ≡ entering
    → let s' = moves (replicate (suc n) runs) (move signals (move stops s)) in
      (s'.phase ≡ blocked) × (s'.worker.should_stop ≡ true)
unfolding move
moves_lost n s e = (
  signal-lost n (move stops s) e,
  moves-flag (replicate (suc n) runs) (move signals (move stops s)) refl,
)
