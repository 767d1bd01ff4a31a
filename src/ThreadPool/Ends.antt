-- ===== src/ThreadPool/Ends.antt =====
-- source/threadpool.cpp, pool::~pool and worker::~worker: the end of a pool, which ends its workers
-- one by one.
use datapath.Base.{
  Bool-cases, map, if◌then◌else◌, ◌>>=◌, replicate, All, ℕ, zero, suc, ◌-◌, ◌≤◌, ◌≡◌, refl, ap,
  subst, ◌⊎◌, inl, inr, Bool, true, false, not, ◌&&◌, Option, none, some, List, [], ◌∷◌, ◌++◌,
  arith,
}
use datapath.ThreadPool.{Task}
use datapath.ThreadPool.Runner.{
  State, Phase, Move, grabbing, executing, removing, waiting, entering, blocked, stopped, undefined,
  runs, stops, signals, move, moves, start,
}
use datapath.ThreadPool.Order.{IsPlain, IsOrdered, Ordered, move-IsOrdered, moves-IsOrdered}
use datapath.ThreadPool.Steps.{runs_in, is_entering}
use datapath.ThreadPool.Stop.{moves_stopped, signal-lost}

-- What happens to a worker: until its destructor sets the flag, between the flag and the signal, and
-- how many steps the thread is given behind the signal, when nobody else has the worker.
pub record Course : Type 0 where
  pub affinity : ℕ
  pub before : List Move
  pub between : List Move
  pub later : ℕ

abbrev pub flagged : Course → State
flagged c = moves c.between (move stops (moves c.before (start c.affinity)))

abbrev pub last_state : Course → State
last_state c = moves (replicate c.later runs) (move signals (flagged c))

abbrev pub is_stopped : Phase → Bool
is_stopped stopped = true
is_stopped p = false

-- The destructor of a worker, with the worker as it leaves it. `none` is a join that has not
-- returned.
unfoldable pub worker_destroy : Course → Option State
unfolding moves start
worker_destroy c = if is_stopped (last_state c).phase then some (last_state c) else none

-- The destructor of the pool, for the workers in the order of their numbers.
unfoldable pub destroy : List Course → Option (List State)
unfolding worker_destroy
destroy [] = some []
destroy (c ∷ cs) = worker_destroy c >>= λ s. destroy cs >>= λ ss. some (s ∷ ss)

-- Tasks with a function, no clear, and time for the thread.
abbrev pub IsServed : Course → Type 0
IsServed c = All IsPlain c.before × All IsPlain c.between × (4 ≤ c.later)

-- The signal does not come between the condition of a wait and the wait.
abbrev pub is_heard : Course → Bool
is_heard c = not (is_entering (flagged c).phase)

abbrev pub all_heard : List Course → Bool
all_heard [] = true
all_heard (c ∷ cs) = is_heard c && all_heard cs

-- The thread has ended, and what it executed is the beginning of what was pushed, the rest of which
-- is in the queue.
abbrev pub HasEnded : State → Type 0
HasEnded s = (s.phase ≡ stopped) × (s.pushed ≡ s.executed ++ s.worker.queue)

runs_in-replicate : (n : ℕ) → runs_in (replicate n runs) ≡ n
runs_in-replicate zero = refl
runs_in-replicate (suc n) = ap suc (runs_in-replicate n)

replicate-IsPlain : (n : ℕ) → All IsPlain (replicate n runs)
replicate-IsPlain zero = tt
replicate-IsPlain (suc n) = (tt, replicate-IsPlain n)

stopped-rest : (p : Phase) (q d a : List Task) → p ≡ stopped → Ordered p q d a → a ≡ d ++ q
stopped-rest p q d a e o = subst (λ x. Ordered x q d a) e o

last_state-IsOrdered : (c : Course) → IsServed c → IsOrdered (last_state c)
unfolding move start
last_state-IsOrdered c (p, q, enough) =
    let before = moves c.before (start c.affinity) in
    let before_ordered = moves-IsOrdered c.before (start c.affinity) p (refl, tt) in
    moves-IsOrdered (replicate c.later runs) (move signals (flagged c)) (replicate-IsPlain c.later)
      (move-IsOrdered signals (flagged c) tt (
        moves-IsOrdered c.between (move stops before) q
          (move-IsOrdered stops before tt before_ordered)))

entering-is : (p : Phase) → is_entering p ≡ true → p ≡ entering
entering-is grabbing e = absurd (ground arith)
entering-is (executing t) e = absurd (ground arith)
entering-is (removing t) e = absurd (ground arith)
entering-is waiting e = absurd (ground arith)
entering-is entering e = refl
entering-is blocked e = absurd (ground arith)
entering-is stopped e = absurd (ground arith)
entering-is undefined e = absurd (ground arith)

unheard-blocked :
    (c : Course)
    → IsServed c
    → is_entering (flagged c).phase ≡ true
    → (last_state c).phase ≡ blocked
unheard-blocked c (p, q, enough) e =
    let later : suc (c.later - 1) ≡ c.later = omega arith in
    subst (λ n. (moves (replicate n runs) (move signals (flagged c))).phase ≡ blocked) later
      (signal-lost (c.later - 1) (flagged c) (entering-is (flagged c).phase e))

-- What the destructor of one worker does.
destroyed :
    (c : Course)
    → IsServed c
    → ((is_heard c ≡ true) × (worker_destroy c ≡ some (last_state c)) × HasEnded (last_state c))
      ⊎ ((is_heard c ≡ false) × (worker_destroy c ≡ none))
unfolding worker_destroy
destroyed c (p, q, enough) = elim (Bool-cases (is_entering (flagged c).phase)) [
  | inl e ↦ inr (ap not e, rw (unheard-blocked c (p, q, enough) e) refl)
  | inr e ↦
      let ended =
        moves_stopped c.affinity c.before c.between (replicate c.later runs) p q
          (replicate-IsPlain c.later) e (rw (runs_in-replicate c.later) enough) in
      let last = last_state c in
      inl (
        ap not e,
        rw ended refl,
        (
          ended,
          stopped-rest last.phase last.worker.queue last.executed last.pushed ended
              (last_state-IsOrdered c (p, q, enough)).0,
        ),
      )
]

-- The destructor of a pool whose workers are given time and tasks with a function. If each signal
-- comes when its thread is not between the condition of its wait and the wait, it returns: every
-- thread has ended, and has executed the tasks that were pushed to it, once and in order, except
-- those that its queue still holds. If one signal does come there, the destructor does not return,
-- however many steps the threads are given, as long as no wait ends by itself.
pub destroy_cases :
    (cs : List Course)
    → All IsServed cs
    → ((all_heard cs ≡ true)
        × (destroy cs ≡ some (map last_state cs))
        × All HasEnded (map last_state cs))
      ⊎ ((all_heard cs ≡ false) × (destroy cs ≡ none))
unfolding destroy
destroy_cases [] h = inl (refl, refl, tt)
destroy_cases (c ∷ cs) (h, hs) = elim (destroyed c h) [
  | inr (e, d) ↦ inr (rw e refl, rw d refl)
  | inl (e, d, ended) ↦ elim (destroy_cases cs hs) [
    | inr (es, ds) ↦ inr (rw (e, es) refl, rw (d, ds) refl)
    | inl (es, ds, all) ↦ inl (rw (e, es) refl, rw (d, ds) refl, (ended, all))
  ]
]
