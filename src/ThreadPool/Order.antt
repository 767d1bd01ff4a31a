-- ===== src/ThreadPool/Order.antt =====
-- source/threadpool.cpp, worker::runner: which tasks a worker executes, and in which order.
use datapath.Base.{
  Bool-cases, All, All-append, ℕ, ◌≡◌, refl, sym, ap, ◌∙◌, inl, inr, Bool, true, false, none, some,
  List, [], ◌∷◌, ◌++◌, append_assoc, append-nil, arith,
}
use datapath.ThreadPool.{Task}
use datapath.ThreadPool.Runner.{
  State, Phase, grabbing, executing, removing, waiting, stopped, undefined, Move, runs, pushes,
  entering, blocked, released, woken, signals, clears, stops, run, move, moves, start, front,
  after_pop, run_phase,
}

abbrev pub HasFunction : Task → Type 0
HasFunction t = (f : ℕ) × (t.function ≡ some f)

-- No clear, and a function in every task that is pushed, as the pool makes sure.
abbrev pub IsPlain : Move → Type 0
IsPlain runs = Unit
IsPlain (pushes t) = HasFunction t
IsPlain clears = false ≡ true
IsPlain stops = Unit
IsPlain signals = Unit

-- What has been pushed, by the place where the thread is, the queue and what has been executed.
abbrev pub Ordered : Phase → (queue executed pushed : List Task) → Type 0
Ordered grabbing q done all = all ≡ done ++ q
Ordered (executing none) q done all = all ≡ done ++ q
Ordered (executing (some t)) q done all =
    (rest : List Task) × (q ≡ t ∷ rest) × (all ≡ done ++ t ∷ rest) × HasFunction t
Ordered (removing none) q done all = all ≡ done ++ q
Ordered (removing (some t)) q done all = (rest : List Task) × (q ≡ t ∷ rest) × (all ≡ done ++ rest)
Ordered waiting q done all = all ≡ done ++ q
Ordered entering q done all = all ≡ done ++ q
Ordered blocked q done all = all ≡ done ++ q
Ordered stopped q done all = all ≡ done ++ q
Ordered undefined q done all = false ≡ true

abbrev pub IsOrdered : State → Type 0
IsOrdered s = Ordered s.phase s.worker.queue s.executed s.pushed × All HasFunction s.worker.queue

abbrev tail : List Task → List Task
tail [] = []
tail (t ∷ ts) = ts

module _ (a : ℕ) (stop : Bool) (done all : List Task) where
  abbrev at : Phase → List Task → State
  at p q = record {
    worker = record { affinity = a; should_stop = stop; queue = q };
    phase = p;
    executed = done;
    pushed = all;
  }

  grabbed-IsOrdered :
      (q : List Task) → all ≡ done ++ q → All HasFunction q → IsOrdered (at (executing (front q)) q)
  grabbed-IsOrdered [] o h = (o, h)
  grabbed-IsOrdered (t ∷ ts) o h = ((ts, refl, o, h.0), h)

  popped-IsOrdered :
      (p : Phase) (q us : List Task)
      → all ≡ done ++ us
      → All HasFunction us
      → IsOrdered (after_pop (at p q) (some us))
  popped-IsOrdered p q [] o h = (o, h)
  popped-IsOrdered p q (u ∷ us) o h = (o, h)

  run_phase-IsOrdered :
      (p : Phase) (q : List Task)
      → Ordered p q done all
      → All HasFunction q
      → IsOrdered (run_phase p (at p q))
  run_phase-IsOrdered grabbing q o h = elim (Bool-cases stop) [
    | inl e ↦ rw e (o, h)
    | inr e ↦ rw e (grabbed-IsOrdered q o h)
  ]
  run_phase-IsOrdered (executing none) q o h = (rw (append-nil done) o, h)
  run_phase-IsOrdered (executing (some t)) q (rest, e, o, (f, has)) h =
      ((rest, e, rw has (o ∙ sym (append_assoc done (t ∷ []) rest))), h)
  run_phase-IsOrdered (removing none) q o h = popped-IsOrdered (removing none) q q o h
  run_phase-IsOrdered (removing (some t)) [] (rest, e, o) h = ground arith
  run_phase-IsOrdered (removing (some t)) (u ∷ us) (rest, e, o) h =
      popped-IsOrdered (removing (some t)) (u ∷ us) us (o ∙ ap (λ x. done ++ tail x) (sym e)) h.1
  run_phase-IsOrdered waiting [] o h = elim (Bool-cases stop) [
    | inl e ↦ rw e (o, h)
    | inr e ↦ rw e (o, h)
  ]
  run_phase-IsOrdered waiting (u ∷ us) o h = (o, h)
  run_phase-IsOrdered entering q o h = (o, h)
  run_phase-IsOrdered blocked q o h = (o, h)
  run_phase-IsOrdered stopped q o h = (o, h)
  run_phase-IsOrdered undefined q o h = (o, h)

shifted :
    (q done all : List Task) (t : Task) → all ≡ done ++ q → all ++ t ∷ [] ≡ done ++ (q ++ t ∷ [])
shifted q done all t o = ap (λ x. x ++ t ∷ []) o ∙ append_assoc done q (t ∷ [])

pushed-Ordered :
    (p : Phase) (q done all : List Task) (t : Task)
    → Ordered p q done all
    → Ordered (released p) (q ++ t ∷ []) done (all ++ t ∷ [])
pushed-Ordered grabbing q done all t o = shifted q done all t o
pushed-Ordered (executing none) q done all t o = shifted q done all t o
pushed-Ordered (executing (some u)) q done all t (rest, e, o, f) =
    (rest ++ t ∷ [], ap (λ x. x ++ t ∷ []) e, shifted (u ∷ rest) done all t o, f)
pushed-Ordered (removing none) q done all t o = shifted q done all t o
pushed-Ordered (removing (some u)) q done all t (rest, e, o) =
    (rest ++ t ∷ [], ap (λ x. x ++ t ∷ []) e, shifted rest done all t o)
pushed-Ordered waiting q done all t o = shifted q done all t o
pushed-Ordered entering q done all t o = shifted q done all t o
pushed-Ordered blocked q done all t o = shifted q done all t o
pushed-Ordered stopped q done all t o = shifted q done all t o
pushed-Ordered undefined q done all t o = o

woken-Ordered :
    (p : Phase) (q done all : List Task) → Ordered p q done all → Ordered (woken p) q done all
woken-Ordered grabbing q done all o = o
woken-Ordered (executing t) q done all o = o
woken-Ordered (removing t) q done all o = o
woken-Ordered waiting q done all o = o
woken-Ordered entering q done all o = o
woken-Ordered blocked q done all o = o
woken-Ordered stopped q done all o = o
woken-Ordered undefined q done all o = o

pub move-IsOrdered : (m : Move) (s : State) → IsPlain m → IsOrdered s → IsOrdered (move m s)
unfolding move run
move-IsOrdered runs s p (o, h) =
    run_phase-IsOrdered s.worker.affinity s.worker.should_stop s.executed s.pushed s.phase
      s.worker.queue o h
move-IsOrdered (pushes t) s p (o, h) = (
  pushed-Ordered s.phase s.worker.queue s.executed s.pushed t o,
  All-append HasFunction s.worker.queue (t ∷ []) h (p, tt),
)
move-IsOrdered clears s p (o, h) = ground arith
move-IsOrdered stops s p (o, h) = (o, h)
move-IsOrdered signals s p (o, h) = (woken-Ordered s.phase s.worker.queue s.executed s.pushed o, h)

pub moves-IsOrdered :
    (ms : List Move) (s : State) → All IsPlain ms → IsOrdered s → IsOrdered (moves ms s)
unfolding moves
moves-IsOrdered [] s p o = o
moves-IsOrdered (m ∷ ms) s (p, ps) o = moves-IsOrdered ms (move m s) ps (move-IsOrdered m s p o)

abbrev pub is_defined : Phase → Bool
is_defined undefined = false
is_defined p = true

Ordered-prefix :
    (p : Phase) (q done all : List Task)
    → Ordered p q done all
    → (is_defined p ≡ true) × (rest : List Task) × (all ≡ done ++ rest)
Ordered-prefix grabbing q done all o = (refl, q, o)
Ordered-prefix (executing none) q done all o = (refl, q, o)
Ordered-prefix (executing (some t)) q done all (rest, e, o, f) = (refl, t ∷ rest, o)
Ordered-prefix (removing none) q done all o = (refl, q, o)
Ordered-prefix (removing (some t)) q done all (rest, e, o) = (refl, rest, o)
Ordered-prefix waiting q done all o = (refl, q, o)
Ordered-prefix entering q done all o = (refl, q, o)
Ordered-prefix blocked q done all o = (refl, q, o)
Ordered-prefix stopped q done all o = (refl, q, o)
Ordered-prefix undefined q done all o = ground arith

-- However the steps of the thread and the pushes of others come, as long as the queue is not cleared
-- and each task has a function, the thread never pops an empty queue, and the tasks that it has
-- executed are the first of those that were pushed, each once and in their order.
pub moves_prefix :
    (affinity : ℕ) (ms : List Move)
    → All IsPlain ms
    → let s = moves ms (start affinity) in
      (is_defined s.phase ≡ true) × (rest : List Task) × (s.pushed ≡ s.executed ++ rest)
unfolding start
moves_prefix affinity ms p =
    let s = moves ms (start affinity) in
    Ordered-prefix s.phase s.worker.queue s.executed s.pushed
      (moves-IsOrdered ms (start affinity) p (refl, tt)).0
