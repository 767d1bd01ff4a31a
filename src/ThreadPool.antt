-- ===== src/ThreadPool.antt =====
-- include/threadpool.hpp and source/threadpool.cpp: a pool of workers, each with a queue of tasks.
-- A function is a number by which the log of a worker names it; what it does, the order of the
-- queues of different workers, and the affinity of the threads are not modelled. The thread of a
-- worker is in ThreadPool.Runner.
pub mod Runner
pub mod Order
pub mod Drain
pub mod Steps
pub mod Stop
pub mod Ends
pub mod Choice
pub mod Masks
pub mod Tests
use datapath.Base.{
  ltb, ◌==◌, if◌then◌else◌, ◌>>=◌, length, ℕ, zero, suc, ◌+◌, ◌-◌, ◌%◌, ◌^◌, bit_and, Bool, true,
  false, not, ◌&&◌, Option, none, some, List, [], ◌∷◌, ◌++◌,
}

-- A null function is `none`.
pub record Task : Type 0 where
  pub function : Option ℕ
  pub mask : ℕ

pub record Worker : Type 0 where
  pub affinity : ℕ
  pub should_stop : Bool
  pub queue : List Task

-- The map of the workers, by number, in order.
pub record Pool : Type 0 where
  pub workers : List (ℕ × Worker)

-- `std::numeric_limits<uint64_t>::max()`, which is that of size_t too.
abbrev pub uint64_max : ℕ
uint64_max = 2 ^ 64 - 1

abbrev default_mask : ℕ
default_mask = uint64_max

-- `1 << idx` of an int, converted to uint64_t. Bit 31 is the sign; from 32 on it is not defined.
unfoldable pub shift_one : ℕ → Option ℕ
shift_one idx =
    if ltb idx 31 then some (2 ^ idx) else if idx == 31 then some (2 ^ 64 - 2 ^ 31) else none

-- The constructor of the pool, where as many threads are left to make; `none` is behaviour that the
-- language does not define.
unfoldable pub make_workers : ℕ → ℕ → List (ℕ × Worker) → Option (List (ℕ × Worker))
unfolding shift_one
make_workers zero idx workers = some workers
make_workers (suc n) idx workers = shift_one idx >>= λ affinity.
    make_workers n (idx + 1)
      (workers ++ (idx, record { affinity = affinity; should_stop = false; queue = [] }) ∷ [])

unfoldable pub construct : ℕ → Option Pool
unfolding make_workers
construct hardware_concurrency =
    make_workers hardware_concurrency 0 [] >>= λ workers. some (record { workers = workers })

-- The methods of a worker.
unfoldable pub worker_clear : Worker → Worker
worker_clear w = record w { queue = [] }

unfoldable pub worker_push : Task → Worker → Worker
worker_push t w = record w { queue = w.queue ++ t ∷ [] }

-- `thrown` is an invalid argument.
pub data Result {ℓ} (A : Type ℓ) : Type ℓ where
  thrown : Result A
  returned : A → Result A

-- `_workers.size() - 1` of size_t.
abbrev pub size_mask : Pool → ℕ
size_mask p = (length p.workers + (2 ^ 64 - 1)) % 2 ^ 64

-- The test of `push` and `clear`.
unfoldable pub fits_none : ℕ → Pool → Bool
fits_none mask p = bit_and mask (size_mask p) == 0

abbrev pub matches : ℕ → Worker → Bool
matches mask w = not (bit_and w.affinity mask == 0)

-- The loop of `push`: the worker with the shortest queue so far, and its length.
unfoldable pub find_lowest : ℕ → List (ℕ × Worker) → Option ℕ × ℕ → Option ℕ × ℕ
find_lowest mask [] best = best
find_lowest mask (kv ∷ kvs) best = find_lowest mask kvs (
    if matches mask kv.1 && ltb (length kv.1.queue) best.1
    then (some kv.0, length kv.1.queue)
    else best)

-- `_workers[id]->push(task)`. An id that is not there would be null; `find_lowest` gives none.
unfoldable pub push_to : ℕ → Task → List (ℕ × Worker) → List (ℕ × Worker)
unfolding worker_push
push_to id t [] = []
push_to id t (kv ∷ kvs) =
    if kv.0 == id then (kv.0, worker_push t kv.1) ∷ kvs else kv ∷ push_to id t kvs

abbrev push_lowest : Task → Pool → Option ℕ × ℕ → Bool × Pool
push_lowest t p (none, count) = (false, p)
push_lowest t p (some id, count) =
    if count == uint64_max then (false, p) else (true, record { workers = push_to id t p.workers })

abbrev push_valid : Task → Pool → Option ℕ → Result (Bool × Pool)
push_valid t p none = thrown
push_valid t p (some f) =
    if fits_none t.mask p
    then thrown
    else returned (push_lowest t p (find_lowest t.mask p.workers (none, uint64_max)))

-- `push`; a null pointer is `none`.
unfoldable pub push : Pool → Option Task → Result (Bool × Pool)
unfolding fits_none find_lowest push_to
push p none = thrown
push p (some t) = push_valid t p t.function

unfoldable pub clear_matching : ℕ → List (ℕ × Worker) → List (ℕ × Worker)
unfolding worker_clear
clear_matching mask [] = []
clear_matching mask (kv ∷ kvs) =
    (kv.0, if matches mask kv.1 then worker_clear kv.1 else kv.1) ∷ clear_matching mask kvs

unfoldable clear : Pool → ℕ → Result Pool
unfolding fits_none clear_matching
clear p mask =
    if fits_none mask p
    then thrown
    else returned (record { workers = clear_matching mask p.workers })
