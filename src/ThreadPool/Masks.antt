-- ===== src/ThreadPool/Masks.antt =====
-- source/threadpool.cpp: the masks of the workers, and the test of a mask.
use datapath.Base.{
  ltb, ◌==◌, Bool-cases, Option-cases, length, All, ℕ, zero, suc, ◌+◌, ◌-◌, ◌^◌, ◌≤◌, ◌<◌, bit_and,
  ◌≡◌, refl, sym, ap, ◌∙◌, ◌⊎◌, inl, inr, Bool, true, false, ◌&&◌, none, some, List, [], ◌∷◌, ◌++◌,
  append_assoc, append-nil, arith,
}
use datapath.ThreadPool.Choice.{IsKeyed}
use datapath.ThreadPool.{
  size_mask, Task, Worker, Pool, thrown, shift_one, make_workers, construct, fits_none, push,
}

-- What holds of all numbers below a bound.
abbrev below : ℕ → (ℕ → Bool) → Bool
below zero P = true
below (suc n) P = P n && below n P

below_lem : (n : ℕ) (P : ℕ → Bool) (k : ℕ) → below n P ≡ true → k < n → P k ≡ true
below_lem zero P k h lt = absurd (omega arith)
below_lem (suc n) P k h lt = ground (arith, below_lem n P k)

-- The bit of the last of `k + 1` workers is no bit of the number of the others.
abbrev last_bit : ℕ → Bool
last_bit k = bit_and (2 ^ k) k == 0

last_bit_table : below 64 last_bit ≡ true
last_bit_table = refl

shift_one-cases :
    (idx : ℕ)
    → ((idx < 32) × (a : ℕ) × (shift_one idx ≡ some a)) ⊎ ((32 ≤ idx) × (shift_one idx ≡ none))
unfolding shift_one
shift_one-cases idx = elim (Bool-cases (ltb idx 31)) [
  | inl lt ↦ inl (ground (arith, lt), 2 ^ idx, rw lt)
  | inr ge ↦ elim (Bool-cases (idx == 31)) [
    | inl e ↦ inl (ground (arith, e), 2 ^ 64 - 2 ^ 31, rw (ge, e))
    | inr ne ↦ inr (ground (arith, ge, ne), rw (ge, ne))
  ]
]

make_workers-wide :
    (n idx : ℕ) (workers : List (ℕ × Worker))
    → idx ≤ 32
    → 32 < idx + n
    → make_workers n idx workers ≡ none
unfolding make_workers
make_workers-wide zero idx workers le h = absurd (omega arith)
make_workers-wide (suc n) idx workers le h = elim (shift_one-cases idx) [
  | inl (lt, a, e) ↦ rw e (make_workers-wide n (idx + 1) _ (omega arith) (omega arith))
  | inr (ge, e) ↦ rw e refl
]

abbrev pub IsIdle : ℕ × Worker → Type 0
IsIdle kv = kv.1.queue ≡ []

make_workers-some :
    (n idx : ℕ) (workers : List (ℕ × Worker))
    → idx + n ≤ 32
    → (made : List (ℕ × Worker)) × (make_workers n idx workers ≡ some (workers ++ made))
      × (length made ≡ n)
      × IsKeyed idx made
      × All IsIdle made
unfolding make_workers
make_workers-some zero idx workers h = ([], ap some (sym (append-nil workers)), refl, tt, tt)
make_workers-some (suc n) idx workers h = elim (shift_one-cases idx) [
  | inl (lt, a, e) ↦
      let w : ℕ × Worker = (idx, record { affinity = a; should_stop = false; queue = [] }) in
      let (made, ran, count, keyed, idle) =
        make_workers-some n (idx + 1) (workers ++ w ∷ []) (omega arith) in
      (
        w ∷ made,
        rw e (ran ∙ ap some (append_assoc workers (w ∷ []) made)),
        ap suc count,
        (omega arith, keyed),
        (refl, idle),
      )
  | inr (ge, e) ↦ absurd (omega arith)
]

-- A machine with up to 32 hardware threads gets a pool of as many workers, keyed in order and with
-- empty queues. With more, the shift of the constructor has behaviour that the language does not
-- define.
construct_cases :
    (n : ℕ)
    → ((n ≤ 32)
        × (p : Pool) × (construct n ≡ some p)
        × (length p.workers ≡ n)
        × IsKeyed 0 p.workers
        × All IsIdle p.workers)
      ⊎ ((32 < n) × (construct n ≡ none))
unfolding construct
construct_cases n = elim (Bool-cases (ltb n 33)) [
  | inl lt ↦
      let (made, ran, count, keyed, idle) = make_workers-some n 0 [] (ground (arith, lt)) in
      inl (ground (arith, lt), record { workers = made }, rw ran refl, count, keyed, idle)
  | inr ge ↦
      inr
        (ground (arith, ge), rw (make_workers-wide n 0 [] (omega arith) (ground (arith, ge))) refl)
]

-- A task that may only run on the last worker of a pool, by the mask of that worker's bit, is thrown
-- out, for each number of workers up to 64, so also where it is the only one.
push_last :
    (p : Pool) (t : Task) (k : ℕ)
    → k < 64
    → length p.workers ≡ k + 1
    → t.mask ≡ 2 ^ k
    → push p (some t) ≡ thrown
unfolding push fits_none
push_last p t k h n only =
    let tested : last_bit k ≡ true = below_lem 64 last_bit k last_bit_table h in
    let count : size_mask p ≡ k = rw n (omega arith) in
    elim (Option-cases t.function) [
      | inl e ↦ rw e refl
      | inr (f, e) ↦ rw (e, only, count, tested) refl
    ]
