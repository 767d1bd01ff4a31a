-- ===== src/ThreadPool/Choice.antt =====
-- source/threadpool.cpp, pool::push: the worker that gets a task.
use datapath.Base.{
  ltb, if◌then◌else◌, Bool-cases, length, All, All-append, All-middle, ℕ, ◌+◌, ◌≤◌, ◌<◌, ◌≡◌, refl,
  sym, ap, bit_and, Bool, subst, ◌∙◌, ◌⊎◌, inl, inr, true, false, ◌&&◌, Option, none, some, List,
  [], ◌∷◌, ◌++◌, append_assoc, append-nil, arith,
}
use datapath.ThreadPool.{
  Task, Worker, Pool, returned, uint64_max, fits_none, matches, find_lowest, push_to, worker_push,
  push, push_lowest,
}

-- A map: the keys are in order and each is there once, from `n` on.
abbrev pub IsKeyed : ℕ → List (ℕ × Worker) → Type 0
IsKeyed n [] = Unit
IsKeyed n (kv ∷ kvs) = (n ≤ kv.0) × IsKeyed (kv.0 + 1) kvs

-- The masks have a bit in common.
abbrev overlaps : ℕ → Worker → Bool
overlaps mask w = ltb 0 (bit_and w.affinity mask)

matches-overlaps : (mask : ℕ) (w : Worker) → matches mask w ≡ overlaps mask w
matches-overlaps mask w = ground arith

module _ (mask : ℕ) where
  -- A worker that does not match, or has more than `n` tasks, or at least `n`.
  abbrev IsLonger : ℕ → ℕ × Worker → Type 0
  IsLonger n kv = (overlaps mask kv.1 ≡ false) ⊎ (n < length kv.1.queue)

  abbrev IsNoShorter : ℕ → ℕ × Worker → Type 0
  IsNoShorter n kv = (overlaps mask kv.1 ≡ false) ⊎ (n ≤ length kv.1.queue)

  abbrev pub IsUnmatched : ℕ × Worker → Type 0
  IsUnmatched kv = overlaps mask kv.1 ≡ false

  -- The first of the matching workers with the shortest queue stands between two parts of the list.
  pub record Lowest (kvs : List (ℕ × Worker)) : Type 0 where
    pub before : List (ℕ × Worker)
    pub id : ℕ
    pub worker : Worker
    pub after : List (ℕ × Worker)
    pub split : kvs ≡ before ++ (id, worker) ∷ after
    pub fits : overlaps mask worker ≡ true
    pub first : All (IsLonger (length worker.queue)) before
    pub least : All (IsNoShorter (length worker.queue)) after

  -- What the loop has found among the workers so far.
  abbrev Best : List (ℕ × Worker) → Option ℕ × ℕ → Type 0
  Best seen best =
      (All IsUnmatched seen × (best ≡ (none, uint64_max)))
      ⊎ ((l : Lowest seen) × (best ≡ (some l.id, length l.worker.queue)))

  IsUnmatched-IsLonger : (n : ℕ) (xs : List (ℕ × Worker)) → All IsUnmatched xs → All (IsLonger n) xs
  IsUnmatched-IsLonger n [] h = tt
  IsUnmatched-IsLonger n (x ∷ xs) h = (inl h.0, IsUnmatched-IsLonger n xs h.1)

  IsNoShorter-IsLonger :
      (n m : ℕ) (xs : List (ℕ × Worker)) → n < m → All (IsNoShorter m) xs → All (IsLonger n) xs
  IsNoShorter-IsLonger n m [] lt h = tt
  IsNoShorter-IsLonger n m (x ∷ xs) lt h = (ground (arith, h.0), IsNoShorter-IsLonger n m xs lt h.1)

  IsLonger-weaken :
      (n m : ℕ) (xs : List (ℕ × Worker)) → n < m → All (IsLonger m) xs → All (IsLonger n) xs
  IsLonger-weaken n m [] lt h = tt
  IsLonger-weaken n m (x ∷ xs) lt h = (ground (arith, h.0), IsLonger-weaken n m xs lt h.1)

  take_new :
      (seen : List (ℕ × Worker)) (kv : ℕ × Worker) (best : Option ℕ × ℕ)
      → Best seen best
      → overlaps mask kv.1 ≡ true
      → length kv.1.queue < best.1
      → Best (seen ++ kv ∷ []) (some kv.0, length kv.1.queue)
  take_new seen kv best b m lt = inr (
    record {
      before = seen;
      id = kv.0;
      worker = kv.1;
      after = [];
      split = refl;
      fits = m;
      first = elim b [
        | inl (u, e) ↦ IsUnmatched-IsLonger (length kv.1.queue) seen u
        | inr (l, e) ↦
            let shorter : length kv.1.queue < length l.worker.queue =
              subst (λ x. length kv.1.queue < x.1) e lt in
            subst (All (IsLonger (length kv.1.queue))) (sym l.split) (
              All-append (IsLonger (length kv.1.queue)) l.before ((l.id, l.worker) ∷ l.after)
                (IsLonger-weaken (length kv.1.queue) (length l.worker.queue) l.before shorter
                  l.first)
                (
                  inr shorter,
                  IsNoShorter-IsLonger (length kv.1.queue) (length l.worker.queue) l.after shorter
                      l.least,
                ))
      ];
      least = tt;
    },
    refl,
  )

  keep_old :
      (seen : List (ℕ × Worker)) (kv : ℕ × Worker) (best : Option ℕ × ℕ)
      → Best seen best
      → length kv.1.queue < uint64_max
      → (overlaps mask kv.1 ≡ false) ⊎ (best.1 ≤ length kv.1.queue)
      → Best (seen ++ kv ∷ []) best
  keep_old seen kv best (inl (u, e)) small (inl m) =
      inl (All-append IsUnmatched seen (kv ∷ []) u (m, tt), e)
  keep_old seen kv best (inl (u, e)) small (inr le) =
      absurd (omega (arith, subst (λ x. x.1 ≤ length kv.1.queue) e le))
  keep_old seen kv best (inr (l, e)) small c = inr (
    record {
      before = l.before;
      id = l.id;
      worker = l.worker;
      after = l.after ++ kv ∷ [];
      split =
          ap (λ x. x ++ kv ∷ []) l.split
          ∙ append_assoc l.before ((l.id, l.worker) ∷ l.after) (kv ∷ []);
      fits = l.fits;
      first = l.first;
      least =
          All-append (IsNoShorter (length l.worker.queue)) l.after (kv ∷ []) l.least
            (subst (λ x. (overlaps mask kv.1 ≡ false) ⊎ (x.1 ≤ length kv.1.queue)) e c, tt);
    },
    e,
  )

  find_lowest-Best :
      (kvs seen : List (ℕ × Worker)) (best : Option ℕ × ℕ)
      → Best seen best
      → All (λ kv. length kv.1.queue < uint64_max) kvs
      → Best (seen ++ kvs) (find_lowest mask kvs best)
  unfolding find_lowest
  find_lowest-Best [] seen best b small = subst (λ x. Best x best) (sym (append-nil seen)) b
  find_lowest-Best (kv ∷ kvs) seen best b small =
      let step : Best (seen ++ kv ∷ []) (
          if matches mask kv.1 && ltb (length kv.1.queue) best.1
          then (some kv.0, length kv.1.queue)
          else best) =
        elim (Bool-cases (matches mask kv.1)) [
          | inr m ↦
              rw m (keep_old seen kv best b small.0 (inl (sym (matches-overlaps mask kv.1) ∙ m)))
          | inl m ↦ elim (Bool-cases (ltb (length kv.1.queue) best.1)) [
            | inl lt ↦
                rw (m, lt)
                  (take_new seen kv best b (sym (matches-overlaps mask kv.1) ∙ m)
                    (ground (arith, lt)))
            | inr ge ↦ rw (m, ge) (keep_old seen kv best b small.0 (inr (ground (arith, ge))))
          ]
        ] in
      let best' =
        if matches mask kv.1 && ltb (length kv.1.queue) best.1
        then (some kv.0, length kv.1.queue)
        else best in
      subst (λ x. Best x (find_lowest mask kvs best')) (append_assoc seen (kv ∷ []) kvs)
        (find_lowest-Best kvs (seen ++ kv ∷ []) best' step small.1)

keyed-le :
    (before after : List (ℕ × Worker)) (n id : ℕ) (w : Worker)
    → IsKeyed n (before ++ (id, w) ∷ after)
    → n ≤ id
keyed-le [] after n id w h = h.0
keyed-le (b ∷ bs) after n id w h = omega (arith, keyed-le bs after (b.0 + 1) id w h.1, h.0)

push_to-split :
    (before after : List (ℕ × Worker)) (n id : ℕ) (w : Worker) (t : Task)
    → IsKeyed n (before ++ (id, w) ∷ after)
    → push_to id t (before ++ (id, w) ∷ after) ≡ before ++ (id, worker_push t w) ∷ after
unfolding push_to
push_to-split [] after n id w t h = ground arith
push_to-split (b ∷ bs) after n id w t h =
    ground
      (arith, push_to-split bs after (b.0 + 1) id w t h.1, keyed-le bs after (b.0 + 1) id w h.1)

push_lowest-some :
    (t : Task) (p : Pool) (id count : ℕ)
    → count < uint64_max
    → push_lowest t p (some id, count) ≡ (true, record { workers = push_to id t p.workers })
push_lowest-some t p id count short = ground arith

-- In a pool whose queues are shorter than 2 ^ 64 - 1, a task with a function whose mask passes the
-- test of the pool is refused if no worker matches the mask, and then the pool stays as it is.
-- Otherwise it is put at the end of the queue of one matching worker, and nothing else changes: no
-- matching worker has a shorter queue, and those before it have longer ones.
pub push_cases :
    (p : Pool) (t : Task) (f : ℕ)
    → IsKeyed 0 p.workers
    → All (λ kv. length kv.1.queue < uint64_max) p.workers
    → t.function ≡ some f
    → fits_none t.mask p ≡ false
    → (All (IsUnmatched t.mask) p.workers × (push p (some t) ≡ returned (false, p)))
      ⊎ ((l : Lowest t.mask p.workers) × (push p (some t)
            ≡ returned
                (true, record { workers = l.before ++ (l.id, worker_push t l.worker) ∷ l.after })))
unfolding push
push_cases p t f keyed small has fits =
    let found = find_lowest t.mask p.workers (none, uint64_max) in
    let run : push p (some t) ≡ returned (push_lowest t p found) = rw (has, fits) refl in
    elim (find_lowest-Best t.mask p.workers [] (none, uint64_max) (inl (tt, refl)) small) [
      | inl (u, e) ↦ inl (u, run ∙ ap (λ x. returned (push_lowest t p x)) e)
      | inr (l, e) ↦
          let short =
            All-middle (λ kv. length kv.1.queue < uint64_max) l.before l.after (l.id, l.worker)
              (subst (All λ kv. length kv.1.queue < uint64_max) l.split small) in
          let pushed =
            ap (push_to l.id t) l.split
            ∙ push_to-split l.before l.after 0 l.id l.worker t (subst (IsKeyed 0) l.split keyed) in
          inr (
            l,
            run
                ∙ ap (λ x. returned (push_lowest t p x)) e
                ∙ ap returned (push_lowest-some t p l.id (length l.worker.queue) short)
                ∙ ap (λ x. returned (true, record { workers = x })) pushed,
          )
    ]
