-- ===== src/OverlappedQueue/Ownership.antt =====
-- source/windows/overlapped-queue.cpp: who holds an object.
use datapath.Base.{
  times, times-append, ℕ, zero, suc, ◌+◌, ◌≤◌, ◌<◌, ◌≡◌, refl, List, [], ◌∷◌, ◌++◌, arith,
}
use datapath.OverlappedQueue.{
  OverlappedQueue, stock, erase_first, take_free, construct, alloc, free,
}

-- How often the pool knows of an object.
abbrev pub known : OverlappedQueue → ℕ → ℕ
known q a = times a q.free_objs + times a q.used_objs

-- No object is known twice, and none that has not been made.
pub record IsOwned (q : OverlappedQueue) : Type 0 where
  pub single : (a : ℕ) → known q a ≤ 1
  pub made : (a : ℕ) → q.next_obj ≤ a → known q a ≡ 0

times-erase_first :
    (a obj : ℕ) (xs : List ℕ)
    → 0 < times obj xs
    → times a (erase_first obj xs) + times a (obj ∷ []) ≡ times a xs
unfolding erase_first
times-erase_first a obj [] h = absurd (omega arith)
times-erase_first a obj (x ∷ xs) h = ground (arith, times-erase_first a obj xs)

stock-IsOwned : (n : ℕ) (q : OverlappedQueue) → IsOwned q → IsOwned (stock n q)
unfolding stock
stock-IsOwned zero q v = v
stock-IsOwned (suc n) q v = stock-IsOwned n _ (record {
  single = λ a. ground (arith, v.single a, v.made a, times-append a q.free_objs (q.next_obj ∷ []));
  made = λ a h. ground (arith, v.made a, times-append a q.free_objs (q.next_obj ∷ []));
})

-- What an allocation does to the objects in use, where `obj` is the result.
pub record Allocates (q : OverlappedQueue) (obj : ℕ) (q' : OverlappedQueue) : Type 0 where
  pub owned : IsOwned q'
  pub was_unused : times obj q.used_objs ≡ 0
  pub in_use : (a : ℕ) → times a q'.used_objs ≡ times a q.used_objs + times a (obj ∷ [])

take_free-Allocates :
    (q : OverlappedQueue) (fs : List ℕ)
    → q.free_objs ≡ fs
    → IsOwned q
    → Allocates q (take_free q fs).0 (take_free q fs).1
take_free-Allocates q [] e v = record {
  owned = record {
    single =
        λ a. ground (arith, v.single a, v.made a, times-append a q.used_objs (q.next_obj ∷ []));
    made = λ a h. ground (arith, v.made a, times-append a q.used_objs (q.next_obj ∷ []));
  };
  was_unused = ground (arith, v.made q.next_obj);
  in_use = λ a. times-append a q.used_objs (q.next_obj ∷ []);
}
take_free-Allocates q (f ∷ fs) e v = record {
  owned = record {
    single = λ a. ground (arith, v.single a, times-append a q.used_objs (f ∷ []));
    made = λ a h. ground (arith, v.made a, times-append a q.used_objs (f ∷ []));
  };
  was_unused = ground (arith, v.single f);
  in_use = λ a. times-append a q.used_objs (f ∷ []);
}

-- On a pool that knows no object twice and none that has not been made, an allocation gives out an
-- object that was not in use, and makes it one more object in use, with the others as they were;
-- the pool is again such a pool.
pub alloc-Allocates : (q : OverlappedQueue) → IsOwned q → Allocates q (alloc q).0 (alloc q).1
unfolding alloc
alloc-Allocates q v = take_free-Allocates q q.free_objs refl v

-- On such a pool the return of an object in use keeps the pool so, takes exactly that object out of
-- use, and loses and duplicates nothing.
pub free-IsOwned :
    (q : OverlappedQueue) (obj : ℕ)
    → IsOwned q
    → 0 < times obj q.used_objs
    → IsOwned (free q obj)
      × (times obj (free q obj).used_objs ≡ 0)
      × ((a : ℕ) → known (free q obj) a ≡ known q a)
      × ((a : ℕ) → times a (free q obj).used_objs + times a (obj ∷ []) ≡ times a q.used_objs)
unfolding free
free-IsOwned q obj v h = (
  record {
    single = λ a. omega (arith, same a, v.single a);
    made = λ a m. omega (arith, same a, v.made a m);
  },
  ground (arith, erased obj, v.single obj),
  same,
  erased,
)
  where
    erased :
        (a : ℕ) → times a (erase_first obj q.used_objs) + times a (obj ∷ []) ≡ times a q.used_objs
    erased a = times-erase_first a obj q.used_objs h

    same :
        (a : ℕ)
        → times a (q.free_objs ++ obj ∷ []) + times a (erase_first obj q.used_objs) ≡ known q a
    same a = omega (arith, erased a, times-append a q.free_objs (obj ∷ []))

pub construct-IsOwned : (backlog first_obj : ℕ) → IsOwned (construct backlog first_obj)
unfolding construct
construct-IsOwned backlog first_obj =
    stock-IsOwned backlog _ (record { single = λ a. omega arith; made = λ a h. refl })

-- A history of the pool in which clients return only what is in use.
pub data Reach (backlog first_obj : ℕ) : OverlappedQueue → Type 0 where
  made : Reach backlog first_obj (construct backlog first_obj)
  allocated :
      {q : OverlappedQueue} → Reach backlog first_obj q → Reach backlog first_obj (alloc q).1
  returned :
      {q : OverlappedQueue} (obj : ℕ)
      → Reach backlog first_obj q
      → 0 < times obj q.used_objs
      → Reach backlog first_obj (free q obj)

-- After any history of a pool in which only objects in use are returned, no object is known twice,
-- so none is in use for two clients or at once free and in use.
pub Reach-IsOwned :
    {backlog first_obj : ℕ} {q : OverlappedQueue} → Reach backlog first_obj q → IsOwned q
Reach-IsOwned {backlog} {first_obj} made = construct-IsOwned backlog first_obj
Reach-IsOwned (allocated {q} r) = (alloc-Allocates q (Reach-IsOwned r)).owned
Reach-IsOwned (returned {q} obj r h) = (free-IsOwned q obj (Reach-IsOwned r) h).0
