-- ===== src/OverlappedQueue/Misuse.antt =====
-- source/windows/overlapped-queue.cpp: the return of an object that is not in use.
use datapath.Base.{times, ℕ, ◌≡◌, refl, List, [], ◌∷◌, arith}
use datapath.OverlappedQueue.{OverlappedQueue, alloc, free, erase_first}
use datapath.OverlappedQueue.Ownership.{IsOwned, known}

erase_first-absent : (obj : ℕ) (xs : List ℕ) → times obj xs ≡ 0 → erase_first obj xs ≡ xs
unfolding erase_first
erase_first-absent obj [] h = refl
erase_first-absent obj (x ∷ xs) h = ground (arith, erase_first-absent obj xs)

free-known :
    (q : OverlappedQueue) (obj : ℕ)
    → q.free_objs ≡ obj ∷ []
    → times obj q.used_objs ≡ 0
    → known (free q obj) obj ≡ 2
unfolding free
free-known q obj f h = rw (f, erase_first-absent obj q.used_objs h) (ground arith)

-- Returned while it is not in use, an object is put into the pool all the same: if the pool knew it
-- already, it knows it twice and is no longer owned. Where it was the only free object, the next
-- two allocations both give it out.
free_unused :
    (q : OverlappedQueue) (obj : ℕ)
    → q.free_objs ≡ obj ∷ []
    → times obj q.used_objs ≡ 0
    → (known (free q obj) obj ≡ 2)
      × ¬ IsOwned (free q obj)
      × ((alloc (free q obj)).0 ≡ obj)
      × ((alloc (alloc (free q obj)).1).0 ≡ obj)
unfolding free alloc
free_unused q obj f h =
    (free-known q obj f h, (λ v. omega (arith, v.single obj, free-known q obj f h)), rw f, rw f)
