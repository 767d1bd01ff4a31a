-- ===== src/OverlappedQueue/Tests.antt =====
-- The pool at concrete inputs: two objects, 10 in use and 11 free.
use datapath.Base.{times, ◌<◌, ◌≡◌, refl, subst, [], ◌∷◌, arith}
use datapath.OverlappedQueue.{OverlappedQueue, construct, alloc, free}
use datapath.OverlappedQueue.Ownership.{
  alloc-Allocates, IsOwned, construct-IsOwned, Reach-IsOwned, returned, allocated, made,
}

abbrev one_used : OverlappedQueue
one_used = record { free_objs = 11 ∷ []; used_objs = 10 ∷ []; next_obj = 12 }

pool : OverlappedQueue
pool = construct 2 10

pool_lem : (alloc pool).1 ≡ one_used
unfolding pool construct alloc
pool_lem = refl

one_used-IsOwned : IsOwned one_used
unfolding pool construct
one_used-IsOwned = subst IsOwned pool_lem (alloc-Allocates pool (construct-IsOwned 2 10)).owned

first_in_use : 0 < times 10 (alloc (construct 2 10)).1.used_objs
unfolding construct alloc
first_in_use = omega arith

Reach-IsOwned_example : IsOwned (free (alloc (construct 2 10)).1 10)
Reach-IsOwned_example =
    Reach-IsOwned {backlog = 2} {first_obj = 10} (returned 10 (allocated made) first_in_use)
