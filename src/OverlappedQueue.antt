-- ===== src/OverlappedQueue.antt =====
-- source/windows/overlapped-queue.hpp and overlapped-queue.cpp: a pool of operations.
-- An object is a number, and `next_obj` is the number of the next one that is made. The lock makes
-- each operation a step of its own. The block comment at the end of the .cpp is no code.
pub mod Ownership
pub mod Misuse
pub mod Tests
use datapath.Base.{◌==◌, if◌then◌else◌, ℕ, zero, suc, ◌+◌, List, [], ◌∷◌, ◌++◌}

pub record OverlappedQueue : Type 0 where
  pub free_objs : List ℕ
  pub used_objs : List ℕ
  pub next_obj : ℕ

-- `push` of a new object, `n` times.
unfoldable pub stock : ℕ → OverlappedQueue → OverlappedQueue
stock zero q = q
stock (suc n) q =
    stock n (record q { free_objs = q.free_objs ++ q.next_obj ∷ []; next_obj = q.next_obj + 1 })

-- The constructor; the source's default for the backlog is 8.
unfoldable pub construct : ℕ → ℕ → OverlappedQueue
unfolding stock
construct backlog first_obj =
    stock backlog (record { free_objs = []; used_objs = []; next_obj = first_obj })

abbrev take_free : OverlappedQueue → List ℕ → ℕ × OverlappedQueue
take_free q [] =
    (q.next_obj, record q { used_objs = q.used_objs ++ q.next_obj ∷ []; next_obj = q.next_obj + 1 })
take_free q (obj ∷ rest) = (obj, record q { free_objs = rest; used_objs = q.used_objs ++ obj ∷ [] })

unfoldable pub alloc : OverlappedQueue → ℕ × OverlappedQueue
alloc q = take_free q q.free_objs

-- The loop of `free`: the first entry that is the object goes.
unfoldable pub erase_first : ℕ → List ℕ → List ℕ
erase_first obj [] = []
erase_first obj (x ∷ xs) = if x == obj then xs else x ∷ erase_first obj xs

unfoldable pub free : OverlappedQueue → ℕ → OverlappedQueue
unfolding erase_first
free q obj = record q {
  free_objs = q.free_objs ++ obj ∷ [];
  used_objs = erase_first obj q.used_objs;
}

-- The destructor drops both lists.
unfoldable pub destroy : OverlappedQueue → OverlappedQueue
destroy q = record q { free_objs = []; used_objs = [] }
