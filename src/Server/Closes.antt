-- ===== src/Server/Closes.antt =====
-- source/windows/server.cpp: the handles that a list of calls closes.
use datapath.Base.{◌==◌, if◌then◌else◌, times, ℕ, suc, ◌+◌, ◌≡◌, refl, List, [], ◌∷◌, ◌++◌, arith}
use datapath.Server.{
  Call, disconnect_named_pipe, close_handle, create_named_pipe, connect_named_pipe, of_overlapped,
  of_socket, close_handles,
}

-- How often a handle is closed.
abbrev pub closes : ℕ → List Call → ℕ
closes h [] = 0
closes h (close_handle k ∷ calls) = if k == h then suc (closes h calls) else closes h calls
closes h (create_named_pipe name initial ∷ calls) = closes h calls
closes h (connect_named_pipe k ∷ calls) = closes h calls
closes h (disconnect_named_pipe k ∷ calls) = closes h calls
closes h (of_overlapped c ∷ calls) = closes h calls
closes h (of_socket c ∷ calls) = closes h calls

pub closes-append : (h : ℕ) (xs ys : List Call) → closes h (xs ++ ys) ≡ closes h xs + closes h ys
closes-append h [] ys = omega arith
closes-append h (close_handle k ∷ calls) ys = ground (arith, closes-append h calls ys)
closes-append h (create_named_pipe name initial ∷ calls) ys = closes-append h calls ys
closes-append h (connect_named_pipe k ∷ calls) ys = closes-append h calls ys
closes-append h (disconnect_named_pipe k ∷ calls) ys = closes-append h calls ys
closes-append h (of_overlapped c ∷ calls) ys = closes-append h calls ys
closes-append h (of_socket c ∷ calls) ys = closes-append h calls ys

pub closes-close_handles : (h : ℕ) (hs : List ℕ) → closes h (close_handles hs) ≡ times h hs
unfolding close_handles
closes-close_handles h [] = refl
closes-close_handles h (k ∷ hs) = ground (arith, closes-close_handles h hs)
