-- ===== src/Server/Stages.antt =====
-- source/windows/server.cpp, server::_watcher: what a round does to one handle, whatever the others are.
use datapath.Base.{
  times, ℕ, zero, suc, ◌+◌, ◌≤◌, ◌≡◌, refl, ◌⊎◌, inl, inr, Bool, true, false, arith,
}
use datapath.Server.{Server}

-- Where a handle is kept, if at all.
pub data Stage : Type 0 where
  closed waiting pending active : Stage

-- By how often it is among the waiting, the pending and the active sockets.
abbrev pub stage_of : ℕ → ℕ → ℕ → Stage
stage_of w p (suc a) = active
stage_of w (suc p) zero = pending
stage_of (suc w) zero zero = waiting
stage_of zero zero zero = closed

abbrev pub stage {κ} : {W : Type κ} → ℕ → Server W → Stage
stage h s =
    stage_of (times h s.waiting_sockets) (times h s.pending_sockets) (times h s.active_sockets)

-- What a round may do to a handle: `found` says whether a client is found on it, and `listens`,
-- whether there are listeners.
pub data Turn (found listens : Bool) : Stage → Stage → Type 0 where
  unknown : Turn found listens closed closed
  opened : Turn found listens closed waiting
  idle : Turn found listens waiting waiting
  queues : found ≡ true → listens ≡ false → Turn found listens waiting pending
  enters : found ≡ true → listens ≡ true → Turn found listens waiting active
  queued : listens ≡ false → Turn found listens pending pending
  welcomed : listens ≡ true → Turn found listens pending active
  refused : listens ≡ true → Turn found listens pending waiting
  kept : Turn found listens active active

-- With listeners: `k` is 1 if the handle has become pending in the round.
pub turn-listens :
    (found : Bool) (w p a w' p' a' k : ℕ)
    → (k ≡ 0) ⊎ (found ≡ true)
    → k ≤ w
    → w + p + a ≤ w' + p' + a'
    → w' + p' + a' ≤ 1
    → p' ≡ 0
    → a ≤ a'
    → a' ≤ a + p + k
    → Turn found true (stage_of w p a) (stage_of w' p' a')
turn-listens f w p (suc a) w' p' (suc a') k c h1 h2 h3 h4 h5 h6 = kept
turn-listens f w p (suc a) w' p' zero k c h1 h2 h3 h4 h5 h6 = absurd (omega arith)
turn-listens f w (suc p) zero w' p' (suc a') k c h1 h2 h3 h4 h5 h6 = welcomed refl
turn-listens f w (suc p) zero w' (suc p') zero k c h1 h2 h3 h4 h5 h6 = absurd (omega arith)
turn-listens f w (suc p) zero (suc w') zero zero k c h1 h2 h3 h4 h5 h6 = refused refl
turn-listens f w (suc p) zero zero zero zero k c h1 h2 h3 h4 h5 h6 = absurd (omega arith)
turn-listens f (suc w) zero zero w' p' (suc a') k (inl z) h1 h2 h3 h4 h5 h6 = absurd (omega arith)
turn-listens f (suc w) zero zero w' p' (suc a') k (inr y) h1 h2 h3 h4 h5 h6 = enters y refl
turn-listens f (suc w) zero zero w' (suc p') zero k c h1 h2 h3 h4 h5 h6 = absurd (omega arith)
turn-listens f (suc w) zero zero (suc w') zero zero k c h1 h2 h3 h4 h5 h6 = idle
turn-listens f (suc w) zero zero zero zero zero k c h1 h2 h3 h4 h5 h6 = absurd (omega arith)
turn-listens f zero zero zero w' p' (suc a') k c h1 h2 h3 h4 h5 h6 = absurd (omega arith)
turn-listens f zero zero zero w' (suc p') zero k c h1 h2 h3 h4 h5 h6 = absurd (omega arith)
turn-listens f zero zero zero (suc w') zero zero k c h1 h2 h3 h4 h5 h6 = opened
turn-listens f zero zero zero zero zero zero k c h1 h2 h3 h4 h5 h6 = unknown

-- Without listeners.
pub turn-silent :
    (found : Bool) (w p a w' p' k : ℕ)
    → (k ≡ 0) ⊎ (found ≡ true)
    → k ≤ w
    → w + p + a ≤ 1
    → w' + k ≡ w
    → p' ≡ p + k
    → Turn found false (stage_of w p a) (stage_of w' p' a)
turn-silent f w p (suc a) w' p' k c h1 h2 h3 h4 = kept
turn-silent f w (suc p) zero w' (suc p') k c h1 h2 h3 h4 = queued refl
turn-silent f w (suc p) zero w' zero k c h1 h2 h3 h4 = absurd (omega arith)
turn-silent f (suc w) zero zero w' (suc p') k (inl z) h1 h2 h3 h4 = absurd (omega arith)
turn-silent f (suc w) zero zero w' (suc p') k (inr y) h1 h2 h3 h4 = queues y refl
turn-silent f (suc w) zero zero (suc w') zero k c h1 h2 h3 h4 = idle
turn-silent f (suc w) zero zero zero zero k c h1 h2 h3 h4 = absurd (omega arith)
turn-silent f zero zero zero w' (suc p') k c h1 h2 h3 h4 = absurd (omega arith)
turn-silent f zero zero zero (suc w') zero k c h1 h2 h3 h4 = absurd (omega arith)
turn-silent f zero zero zero zero zero k c h1 h2 h3 h4 = unknown
