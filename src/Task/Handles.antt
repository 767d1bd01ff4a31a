-- ===== src/Task/Handles.antt =====
-- source/windows/task.cpp: the end of a task.
use datapath.Base.{
  ◌==◌, if◌then◌else◌, ◌>>=◌, Bool-cases, ℕ, ◌≡◌, refl, inl, inr, Bool, Option, none, some, ◌++◌,
  arith,
}
use datapath.Overlapped.{Overlapped}
use datapath.Overlapped
use datapath.Overlapped.Handles.{close_count, cancel-close_count, close_count-append}
use datapath.Task.{Task, cancel, destroy, is_completed, cancel_pending, destroy_calls, completed}

module _ {κ} {W : Type κ} (has_completed : ℕ → Bool) where
  -- The destruction of a task closes the event of a completed operation once and that of a pending
  -- one twice, first as the task cancels it and again as the operation is destroyed.
  destroy-close_count :
      (t : Task W) (ov : Overlapped) (event : ℕ)
      → t.overlapped ≡ some ov
      → Overlapped.get_waitable ov ≡ some event
      → close_count event (destroy has_completed t)
        ≡ (if is_completed has_completed t then 1 else 2)
  unfolding destroy cancel is_completed Overlapped.destroy
  destroy-close_count t ov event h e =
      let once = cancel-close_count ov event e in
      rw h (elim (Bool-cases (Overlapped.is_completed has_completed ov)) [
        | inl done ↦ rw done once
        | inr pending ↦ rw pending (
            omega
              (arith, once, close_count-append event (Overlapped.cancel ov) (Overlapped.cancel ov)))
      ])

-- How often an event is closed if that of the operation is `o`.
abbrev pub event_closes : Bool → ℕ → Option ℕ → ℕ
event_closes done event none = 0
event_closes done event (some e) = if e == event then (if done then 1 else 2) else 0

operation_closes :
    (has_completed : ℕ → Bool) (event : ℕ) (o : Option Overlapped)
    → close_count event ((cancel_pending has_completed o).1 ++ destroy_calls o)
      ≡ event_closes (completed has_completed o) event (o >>= Overlapped.get_waitable)
unfolding Overlapped.cancel Overlapped.destroy Overlapped.is_completed Overlapped.get_waitable
operation_closes has_completed event none = refl
operation_closes has_completed event (some ov) = ground arith

-- The destruction of a task closes no event but that of its operation.
pub destroy-event_closes {κ} :
    {W : Type κ} (has_completed : ℕ → Bool) (event : ℕ) (t : Task W)
    → close_count event (destroy has_completed t)
      ≡ event_closes (is_completed has_completed t) event (t.overlapped >>= Overlapped.get_waitable)
unfolding destroy cancel is_completed
destroy-event_closes has_completed event t = operation_closes has_completed event t.overlapped
