-- ===== src/Task/Notices.antt =====
-- source/windows/task.cpp: the events of a task that is waited for.
use datapath.Base.{◌==◌, if◌then◌else◌, ℕ, ◌≡◌, ◌∙◌, Option, none, some, List, arith}
use datapath.Base.Int.{ℤ}
use datapath.Error.{success, failure, closed, timed_out}
use datapath.Event.{call, call_all, add, init}
use datapath.Task.{Task, task_data, waitable}
use datapath.Waitable.{
  Outcome, waiting, Answer, returned, wait_object_0, wait_abandoned_0, wait_timeout,
}
use datapath.Waitable.Single.{wait}
use datapath.Waitable.Outcomes.{wait-settle, first_final}

module _ {κ} {W : Type κ} where
  -- The result for a final answer.
  abbrev told : Task W → Option ℕ → W → Outcome W
  told t none w = waiting w
  told t (some r) w =
      if r == wait_object_0
      then returned success (call t.on_success (success, task_data t) w)
      else if r == wait_timeout
      then returned timed_out w
      else if r == wait_abandoned_0
      then returned closed (call t.on_failure closed w)
      else returned failure w

  -- A wait for a task ends by the first answer that is no alert. If the operation is signaled, the
  -- task's success listeners run once, with success and the whole frame of the task; if it was
  -- abandoned, its failure listeners run once, with closed; no other answer tells anybody.
  pub wait-told :
      (t : Task W) (duration : ℤ) (answers : List Answer) (w : W)
      → (wait (some (waitable t)) duration answers w).1 ≡ told t (first_final answers) w
  unfolding waitable add init call call_all
  wait-told t d answers w = (wait-settle (waitable t) d answers w).0 ∙ ground arith
