-- ===== src/Waitable/Single.antt =====
-- source/windows/waitable.cpp: the wait for one object.
use datapath.Base.{◌==◌, if◌then◌else◌, false, Option, none, some, List, [], ◌∷◌}
use datapath.Base.Int.{ℤ, pos, leb_ℤ}
use datapath.Error.{success, closed, timed_out, failure}
use datapath.Event.{call}
use datapath.Waitable.{
  Waitable, Answer, Request, Outcome, returned, waiting, fault, wait_object_0, wait_timeout,
  wait_abandoned_0, wait_io_completion, to_millis, clamp_timeout, elapse, dword, asked,
}

module _ {κ} {W : Type κ} where
  abbrev request : Waitable W → ℤ → Request
  request obj timeout = record {
    handles = obj.handle ∷ [];
    wants_all = false;
    millis = dword timeout;
  }

  -- The `do … while (timeout >= 0)` loop, a round for each answer.
  unfoldable pub wait_loop : Waitable W → ℤ → List Answer → W → List Request × Outcome W
  wait_loop obj timeout [] w = ([], waiting w)
  wait_loop obj timeout (a ∷ answers) w =
      let left = elapse timeout a.elapsed in
      let rest = wait_loop obj left answers w in
      asked (request obj timeout) (
        if a.result == wait_object_0
        then ([], returned success (call obj.on_wait_success success w))
        else if a.result == wait_timeout
        then ([], returned timed_out w)
        else if a.result == wait_abandoned_0
        then ([], returned closed (call obj.on_wait_error closed w))
        else if a.result == wait_io_completion
        then (if leb_ℤ (pos 0) left then rest else ([], returned timed_out w))
        else ([], returned failure w))

  unfoldable pub wait : Option (Waitable W) → ℤ → List Answer → W → List Request × Outcome W
  unfolding wait_loop
  wait none duration answers w = ([], fault)
  wait (some obj) duration answers w = wait_loop obj (clamp_timeout (to_millis duration)) answers w
