-- ===== src/Waitable/Outcomes.antt =====
-- source/windows/waitable.cpp: what the wait for one object returns, and whom it notifies.
use datapath.Base.{
  ◌==◌, if◌then◌else◌, length, ℕ, suc, ◌≡◌, refl, true, Option, none, some, List, [], ◌∷◌, arith,
}
use datapath.Base.Int.{ℤ, pos, leb_ℤ, ◌-ℤ◌}
use datapath.Error.{success, closed, timed_out, failure}
use datapath.Event.{call}
use datapath.Waitable.Single.{wait_loop, wait}
use datapath.Waitable.{
  Answer, Outcome, returned, waiting, elapse, Waitable, wait_object_0, wait_timeout,
  wait_abandoned_0, wait_io_completion,
}

-- The first answer that is no alert, and how many calls are made until it comes.
abbrev pub first_final : List Answer → Option ℕ
first_final [] = none
first_final (a ∷ answers) =
    let rest = first_final answers in if a.result == wait_io_completion then rest else some a.result

abbrev call_count : List Answer → ℕ
call_count [] = 0
call_count (a ∷ answers) =
    let rest = call_count answers in if a.result == wait_io_completion then suc rest else 1

-- An alert never ends the loop: what is left of the timeout is not negative.
pub elapse_nonneg : (t e : ℤ) → leb_ℤ (pos 0) (elapse t e) ≡ true
unfolding elapse ◌-ℤ◌
elapse_nonneg t e = ground arith

module _ {κ} {W : Type κ} where
  -- The result for a final answer: success and closed notify their listeners, nothing else does.
  abbrev pub settle : Waitable W → Option ℕ → W → Outcome W
  settle obj none w = waiting w
  settle obj (some r) w =
      if r == wait_object_0
      then returned success (call obj.on_wait_success success w)
      else if r == wait_timeout
      then returned timed_out w
      else if r == wait_abandoned_0
      then returned closed (call obj.on_wait_error closed w)
      else returned failure w

  wait_loop-settle :
      (obj : Waitable W) (t : ℤ) (answers : List Answer) (w : W)
      → ((wait_loop obj t answers w).1 ≡ settle obj (first_final answers) w)
        × (length (wait_loop obj t answers w).0 ≡ call_count answers)
  unfolding wait_loop
  wait_loop-settle obj t [] w = (refl, refl)
  wait_loop-settle obj t (a ∷ answers) w =
      ground (arith, elapse_nonneg t a.elapsed, wait_loop-settle obj (elapse t a.elapsed) answers w)

  -- The wait for an object returns by the first answer that is no alert, whatever the duration and
  -- the clock: success after the success listeners ran once, timed out, closed after the error
  -- listeners ran once, and failure for any other answer. It calls the operating system once for
  -- each alert before that answer and once for the answer, and only alerts keep it waiting.
  pub wait-settle :
      (obj : Waitable W) (duration : ℤ) (answers : List Answer) (w : W)
      → ((wait (some obj) duration answers w).1 ≡ settle obj (first_final answers) w)
        × (length (wait (some obj) duration answers w).0 ≡ call_count answers)
  unfolding wait
  wait-settle obj d answers w = wait_loop-settle obj _ answers w
