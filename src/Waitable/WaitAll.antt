-- ===== src/Waitable/WaitAll.antt =====
-- source/windows/waitable.cpp: what the wait for all objects returns, and whom it notifies.
use datapath.Base.{
  ◌==◌, if◌then◌else◌, Option-cases, ◌>>=◌, length, get_elem?, replicate, length-append,
  get_elem?-append, ℕ, zero, suc, ◌+◌, ◌≡◌, refl, sym, ◌∙◌, inl, inr, true, Option, none, some,
  List, [], ◌∷◌, ◌++◌, append_assoc, arith,
}
use datapath.Error.{Error, success, closed, timed_out, failure}
use datapath.Event.{Event, call}
use datapath.Waitable.{Waitable, Outcome, waiting, Answer, elapse, wait_timeout, returned}
use datapath.Waitable.Many.{
  notify_each, translate, wait_all_loop, notify, wait_all, finish, is_signaled, is_count,
  is_abandoned,
}
use datapath.Base.Int.{ℤ}
use datapath.Waitable.Outcomes.{first_final, elapse_nonneg}
use datapath.Waitable.Nulls.{valid_indexes, null_count, translate_lem}

module _ {κ} {W : Type κ} (event : Waitable W → Event (Error → W → W)) (code : Error) where
  -- Calls the event of every object that is not null, in order.
  abbrev call_valid : List (Option (Waitable W)) → W → W
  call_valid [] w = w
  call_valid (none ∷ objs) w = call_valid objs w
  call_valid (some obj ∷ objs) w = call_valid objs (call (event obj) code w)

  abbrev call_times : ℕ → Waitable W → W → W
  call_times zero obj w = w
  call_times (suc n) obj w = call_times n obj (call (event obj) code w)

  -- The first object stands in for each null object; if it is null itself, that is a fault.
  abbrev call_first : List (Option (Waitable W)) → W → Option W
  call_first [] w = some w
  call_first (none ∷ objs) w = none
  call_first (some obj ∷ objs) w = some (call_times (null_count objs) obj w)

  notify_each-append :
      (objs : List (Option (Waitable W))) (is js : List ℕ) (w : W)
      → notify_each event code objs (is ++ js) w
        ≡ (notify_each event code objs is w >>= notify_each event code objs js)
  unfolding notify_each
  notify_each-append objs [] js w = refl
  notify_each-append objs (i ∷ is) js w =
      elim (Option-cases (notify event code (get_elem? objs i) w)) [
        | inl e ↦ rw e
        | inr (w', e) ↦ rw e (notify_each-append objs is js w')
      ]

  notify_each-valid :
      (all pre objs : List (Option (Waitable W))) (idx : ℕ) (w : W)
      → all ≡ pre ++ objs
      → idx ≡ length pre
      → notify_each event code all (valid_indexes idx objs) w ≡ some (call_valid objs w)
  unfolding notify_each
  notify_each-valid all pre [] idx w e l = refl
  notify_each-valid all pre (none ∷ objs) idx w e l =
      notify_each-valid all (pre ++ none ∷ []) objs (idx + 1) w
        (e ∙ sym (append_assoc pre (none ∷ []) objs)) (omega (arith, length-append pre (none ∷ [])))
  notify_each-valid all pre (some obj ∷ objs) idx w e l =
      let found : get_elem? all idx ≡ some (some obj) =
        rw (e, l) (get_elem?-append pre objs (some obj)) in
      rw found (
        notify_each-valid all (pre ++ some obj ∷ []) objs (idx + 1) (call (event obj) code w)
          (e ∙ sym (append_assoc pre (some obj ∷ []) objs))
          (omega (arith, length-append pre (some obj ∷ []))))

  notify_each-zeros :
      (obj : Waitable W) (objs : List (Option (Waitable W))) (n : ℕ) (w : W)
      → notify_each event code (some obj ∷ objs) (replicate n 0) w ≡ some (call_times n obj w)
  unfolding notify_each
  notify_each-zeros obj objs zero w = refl
  notify_each-zeros obj objs (suc n) w = notify_each-zeros obj objs n (call (event obj) code w)

  notify_each-nulls :
      (objs : List (Option (Waitable W))) (w : W)
      → notify_each event code objs (replicate (null_count objs) 0) w ≡ call_first objs w
  unfolding notify_each
  notify_each-nulls [] w = refl
  notify_each-nulls (none ∷ objs) w = refl
  notify_each-nulls (some obj ∷ objs) w = notify_each-zeros obj objs (null_count objs) w

  pub notify_each-translate :
      (objs : List (Option (Waitable W))) (w : W)
      → notify_each event code objs (translate objs).indexes w ≡ call_first objs (call_valid objs w)
  notify_each-translate objs w =
      rw
        (
          (translate_lem objs).1,
          notify_each-append objs (valid_indexes 0 objs) (replicate (null_count objs) 0) w,
          notify_each-valid objs [] objs 0 w refl refl,
        )
        (notify_each-nulls objs (call_valid objs w))

module _ {κ} {W : Type κ} where
  abbrev all_called :
      (Waitable W → Event (Error → W → W)) → Error → List (Option (Waitable W)) → W → Outcome W
  all_called event code objs w =
      finish code (call_first event code objs (call_valid event code objs w))

  -- The result for a final answer.
  abbrev settle_all : List (Option (Waitable W)) → Option ℕ → W → Outcome W
  settle_all objs none w = waiting w
  settle_all objs (some r) w =
      if is_signaled r
      then all_called (λ obj. obj.on_wait_success) success objs w
      else if is_abandoned r
      then all_called (λ obj. obj.on_wait_error) closed objs w
      else if r == wait_timeout
      then returned timed_out w
      else returned failure w

  wait_all_loop-settle_all :
      (objs : List (Option (Waitable W))) (t : ℤ) (answers : List Answer) (w : W)
      → (wait_all_loop objs (translate objs) t answers w).1
        ≡ settle_all objs (first_final answers) w
  unfolding wait_all_loop
  wait_all_loop-settle_all objs t [] w = refl
  wait_all_loop-settle_all objs t (a ∷ answers) w = ground (
    arith,
    elapse_nonneg t a.elapsed,
    wait_all_loop-settle_all objs (elapse t a.elapsed) answers w,
    notify_each-translate (λ obj. obj.on_wait_success) success objs w,
    notify_each-translate (λ obj. obj.on_wait_error) closed objs w,
  )

  -- The wait for 1 to 64 objects returns by the first answer that is no alert. If that says that
  -- all are signaled, the success listeners of every object that is not null run once, in order,
  -- and then those of the first object once more for each null object, which is a fault if the
  -- first object is null; the result is success. An abandoned answer does the same with the error
  -- listeners, and the result is closed. A timeout and any other answer notify nobody.
  pub wait_all-settle_all :
      (objs : List (Option (Waitable W))) (duration : ℤ) (answers : List Answer) (w : W)
      → is_count objs ≡ true
      → (wait_all objs duration answers w).1 ≡ settle_all objs (first_final answers) w
  unfolding wait_all
  wait_all-settle_all objs d answers w h = rw h (wait_all_loop-settle_all objs _ answers w)
