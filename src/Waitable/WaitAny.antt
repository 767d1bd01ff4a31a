-- ===== src/Waitable/WaitAny.antt =====
-- source/windows/waitable.cpp: what the wait for any object returns, and whom it notifies.
use datapath.Base.{
  ◌==◌, if◌then◌else◌, length, get_elem?, replicate, length-append, length-replicate,
  get_elem?-append, get_elem?-eq-none, ℕ, zero, suc, ◌+◌, ◌-◌, ◌≤◌, ◌≡◌, refl, sym, ◌∙◌, Bool, true,
  false, ◌||◌, Option, none, some, List, [], ◌∷◌, ◌++◌, append_assoc, arith,
}
use datapath.Base.Int.{ℤ}
use datapath.Error.{success, closed, timed_out, failure}
use datapath.Event.{call}
use datapath.Waitable.{
  Waitable, Answer, Outcome, returned, waiting, fault, elapse, wait_object_0, wait_timeout,
}
use datapath.Waitable.Many.{
  translate, notify_one, wait_any, wait_any_loop, is_signaled, is_abandoned, is_count,
}
use datapath.Waitable.Nulls.{valid_indexes, null_count, translate_lem}
use datapath.Waitable.Outcomes.{first_final, elapse_nonneg}

abbrev pub names_object : Option ℕ → Bool
names_object none = false
names_object (some r) = is_signaled r || is_abandoned r

module _ {κ} {W : Type κ} where
  -- The object number `k` among those that are not null, with its index in the array.
  abbrev pub valid_at : ℕ → List (Option (Waitable W)) → ℕ → Option (ℕ × Waitable W)
  valid_at idx [] k = none
  valid_at idx (none ∷ objs) k = valid_at (idx + 1) objs k
  valid_at idx (some obj ∷ objs) zero = some (idx, obj)
  valid_at idx (some obj ∷ objs) (suc k) = valid_at (idx + 1) objs k

  valid_at-indexes :
      (objs : List (Option (Waitable W))) (zeros : List ℕ) (idx k : ℕ) {i : ℕ} {obj : Waitable W}
      → valid_at idx objs k ≡ some (i, obj)
      → get_elem? (valid_indexes idx objs ++ zeros) k ≡ some i
  valid_at-indexes [] zeros idx k e = absurd (cc)
  valid_at-indexes (none ∷ objs) zeros idx k e = valid_at-indexes objs zeros (idx + 1) k e
  valid_at-indexes (some obj ∷ objs) zeros idx zero e = ground arith
  valid_at-indexes (some obj ∷ objs) zeros idx (suc k) e = valid_at-indexes objs zeros (idx + 1) k e

  valid_at-elem :
      (all pre objs : List (Option (Waitable W))) (idx k : ℕ) {i : ℕ} {obj : Waitable W}
      → all ≡ pre ++ objs
      → idx ≡ length pre
      → valid_at idx objs k ≡ some (i, obj)
      → get_elem? all i ≡ some (some obj)
  valid_at-elem all pre [] idx k e l h = absurd (cc)
  valid_at-elem all pre (none ∷ objs) idx k e l h =
      valid_at-elem all (pre ++ none ∷ []) objs (idx + 1) k
        (e ∙ sym (append_assoc pre (none ∷ []) objs)) (omega (arith, length-append pre (none ∷ [])))
        h
  valid_at-elem all pre (some obj ∷ objs) idx zero e l h =
      let found : get_elem? all idx ≡ some (some obj) =
        rw (e, l) (get_elem?-append pre objs (some obj)) in
      ground arith
  valid_at-elem all pre (some obj ∷ objs) idx (suc k) e l h =
      valid_at-elem all (pre ++ some obj ∷ []) objs (idx + 1) k
        (e ∙ sym (append_assoc pre (some obj ∷ []) objs))
        (omega (arith, length-append pre (some obj ∷ []))) h

  length-valid_indexes :
      (idx : ℕ) (objs : List (Option (Waitable W)))
      → length (valid_indexes idx objs) + null_count objs ≡ length objs
  length-valid_indexes idx [] = refl
  length-valid_indexes idx (none ∷ objs) = omega (arith, length-valid_indexes (idx + 1) objs)
  length-valid_indexes idx (some obj ∷ objs) = omega (arith, length-valid_indexes (idx + 1) objs)

  length-translate :
      (objs : List (Option (Waitable W))) → length (translate objs).indexes ≡ length objs
  length-translate objs =
      rw
        (
          (translate_lem objs).1,
          length-append (valid_indexes 0 objs) (replicate (null_count objs) 0),
          length-replicate {A = ℕ} (null_count objs) 0,
        )
        (length-valid_indexes 0 objs)

  -- The result for a final answer, by the translation list.
  abbrev settle_any : List (Option (Waitable W)) → Option ℕ → ℕ × W → Outcome (ℕ × W)
  settle_any objs none v = waiting v
  settle_any objs (some r) (index, w) =
      if is_signaled r
      then notify_one (λ obj. obj.on_wait_success) success objs
          (get_elem? (translate objs).indexes r) w
      else if is_abandoned r
      then notify_one (λ obj. obj.on_wait_error) closed objs (get_elem? (translate objs).indexes r)
          w
      else if r == wait_timeout
      then returned timed_out (index, w)
      else returned failure (index, w)

  wait_any_loop-settle_any :
      (objs : List (Option (Waitable W))) (t : ℤ) (answers : List Answer) (v : ℕ × W)
      → (wait_any_loop objs (translate objs) t answers v).1
        ≡ settle_any objs (first_final answers) v
  unfolding wait_any_loop
  wait_any_loop-settle_any objs t [] v = refl
  wait_any_loop-settle_any objs t (a ∷ answers) v =
      let same : a.result - wait_object_0 ≡ a.result = omega arith in
      ground (
        arith,
        same,
        elapse_nonneg t a.elapsed,
        wait_any_loop-settle_any objs (elapse t a.elapsed) answers v,
      )

  pub wait_any-settle_any :
      (objs : List (Option (Waitable W))) (duration : ℤ) (answers : List Answer) (v : ℕ × W)
      → is_count objs ≡ true
      → (wait_any objs duration answers v).1 ≡ settle_any objs (first_final answers) v
  unfolding wait_any
  wait_any-settle_any objs d answers v h = rw h (wait_any_loop-settle_any objs _ answers v)

  -- Where the first answer that is no alert says that the object number `r` among those that are
  -- not null is signaled, the wait for any of 1 to 64 objects returns success and the index of that
  -- object in the caller's array, and has run the success listeners of that object only.
  pub wait_any-picks :
      (objs : List (Option (Waitable W))) (duration : ℤ) (answers : List Answer) (index : ℕ) (w : W)
      (r : ℕ) {i : ℕ} {obj : Waitable W}
      → is_count objs ≡ true
      → first_final answers ≡ some r
      → is_signaled r ≡ true
      → valid_at 0 objs r ≡ some (i, obj)
      → (wait_any objs duration answers (index, w)).1
        ≡ returned success (i, call obj.on_wait_success success w)
  wait_any-picks objs d answers index w r {i} {obj} n f s h =
      wait_any-settle_any objs d answers (index, w) n
      ∙ rw (
        f,
        s,
        (translate_lem objs).1,
        valid_at-indexes objs (replicate (null_count objs) 0) 0 r h,
        valid_at-elem objs [] objs 0 r refl refl h,
      )

  -- Where the first answer that is no alert says that an object was abandoned, the wait for any of
  -- 1 to 64 objects reads its index out of bounds, since it subtracts the base of the signaled
  -- answers and not that of the abandoned ones.
  wait_any_abandoned :
      (objs : List (Option (Waitable W))) (duration : ℤ) (answers : List Answer) (index : ℕ) (w : W)
      (r : ℕ)
      → is_count objs ≡ true
      → first_final answers ≡ some r
      → is_abandoned r ≡ true
      → (wait_any objs duration answers (index, w)).1 ≡ fault
  wait_any_abandoned objs d answers index w r n f s =
      let unsignaled : is_signaled r ≡ false = ground arith in
      let large : length (translate objs).indexes ≤ r = ground (arith, length-translate objs) in
      wait_any-settle_any objs d answers (index, w) n
      ∙ rw (f, unsignaled, s, get_elem?-eq-none (translate objs).indexes r large)

  abbrev pub unsignaled_result : Option ℕ → ℕ × W → Outcome (ℕ × W)
  unsignaled_result none v = waiting v
  unsignaled_result (some r) v =
      if r == wait_timeout then returned timed_out v else returned failure v

  -- Where the first answer that is no alert names no object, or there is none yet, the wait for any
  -- of 1 to 64 objects leaves the caller's index and the state as they were: it has timed out, has
  -- failed, or still waits.
  pub wait_any_unsignaled :
      (objs : List (Option (Waitable W))) (duration : ℤ) (answers : List Answer) (v : ℕ × W)
      → is_count objs ≡ true
      → names_object (first_final answers) ≡ false
      → (wait_any objs duration answers v).1 ≡ unsignaled_result (first_final answers) v
  wait_any_unsignaled objs d answers v n f = wait_any-settle_any objs d answers v n ∙ ground arith
