-- ===== src/Waitable/Many.antt =====
-- source/windows/waitable.cpp: the waits for all and for any of several objects.
use datapath.Base.{
  ltb, leb, ◌==◌, if◌then◌else◌, ◌>>=◌, length, get_elem?, replicate, set, ℕ, ◌+◌, ◌-◌, Bool, true,
  false, ◌&&◌, Option, none, some, List, [], ◌∷◌,
}
use datapath.Base.Int.{ℤ, pos, leb_ℤ}
use datapath.Error.{Error, success, closed, timed_out, failure}
use datapath.Event.{Event, call}
use datapath.Waitable.{
  Waitable, Answer, Request, Outcome, returned, waiting, fault, wait_object_0, wait_timeout,
  wait_abandoned_0, wait_io_completion, maximum_wait_objects, to_millis, clamp_timeout, elapse,
  dword, asked,
}

-- The translation list: the vectors `handles` and `indexes`, and `valid_handles`.
pub record Table : Type 0 where
  pub handles : List ℕ
  pub indexes : List ℕ
  pub valid : ℕ

abbrev pub finish {κ} : {W : Type κ} → Error → Option W → Outcome W
finish code none = fault
finish code (some w) = returned code w

abbrev pub is_signaled : ℕ → Bool
is_signaled r = leb wait_object_0 r && ltb r (wait_object_0 + maximum_wait_objects)

abbrev pub is_abandoned : ℕ → Bool
is_abandoned r = leb wait_abandoned_0 r && ltb r (wait_abandoned_0 + maximum_wait_objects)

module _ {κ} {W : Type κ} where
  unfoldable pub translate_loop : List (Option (Waitable W)) → ℕ → Table → Table
  translate_loop [] idx t = t
  translate_loop (none ∷ objs) idx t = translate_loop objs (idx + 1) t
  translate_loop (some obj ∷ objs) idx t = translate_loop objs (idx + 1) (record {
    handles = set t.handles t.valid obj.handle;
    indexes = set t.indexes t.valid idx;
    valid = t.valid + 1;
  })

  -- Both vectors begin with `count` zeros.
  unfoldable pub translate : List (Option (Waitable W)) → Table
  unfolding translate_loop
  translate objs =
      let zeros = replicate (length objs) 0 in
      translate_loop objs 0 (record { handles = zeros; indexes = zeros; valid = 0 })

  -- `objs[idx]->…(code)`; `none` is a null object or an index out of bounds.
  abbrev pub notify :
      (Waitable W → Event (Error → W → W)) → Error → Option (Option (Waitable W)) → W → Option W
  notify event code none w = none
  notify event code (some none) w = none
  notify event code (some (some obj)) w = some (call (event obj) code w)

  -- `for (auto idx : indexes) objs[idx]->…(code);`
  unfoldable pub notify_each :
      (Waitable W → Event (Error → W → W))
      → Error
      → List (Option (Waitable W))
      → List ℕ
      → W
      → Option W
  notify_each event code objs [] w = some w
  notify_each event code objs (i ∷ is) w =
      notify event code (get_elem? objs i) w >>= notify_each event code objs is

  abbrev pub is_count : List (Option (Waitable W)) → Bool
  is_count objs = ltb 0 (length objs) && leb (length objs) maximum_wait_objects

  unfoldable pub wait_all_loop :
      List (Option (Waitable W)) → Table → ℤ → List Answer → W → List Request × Outcome W
  unfolding notify_each
  wait_all_loop objs t timeout [] w = ([], waiting w)
  wait_all_loop objs t timeout (a ∷ answers) w =
      let left = elapse timeout a.elapsed in
      let rest = wait_all_loop objs t left answers w in
      asked (record { handles = t.handles; wants_all = true; millis = dword timeout })
        (if is_signaled a.result
          then (
            [],
            finish success (notify_each (λ obj. obj.on_wait_success) success objs t.indexes w),
          )
          else if is_abandoned a.result
          then ([], finish closed (notify_each (λ obj. obj.on_wait_error) closed objs t.indexes w))
          else if a.result == wait_timeout
          then ([], returned timed_out w)
          else if a.result == wait_io_completion
          then (if leb_ℤ (pos 0) left then rest else ([], returned timed_out w))
          else ([], returned failure w))

  -- `waitable::wait` of an array of objects, which waits for all.
  unfoldable pub wait_all :
      List (Option (Waitable W)) → ℤ → List Answer → W → List Request × Outcome W
  unfolding wait_all_loop translate
  wait_all objs duration answers w =
      if is_count objs
      then wait_all_loop objs (translate objs) (clamp_timeout (to_millis duration)) answers w
      else ([], fault)

  -- `index = indexes[k]; objs[index]->…(code);`, with the `index` that the caller gets.
  abbrev pub notify_one :
      (Waitable W → Event (Error → W → W))
      → Error
      → List (Option (Waitable W))
      → Option ℕ
      → W
      → Outcome (ℕ × W)
  notify_one event code objs none w = fault
  notify_one event code objs (some i) w =
      finish code (notify event code (get_elem? objs i) w >>= λ w'. some (i, w'))

  unfoldable pub wait_any_loop :
      List (Option (Waitable W)) → Table → ℤ → List Answer → ℕ × W → List Request × Outcome (ℕ × W)
  wait_any_loop objs t timeout [] (index, w) = ([], waiting (index, w))
  wait_any_loop objs t timeout (a ∷ answers) (index, w) =
      let left = elapse timeout a.elapsed in
      let rest = wait_any_loop objs t left answers (index, w) in
      asked (record { handles = t.handles; wants_all = false; millis = dword timeout })
        (if is_signaled a.result
          then (
            [],
            notify_one (λ obj. obj.on_wait_success) success objs
                (get_elem? t.indexes (a.result - wait_object_0)) w,
          )
          else if is_abandoned a.result
          then (
            [],
            notify_one (λ obj. obj.on_wait_error) closed objs
                (get_elem? t.indexes (a.result - wait_object_0)) w,
          )
          else if a.result == wait_timeout
          then ([], returned timed_out (index, w))
          else if a.result == wait_io_completion
          then (if leb_ℤ (pos 0) left then rest else ([], returned timed_out (index, w)))
          else ([], returned failure (index, w)))

  unfoldable pub wait_any :
      List (Option (Waitable W)) → ℤ → List Answer → ℕ × W → List Request × Outcome (ℕ × W)
  unfolding wait_any_loop translate
  wait_any objs duration answers v =
      if is_count objs
      then wait_any_loop objs (translate objs) (clamp_timeout (to_millis duration)) answers v
      else ([], fault)
