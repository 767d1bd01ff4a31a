-- ===== src/Waitable/Timeouts.antt =====
-- source/windows/waitable.cpp: the timeouts that the waits ask for.
use datapath.Base.{All, ℕ, ◌-◌, ◌/◌, ◌≤◌, min, ◌≡◌, Option, none, some, List, [], ◌∷◌, arith}
use datapath.Base.Int.{ℤ, pos, negsuc, ◌≤ℤ◌, ◌-ℤ◌}
use datapath.Waitable.Single.{wait_loop, wait}
use datapath.Waitable.Many.{wait_any_loop, wait_all_loop, Table, wait_any, wait_all, translate}
use datapath.Waitable.{Answer, Request, int32_max, to_millis, clamp_timeout, elapse, Waitable}

-- The clock did not run backwards during any call.
abbrev Forward : List Answer → Type 0
Forward = All (λ a. pos 0 ≤ℤ a.elapsed)

-- Each timeout is at most the one before it, and the first at most `n`.
abbrev pub Falling : ℕ → List Request → Type 0
Falling n [] = Unit
Falling n (r ∷ rs) = (r.millis ≤ n) × Falling r.millis rs

-- What a duration in nanoseconds allows: its whole milliseconds, none if it is negative, and never
-- more than an int32_t holds.
abbrev allowed : ℤ → ℕ
allowed (pos n) = min int32_max (n / 1000000)
allowed (negsuc n) = 0

clamp_timeout-allowed : (d : ℤ) → clamp_timeout (to_millis d) ≡ pos (allowed d)
unfolding clamp_timeout
clamp_timeout-allowed d = ground arith

elapse-le : (n : ℕ) (e : ℤ) → pos 0 ≤ℤ e → (m : ℕ) × (elapse (pos n) e ≡ pos m) × (m ≤ n)
unfolding elapse ◌-ℤ◌
elapse-le n (pos e) h = (n - e / 1000000, ground arith, omega arith)
elapse-le n (negsuc e) h = absurd (omega arith)

Falling-le : {m n : ℕ} (rs : List Request) → m ≤ n → Falling m rs → Falling n rs
Falling-le [] h f = tt
Falling-le (r ∷ rs) h f = (omega arith, f.1)

module _ {κ} {W : Type κ} where
  wait_loop-Falling :
      (obj : Waitable W) (n : ℕ) (answers : List Answer) (w : W)
      → n ≤ int32_max
      → Forward answers
      → Falling n (wait_loop obj (pos n) answers w).0
  unfolding wait_loop
  wait_loop-Falling obj n [] w h f = tt
  wait_loop-Falling obj n (a ∷ answers) w h f =
      let (m, left, less) = elapse-le n a.elapsed f.0 in
      let rest = wait_loop-Falling obj m answers w (omega arith) f.1 in
      ground (
        arith,
        left,
        less,
        rest,
        Falling-le {m = m} {n = n} (wait_loop obj (pos m) answers w).0 less,
      )

  wait_all_loop-Falling :
      (objs : List (Option (Waitable W))) (t : Table) (n : ℕ) (answers : List Answer) (w : W)
      → n ≤ int32_max
      → Forward answers
      → Falling n (wait_all_loop objs t (pos n) answers w).0
  unfolding wait_all_loop
  wait_all_loop-Falling objs t n [] w h f = tt
  wait_all_loop-Falling objs t n (a ∷ answers) w h f =
      let (m, left, less) = elapse-le n a.elapsed f.0 in
      let rest = wait_all_loop-Falling objs t m answers w (omega arith) f.1 in
      ground (
        arith,
        left,
        less,
        rest,
        Falling-le {m = m} {n = n} (wait_all_loop objs t (pos m) answers w).0 less,
      )

  wait_any_loop-Falling :
      (objs : List (Option (Waitable W))) (t : Table) (n : ℕ) (answers : List Answer) (v : ℕ × W)
      → n ≤ int32_max
      → Forward answers
      → Falling n (wait_any_loop objs t (pos n) answers v).0
  unfolding wait_any_loop
  wait_any_loop-Falling objs t n [] v h f = tt
  wait_any_loop-Falling objs t n (a ∷ answers) v h f =
      let (m, left, less) = elapse-le n a.elapsed f.0 in
      let rest = wait_any_loop-Falling objs t m answers v (omega arith) f.1 in
      ground (
        arith,
        left,
        less,
        rest,
        Falling-le {m = m} {n = n} (wait_any_loop objs t (pos m) answers v).0 less,
      )

  -- If the clock never runs backwards, each of the three waits asks the operating system for a
  -- timeout of at most the whole milliseconds of the duration, 0 for a negative one, never above
  -- the greatest int32_t (so never for the infinite timeout), and after an alert never for more
  -- than the time before.
  pub waits-Falling :
      (obj : Option (Waitable W)) (objs : List (Option (Waitable W))) (duration : ℤ)
      (answers : List Answer) (index : ℕ) (w : W)
      → Forward answers
      → Falling (allowed duration) (wait obj duration answers w).0
        × Falling (allowed duration) (wait_all objs duration answers w).0
        × Falling (allowed duration) (wait_any objs duration answers (index, w)).0
        × (allowed duration ≤ int32_max)
  unfolding wait wait_all wait_any
  waits-Falling obj objs d answers index w f =
      (wait_Falling obj, wait_all_Falling, wait_any_Falling, bounded d)
    where
      bounded : (e : ℤ) → allowed e ≤ int32_max
      bounded e = ground arith

      wait_Falling : (o : Option (Waitable W)) → Falling (allowed d) (wait o d answers w).0
      wait_Falling none = tt
      wait_Falling (some o) =
          rw (clamp_timeout-allowed d) (wait_loop-Falling o (allowed d) answers w (bounded d) f)

      wait_all_Falling : Falling (allowed d) (wait_all objs d answers w).0
      wait_all_Falling = rw (clamp_timeout-allowed d) (
          ground (
            arith,
            wait_all_loop-Falling objs (translate objs) (allowed d) answers w (bounded d) f,
          ))

      wait_any_Falling : Falling (allowed d) (wait_any objs d answers (index, w)).0
      wait_any_Falling = rw (clamp_timeout-allowed d) (
          ground (
            arith,
            wait_any_loop-Falling objs (translate objs) (allowed d) answers (index, w) (bounded d)
                f,
          ))
