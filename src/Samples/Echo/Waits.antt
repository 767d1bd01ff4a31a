-- ===== src/Samples/Echo/Waits.antt =====
-- samples/benchmark/main.cpp and samples/single-process-ipc/main.cpp, `server::client::_watcher`: what
-- is waited for, and what a wait for it gives.
use mathlib.Core.Option
use datapath.Base.{
  leb, ◌==◌, if◌then◌else◌, Bool-cases, Option-cases, length, get_elem?, ℕ, zero, suc, ◌+◌, ◌≤◌,
  ◌<◌, ◌≡◌, refl, sym, ap, subst, ◌∙◌, ◌⊎◌, inl, inr, true, false, Option, none, some, List, [],
  ◌∷◌, ◌++◌, arith,
}
use datapath.Base.Int.{ℤ}
use datapath.Error.{success, timed_out, failure}
use datapath.Event.{call}
use datapath.Samples.Echo.{collect, collect_64, collect_all, objects}
use datapath.Task.{Task, waitable}
use datapath.Waitable.{Answer, Outcome, returned, waiting, wait_timeout}
use datapath.Waitable.Many.{wait_any, is_count}
use datapath.Waitable.Outcomes.{first_final}
use datapath.Waitable.WaitAny.{
  wait_any-picks, wait_any_unsignaled, valid_at, names_object, unsignaled_result,
}

module _ {κ} {W : Type κ} where
  collect-prefix :
      (n : ℕ) (ts : List (ℕ × Task W)) → (rest : List (ℕ × Task W)) × (ts ≡ collect n ts ++ rest)
  unfolding collect
  collect-prefix n [] = ([], refl)
  collect-prefix n (t ∷ ts) = elim (Bool-cases (leb 64 (n + 1))) [
    | inl e ↦ rw e (ts, refl)
    | inr e ↦ let (rest, same) = collect-prefix (n + 1) ts in rw e (rest, ap (◌∷◌ t) same)
  ]

  length-collect : (n : ℕ) (ts : List (ℕ × Task W)) → n < 64 → n + length (collect n ts) ≤ 64
  unfolding collect
  length-collect n [] h = omega arith
  length-collect n (t ∷ ts) h = elim (Bool-cases (leb 64 (n + 1))) [
    | inl e ↦ rw e (omega arith)
    | inr e ↦ rw e (ground (arith, length-collect (n + 1) ts, e))
  ]

  -- A list of up to 64 tasks is copied as it is.
  pub collect-short : (n : ℕ) (ts : List (ℕ × Task W)) → n + length ts ≤ 64 → collect n ts ≡ ts
  unfolding collect
  collect-short n [] h = refl
  collect-short n (t ∷ []) h = ground arith
  collect-short n (t ∷ u ∷ ts) h =
      let room : leb 64 (n + 1) ≡ false = ground arith in
      ap (λ rest. t ∷ (if leb 64 (n + 1) then [] else rest))
        (collect-short (n + 1) (u ∷ ts) (omega arith))
      ∙ ap (λ b. t ∷ (if b then [] else u ∷ ts)) room

  pub collect_all-same : (ts : List (ℕ × Task W)) → collect_all ts ≡ ts
  unfolding collect_all
  collect_all-same [] = refl
  collect_all-same (t ∷ ts) = ap (◌∷◌ t) (collect_all-same ts)

  -- A copy of the tasks that the operating system can wait for: a part of the list from its start,
  -- which is not empty and has 64 tasks at most.
  pub record IsCopy (gather : List (ℕ × Task W) → List (ℕ × Task W)) (ts : List (ℕ × Task W))
      : Type κ where
    pub rest : List (ℕ × Task W)
    pub split : ts ≡ gather ts ++ rest
    pub some_tasks : 0 < length (gather ts)
    pub few_tasks : length (gather ts) ≤ 64

  pub collect_64-IsCopy : (t : ℕ × Task W) (ts : List (ℕ × Task W)) → IsCopy collect_64 (t ∷ ts)
  unfolding collect_64
  collect_64-IsCopy t ts =
      let (rest, split) = collect-prefix 0 (t ∷ ts) in
      record {
        rest = rest;
        split = split;
        some_tasks = omega arith;
        few_tasks = omega (arith, length-collect 0 (t ∷ ts) (omega arith));
      }

  valid_at-objects :
      (idx r i : ℕ) (ts : List (ℕ × Task W)) (t : ℕ × Task W)
      → i ≡ idx + r
      → get_elem? ts r ≡ some t
      → valid_at idx (objects ts) r ≡ some (i, waitable t.1)
  valid_at-objects idx r i [] t h e = absurd (cc)
  valid_at-objects idx zero i (u ∷ ts) t h e =
      let same : i ≡ idx = omega arith in rw same (ap (Option.map (λ x. (idx, waitable x.1))) e)
  valid_at-objects idx (suc r) i (u ∷ ts) t h e =
      valid_at-objects (idx + 1) r i ts t (omega arith) e

-- What the operating system answers to a wait for any of `count` events.
abbrev pub IsAnswer : ℕ → Option ℕ → Type 0
IsAnswer count none = Unit
IsAnswer count (some r) = (r < count) ⊎ (names_object (some r) ≡ false)

-- What a wait gives: an object is signaled, the number `r` by an answer of the operating system, and its
-- listeners have been called, or it has timed out or failed, or it still waits.
pub data Waited {κ} {W : Type κ} (IsSignal : ℕ → Type 0) (waits : List (ℕ × Task W)) (index : ℕ)
    (w : W) : Outcome (ℕ × W) → Type κ where
  got :
      (r : ℕ) (t : ℕ × Task W)
      → get_elem? waits r ≡ some t
      → IsSignal r
      → Waited IsSignal waits index w
          (returned success (r, call (waitable t.1).on_wait_success success w))
  timed : Waited IsSignal waits index w (returned timed_out (index, w))
  failed : Waited IsSignal waits index w (returned failure (index, w))
  still : Waited IsSignal waits index w (waiting (index, w))

module _ {κ} {W : Type κ} where
  within :
      (ts : List (ℕ × Task W)) (r : ℕ)
      → r < length ts
      → (t : ℕ × Task W) × (get_elem? ts r ≡ some t)
  within [] r h = absurd (omega arith)
  within (t ∷ ts) zero h = (t, refl)
  within (t ∷ ts) (suc r) h = within ts r (omega arith)

  unsignaled-Waited :
      (IsSignal : ℕ → Type 0) (waits : List (ℕ × Task W)) (index : ℕ) (w : W) (o : Option ℕ)
      → Waited IsSignal waits index w (unsignaled_result o (index, w))
  unsignaled-Waited IsSignal waits index w none = still
  unsignaled-Waited IsSignal waits index w (some r) = elim (Bool-cases (r == wait_timeout)) [
    | inl e ↦ rw e timed
    | inr e ↦ rw e failed
  ]

  pub wait_any-Waited :
      (IsSignal : ℕ → Type 0) (waits : List (ℕ × Task W)) (duration : ℤ) (answers : List Answer)
      (index : ℕ) (w : W)
      → is_count (objects waits) ≡ true
      → length waits ≤ 64
      → IsAnswer (length waits) (first_final answers)
      → ((r : ℕ) → first_final answers ≡ some r → IsSignal r)
      → Waited IsSignal waits index w (wait_any (objects waits) duration answers (index, w)).1
  wait_any-Waited IsSignal waits d answers index w n few h signal =
      elim (Option-cases (first_final answers)) [
        | inl e ↦
            subst (Waited IsSignal waits index w)
              (sym (wait_any_unsignaled (objects waits) d answers (index, w) n (rw e refl)))
              (unsignaled-Waited IsSignal waits index w (first_final answers))
        | inr (r, e) ↦ elim (subst (IsAnswer (length waits)) e h) [
          | inl below ↦
              let (t, at) = within waits r below in
              subst (Waited IsSignal waits index w)
                (sym (
                  wait_any-picks (objects waits) d answers index w r n e (ground arith)
                    (valid_at-objects 0 r r waits t (omega arith) at)))
                (got r t at (signal r e))
          | inr unnamed ↦
              subst (Waited IsSignal waits index w)
                (sym (wait_any_unsignaled (objects waits) d answers (index, w) n (rw e unnamed)))
                (unsignaled-Waited IsSignal waits index w (first_final answers))
        ]
      ]
