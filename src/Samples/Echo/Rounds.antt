-- ===== src/Samples/Echo/Rounds.antt =====
-- samples/benchmark/main.cpp and samples/single-process-ipc/main.cpp, `server::client::_watcher`: what a
-- round of the watcher does to the tasks.
use datapath.Base.{
  if◌then◌else◌, length, get_elem?, length-map, ℕ, zero, suc, ◌≤◌, ◌<◌, ◌≡◌, refl, sym, ap, subst,
  ◌∙◌, ◌⊎◌, inl, inr, Bool, true, false, some, List, [], ◌∷◌, ◌++◌, append_assoc, arith,
}
use datapath.Base.Int.{pos}
use datapath.Error.{Error, success, timed_out, failure}
use datapath.Event.{call}
use datapath.Samples.Echo.{
  Echo, Input, Pass, ended, slept, passed, blocked, round, pass, collect_64, after_wait, wait_again,
  objects,
}
use datapath.Samples.Echo.Waits.{
  IsCopy, IsAnswer, Waited, got, timed, failed, still, wait_any-Waited, collect_64-IsCopy,
}
use datapath.Task.{Task, waitable}
use datapath.Waitable.{Answer, Outcome}
use datapath.Waitable.Many.{wait_any, is_count}
use datapath.Waitable.Outcomes.{first_final}
use datapath.Samples.Echo.Erasing.{IsDistinct, Erased, erase_task-Erased}

-- What a round does, where the tasks are `tasks` at its start and `all` at its end, and those of `waits`
-- are waited for. There is no case for what is not defined.
pub data Result {κ} {W : Type κ} (IsSignal : ℕ → Type 0) (tasks waits all : List (ℕ × Task W))
    (shutdown : Bool) (w : W) : Pass W → Type κ where
  ends : shutdown ≡ true → Result IsSignal tasks waits all shutdown w ended
  sleeps :
      (e : Echo W)
      → tasks ≡ []
      → e.tasks ≡ all
      → Result IsSignal tasks waits all shutdown w (slept e)
  finishes :
      (r : ℕ) (t : ℕ × Task W) (e : Echo W)
      → IsSignal r
      → get_elem? waits r ≡ some t
      → Erased t all e.tasks
      → Result IsSignal tasks waits all shutdown w
          (passed success e (call (waitable t.1).on_wait_success success w))
  keeps :
      (ec : Error) (e : Echo W)
      → (ec ≡ timed_out) ⊎ (ec ≡ failure)
      → e.tasks ≡ all
      → Result IsSignal tasks waits all shutdown w (passed ec e w)
  hangs : Result IsSignal tasks waits all shutdown w blocked

module _ {κ} {W : Type κ} where
  get_elem?-prefix :
      (waits rest : List (ℕ × Task W)) (r : ℕ) (t : ℕ × Task W)
      → get_elem? waits r ≡ some t
      → get_elem? (waits ++ rest) r ≡ some t
  get_elem?-prefix [] rest r t e = absurd (cc)
  get_elem?-prefix (u ∷ us) rest zero t e = e
  get_elem?-prefix (u ∷ us) rest (suc r) t e = get_elem?-prefix us rest r t e

  module _ (IsSignal : ℕ → Type 0) (waits : List (ℕ × Task W)) (w : W) where
    wait_again-Waited :
        (answers : List Answer) (index : ℕ) (o : Outcome (ℕ × W))
        → is_count (objects waits) ≡ true
        → length waits ≤ 64
        → IsAnswer (length waits) (first_final answers)
        → ((r : ℕ) → first_final answers ≡ some r → IsSignal r)
        → Waited IsSignal waits index w o
        → Waited IsSignal waits index w (wait_again waits answers o)
    wait_again-Waited answers index o n few h signal (got r t at y) = got r t at y
    wait_again-Waited answers index o n few h signal timed =
        wait_any-Waited IsSignal waits (pos 1000000) answers index w n few h signal
    wait_again-Waited answers index o n few h signal failed =
        wait_any-Waited IsSignal waits (pos 1000000) answers index w n few h signal
    wait_again-Waited answers index o n few h signal still = still

  module _ (IsSignal : ℕ → Type 0) (tasks waits rest : List (ℕ × Task W)) (e : Echo W)
      (shutdown : Bool) (w : W) (split : e.tasks ≡ waits ++ rest)
      (distinct : IsDistinct e.tasks) where
    after_wait-Result :
        (index : ℕ) (o : Outcome (ℕ × W))
        → Waited IsSignal waits index w o
        → Result IsSignal tasks waits e.tasks shutdown w (after_wait waits e o)
    after_wait-Result index o (got r t at y) =
        let (left, found, er) = erase_task-Erased e.tasks r t distinct (
          subst (λ ts. get_elem? ts r ≡ some t) (sym split) (get_elem?-prefix waits rest r t at)) in
        rw (at, found) (finishes r t (record e { tasks = left }) y at er)
    after_wait-Result index o timed = keeps timed_out e (inl refl) refl
    after_wait-Result index o failed = keeps failure e (inr refl) refl
    after_wait-Result index o still = hangs

  -- What is documented of the answers to both waits for the copy of the tasks.
  abbrev pub AreAnswers : (List (ℕ × Task W) → List (ℕ × Task W)) → Input W → Echo W → Type 0
  AreAnswers gather i e =
      let count = length (gather (e.tasks ++ i.early)) in
      IsAnswer count (first_final i.first) × IsAnswer count (first_final i.second)

  -- The number is what one of the two waits has been answered.
  abbrev pub IsSignaled : Input W → ℕ → Type 0
  IsSignaled i r = (first_final i.first ≡ some r) ⊎ (first_final i.second ≡ some r)

  waits-Waited :
      (i : Input W) (waits : List (ℕ × Task W)) (w : W)
      → 0 < length waits
      → length waits ≤ 64
      → IsAnswer (length waits) (first_final i.first)
      → IsAnswer (length waits) (first_final i.second)
      → Waited
          (IsSignaled i)
          waits
          0
          w
          (wait_again waits i.second (wait_any (objects waits) (pos 0) i.first (0, w)).1)
  waits-Waited i waits w some_tasks few a b =
      let size : length (objects waits) ≡ length waits =
        length-map waits (λ t. some (waitable t.1)) in
      let counted : is_count (objects waits) ≡ true = rw size (ground arith) in
      wait_again-Waited (IsSignaled i) waits w i.second 0
        (wait_any (objects waits) (pos 0) i.first (0, w)).1 counted few b (λ r e. inr e)
        (wait_any-Waited (IsSignaled i) waits (pos 0) i.first 0 w counted few a (λ r e. inl e))

  pass-Result :
      (gather : List (ℕ × Task W) → List (ℕ × Task W)) (i : Input W) (tasks : List (ℕ × Task W))
      (e : Echo W) (shutdown : Bool) (w : W)
      → IsDistinct (tasks ++ i.early ++ i.late)
      → (tasks ≡ []) ⊎ IsCopy gather (tasks ++ i.early)
      → IsAnswer (length (gather (tasks ++ i.early))) (first_final i.first)
      → IsAnswer (length (gather (tasks ++ i.early))) (first_final i.second)
      → Result
          (IsSignaled i)
          tasks
          (gather (tasks ++ i.early))
          (tasks ++ i.early ++ i.late)
          shutdown
          w
          (pass gather i tasks e w)
  pass-Result gather i [] e shutdown w d c a b =
      sleeps (record e { tasks = i.early ++ i.late }) refl refl
  pass-Result gather i (t ∷ ts) e shutdown w d (inl none_left) a b =
      absurd (ground (arith, none_left))
  pass-Result gather i (t ∷ ts) e shutdown w d (inr copy) a b =
      let waits = gather (t ∷ ts ++ i.early) in
      after_wait-Result (IsSignaled i) (t ∷ ts) waits (copy.rest ++ i.late)
        (record e { tasks = t ∷ ts ++ i.early ++ i.late }) shutdown w
        (ap (λ x. x ++ i.late) copy.split ∙ append_assoc waits copy.rest i.late) d 0
        (wait_again waits i.second (wait_any (objects waits) (pos 0) i.first (0, w)).1)
        (waits-Waited i waits w copy.some_tasks copy.few_tasks a b)

  round-Result :
      (gather : List (ℕ × Task W) → List (ℕ × Task W)) (i : Input W) (e : Echo W) (w : W)
      → IsDistinct (e.tasks ++ i.early ++ i.late)
      → (e.tasks ≡ []) ⊎ IsCopy gather (e.tasks ++ i.early)
      → AreAnswers gather i e
      → Result
          (IsSignaled i)
          e.tasks
          (gather (e.tasks ++ i.early))
          (e.tasks ++ i.early ++ i.late)
          e.shutdown
          w
          (round gather i e w)
  unfolding round
  round-Result gather i e w d c (a, b) =
      elim e.shutdown
        as (λ x.
          Result (IsSignaled i) e.tasks (gather (e.tasks ++ i.early)) (e.tasks ++ i.early ++ i.late)
            x w (if x then ended else pass gather i e.tasks e w)) [
              | true ↦ ends refl
              | false ↦ pass-Result gather i e.tasks e false w d c a b
            ]

  nonempty-cases :
      (tasks early : List (ℕ × Task W)) → (tasks ≡ []) ⊎ IsCopy collect_64 (tasks ++ early)
  nonempty-cases [] early = inl refl
  nonempty-cases (t ∷ ts) early = inr (collect_64-IsCopy t (ts ++ early))

  -- A round of the benchmark's watcher, whose tasks have addresses of their own, however many tasks
  -- there are and whatever the operating system answers of what it documents: a watcher that is shut
  -- down ends, and one without tasks sleeps; if it gets through with success, one of the waits was
  -- answered with the number of a task that it waits for, whose listeners have been called, and that
  -- task is erased, it alone; where the waits time out or fail, all tasks are kept, with those that
  -- were pushed during the round; or a wait has not returned. It never does what is not defined.
  pub round_64-Result :
      (i : Input W) (e : Echo W) (w : W)
      → IsDistinct (e.tasks ++ i.early ++ i.late)
      → AreAnswers collect_64 i e
      → Result
          (IsSignaled i)
          e.tasks
          (collect_64 (e.tasks ++ i.early))
          (e.tasks ++ i.early ++ i.late)
          e.shutdown
          w
          (round collect_64 i e w)
  round_64-Result i e w d a = round-Result collect_64 i e w d (nonempty-cases e.tasks i.early) a
