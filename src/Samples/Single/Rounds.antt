-- ===== src/Samples/Single/Rounds.antt =====
-- samples/single-process-ipc/main.cpp, `client::_watcher`: what a round does.
use mathlib.Core.Option
use datapath.Base.{
  ◌==◌, if◌then◌else◌, Bool-cases, if-cases, ℕ, ◌≡◌, refl, sym, ap, subst, ◌∙◌, inl, inr, Bool,
  true, false, Option, none, some, List, [], ◌∷◌, arith,
}
use datapath.Base.Int.{pos}
use datapath.Samples.Single.{
  Single, Input, Pass, ended, next, hung, round, send, test_task, after_first, after_second,
}
use datapath.Socket.{Socket, Call, write, write_file_ex}
use datapath.Task.{Task, waitable, assign, task_data}
use datapath.Frame.{write_size}
use datapath.Waitable.{Outcome, wait_object_0, wait_timeout, wait_abandoned_0}
use datapath.Waitable.Single.{wait}
use datapath.Event.{call}
use datapath.Samples.Bench.{write_stamp}
use datapath.Error.{closed}
use datapath.Waitable.Outcomes.{first_final, wait-settle, settle}

-- Whether the task is kept, by the first answers of both waits that are no alerts; `none` is a wait
-- that has not returned.
abbrev pub keeps_again : Option ℕ → Option Bool
keeps_again none = none
keeps_again (some r) = some (r == wait_timeout)

abbrev pub keeps : Option ℕ → Option ℕ → Option Bool
keeps none second = none
keeps (some r) second = if r == wait_object_0 then some false else keeps_again second

module _ {κ} {W : Type κ} where
  abbrev pub result : Single W → List Call → Option Bool → Pass W
  result c calls none = hung calls
  result c calls (some true) = next c calls
  result c calls (some false) = next (record c { task = none }) calls

  after_second-result :
      (c : Single W) (calls : List Call) (t : Task W) (o : Option ℕ) (w : W)
      → after_second c calls (settle (waitable t) o w) ≡ result c calls (keeps_again o)
  after_second-result c calls t none w = refl
  after_second-result c calls t (some r) w = ground arith

  again :
      (c : Single W) (calls : List Call) (t : Task W) (i : Input) (w : W)
      → after_second c calls (wait (some (waitable t)) (pos 100000000) i.second w).1
        ≡ result c calls (keeps_again (first_final i.second))
  again c calls t i w =
      ap (after_second c calls) (wait-settle (waitable t) (pos 100000000) i.second w).0
      ∙ after_second-result c calls t (first_final i.second) w

  after_first-result :
      (c : Single W) (calls : List Call) (t : Task W) (i : Input) (o : Option ℕ) (w : W)
      → after_first (some t) i c calls (settle (waitable t) o w)
        ≡ result c calls (keeps o (first_final i.second))
  after_first-result c calls t i none w = refl
  after_first-result c calls t i (some r) w =
      let P : Outcome W → Type κ = λ o.
        after_first (some t) i c calls o ≡ result c calls (keeps_again (first_final i.second)) in
      elim (Bool-cases (r == wait_object_0)) [
        | inl e ↦ rw e refl
        | inr e ↦ rw e (
            if-cases P (r == wait_timeout) (λ _. again c calls t i w)
              (λ _.
                if-cases P (r == wait_abandoned_0)
                  (λ _. again c calls t i (call (waitable t).on_wait_error closed w))
                  (λ _. again c calls t i w)))
      ]

  test_task-result :
      (c : Single W) (calls : List Call) (t : Task W) (i : Input) (w : W)
      → after_first (some t) i c calls (wait (some (waitable t)) (pos 0) i.first w).1
        ≡ result c calls (keeps (first_final i.first) (first_final i.second))
  test_task-result c calls t i w =
      ap (after_first (some t) i c calls) (wait-settle (waitable t) (pos 0) i.first w).0
      ∙ after_first-result c calls t i (first_final i.first) w

  module _ {ℓ} {V : Type ℓ} (s : Socket V) (i : Input) (w : W) where
    send-result :
        (c : Single W) (o : Option (Task W))
        → c.task ≡ o
        → test_task i w (send s i c o)
          ≡ result
              (send s i c o).0
              (send s i c o).1
              (keeps (first_final i.first) (first_final i.second))
    send-result c none e =
        let (c', calls) = send s i c none in
        test_task-result c' calls (write {W = W} s none (write_stamp i.now) i.event i.accepted).1 i
          w
    send-result c (some t) e =
        subst
          (λ o.
            after_first o i c [] (wait (Option.map waitable o) (pos 0) i.first w).1
            ≡ result c [] (keeps (first_final i.first) (first_final i.second)))
          (sym e) (test_task-result c [] t i w)

    -- The calls of a round.
    abbrev pub writes : Option (Task W) → List Call
    writes none = write_file_ex s.socket_handle (8 ∷ 0 ∷ 0 ∷ 0 ∷ write_stamp i.now) 12 ∷ []
    writes (some t) = []

    send-writes : (c : Single W) (o : Option (Task W)) → (send s i c o).1 ≡ writes o
    unfolding write assign task_data write_size write_stamp
    send-writes c none = refl
    send-writes c (some t) = refl

    -- A round of a client that is not shut down, whatever the waits answer: if it has no task, it
    -- writes one message, the time, and if it has one, it writes nothing; it never waits for no task;
    -- and it keeps the task if both waits time out, and drops it if one of them does not.
    pub round-result :
        (c : Single W)
        → c.shutdown ≡ false
        → ((send s i c c.task).1 ≡ writes c.task)
          × (round s i w c
              ≡ result
                  (send s i c c.task).0
                  (writes c.task)
                  (keeps (first_final i.first) (first_final i.second)))
    unfolding round
    round-result c on =
        let sent = send-writes c c.task in
        let kept = keeps (first_final i.first) (first_final i.second) in
        (
          sent,
          ap (λ b. if b then ended else test_task i w (send s i c c.task)) on
              ∙ send-result c c.task refl
              ∙ ap (λ calls. result (send s i c c.task).0 calls kept) sent,
        )
