-- ===== src/Samples/Bench/Steps.antt =====
-- samples/benchmark/main.cpp, `client`: what the test of the task may do, whatever the waits return.
use datapath.Base.{if-cases, Option, none, some}
use datapath.Base.Int.{pos}
use datapath.Error.{Error, is_success, is_timed_out}
use datapath.Samples.Bench.{Bench, Tick, looping, settled, after_first, after_second, test_task}
use datapath.Task.{Task, waitable}
use datapath.Waitable.{Outcome, returned, waiting, fault}
use datapath.Waitable.Single.{wait}

module _ {κ ℓ} {W : Type κ} (P : Bench W → Type ℓ) (c : Bench W)
    (kept : P (record c { phase = looping }))
    (dropped : P (record c { task = none; phase = looping })) (hangs : P c) where
  settled-cases : (ec : Error) → P (settled ec c)
  settled-cases ec = if-cases P (is_timed_out ec) (λ _. kept) (λ _. dropped)

  after_second-cases : (o : Outcome W) → P (after_second c o)
  after_second-cases (returned ec w) = settled-cases ec
  after_second-cases (waiting w) = hangs
  after_second-cases fault = hangs

  after_first-cases : (t : Task W) (i : Tick) (o : Outcome W) → P (after_first t i c o)
  after_first-cases t i (returned ec w) =
      if-cases P (is_success ec) (λ _. settled-cases ec)
        (λ _. after_second-cases (wait (some (waitable t)) (pos 100000000) i.second w).1)
  after_first-cases t i (waiting w) = hangs
  after_first-cases t i fault = hangs

  pub test_task-cases : (o : Option (Task W)) (i : Tick) (w : W) → P (test_task o i w c)
  test_task-cases none i w = kept
  test_task-cases (some t) i w =
      after_first-cases t i (wait (some (waitable t)) (pos 0) i.first w).1
