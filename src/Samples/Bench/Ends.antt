-- ===== src/Samples/Bench/Ends.antt =====
-- samples/benchmark/main.cpp, `client::close` and `~client`: the watcher is told to end and is joined,
-- while the thread of the socket goes on.
use datapath.Base.{
  ◌==◌, if-cases, ◌>>=◌, ℕ, suc, ◌+◌, ◌-◌, ◌%◌, ◌^◌, ◌≤◌, ◌≡◌, refl, sym, ap, subst, ◌∙◌, true,
  Option, none, some, List, [], ◌∷◌, arith,
}
use datapath.Base.Int.{pos, ℤ}
use datapath.Error.{Error, is_success, is_timed_out}
use datapath.Samples.Bench.{
  Bench, Tick, Phase, looping, written, testing, ended, settled, after_first, after_second,
  test_task, step, handle_close, handle_message, read_stamp, step_in, received,
}
use datapath.Samples.Measurer.{track, signed}
use datapath.Socket.{Socket}
use datapath.Task.{Task, waitable}
use datapath.Waitable.{
  Waitable, Outcome, returned, waiting, fault, wait_object_0, wait_timeout, wait_abandoned_0,
  Answer,
}
use datapath.Waitable.Outcomes.{first_final, settle, wait-settle}
use datapath.Waitable.Single.{wait}

-- What happens until the join returns: a step of the watcher, or a message for the listener at a time.
pub data Meanwhile : Type 0 where
  ticked : Tick → Meanwhile
  heard : (now : ℕ) (message : List ℕ) → Meanwhile

module _ {κ ℓ} {W : Type κ} {V : Type ℓ} (s : Socket V) (w : W) where
  abbrev pub occur : Meanwhile → Bench W → Option (Bench W)
  occur (ticked i) c = some (step s i w c).0
  occur (heard now message) c = handle_message now message c

  unfoldable pub occur_each : List Meanwhile → Bench W → Option (Bench W)
  occur_each [] c = some c
  occur_each (m ∷ ms) c = occur m c >>= occur_each ms

  -- `close`: the flag, and what happens until the watcher has ended; `none` is a read out of bounds.
  unfoldable pub close_client : List Meanwhile → Bench W → Option (Bench W)
  unfolding occur_each handle_close
  close_client ms c = occur_each ms (handle_close c)

-- Both waits of a step return, as waits with a timeout do.
abbrev pub IsAnswered : Tick → Type 0
IsAnswered i =
    ((r : ℕ) × (first_final i.first ≡ some r)) × ((r : ℕ) × (first_final i.second ≡ some r))

-- Every step is answered, and every message has the eight bytes of a time.
abbrev pub IsFine : List Meanwhile → Type 0
IsFine [] = Unit
IsFine (ticked i ∷ ms) = IsAnswered i × IsFine ms
IsFine (heard now message ∷ ms) = ((n : ℕ) × (read_stamp message ≡ some n)) × IsFine ms

abbrev pub step_count : List Meanwhile → ℕ
step_count [] = 0
step_count (ticked i ∷ ms) = suc (step_count ms)
step_count (heard now message ∷ ms) = step_count ms

-- How many steps are left of a watcher that is told to end.
abbrev steps_left : Phase → ℕ
steps_left written = 3
steps_left testing = 2
steps_left looping = 1
steps_left ended = 0

no_steps_left : (p : Phase) → steps_left p ≤ 0 → p ≡ ended
no_steps_left written h = absurd (omega arith)
no_steps_left testing h = absurd (omega arith)
no_steps_left looping h = absurd (omega arith)
no_steps_left ended h = refl

steps_left-le : (p : Phase) → steps_left p ≤ 3
steps_left-le written = omega arith
steps_left-le testing = omega arith
steps_left-le looping = omega arith
steps_left-le ended = omega arith

module _ {κ} {W : Type κ} where
  record IsEnding (n : ℕ) (c : Bench W) : Type 0 where
    pub told : c.shutdown ≡ true
    pub soon : steps_left c.phase ≤ n

  abbrev IsReturned : Outcome W → Type 0
  IsReturned (returned ec w) = Unit
  IsReturned (waiting w) = ⊥
  IsReturned fault = ⊥

  settle-IsReturned : (obj : Waitable W) (r : ℕ) (w : W) → IsReturned (settle obj (some r) w)
  settle-IsReturned obj r w =
      if-cases IsReturned (r == wait_object_0) (λ _. tt)
        λ _.
          if-cases IsReturned (r == wait_timeout) (λ _. tt)
            λ _. if-cases IsReturned (r == wait_abandoned_0) (λ _. tt) (λ _. tt)

  wait-IsReturned :
      (obj : Waitable W) (d : ℤ) (answers : List Answer) (w : W) (r : ℕ)
      → first_final answers ≡ some r
      → IsReturned (wait (some obj) d answers w).1
  wait-IsReturned obj d answers w r e =
      subst IsReturned (ap (λ o. settle obj o w) (sym e) ∙ sym (wait-settle obj d answers w).0)
        (settle-IsReturned obj r w)

  settled-IsEnding : (ec : Error) (c : Bench W) → c.shutdown ≡ true → IsEnding 1 (settled ec c)
  settled-IsEnding ec c told =
      if-cases (IsEnding 1) (is_timed_out ec) (λ _. record { told = told; soon = omega arith })
        (λ _. record { told = told; soon = omega arith })

  after_second-IsEnding :
      (o : Outcome W) (c : Bench W)
      → IsReturned o
      → c.shutdown ≡ true
      → IsEnding 1 (after_second c o)
  after_second-IsEnding (returned ec w) c back told = settled-IsEnding ec c told
  after_second-IsEnding (waiting w) c back told = absurd back
  after_second-IsEnding fault c back told = absurd back

  after_first-IsEnding :
      (t : Task W) (i : Tick) (o : Outcome W) (c : Bench W)
      → IsReturned o
      → IsAnswered i
      → c.shutdown ≡ true
      → IsEnding 1 (after_first t i c o)
  after_first-IsEnding t i (returned ec w) c back (_, (q, second)) told =
      if-cases (IsEnding 1) (is_success ec) (λ _. settled-IsEnding ec c told)
        λ _.
          after_second-IsEnding (wait (some (waitable t)) (pos 100000000) i.second w).1 c
            (wait-IsReturned (waitable t) (pos 100000000) i.second w q second) told
  after_first-IsEnding t i (waiting w) c back answered told = absurd back
  after_first-IsEnding t i fault c back answered told = absurd back

  test_task-IsEnding :
      (o : Option (Task W)) (i : Tick) (w : W) (c : Bench W)
      → IsAnswered i
      → c.shutdown ≡ true
      → IsEnding 1 (test_task o i w c)
  test_task-IsEnding none i w c answered told = record { told = told; soon = omega arith }
  test_task-IsEnding (some t) i w c ((r, first), more) told =
      after_first-IsEnding t i (wait (some (waitable t)) (pos 0) i.first w).1 c
        (wait-IsReturned (waitable t) (pos 0) i.first w r first) ((r, first), more) told

module _ {κ ℓ} {W : Type κ} {V : Type ℓ} (s : Socket V) (w : W) where
  -- A step takes at least one of those that are left.
  step-IsEnding :
      (p : Phase) (i : Tick) (c : Bench W) (n : ℕ)
      → IsAnswered i
      → c.shutdown ≡ true
      → c.phase ≡ p
      → steps_left p ≤ suc n
      → IsEnding n (step_in p s i w c).0
  step-IsEnding looping i c n answered told at_phase soon =
      rw told (record { told = refl; soon = omega arith })
  step-IsEnding written i c n answered told at_phase soon = record {
    told = told;
    soon = omega arith;
  }
  step-IsEnding testing i c n answered told at_phase soon =
      let e = test_task-IsEnding c.task i w c answered told in
      record { told = e.told; soon = omega (arith, e.soon, soon) }
  step-IsEnding ended i c n answered told at_phase soon = record {
    told = told;
    soon = rw at_phase (omega arith);
  }

  -- A message changes nothing about it.
  handle_message-IsEnding :
      (now : ℕ) (message : List ℕ) (c : Bench W) (n k : ℕ)
      → read_stamp message ≡ some k
      → IsEnding n c
      → (c' : Bench W) × (handle_message now message c ≡ some c') × IsEnding n c'
  unfolding handle_message
  handle_message-IsEnding now message c n k e h = (
    record c {
      can_send_msg = true;
      ms = track (signed ((now + 2 ^ 64 - k) % 2 ^ 64)) c.ms;
      cnt = (c.cnt + 1) % 2 ^ 64;
    },
    ap (received now c) e,
    record { told = h.told; soon = h.soon },
  )

  occur_each-IsEnding :
      (ms : List Meanwhile) (c : Bench W) (n : ℕ)
      → IsFine ms
      → IsEnding (n + step_count ms) c
      → (c' : Bench W) × (occur_each s w ms c ≡ some c') × IsEnding n c'
  unfolding occur_each step
  occur_each-IsEnding [] c n fine h =
      (c, refl, record { told = h.told; soon = omega (arith, h.soon) })
  occur_each-IsEnding (ticked i ∷ ms) c n fine h =
      occur_each-IsEnding ms (step s i w c).0 n fine.1
        (step-IsEnding c.phase i c (n + step_count ms) fine.0 h.told refl (omega (arith, h.soon)))
  occur_each-IsEnding (heard now message ∷ ms) c n fine h =
      let (k, e) = fine.0 in
      let (c1, ran, h1) = handle_message-IsEnding now message c (n + step_count ms) k e h in
      let (c2, more, h2) = occur_each-IsEnding ms c1 n fine.1 h1 in
      (c2, ap (λ o. o >>= occur_each s w ms) ran ∙ more, h2)

  -- The client is closed, by its destructor or because it has failed: whatever its watcher is doing,
  -- and whatever messages, each of eight bytes at least, come meanwhile, the watcher ends by three
  -- of its steps at most, and the join returns, if each wait of the steps returns, as waits with a
  -- timeout do.
  pub close_client-ended :
      (ms : List Meanwhile) (c : Bench W)
      → IsFine ms
      → 3 ≤ step_count ms
      → (c' : Bench W) × (close_client s w ms c ≡ some c')
        × (c'.phase ≡ ended)
        × (c'.shutdown ≡ true)
  unfolding close_client
  close_client-ended ms c fine enough =
      let told : Bench W = record c { shutdown = true } in
      let (c', ran, h) =
        occur_each-IsEnding ms told 0 fine
          (record { told = refl; soon = omega (arith, steps_left-le c.phase, enough) }) in
      (c', ran, no_steps_left c'.phase h.soon, h.told)
