-- ===== src/Samples/Single.antt =====
-- samples/single-process-ipc/main.cpp, `client`: it sends the time again and again. What it prints is
-- in Single.Prints.
pub mod Rounds
pub mod Prints
pub mod Tests
use mathlib.Core.Option
use datapath.Base.{
  if◌then◌else◌, ◌>>=◌, length, ℕ, ◌+◌, ◌-◌, ◌%◌, ◌^◌, Bool, true, false, Option, none, some, List,
  [], ◌∷◌, ◌++◌,
}
use datapath.Base.Int.{pos}
use datapath.Error.{Error, is_success, is_timed_out}
use datapath.Samples.Bench.{write_stamp, read_stamp}
use datapath.Entry
use datapath.Event.{add}
use datapath.Socket.{Socket, Opened, Call, write}
use datapath.Task.{Task, waitable}
use datapath.Waitable.{Answer, Outcome, returned, waiting, fault}
use datapath.Waitable.Single.{wait}

pub record Single {κ} (W : Type κ) : Type κ where
  pub shutdown : Bool
  pub task : Option (Task W)

pub record Input : Type 0 where
  pub now : ℕ
  pub event : ℕ
  pub accepted : Bool
  pub first : List Answer
  pub second : List Answer

-- A round of the watcher: the end of the loop, the next round, a wait that has not returned, or the
-- end of the process by a wait for no task. With the calls of the round.
pub data Pass {κ} (W : Type κ) : Type κ where
  ended : Pass W
  next : Single W → List Call → Pass W
  hung : List Call → Pass W
  crashed : Pass W

module _ {κ} {W : Type κ} where
  abbrev settled : Error → Single W → List Call → Pass W
  settled ec c calls = next (if is_timed_out ec then c else record c { task = none }) calls

  abbrev after_second : Single W → List Call → Outcome W → Pass W
  after_second c calls (returned ec w) = settled ec c calls
  after_second c calls (waiting w) = hung calls
  after_second c calls fault = crashed

  abbrev after_first : Option (Task W) → Input → Single W → List Call → Outcome W → Pass W
  after_first t i c calls (returned ec w) =
      if is_success ec
      then settled ec c calls
      else after_second c calls (wait (Option.map waitable t) (pos 100000000) i.second w).1
  after_first t i c calls (waiting w) = hung calls
  after_first t i c calls fault = crashed

  abbrev test_task : Input → W → Single W × List Call → Pass W
  test_task i w (c, calls) =
      after_first c.task i c calls (wait (Option.map waitable c.task) (pos 0) i.first w).1

module _ {κ ℓ} {W : Type κ} {V : Type ℓ} where
  -- The write, if there is no task.
  abbrev send : Socket V → Input → Single W → Option (Task W) → Single W × List Call
  send s i c (some t) = (c, [])
  send s i c none =
      let (ec, t, calls, events) = write s none (write_stamp i.now) i.event i.accepted in
      (record c { task = some t }, calls)

  -- `_watcher`, one round of its loop.
  unfoldable pub round : Socket V → Input → W → Single W → Pass W
  round s i w c = if c.shutdown then ended else test_task i w (send s i c c.task)

-- `handle_message`: the time that it prints, where the clock says `now`; `none` is a read out of
-- bounds.
unfoldable pub handle_message : ℕ → List ℕ → Option ℕ
handle_message now message =
    (read_stamp message >>= λ stamp. some ((now + 2 ^ 64 - stamp) % 2 ^ 64))

-- The sleep at the end of a round that took `dur` nanoseconds: a round without a task takes a quarter
-- of a second.
abbrev pause {κ} : {W : Type κ} → ℕ → Single W → ℕ
pause dur c = elim c.task [ none ↦ 250000000 - dur | some t ↦ 0 ]

module _ {κ} {W : Type κ} where
  unfoldable pub construct : Single W
  construct = record { shutdown = false; task = none }

  -- `handle_close`, and the flag that `close` sets before it joins the watcher.
  unfoldable pub handle_close : Single W → Single W
  handle_close c = record c { shutdown = true }

  -- `handle_message` as a listener, which acts on the client and the times that it has printed; `none`
  -- is behind a read out of bounds.
  unfoldable pub hear : (ℕ → ℕ) → List ℕ → Option (Single W × List ℕ) → Option (Single W × List ℕ)
  unfolding handle_message
  hear clock message none = none
  hear clock message (some (c, printed)) =
      handle_message (clock (length printed)) message >>= λ rtt. some (c, printed ++ rtt ∷ [])

  -- The listeners that the constructor adds, when the watcher runs already.
  unfoldable pub attach :
      (ℕ → ℕ) → Socket (Option (Single W × List ℕ)) → Socket (Option (Single W × List ℕ))
  unfolding hear handle_close add
  attach clock s = record s {
    on_close = add s.on_close (λ _ o. Option.map (λ x. (handle_close x.0, x.1)) o);
    on_message = add s.on_message (hear clock);
  }

  abbrev pub connected :
      (ℕ → ℕ)
      → Error × Option (Socket (Option (Single W × List ℕ)))
      → Option (Socket (Option (Single W × List ℕ)) × Single W)
  connected clock (ec, none) = none
  connected clock (ec, some s) = if is_success ec then some (attach clock s, construct) else none

  -- The constructor: `none` is an exception or the end of the process.
  unfoldable pub make_client :
      (List ℕ → Opened) → (ℕ → ℕ) → List ℕ → Option (Socket (Option (Single W × List ℕ)) × Single W)
  unfolding attach construct
  make_client create_file clock path = Entry.connect create_file none path >>= connected clock
