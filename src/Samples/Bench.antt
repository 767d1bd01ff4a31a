-- ===== src/Samples/Bench.antt =====
-- samples/benchmark/main.cpp, `client`: it sends the time, gets it back from the server and measures
-- how long that took. Its watcher, which sends, and the thread that reads share its fields without a
-- lock, so that the steps of both are apart here.
pub mod Stamps
pub mod Steps
pub mod Traffic
pub mod Fairness
pub mod Turns
pub mod Stall
pub mod Ends
pub mod Reports
pub mod Tests
use mathlib.Core.Option
use datapath.Base.{
  ltb, leb, if◌then◌else◌, ◌>>=◌, replicate, ℕ, ◌+◌, ◌-◌, ◌*◌, ◌/◌, ◌%◌, ◌^◌, Bool, true, false,
  ◌&&◌, ◌||◌, Option, none, some, List, [], ◌∷◌,
}
use datapath.Event.{add}
use datapath.Base.Int.{pos}
use datapath.Error.{Error, is_success, is_timed_out}
use datapath.Overlapped
use datapath.Samples.Measurer.{Measurer, track, signed}
use datapath.Samples.Measurer
use datapath.Entry
use datapath.Socket.{Socket, Opened, write}
use datapath.Socket
use datapath.Task.{Task, waitable}
use datapath.Waitable.{Answer, Outcome, returned, waiting, fault}
use datapath.Waitable.Single.{wait}

abbrev pub message_count : ℕ
message_count = 10000

-- The bytes of a uint64_t, in the byte order of the machine, and back; `none` is a read out of bounds.
unfoldable pub write_stamp : ℕ → List ℕ
write_stamp n =
    n % 256
    ∷ n / 256 % 256
    ∷ n / 65536 % 256
    ∷ n / 16777216 % 256
    ∷ n / 4294967296 % 256
    ∷ n / 1099511627776 % 256
    ∷ n / 281474976710656 % 256
    ∷ n / 72057594037927936 % 256
    ∷ []

unfoldable pub read_stamp : List ℕ → Option ℕ
read_stamp (a ∷ b ∷ c ∷ d ∷ e ∷ f ∷ g ∷ h ∷ rest) = some (
    a
    + 256 * b
    + 65536 * c
    + 16777216 * d
    + 4294967296 * e
    + 1099511627776 * f
    + 281474976710656 * g
    + 72057594037927936 * h)
read_stamp _ = none

-- Where the watcher is: at the condition of its loop, behind the write, at the test of the task, or
-- behind the loop.
pub data Phase : Type 0 where
  looping written testing ended : Phase

pub record Bench {κ} (W : Type κ) : Type κ where
  pub ms : Measurer
  pub write_buf : List ℕ
  pub cnt : ℕ
  pub send_cnt : ℕ
  pub can_send_msg : Bool
  pub shutdown : Bool
  pub task : Option (Task W)
  pub phase : Phase

-- What happens during a step of the watcher: the clock, the event of a new task, whether the write is
-- accepted, and the answers to both waits.
pub record Tick : Type 0 where
  pub now : ℕ
  pub event : ℕ
  pub accepted : Bool
  pub first : List Answer
  pub second : List Answer

abbrev is_none {ℓ} : {A : Type ℓ} → Option A → Bool
is_none none = true
is_none (some a) = false

module _ {κ} {W : Type κ} where
  unfoldable pub construct : Bench W
  construct = record {
    ms = Measurer.construct;
    write_buf = replicate 8 0;
    cnt = 0;
    send_cnt = 0;
    can_send_msg = true;
    shutdown = false;
    task = none;
    phase = looping;
  }

  -- The conditions of the loop, and the write.
  abbrev pub may_send : Bench W → Bool
  may_send c = is_none c.task && ltb c.send_cnt message_count && c.can_send_msg

  abbrev pub is_over : Bench W → Bool
  is_over c = c.shutdown || leb message_count c.send_cnt

  -- The task is dropped on success and on any other result but a timeout; the second wait is one of
  -- 100 milliseconds. The watcher hangs in a wait that has not returned, and a wait for no object is
  -- not there, since the task is.
  abbrev pub settled : Error → Bench W → Bench W
  settled ec c =
      if is_timed_out ec
      then record c { phase = looping }
      else record c { task = none; phase = looping }

  abbrev pub after_second : Bench W → Outcome W → Bench W
  after_second c (returned ec w) = settled ec c
  after_second c (waiting w) = c
  after_second c fault = c

  abbrev pub after_first : Task W → Tick → Bench W → Outcome W → Bench W
  after_first t i c (returned ec w) =
      if is_success ec
      then settled ec c
      else after_second c (wait (some (waitable t)) (pos 100000000) i.second w).1
  after_first t i c (waiting w) = c
  after_first t i c fault = c

  abbrev pub test_task : Option (Task W) → Tick → W → Bench W → Bench W
  test_task none i w c = record c { phase = looping }
  test_task (some t) i w c = after_first t i c (wait (some (waitable t)) (pos 0) i.first w).1

module _ {κ ℓ} {W : Type κ} {V : Type ℓ} where
  -- The write of the time; whether it is accepted makes no difference to the client.
  abbrev pub send : Socket V → Tick → Bench W → Bench W × List Socket.Call
  send s i c =
      let (ec, t, calls, events) = write s c.task (write_stamp i.now) i.event i.accepted in
      (record c { write_buf = write_stamp i.now; task = some t; phase = written }, calls)

  abbrev pub step_in : Phase → Socket V → Tick → W → Bench W → Bench W × List Socket.Call
  step_in looping s i w c =
      if is_over c
      then (record c { phase = ended }, [])
      else if may_send c
      then send s i c
      else (record c { phase = testing }, [])
  step_in written s i w c =
      (record c { send_cnt = (c.send_cnt + 1) % 2 ^ 64; can_send_msg = false; phase = testing }, [])
  step_in testing s i w c = (test_task c.task i w c, [])
  step_in ended s i w c = (c, [])

  -- A step of `_watcher`.
  unfoldable pub step : Socket V → Tick → W → Bench W → Bench W × List Socket.Call
  unfolding write_stamp
  step s i w c = step_in c.phase s i w c

module _ {κ} {W : Type κ} where
  abbrev pub received : ℕ → Bench W → Option ℕ → Option (Bench W)
  received now c none = none
  received now c (some stamp) = some (record c {
    can_send_msg = true;
    ms = track (signed ((now + 2 ^ 64 - stamp) % 2 ^ 64)) c.ms;
    cnt = (c.cnt + 1) % 2 ^ 64;
  })

  -- `handle_message`, where the clock says `now`. What it prints is in Bench.Reports.
  unfoldable pub handle_message : ℕ → List ℕ → Bench W → Option (Bench W)
  unfolding read_stamp
  handle_message now message c = received now c (read_stamp message)

  -- `handle_close`, and the flag that `close` sets before it joins the watcher.
  unfoldable pub handle_close : Bench W → Bench W
  handle_close c = record c { shutdown = true }

  -- `handle_message` as a listener, where the clock depends on how many messages came back; `none` is
  -- behind a read out of bounds.
  unfoldable pub hear : (ℕ → ℕ) → List ℕ → Option (Bench W) → Option (Bench W)
  hear clock message none = none
  hear clock message (some c) = handle_message (clock c.cnt) message c

  -- The listeners that the constructor adds.
  unfoldable pub attach : (ℕ → ℕ) → Socket (Option (Bench W)) → Socket (Option (Bench W))
  unfolding hear handle_close
  attach clock s = record s {
    on_close = add s.on_close (λ _ o. Option.map handle_close o);
    on_message = add s.on_message (hear clock);
  }

  abbrev pub connected :
      (ℕ → ℕ)
      → Error × Option (Socket (Option (Bench W)))
      → Option (Socket (Option (Bench W)) × Bench W)
  connected clock (ec, none) = none
  connected clock (ec, some s) = if is_success ec then some (attach clock s, construct) else none

  -- The constructor: `none` is an exception or the end of the process.
  unfoldable pub make_client :
      (List ℕ → Opened) → (ℕ → ℕ) → List ℕ → Option (Socket (Option (Bench W)) × Bench W)
  unfolding attach construct
  make_client create_file clock path = Entry.connect create_file none path >>= connected clock
