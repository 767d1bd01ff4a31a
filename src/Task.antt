-- ===== src/Task.antt =====
-- include/itask.hpp, source/windows/task.hpp and task.cpp: a message that is being written.
-- A task owns its operation alone (socket::write makes one for it), so that giving it another one
-- destroys the one before. Its listeners read the task when they are called, so the events of the
-- waitable are built from the task as it is then.
pub mod Frames
pub mod Notices
pub mod Handles
pub mod Tests
use datapath.Base.{
  if◌then◌else◌, ◌>>=◌, length, ℕ, Bool, false, not, Option, none, some, List, [], ◌++◌,
}
use datapath.Error.{Error, unknown, success, failure}
use datapath.Event.{init, Event, add, call}
use datapath.Overlapped.{Overlapped, Call}
use datapath.Overlapped
use datapath.Frame.{write_size}
use datapath.Waitable.{Waitable}

pub record Task {κ} (W : Type κ) : Type κ where
  pub overlapped : Option Overlapped
  pub buffer : List ℕ
  pub on_failure : Event (Error → W → W)
  pub on_success : Event (Error × List ℕ → W → W)

abbrev destroy_calls : Option Overlapped → List Call
destroy_calls none = []
destroy_calls (some ov) = Overlapped.destroy ov

abbrev null_or_event : Option ℕ → ℕ
null_or_event none = 0
null_or_event (some e) = e

module _ {κ} {W : Type κ} where
  unfoldable pub construct : Task W
  unfolding init
  construct = record { overlapped = none; buffer = []; on_failure = init; on_success = init }

  -- `_assign`: the buffer is overwritten before the operation that it had is dropped.
  unfoldable pub assign : Task W → List ℕ → Overlapped → Task W × List Call
  unfolding write_size
  assign t payload ov = (
    record t { buffer = write_size (length payload) ++ payload; overlapped = some ov },
    destroy_calls t.overlapped,
  )

  unfoldable pub task_length : Task W → ℕ
  task_length t = length t.buffer

  unfoldable pub task_data : Task W → List ℕ
  task_data t = t.buffer

  -- A null pointer is 0.
  unfoldable pub get_waitable : Task W → ℕ
  get_waitable t = null_or_event (t.overlapped >>= Overlapped.get_waitable)

  -- The task as a waitable, with the two listeners that its constructor adds.
  unfoldable pub waitable : Task W → Waitable W
  unfolding get_waitable task_data
  waitable t = record {
    handle = get_waitable t;
    on_wait_error = add init (λ ec. call t.on_failure ec);
    on_wait_success = add init (λ ec. call t.on_success (ec, task_data t));
  }

module _ (has_completed : ℕ → Bool) where
  abbrev cancel_pending : Option Overlapped → Error × List Call
  cancel_pending none = (unknown, [])
  cancel_pending (some ov) =
      if not (Overlapped.is_completed has_completed ov)
      then (success, Overlapped.cancel ov)
      else (failure, [])

  abbrev completed : Option Overlapped → Bool
  completed none = false
  completed (some ov) = Overlapped.is_completed has_completed ov

module _ {κ} {W : Type κ} (has_completed : ℕ → Bool) where
  unfoldable pub cancel : Task W → Error × List Call
  cancel t = cancel_pending has_completed t.overlapped

  unfoldable pub is_completed : Task W → Bool
  is_completed t = completed has_completed t.overlapped

  -- The destructor, and that of the operation behind it.
  unfoldable pub destroy : Task W → List Call
  unfolding cancel
  destroy t = (cancel t).1 ++ destroy_calls t.overlapped
