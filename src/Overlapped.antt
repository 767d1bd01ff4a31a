-- ===== src/Overlapped.antt =====
-- source/windows/overlapped.hpp and overlapped.cpp: a pending operation of the operating system.
-- The calls that the code makes are a log, in order. The handle that CreateEventW returns is an
-- argument; whether the status word of an operation says that it is completed is the parameter
-- `has_completed`, the SDK's macro HasOverlappedIoCompleted. The pointer back to the object, which
-- the constructor stores behind the OVERLAPPED and nothing reads, is left out.
pub mod Handles
pub mod Tests
use mathlib.Core.Option
use datapath.Base.{ℕ, Bool, false, Option, none, some, List, [], ◌∷◌}

pub data Call : Type 0 where
  create_event : ℕ → Call
  cancel_io_ex : (handle : Option ℕ) (event : ℕ) → Call
  reset_event : ℕ → Call
  close_handle : ℕ → Call
  set_event : ℕ → Call

-- OVERLAPPED. The offsets and the pointer share their memory.
pub record Native : Type 0 where
  pub internal : ℕ
  pub internal_high : ℕ
  pub offset : ℕ
  pub offset_high : ℕ
  pub pointer : ℕ
  pub event : ℕ

-- INVALID_HANDLE_VALUE is `none`, and so is a null `overlapped_ptr`.
pub record Overlapped : Type 0 where
  pub overlapped_ptr : Option Native
  pub handle : Option ℕ
  pub user_data : ℕ

-- The constructor, where CreateEventW returns `event`.
unfoldable pub construct : ℕ → Overlapped × List Call
construct event = (
  record {
    overlapped_ptr = some (record {
      internal = 0;
      internal_high = 0;
      offset = 0;
      offset_high = 0;
      pointer = 0;
      event = event;
    });
    handle = none;
    user_data = 0;
  },
  create_event event ∷ [],
)

abbrev get_overlapped : Overlapped → Option Native
get_overlapped ov = ov.overlapped_ptr

abbrev get_handle : Overlapped → Option ℕ
get_handle ov = ov.handle

unfoldable pub set_handle : Overlapped → Option ℕ → Overlapped
set_handle ov handle = record ov { handle = handle }

abbrev get_data : Overlapped → ℕ
get_data ov = ov.user_data

unfoldable pub set_data : Overlapped → ℕ → Overlapped
set_data ov d = record ov { user_data = d }

abbrev cancel_calls : Option ℕ → Option Native → List Call
cancel_calls handle none = []
cancel_calls handle (some n) =
    cancel_io_ex handle n.event ∷ reset_event n.event ∷ close_handle n.event ∷ []

-- The event is closed, and its handle stays where it was.
unfoldable pub cancel : Overlapped → List Call
cancel ov = cancel_calls ov.handle ov.overlapped_ptr

abbrev completed_native : (ℕ → Bool) → Option Native → Bool
completed_native has_completed none = false
completed_native has_completed (some n) = has_completed n.internal

unfoldable pub is_completed : (ℕ → Bool) → Overlapped → Bool
is_completed has_completed ov = completed_native has_completed ov.overlapped_ptr

abbrev cleared : Native → Native
cleared n = record n { internal = 0; internal_high = 0; offset = 0; offset_high = 0; pointer = 0 }

unfoldable pub reset : Overlapped → Overlapped × List Call
unfolding cancel
reset ov = (record ov { overlapped_ptr = Option.map cleared ov.overlapped_ptr }, cancel ov)

-- The destructor.
unfoldable pub destroy : Overlapped → List Call
unfolding cancel
destroy ov = cancel ov

-- `none` is the fault of a null `overlapped_ptr`.
unfoldable pub get_waitable : Overlapped → Option ℕ
get_waitable ov = Option.map (λ n. n.event) ov.overlapped_ptr

-- The completion routine of utility.hpp: the operating system calls it with the OVERLAPPED.
abbrev def_io_completion_routine : Native → List Call
def_io_completion_routine n = set_event n.event ∷ []
