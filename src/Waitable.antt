-- ===== src/Waitable.antt =====
-- include/waitable.hpp, and what its three waits in source/windows/waitable.cpp share: the object,
-- the codes of the Win32 waits, and the timeout in milliseconds.
-- The operating system is a list of answers, one for each call that the loop makes; where the list
-- ends, the wait has not returned yet. The state `W` is what the listeners act on; changes that
-- other threads make to it during a wait are not modelled.
pub mod Single
pub mod Many
pub mod Timeouts
pub mod Outcomes
pub mod Nulls
pub mod WaitAll
pub mod WaitAny
pub mod Tests
use datapath.Base.{if◌then◌else◌, ℕ, zero, suc, ◌-◌, ◌/◌, ◌%◌, ◌^◌, Bool, List, ◌∷◌}
use datapath.Base.Int.{ℤ, pos, negsuc, ltb_ℤ, leb_ℤ, ◌-ℤ◌}
use datapath.Error.{Error}
use datapath.Event.{Event}

-- `get_waitable` is the field `handle`.
pub record Waitable {κ} (W : Type κ) : Type κ where
  pub handle : ℕ
  pub on_wait_error : Event (Error → W → W)
  pub on_wait_success : Event (Error → W → W)

abbrev pub wait_object_0 : ℕ
wait_object_0 = 0

abbrev pub wait_abandoned_0 : ℕ
wait_abandoned_0 = 0x80

abbrev pub wait_io_completion : ℕ
wait_io_completion = 0xc0

abbrev pub wait_timeout : ℕ
wait_timeout = 0x102

abbrev pub maximum_wait_objects : ℕ
maximum_wait_objects = 64

-- `std::numeric_limits<int32_t>::max()`
abbrev pub int32_max : ℕ
int32_max = 2 ^ 31 - 1

-- What a Win32 wait returned, and the nanoseconds by the clock between its call and its return.
pub record Answer : Type 0 where
  pub result : ℕ
  pub elapsed : ℤ

-- A call of a Win32 wait. A single wait has one handle.
pub record Request : Type 0 where
  pub handles : List ℕ
  pub wants_all : Bool
  pub millis : ℕ

-- `fault` is an assertion that fails, a null object or an index out of bounds.
pub data Outcome {κ} (W : Type κ) : Type κ where
  returned : Error → W → Outcome W
  waiting : W → Outcome W
  fault : Outcome W

abbrev minus : ℕ → ℤ
minus zero = pos 0
minus (suc n) = negsuc n

-- `duration_cast<milliseconds>` of nanoseconds rounds towards 0.
abbrev pub to_millis : ℤ → ℤ
to_millis (pos n) = pos (n / 1000000)
to_millis (negsuc n) = minus (suc n / 1000000)

unfoldable pub clamp_timeout : ℤ → ℤ
clamp_timeout t =
    if ltb_ℤ t (pos 0) then pos 0 else if ltb_ℤ (pos int32_max) t then pos int32_max else t

-- The timeout that is left after a wait that was alerted.
unfoldable pub elapse : ℤ → ℤ → ℤ
unfolding ◌-ℤ◌
elapse timeout elapsed =
    let left = timeout -ℤ to_millis elapsed in if leb_ℤ left (pos 0) then pos 0 else left

-- `DWORD(timeout)`
abbrev pub dword : ℤ → ℕ
dword (pos n) = n % 2 ^ 32
dword (negsuc n) = 2 ^ 32 - 1 - n % 2 ^ 32

module _ {κ} {W : Type κ} where
  -- Puts a request in front of those of the rest of the loop.
  abbrev pub asked : Request → List Request × Outcome W → List Request × Outcome W
  asked r (rs, o) = (r ∷ rs, o)
