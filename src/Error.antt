-- ===== src/Error.antt =====
-- include/error.hpp: the result codes of the library, with the int32_t that each stands for.
use datapath.Base.{Bool, true, false}
use datapath.Base.Int.{ℤ, pos, negsuc}

pub data Error : Type 0 where
  unknown success failure critical_failure closed timed_out invalid_path not_supported : Error

abbrev code : Error → ℤ
code unknown = negsuc 0
code success = pos 0
code failure = pos 1
code critical_failure = pos 2
code closed = pos 3
code timed_out = pos 4
code invalid_path = pos 5
code not_supported = pos 6

-- The comparisons with two of them.
abbrev pub is_success : Error → Bool
is_success success = true
is_success ec = false

abbrev pub is_timed_out : Error → Bool
is_timed_out timed_out = true
is_timed_out ec = false
