-- ===== src/Samples.antt =====
-- samples/benchmark and samples/single-process-ipc: programs that use the library, a server that
-- sends every message back and a client that measures the time that this takes. The time that both
-- print is here, the line around it in Samples.Log.
pub mod LogTime
pub mod Log
pub mod Measurer
pub mod Echo
pub mod Bench
pub mod Single
pub mod Trip
pub mod Host
pub mod Ends
use datapath.Base.{ℕ, ◌/◌, ◌%◌, ◌^◌}

-- The variables of `log`, whose seconds are a uint32_t.
pub record Clock : Type 0 where
  pub hour : ℕ
  pub minute : ℕ
  pub second : ℕ
  pub nanosecond : ℕ

unfoldable pub split_time : ℕ → Clock
split_time elapsed =
    let second = elapsed / 1000000000 % 2 ^ 32 in
    let minute = second / 60 in
    record {
      hour = minute / 60;
      minute = minute % 60;
      second = second % 60;
      nanosecond = elapsed % 1000000000;
    }
