-- ===== src/Samples/LogTime.antt =====
-- samples/benchmark/main.cpp and samples/single-process-ipc/main.cpp: the time that `log` prints.
use datapath.Base.{ℕ, ◌+◌, ◌*◌, ◌%◌, ◌^◌, ◌<◌, ◌≡◌, arith}
use datapath.Samples.{split_time}

-- The four parts of the time stand for it, and each is in its range. The hours are those that a
-- uint32_t of seconds holds: the time starts over after 2 ^ 32 seconds.
pub split_time_lem :
    (elapsed : ℕ)
    → let t = split_time elapsed in
      (((t.hour * 60 + t.minute) * 60 + t.second) * 1000000000 + t.nanosecond
        ≡ elapsed % (2 ^ 32 * 1000000000))
      × (t.minute < 60)
      × (t.second < 60)
      × (t.nanosecond < 1000000000)
unfolding split_time
split_time_lem elapsed = omega arith
