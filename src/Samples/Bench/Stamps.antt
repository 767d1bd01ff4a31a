-- ===== src/Samples/Bench/Stamps.antt =====
-- samples/benchmark/main.cpp, `client`: the time that is sent and the duration that is measured.
use datapath.Base.{ℕ, ◌+◌, ◌-◌, ◌%◌, ◌^◌, ◌≤◌, ◌<◌, ◌≡◌, refl, ap, true, some, arith}
use datapath.Base.Int.{pos}
use datapath.Samples.Bench.{Bench, write_stamp, read_stamp, handle_message}
use datapath.Samples.Measurer.{track, signed}

pub read_stamp-write_stamp : (n : ℕ) → read_stamp (write_stamp n) ≡ some (n % 2 ^ 64)
unfolding read_stamp write_stamp
read_stamp-write_stamp n = ap some (omega arith)

module _ {κ} {W : Type κ} where
  -- A time that comes back as it was sent, at a later time by the same clock of 63 bits: the client
  -- measures exactly the time between both, counts the message and may send the next one.
  pub handle_message-write_stamp :
      (sent now : ℕ) (c : Bench W)
      → sent ≤ now
      → now < 2 ^ 63
      → handle_message now (write_stamp sent) c
        ≡ some (record c {
          can_send_msg = true;
          ms = track (pos (now - sent)) c.ms;
          cnt = (c.cnt + 1) % 2 ^ 64;
        })
  unfolding handle_message
  handle_message-write_stamp sent now c after small =
      let whole : sent % 2 ^ 64 ≡ sent = omega arith in
      let exact : (now + 2 ^ 64 - sent) % 2 ^ 64 ≡ now - sent = omega arith in
      let positive : signed (now - sent) ≡ pos (now - sent) = ground arith in
      rw (read_stamp-write_stamp sent, whole, exact, positive) refl
