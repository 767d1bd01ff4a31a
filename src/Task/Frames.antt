-- ===== src/Task/Frames.antt =====
-- source/windows/task.cpp: what a task sends.
use datapath.Base.{
  length, take, drop, length-append, take-append, drop-append, ℕ, ◌+◌, ◌%◌, ◌^◌, ◌≡◌, some, List,
  arith,
}
use datapath.Frame.{write_size, read_size}
use datapath.Frame.Sizes.{read_size-write_size, length-write_size}
use datapath.Overlapped.{Overlapped}
use datapath.Task.{Task, assign, task_length, task_data}

module _ {κ} {W : Type κ} where
  -- A task that is given a message holds a frame of four bytes more than the message: the first
  -- four bytes read as its size modulo 2 ^ 32, so as its size if that fits into a uint32_t, and
  -- the message itself stands behind them.
  pub assign-frame :
      (t : Task W) (payload : List ℕ) (ov : Overlapped)
      → let sent = (assign t payload ov).0 in
        (task_length sent ≡ length payload + 4)
        × (read_size (task_data sent) ≡ some (length payload % 2 ^ 32))
        × (take 4 (task_data sent) ≡ write_size (length payload))
        × (drop 4 (task_data sent) ≡ payload)
  unfolding assign task_length task_data
  assign-frame t payload ov =
      let size = write_size (length payload) in
      (
        omega (arith, length-append size payload, length-write_size (length payload)),
        read_size-write_size (length payload) payload,
        take-append size payload,
        drop-append size payload,
      )
