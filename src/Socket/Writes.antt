-- ===== src/Socket/Writes.antt =====
-- source/windows/socket.cpp, socket::write: what is handed to the operating system.
use datapath.Base.{
  if◌then◌else◌, length, ℕ, ◌+◌, ◌-◌, ◌%◌, ◌^◌, ◌≤◌, ◌<◌, ◌≡◌, refl, ap, ◌⊎◌, Bool, Option, some,
  List, [], ◌∷◌, ◌++◌, arith,
}
use datapath.Error.{success, failure}
use datapath.Frame.{write_size}
use datapath.Overlapped.{Overlapped}
use datapath.Overlapped
use datapath.Socket.{Socket, write_file_ex, write, or_new}
use datapath.Task.{Task, assign, task_data, task_length}
use datapath.Frame.Sizes.{length-frame}

module _ {κ ℓ} {W : Type κ} {V : Type ℓ} (s : Socket V) (task : Option (Task W)) (payload : List ℕ)
    (event : ℕ) (written : Bool) where
  -- A write of a message makes one call, for the bytes that the task then holds: the size of the
  -- message modulo 2 ^ 32 and the message. It passes all of them if the message is shorter than
  -- 2 ^ 32 - 4 bytes, and fewer than the task holds if it is not. The task gets the new operation
  -- and keeps its listeners, and the result is success or failure as the call was accepted.
  pub write-frame :
      let (code, obj, calls, _) = write s task payload event written in
      (calls
        ≡ write_file_ex s.socket_handle
            (write_size (length payload) ++ payload)
            ((length payload + 4) % 2 ^ 32)
          ∷ [])
      × (task_data obj ≡ write_size (length payload) ++ payload)
      × (((length payload < 2 ^ 32 - 4) × ((length payload + 4) % 2 ^ 32 ≡ task_length obj))
          ⊎ ((2 ^ 32 - 4 ≤ length payload) × ((length payload + 4) % 2 ^ 32 < task_length obj)))
      × (obj.overlapped ≡ some (Overlapped.construct event).0)
      × (obj.on_success ≡ (or_new task).on_success)
      × (obj.on_failure ≡ (or_new task).on_failure)
      × (code ≡ (if written then success else failure))
  unfolding write assign task_data task_length
  write-frame =
      let size = length-frame payload in
      (
        ap
            (λ n.
              write_file_ex s.socket_handle (write_size (length payload) ++ payload) (n % 2 ^ 32)
              ∷ [])
            size,
        refl,
        omega (arith, size),
        refl,
        refl,
        refl,
        refl,
      )
