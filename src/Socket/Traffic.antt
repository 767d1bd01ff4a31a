-- ===== src/Socket/Traffic.antt =====
-- source/windows/socket.cpp and task.cpp: what the operating system does while messages arrive.
use datapath.Base.{
  length, take, drop, All, ℕ, ◌%◌, ◌^◌, ◌<◌, ◌≡◌, refl, sym, ap, ◌∙◌, true, some, List, [], ◌∷◌,
  ◌++◌, append-nil, arith,
}
use datapath.Frame.{read_size, write_size}
use datapath.Frame.Sizes.{read_size-write_size, length-write_size}
use datapath.Overlapped.{Overlapped}
use datapath.Socket.Watcher.{header, content, header_ov, content_ov, Input, ReadState, Slot}
use datapath.Task.{Task, assign, task_data}
use datapath.Task.Frames.{assign-frame}
use datapath.Task
use datapath.Waitable.{wait_object_0, wait_timeout}
use datapath.Waitable.Outcomes.{first_final}

-- The bytes that a task sends for a message.
abbrev pub frame : List ℕ → Overlapped → List ℕ
frame message ov = task_data (assign (Task.construct {W = Unit {0}}) message ov).0

-- What the operating system does for one message: rounds in which nothing is complete, the arrival
-- of the header, rounds in which nothing is complete, and the arrival of the content.
pub record Delivery : Type 0 where
  pub message : List ℕ
  pub operation : Overlapped
  pub header_idles : List Input
  pub header_input : Input
  pub content_idles : List Input
  pub content_input : Input

abbrev pub inputs : Delivery → List Input
inputs d = d.header_idles ++ d.header_input ∷ (d.content_idles ++ d.content_input ∷ [])

abbrev pub all_inputs : List Delivery → List Input
all_inputs [] = []
all_inputs (d ∷ ds) = inputs d ++ all_inputs ds

-- A read is accepted when it is begun, and both waits time out.
pub record IsIdle (i : Input) : Type 0 where
  pub begun : i.header_ok ≡ true
  pub first_timeout : first_final i.first ≡ some wait_timeout
  pub second_timeout : first_final i.second ≡ some wait_timeout

-- A read is accepted when it is begun, and completes with all its bytes before the first wait.
pub record IsArrival (bytes : List ℕ) (i : Input) : Type 0 where
  pub header_begun : i.header_ok ≡ true
  pub content_begun : i.content_ok ≡ true
  pub complete : i.arrived ≡ bytes
  pub signaled : first_final i.first ≡ some wait_object_0

-- The two reads get the frame of the message, the size first.
pub record IsDelivery (d : Delivery) : Type 0 where
  pub small : length d.message < 2 ^ 32
  pub header_waits : All IsIdle d.header_idles
  pub header_arrives : IsArrival (take 4 (frame d.message d.operation)) d.header_input
  pub content_waits : All IsIdle d.content_idles
  pub content_arrives : IsArrival (drop 4 (frame d.message d.operation)) d.content_input

pub overwrite_all :
    (xs ys : List ℕ) → length xs ≡ length ys → take (length ys) xs ++ drop (length xs) ys ≡ xs
overwrite_all [] [] h = refl
overwrite_all [] (y ∷ ys) h = absurd (omega arith)
overwrite_all (x ∷ xs) [] h = absurd (omega arith)
overwrite_all (x ∷ xs) (y ∷ ys) h = ap (◌∷◌ x) (overwrite_all xs ys (omega arith))

pub length-overwrite :
    (xs ys : List ℕ) → length (take (length ys) xs ++ drop (length xs) ys) ≡ length ys
length-overwrite [] [] = refl
length-overwrite [] (y ∷ ys) = refl
length-overwrite (x ∷ xs) [] = refl
length-overwrite (x ∷ xs) (y ∷ ys) = omega (arith, length-overwrite xs ys)

-- The message is read back from the size in front of it.
pub header_bytes :
    (message : List ℕ) (ov : Overlapped)
    → length message < 2 ^ 32
    → (read_size (take 4 (frame message ov)) ≡ some (length message))
      × (length (take 4 (frame message ov)) ≡ 4)
header_bytes message ov small =
    let e : take 4 (frame message ov) ≡ write_size (length message) =
      (assign-frame Task.construct message ov).2 in
    let fits : length message % 2 ^ 32 ≡ length message = omega arith in
    rw e (
      ap read_size (sym (append-nil (write_size (length message))))
          ∙ read_size-write_size (length message) []
          ∙ ap some fits,
      length-write_size (length message),
    )

abbrev pub state_of : Slot → ReadState
state_of header_ov = header
state_of content_ov = content

abbrev pub overwritten : List ℕ → List ℕ → List ℕ
overwritten bytes buffer = take (length buffer) bytes ++ drop (length bytes) buffer
