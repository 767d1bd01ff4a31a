-- ===== src/Samples/Echo/Tests.antt =====
-- The echo server's client at concrete inputs.
use datapath.Base.{
  length, ℕ, ◌+◌, ◌≤◌, ◌<◌, ◌≡◌, refl, ◌⊎◌, inl, inr, true, false, none, some, List, [], ◌∷◌, arith,
}
use datapath.Base.Int.{pos}
use datapath.Event.{init}
use datapath.Frame.{write_size}
use datapath.Samples.Echo.{
  Echo, Input, Program, System, attach, round, collect_64, collect_all, aborted,
}
use datapath.Samples.Echo.Replies.{run-replies, replies}
use datapath.Samples.Echo.Limit.{round_all-cases}
use datapath.Samples.Echo.Rounds.{Result, round_64-Result, IsSignaled}
use datapath.Socket.{Socket}
use datapath.Socket.Reads.{view}
use datapath.Socket.Traffic.{Delivery, IsDelivery, all_inputs}
use datapath.Socket.Watcher.{unknown, next, run}
use datapath.Socket.Watcher
use datapath.Task.{Task}
use datapath.Task
use datapath.Waitable.{Answer, wait_object_0, wait_timeout}

abbrev task : ℕ → ℕ × Task (Unit {0})
task a = (a, Task.construct)

abbrev answer : ℕ → List Answer
answer r = record { result = r; elapsed = pos 0 } ∷ []

-- The second of two tasks is signaled; a third one is pushed meanwhile.
abbrev input : Input (Unit {0})
input = record { early = []; late = task 30 ∷ []; first = answer wait_timeout; second = answer 1 }

abbrev two : Echo (Unit {0})
two = record { tasks = task 10 ∷ task 20 ∷ []; shutdown = false }

round_64-Result_example :
    Result
      (IsSignaled input)
      two.tasks
      two.tasks
      (task 10 ∷ task 20 ∷ task 30 ∷ [])
      false
      tt
      (round collect_64 input two tt)
unfolding collect_64
round_64-Result_example =
    round_64-Result input two tt ((refl, (refl, tt)), ((refl, tt), (tt, tt)))
      ((inr refl), inl (omega arith))

round_all-cases_example :
    ((false ≡ true) ⊎ (2 ≤ 64) ⊎ (two.tasks ≡ []))
      × (round collect_all input two tt ≡ round collect_64 input two tt)
    ⊎ ((64 < 2) × (round collect_all input two tt ≡ aborted))
round_all-cases_example = round_all-cases input two tt

abbrev os : System
os = record {
  address = λ n. n;
  event = λ n. n + 100;
  accepts = λ n. true;
  has_completed = λ n. true;
}

abbrev socket : Socket (Program (Unit {0}))
socket = record {
  is_connected = true;
  socket_handle = some 3;
  shutdown = false;
  joinable = true;
  on_message = init;
  on_close = init;
}

abbrev idle : Watcher.Input
idle = record {
  header_ok = true;
  content_ok = true;
  arrived = [];
  first = answer wait_timeout;
  second = answer wait_timeout;
}

abbrev arrival : List ℕ → Watcher.Input
arrival bytes = record idle { arrived = bytes; first = answer wait_object_0 }

-- The message 65 66, with a wait before its content.
abbrev delivery : Delivery
delivery = record {
  message = 65 ∷ 66 ∷ [];
  operation = record { overlapped_ptr = none; handle = none; user_data = 0 };
  header_idles = [];
  header_input = arrival (2 ∷ 0 ∷ 0 ∷ 0 ∷ []);
  content_idles = idle ∷ [];
  content_input = arrival (65 ∷ 66 ∷ []);
}

delivery-IsDelivery : IsDelivery delivery
unfolding Task.assign Task.task_data write_size
delivery-IsDelivery = record {
  small = omega arith;
  header_waits = tt;
  header_arrives = record {
    header_begun = refl;
    content_begun = refl;
    complete = refl;
    signaled = refl;
  };
  content_waits = (record { begun = refl; first_timeout = refl; second_timeout = refl }, tt);
  content_arrives = record {
    header_begun = refl;
    content_begun = refl;
    complete = refl;
    signaled = refl;
  };
}

abbrev new : Program (Unit {0})
new = record { echo = record { tasks = []; shutdown = false }; calls = [] }

run-replies_example :
    let t = attach os (λ _ p. p) socket in
    (buffer' : List ℕ) × (p' : Program (Unit {0})) × (run t
        (all_inputs (delivery ∷ delivery ∷ []))
        (view unknown none [] new)
      ≡ next t (view unknown none buffer' p'))
    × (p'.calls ≡ replies (some 3) (delivery ∷ delivery ∷ []))
    × (length p'.echo.tasks ≡ 2)
run-replies_example =
    run-replies os socket (λ _ p. p) (delivery ∷ delivery ∷ []) [] new refl refl
      (delivery-IsDelivery, (delivery-IsDelivery, tt))
