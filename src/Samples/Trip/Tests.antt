-- ===== src/Samples/Trip/Tests.antt =====
-- A message on its way there and back, at concrete inputs: the client sends it at 513 and has it back
-- at 700.
use datapath.Base.{ℕ, ◌+◌, ◌≡◌, refl, true, false, Option, none, some, List, [], ◌∷◌, arith}
use datapath.Base.Int.{pos}
use datapath.Frame.{write_size}
use datapath.Samples.Bench.{Bench, write_stamp}
use datapath.Samples.Bench
use datapath.Samples.Echo.{System, Program}
use datapath.Samples.Echo
use datapath.Samples.Echo.Replies.{replies}
use datapath.Samples.Trip.{Carries, Passes, timed, trip}
use datapath.Socket
use datapath.Socket.{Socket}
use datapath.Socket.Reads.{view}
use datapath.Socket.Traffic.{Delivery, IsDelivery, all_inputs}
use datapath.Socket.Watcher.{Input, unknown, next, run}
use datapath.Task
use datapath.Waitable.{wait_object_0}

abbrev pub os : System
os = record {
  address = λ n. n;
  event = λ n. n + 100;
  accepts = λ n. true;
  has_completed = λ n. true;
}

abbrev server_end : Socket (Program (Unit {0}))
server_end = record Socket.construct { is_connected = true; socket_handle = some 3 }

abbrev client_end : Socket (Option (Bench (Unit {0})))
client_end = record Socket.construct { is_connected = true; socket_handle = some 4 }

abbrev pub arrival : List ℕ → Input
arrival bytes = record {
  header_ok = true;
  content_ok = true;
  arrived = bytes;
  first = record { result = wait_object_0; elapsed = pos 0 } ∷ [];
  second = [];
}

abbrev pub stamp : List ℕ
stamp = 1 ∷ 2 ∷ 0 ∷ 0 ∷ 0 ∷ 0 ∷ 0 ∷ 0 ∷ []

abbrev pub delivery : Delivery
delivery = record {
  message = stamp;
  operation = record { overlapped_ptr = none; handle = none; user_data = 0 };
  header_idles = [];
  header_input = arrival (8 ∷ 0 ∷ 0 ∷ 0 ∷ []);
  content_idles = [];
  content_input = arrival stamp;
}

pub delivery-IsDelivery : IsDelivery delivery
unfolding Task.assign Task.task_data write_size
delivery-IsDelivery = record {
  small = omega arith;
  header_waits = tt;
  header_arrives = record {
    header_begun = refl;
    content_begun = refl;
    complete = refl;
    signaled = refl;
  };
  content_waits = tt;
  content_arrives = record {
    header_begun = refl;
    content_begun = refl;
    complete = refl;
    signaled = refl;
  };
}

pub delivery-Carries : Carries (513 ∷ []) (delivery ∷ [])
unfolding write_stamp
delivery-Carries = (refl, tt)

delivery-Passes : Passes (replies (some 3) (delivery ∷ [])) (delivery ∷ [])
unfolding Task.assign Task.task_data write_size
delivery-Passes = (refl, tt)

abbrev new : Program (Unit {0})
new = record { echo = record { tasks = []; shutdown = false }; calls = [] }

abbrev pub clock : ℕ → ℕ
clock n = 700 + n

trip_example :
    let s' = Echo.attach os (λ _ p. p) server_end in
    let c' = Bench.attach clock client_end in
    (p' : Program (Unit {0})) × (buffer1 : List ℕ) × (buffer2 : List ℕ) × (run s'
        (all_inputs (delivery ∷ []))
        (view unknown none [] new)
      ≡ next s' (view unknown none buffer1 p'))
    × (p'.calls ≡ replies (some 3) (delivery ∷ []))
    × (run c' (all_inputs (delivery ∷ [])) (view unknown none [] (some Bench.construct))
        ≡ next c' (view unknown none buffer2 (some (timed clock (513 ∷ []) Bench.construct))))
unfolding Socket.construct
trip_example =
    trip os clock server_end client_end (λ _ p. p) (513 ∷ []) (delivery ∷ []) (delivery ∷ []) [] []
      new Bench.construct refl refl refl refl (delivery-IsDelivery, tt) (delivery-IsDelivery, tt)
      delivery-Carries delivery-Passes
