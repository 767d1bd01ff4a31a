-- ===== src/Samples/Bench/Tests.antt =====
-- The client of the benchmark at concrete inputs.
use datapath.Base.{◌≡◌, refl, true, false, some, List, [], ◌∷◌, arith}
use datapath.Base.Int.{pos}
use datapath.Samples.Bench.{
  Bench, Tick, construct, step, handle_message, write_stamp, read_stamp, ended,
}
use datapath.Samples.Bench.Ends.{Meanwhile, ticked, heard, IsFine, close_client, close_client-ended}
use datapath.Samples.Bench.Fairness.{IsFair}
use datapath.Samples.Bench.Stall.{early_reply_stalls, IsReady}
use datapath.Samples.Bench.Traffic.{Traffic, Moves, steps, rest, more, start, stepped}
use datapath.Samples.Bench.Turns.{Moves-IsFair}
use datapath.Samples.Measurer.{track}
use datapath.Samples.Measurer
use datapath.Socket
use datapath.Socket.{Socket}
use datapath.Samples.Bench.Ends.{close_client, IsFine, Meanwhile, ticked, heard}
use datapath.Waitable.{wait_object_0, wait_timeout}

abbrev socket : Socket (Unit {0})
socket = record Socket.construct { is_connected = true; socket_handle = some 3 }

abbrev tick : Tick
tick = record {
  now = 513;
  event = 7;
  accepted = true;
  first = record { result = wait_timeout; elapsed = pos 0 } ∷ [];
  second = record { result = wait_object_0; elapsed = pos 5 } ∷ [];
}

abbrev refused : Tick
refused = record tick { accepted = false }

abbrev new : Traffic (Unit {0})
new = start

-- A message has been sent, and the watcher has noted it and waited for the task.
abbrev sent : Traffic (Unit {0})
sent = stepped socket tt tick (stepped socket tt tick (stepped socket tt tick new))

sent-Moves : Moves socket tt new sent
sent-Moves = more (more (more rest (steps tick)) (steps tick)) (steps tick)

Moves-IsFair_example : IsFair sent
Moves-IsFair_example = Moves-IsFair socket tt sent sent-Moves

new-IsReady : IsReady socket tt new
unfolding construct
new-IsReady = record { looping_still = refl; going = refl; turn = refl; none_flying = refl }

abbrev stuck : Traffic (Unit {0})
stuck = stepped socket tt tick (stepped socket tt tick (stepped socket tt refused new))

-- The message comes back at once.
abbrev early : Bench (Unit {0})
early = record (stepped socket tt tick new).client {
  can_send_msg = true;
  ms = track (pos 187) Measurer.construct;
  cnt = 1;
}

abbrev taken : Traffic (Unit {0})
taken = stepped socket tt tick (record { client = early; flying = [] })

early_reply_stalls_example : (taken.client.send_cnt ≡ 1) × (taken.client.cnt ≡ 1)
unfolding construct step handle_message read_stamp write_stamp
early_reply_stalls_example =
    early_reply_stalls socket tt tick tick 700 new taken early new-IsReady refl rest

-- The client is closed while it waits for its task, and a message comes before the watcher ends.
abbrev ending : List Meanwhile
ending = ticked tick ∷ heard 900 (write_stamp 700) ∷ ticked tick ∷ ticked refused ∷ []

ending-IsFine : IsFine ending
unfolding read_stamp write_stamp
ending-IsFine = (
  ((wait_timeout, refl), (wait_object_0, refl)),
  (
    (700, refl),
    (
      ((wait_timeout, refl), (wait_object_0, refl)),
      (((wait_timeout, refl), (wait_object_0, refl)), tt),
    ),
  ),
)

close_client-ended_example :
    (c' : Bench (Unit {0})) × (close_client socket tt ending sent.client ≡ some c')
    × (c'.phase ≡ ended)
    × (c'.shutdown ≡ true)
close_client-ended_example =
    close_client-ended socket tt ending sent.client ending-IsFine (omega arith)

-- The message comes back after 187 nanoseconds.
abbrev answered : Traffic (Unit {0})
answered = record {
  client = record sent.client { can_send_msg = true; ms = track (pos 187) sent.client.ms; cnt = 1 };
  flying = [];
}
