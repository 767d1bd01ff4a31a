-- ===== src/Samples/Host/Tests.antt =====
-- The echo server at concrete inputs: three pipes, of which a client has connected to the second.
use datapath.Base.{◌==◌, if◌then◌else◌, ◌+◌, ◌≡◌, refl, true, false, some, List, [], ◌∷◌}
use datapath.Event.{init, add, call, to_bool}
use datapath.Samples.Echo.{System}
use datapath.Samples.Host.{Host, handle_accept}
use datapath.Samples.Host.Serves.{served}
use datapath.Server.{Server, Call}
use datapath.Server.Dialing.{dial_each, wait_ops}
use datapath.Server.Offers.{notify_pending, update}
use datapath.Server.Watcher.{Input, View, Round, next, round, first_gone}
use datapath.Socket.{Socket}
use datapath.Socket

abbrev os : System
os = record {
  address = λ n. n;
  event = λ n. n + 100;
  accepts = λ n. true;
  has_completed = λ n. true;
}

abbrev hosted : Server (Host (Unit {0}))
hosted = record {
  is_created = true;
  max_clients = 0;
  path = 97 ∷ [];
  sockets = 1 ∷ 2 ∷ 3 ∷ [];
  waiting_sockets = 1 ∷ 2 ∷ 3 ∷ [];
  pending_sockets = [];
  active_sockets = [];
  shutdown = false;
  joinable = true;
  on_accept = add init (handle_accept os);
}

abbrev input : Input (Host (Unit {0}))
input = record {
  first = [];
  second = [];
  dial = λ h. record { event = 50; suc_result = false; last_error = if h == 2 then 535 else 997 };
  pipes = [];
  peer = λ h. some (record Socket.construct { is_connected = true });
}

abbrev none_served : Host (Unit {0})
none_served = record { sockets = []; replies = 0 }

abbrev end : Server (Host (Unit {0}))
end = record hosted { waiting_sockets = 1 ∷ 3 ∷ []; active_sockets = 2 ∷ [] }

abbrev end_view : View (Host (Unit {0}))
end_view = record { ovmap = []; world = served os (2 ∷ []) none_served }

abbrev calls_of : Round (Host (Unit {0})) → List Call
calls_of (next s v calls) = calls
calls_of r = []

hosted-round :
    round input hosted (record { ovmap = []; world = none_served })
    ≡ next end end_view (calls_of (round input hosted (record { ovmap = []; world = none_served })))
unfolding round wait_ops dial_each update notify_pending first_gone call add to_bool Socket.good
    init handle_accept Socket.construct
hosted-round = refl
