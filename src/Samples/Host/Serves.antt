-- ===== src/Samples/Host/Serves.antt =====
-- samples/benchmark/main.cpp and samples/single-process-ipc/main.cpp, `server::handle_accept`: which
-- connections get a client.
use datapath.Base.{All, ℕ, ◌≡◌, refl, ap, ◌∙◌, some, List, [], ◌∷◌, ◌++◌}
use datapath.Event.{init, add, call, call_all, to_bool}
use datapath.Event.Order.{to_bool-add}
use datapath.Samples.Echo.{Echo, System}
use datapath.Samples.Echo
use datapath.Samples.Host.{Host, handle_accept}
use datapath.Server.{Server, Call}
use datapath.Server.Service.{told, clients, IsOverlapped, round-told}
use datapath.Server.Watcher.{Input, View, next, round}
use datapath.Socket.{good}

module _ {κ} {W : Type κ} (os : System) where
  -- A client for each handle, in order.
  abbrev pub served : List ℕ → Host W → Host W
  served [] w = w
  served (h ∷ hs) w = served hs (record w { sockets = w.sockets ++ (some h, Echo.construct) ∷ [] })

  told-served : (hs : List ℕ) (w : Host W) → told (add init (handle_accept os)) hs w ≡ served hs w
  unfolding call call_all add init handle_accept good
  told-served [] w = refl
  told-served (h ∷ hs) w =
      told-served hs (record w { sockets = w.sockets ++ (some h, Echo.construct) ∷ [] })

  -- A round of the watcher of the server that the sample hosts, which goes on, where no operation is
  -- under way and ConnectNamedPipe returns zero for each handle that waits, as it does for overlapped
  -- handles: every socket that was pending, and then every waiting one on which a client is found,
  -- gets a new client, in order, and none is declined.
  round-served :
      (i : Input (Host W)) (s : Server (Host W)) (w : Host W) (s' : Server (Host W))
      (v' : View (Host W)) (calls : List Call)
      → s.on_accept ≡ add init (handle_accept os)
      → All (IsOverlapped i.dial) s.waiting_sockets
      → round i s (record { ovmap = []; world = w }) ≡ next s' v' calls
      → v'.world ≡ served (s.pending_sockets ++ clients i.dial s.waiting_sockets) w
  round-served i s w s' v' calls e overlapped ran =
      let all = s.pending_sockets ++ clients i.dial s.waiting_sockets in
      round-told i s w s' v' calls (ap to_bool e ∙ to_bool-add (handle_accept os)) overlapped ran
      ∙ ap (λ x. told x all w) e
      ∙ told-served all w
