-- ===== src/Server/Offers.antt =====
-- source/windows/server.cpp, server::_watcher: the pending sockets are offered to the listeners.
-- What is left of a socket that the program has not kept is closed by its destructor.
use datapath.Base.{
  ltb, leb, if◌then◌else◌, ◌>>=◌, length, ℕ, ◌+◌, Bool, true, false, ◌&&◌, Option, none, some, List,
  [], ◌∷◌, ◌++◌, map,
}
use datapath.Event.{to_bool, call}
use datapath.Server.{Server, Call, Guest, create_socket, push_waiting, backlog_num, of_socket}
use datapath.Server.Dialing.{Dialing, insert, remove_each}
use datapath.Socket.{other_thread, connect_handle}
use datapath.Socket

-- The notification of the pending sockets, as far as it has come.
pub record Lobby {κ} (W : Type κ) : Type κ where
  pub server : Server W
  pub world : W
  pub to_kill : List ℕ
  pub pipes : List (Option ℕ)
  pub calls : List Call

module _ {κ} {W : Type κ} where
  unfoldable pub update : Dialing → Server W → Server W
  unfolding remove_each
  update d s = record s {
    waiting_sockets = remove_each d.to_kill s.waiting_sockets;
    pending_sockets = d.pending;
  }

  abbrev pub may_grow : Server W → Bool
  may_grow s =
      ltb (length s.waiting_sockets + length s.pending_sockets) backlog_num
      && leb (length s.sockets) s.max_clients
      && ltb 0 s.max_clients

  abbrev push_made : Option ℕ → Server W → Server W
  push_made none s = s
  push_made (some h) s = push_waiting h s

  abbrev pub grown : Option ℕ × List (Option ℕ) × List Call → Lobby W → Lobby W
  grown (p, rest, made) l = record l {
    server = push_made p l.server;
    pipes = rest;
    calls = l.calls ++ made;
  }

  -- Another socket for the backlog.
  unfoldable pub replenish : Lobby W → Lobby W
  unfolding create_socket
  replenish l = if may_grow l.server then grown (create_socket l.server.path false l.pipes) l else l

  abbrev pub seat : ℕ → Lobby W → Lobby W
  seat h l = record l {
    server = record l.server { active_sockets = insert (λ k. k) h l.server.active_sockets };
    to_kill = l.to_kill ++ h ∷ [];
  }

  abbrev pub accepted : ℕ → Lobby W → Lobby W
  accepted h l = replenish (seat h l)

  abbrev pub declined : ℕ → Guest W → Lobby W → Option (Lobby W)
  declined h g l = Socket.close other_thread g.sock g.world >>= λ r. some (record l {
    server = record l.server { waiting_sockets = l.server.waiting_sockets ++ h ∷ [] };
    world = r.2;
    to_kill = l.to_kill ++ h ∷ [];
    calls = l.calls ++ map of_socket r.3;
  })

  -- The listeners get a socket that has been connected to the handle.
  unfoldable pub offer : ℕ → Lobby W → Option (Lobby W)
  unfolding Socket.construct connect_handle Socket.close insert replenish
  offer h l = connect_handle Socket.construct (some h) >>= λ sock.
      (let g =
          call l.server.on_accept tt (record { accept = true; sock = sock; world = l.world }) in
        if g.accept then some (accepted h (record l { world = g.world })) else declined h g l)

  unfoldable pub offer_each : List ℕ → Lobby W → Option (Lobby W)
  unfolding offer
  offer_each [] l = some l
  offer_each (h ∷ hs) l = offer h l >>= offer_each hs

  abbrev pub lobby : Server W → W → List (Option ℕ) → Lobby W
  lobby s w pipes = record { server = s; world = w; to_kill = []; pipes = pipes; calls = [] }

  abbrev pub all_seated : Lobby W → Lobby W
  all_seated l = record l {
    server = record l.server { pending_sockets = remove_each l.to_kill l.server.pending_sockets };
  }

  -- Without a listener the sockets stay pending.
  unfoldable pub notify_pending : Lobby W → Option (Lobby W)
  unfolding offer_each remove_each
  notify_pending l =
      if to_bool l.server.on_accept
      then (offer_each l.server.pending_sockets l >>= λ l'. some (all_seated l'))
      else some l
