-- ===== src/Samples/Host.antt =====
-- samples/benchmark/main.cpp and samples/single-process-ipc/main.cpp: `server`, which makes a
-- `server::client` for each connection. A socket is named by its handle here. The listener of the end
-- does nothing in the benchmark; that of the other program, which destroys the client from inside a
-- call of its socket, is in Samples.Ends.
pub mod Serves
pub mod Pipes
pub mod Tests
use datapath.Base.{
  ◌==◌, if◌then◌else◌, ◌>>=◌, ℕ, ◌+◌, Bool, true, false, Option, none, some, List, [], ◌∷◌, ◌++◌,
}
use datapath.Error.{Error, is_success}
use datapath.Event.{add}
use datapath.Samples.Echo.{Echo, System}
use datapath.Samples.Echo
use datapath.Server.{Server, Guest, Call}
use datapath.Entry.{host}
use datapath.Permissions.{mask_or, underlying, user, group, world}
use datapath.Server
use datapath.Socket.{Socket, other_thread, good}

-- The map of the sockets, and how many messages have been sent back. A new socket has a key of its
-- own.
pub record Host {κ} (W : Type κ) : Type κ where
  pub sockets : List (Option ℕ × Echo W)
  pub replies : ℕ

abbrev pub same_handle : Option ℕ → Option ℕ → Bool
same_handle none none = true
same_handle (some a) (some b) = a == b
same_handle _ _ = false

-- `User | Group | World`
abbrev anybody : ℕ
anybody = mask_or (mask_or (underlying user) (underlying group)) (underlying world)

module _ {κ} {W : Type κ} (os : System) where
  -- A message for one of the clients, behind `n` others. The calls of the write are those of
  -- Samples.Echo and are left out here.
  abbrev pub handle_message :
      ℕ → Socket (Host W) → List ℕ → List (Option ℕ × Echo W) → List (Option ℕ × Echo W)
  handle_message n s message [] = []
  handle_message n s message (kv ∷ kvs) =
      let rest = handle_message n s message kvs in
      if same_handle s.socket_handle kv.0
      then (
        kv.0,
        (Echo.handle_message os.has_completed s kv.1 message (os.address n) (os.event n)
            (os.accepts n)).0,
      )
        ∷ kvs
      else kv ∷ rest

  abbrev pub attach : Socket (Host W) → Socket (Host W)
  attach s = record s {
    on_close = add s.on_close (λ _ w. w);
    on_message = add s.on_message (λ message w. record {
      sockets = handle_message w.replies s message w.sockets;
      replies = w.replies + 1;
    });
  }

  -- `handle_accept`, with the constructor of the client.
  unfoldable pub handle_accept : Unit {0} → Guest (Host W) → Guest (Host W)
  unfolding good Echo.construct
  handle_accept _ g =
      if good g.sock
      then record g {
        sock = attach g.sock;
        world = record g.world {
          sockets = g.world.sockets ++ (g.sock.socket_handle, Echo.construct) ∷ [];
        };
      }
      else record g { accept = false }

  abbrev pub listening : Error × Server (Host W) × List Call → Option (Server (Host W))
  listening (ec, s, calls) =
      if is_success ec then some (record s { on_accept = add s.on_accept handle_accept }) else none

  -- The constructor, which hosts with the limit of clients that datapath::host has if none is given,
  -- 0: `none` is an exception or the end of the process.
  unfoldable pub construct : List ℕ → List (Option ℕ) → Option (Server (Host W))
  unfolding host handle_accept add
  construct path pipes = host other_thread none path anybody 0 pipes >>= listening
