-- ===== src/Server/Sound.antt =====
-- source/windows/server.cpp, server::_watcher: the active sockets that a round has found.
use datapath.Base.{times, ℕ, ◌<◌, ◌≡◌, true, Option}
use datapath.Server.{Server}
use datapath.Server.Offers.{Lobby}
use datapath.Server.Watcher.{Round, next, left, blocked, crashed, undefined, is_sound}
use datapath.Socket.{Socket}
use datapath.Socket

module _ {κ} {W : Type κ} (a : ℕ) where
  abbrev IsActive : Lobby W → Type 0
  IsActive l = 0 < times a l.server.active_sockets

  -- A round that goes on, and one of whose sockets is `a`.
  abbrev GoesOnSound : (ℕ → Option (Socket W)) → Round W → Type 0
  GoesOnSound peer (next s v calls) = is_sound (peer a) ≡ true
  GoesOnSound peer left = Unit
  GoesOnSound peer blocked = Unit
  GoesOnSound peer crashed = Unit
  GoesOnSound peer (undefined s calls) = Unit
