-- ===== src/Entry.antt =====
-- include/datapath.hpp and source/windows/datapath.cpp: the functions that a program begins with.
use datapath.Base.{ℕ, Option, List}
use datapath.Error.{Error}
use datapath.Server.{Server, Call}
use datapath.Server
use datapath.Socket.{Socket, Opened, Thread}
use datapath.Socket

module _ {κ} {W : Type κ} where
  unfoldable pub connect :
      (List ℕ → Opened) → Option (Socket W) → List ℕ → Option (Error × Option (Socket W))
  unfolding Socket.connect
  connect create_file s path = Socket.connect create_file s path

  -- server::host does not use the permissions.
  unfoldable pub host :
      Thread
      → Option (Server W)
      → List ℕ
      → (permissions max_clients : ℕ) → List (Option ℕ)
      → Option (Error × Server W × List Call)
  unfolding Server.host
  host thread s path permissions max_clients pipes = Server.host thread s path max_clients pipes
