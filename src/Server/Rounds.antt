-- ===== src/Server/Rounds.antt =====
-- source/windows/server.cpp, server::_watcher: what holds of the server behind a round, if it holds
-- behind the updates of the round.
use datapath.Base.{if◌then◌else◌, ℕ, Bool, true, false, Option, none, some, List}
use datapath.Server.{Server, Call}
use datapath.Server.Dialing.{Ovmap, dialed, wait_ops}
use datapath.Server.Results.{Holds}
use datapath.Server.Offers.{Lobby, lobby, update, notify_pending}
use datapath.Server.Watcher.{
  Input, View, Round, next, left, blocked, crashed, undefined, round, handle_sockets, after_offers,
  after_check, after_wait, first_gone,
}
use datapath.Socket.{Socket}
use datapath.Waitable.{Outcome, returned, waiting, fault}

-- A predicate on what a round leaves, where it goes on.
abbrev pub RoundHolds {κ μ} : {W : Type κ} → (Server W → W → Type μ) → Round W → Type μ
RoundHolds P (next s v calls) = P s v.world
RoundHolds P left = Unit
RoundHolds P blocked = Unit
RoundHolds P crashed = Unit
RoundHolds P (undefined s calls) = Unit

module _ {κ μ} {W : Type κ} (P : Server W → W → Type μ) where
  after_check-Holds :
      (m : Ovmap) (calls : List Call) (l : Lobby W) (gone : Option ℕ)
      → P l.server l.world
      → RoundHolds P (after_check m calls l gone)
  after_check-Holds m calls l none p = p
  after_check-Holds m calls l (some h) p = tt

  after_offers-Holds :
      (peer : ℕ → Option (Socket W)) (m : Ovmap) (calls : List Call) (l : Option (Lobby W))
      → Holds (λ l'. P l'.server l'.world) l
      → RoundHolds P (after_offers peer m calls l)
  after_offers-Holds peer m calls none h = tt
  after_offers-Holds peer m calls (some l) h =
      after_check-Holds m calls l (first_gone peer l.server.active_sockets) h

  after_wait-Holds :
      (i : Input W) (s : Server W) (v : View W) (o : Outcome (ℕ × Bool))
      → RoundHolds P (handle_sockets i s v)
      → RoundHolds P (after_wait i s v o)
  after_wait-Holds i s v (returned ec (index, true)) h = tt
  after_wait-Holds i s v (returned ec (index, false)) h = h
  after_wait-Holds i s v (waiting x) h = tt
  after_wait-Holds i s v fault h = tt

  if-Holds : (b : Bool) (x : Round W) → RoundHolds P x → RoundHolds P (if b then left else x)
  if-Holds true x h = tt
  if-Holds false x h = h

  pub round-Holds :
      (i : Input W) (s : Server W) (v : View W)
      → let d = dialed i.dial s v.ovmap in
        Holds (λ l. P l.server l.world) (notify_pending (lobby (update d s) v.world i.pipes))
        → RoundHolds P (round i s v)
  unfolding round
  round-Holds i s v h =
      let d = dialed i.dial s v.ovmap in
      if-Holds s.shutdown _ (
        after_wait-Holds i s v (wait_ops v.ovmap i.first i.second) (
          after_offers-Holds i.peer d.ovmap d.calls
            (notify_pending (lobby (update d s) v.world i.pipes)) h))
