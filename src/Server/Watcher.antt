-- ===== src/Server/Watcher.antt =====
-- source/windows/server.cpp, server::_watcher: the thread that accepts connections. A round of its
-- loop gets what the operating system answers and what the weak pointers of the active sockets point
-- to. `undefined` is behaviour that the language does not define.
use datapath.Base.{
  ltb, if◌then◌else◌, length, ℕ, ◌+◌, Bool, true, false, Option, none, some, List, [], ◌∷◌, ◌++◌,
}
use datapath.Server.{Server, Call, backlog_num, disconnect_named_pipe, close_handle}
use datapath.Server.Dialing.{Dial, Ovmap, wait_ops, dial_each, dialed, remove_handle}
use datapath.Server.Offers.{Lobby, lobby, update, notify_pending}
use datapath.Socket.{Socket, good}
use datapath.Waitable.{Answer, Outcome, returned, waiting, fault}

pub record Input {κ} (W : Type κ) : Type κ where
  pub first : List Answer
  pub second : List Answer
  pub dial : ℕ → Dial
  pub pipes : List (Option ℕ)
  pub peer : ℕ → Option (Socket W)

pub record View {κ} (W : Type κ) : Type κ where
  pub ovmap : Ovmap
  pub world : W

-- `left` is the end of the loop; `blocked`, that a wait has not returned; `crashed`, the end of the
-- process.
pub data Round {κ} (W : Type κ) : Type κ where
  next : Server W → View W → List Call → Round W
  left : Round W
  blocked : Round W
  crashed : Round W
  undefined : Server W → List Call → Round W

module _ {κ} {W : Type κ} where
  abbrev pub is_sound : Option (Socket W) → Bool
  is_sound none = false
  is_sound (some sock) = good sock

  -- An active socket that is gone, up to the step of the iterator that was erased.
  unfoldable pub drop_active : ℕ → Server W → Server W × List Call
  unfolding remove_handle
  drop_active h s =
      let rest = remove_handle h s.active_sockets in
      if ltb (length s.waiting_sockets + length s.pending_sockets) backlog_num
      then (record s { waiting_sockets = s.waiting_sockets ++ h ∷ []; active_sockets = rest }, [])
      else (record s { active_sockets = rest }, disconnect_named_pipe h ∷ close_handle h ∷ [])

  -- The check of the active sockets: the first one that is gone, if any.
  unfoldable pub first_gone : (ℕ → Option (Socket W)) → List ℕ → Option ℕ
  first_gone peer [] = none
  first_gone peer (h ∷ hs) = if is_sound (peer h) then first_gone peer hs else some h

  -- Behind the check of the active sockets.
  abbrev pub after_check : Ovmap → List Call → Lobby W → Option ℕ → Round W
  after_check m calls l none =
      next l.server (record { ovmap = m; world = l.world }) (calls ++ l.calls)
  after_check m calls l (some h) =
      let (s, dropped) = drop_active h l.server in undefined s (calls ++ l.calls ++ dropped)

  abbrev pub after_offers : (ℕ → Option (Socket W)) → Ovmap → List Call → Option (Lobby W) → Round W
  after_offers peer m calls none = crashed
  after_offers peer m calls (some l) =
      after_check m calls l (first_gone peer l.server.active_sockets)

  -- The three updates behind the wait.
  abbrev pub handle_sockets : Input W → Server W → View W → Round W
  handle_sockets i s v =
      let d = dialed i.dial s v.ovmap in
      after_offers i.peer d.ovmap d.calls (notify_pending (lobby (update d s) v.world i.pipes))

  abbrev pub after_wait : Input W → Server W → View W → Outcome (ℕ × Bool) → Round W
  after_wait i s v (returned ec (index, true)) = undefined s []
  after_wait i s v (returned ec (index, false)) = handle_sockets i s v
  after_wait i s v (waiting x) = blocked
  after_wait i s v fault = undefined s []

  -- One round of the loop, its condition first.
  unfoldable pub round : Input W → Server W → View W → Round W
  unfolding wait_ops dial_each update notify_pending drop_active first_gone
  round i s v = if s.shutdown then left else after_wait i s v (wait_ops v.ovmap i.first i.second)
