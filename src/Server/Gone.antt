-- ===== src/Server/Gone.antt =====
-- source/windows/server.cpp, server::_watcher: an active socket that is gone.
use datapath.Base.{
  Bool-cases, times, All, ℕ, ◌<◌, ◌≡◌, refl, ap, ◌∙◌, ◌⊎◌, inl, inr, true, false, Option, none,
  some, List, [], ◌∷◌, arith,
}
use datapath.Event.{to_bool}
use datapath.Server.{Server}
use datapath.Server.Dialing.{remove_each, dial_each, wait_ops}
use datapath.Server.Handles.{times-remove_handle}
use datapath.Server.Offers.{Lobby, update, notify_pending, offer_each}
use datapath.Server.Watcher.{
  Input, View, next, undefined, round, first_gone, is_sound, drop_active, after_offers, after_check,
}
use datapath.Socket.{Socket}

module _ {κ} {W : Type κ} (peer : ℕ → Option (Socket W)) where
  pub first_gone-cases :
      (hs : List ℕ)
      → ((first_gone peer hs ≡ none) × All (λ h. is_sound (peer h) ≡ true) hs)
        ⊎ ((h : ℕ) × (first_gone peer hs ≡ some h) × (0 < times h hs) × (is_sound (peer h) ≡ false))
  unfolding first_gone
  first_gone-cases [] = inl (refl, tt)
  first_gone-cases (k ∷ hs) = elim (Bool-cases (is_sound (peer k))) [
    | inr gone ↦ inr (k, rw gone, ground arith, gone)
    | inl sound ↦ elim (first_gone-cases hs) [
      | inl (e, all) ↦ inl (rw (sound, e), (sound, all))
      | inr (h, e, there, gone) ↦ inr (h, rw (sound, e), ground (arith, there), gone)
    ]
  ]

module _ {κ} {W : Type κ} where
  -- A server that runs, with no socket that waits or is pending.
  abbrev busy : Server W → Server W
  busy s = record s { shutdown = false; waiting_sockets = []; pending_sockets = [] }

  abbrev idle_view : W → View W
  idle_view w = record { ovmap = []; world = w }

module _ {κ} {W : Type κ} (s : Server W) (w : W) (i : Input W) where
  offers_nothing :
      notify_pending
        (record { server = busy s; world = w; to_kill = []; pipes = i.pipes; calls = [] })
      ≡ some (record { server = busy s; world = w; to_kill = []; pipes = i.pipes; calls = [] })
  unfolding notify_pending offer_each remove_each
  offers_nothing = elim (Bool-cases (to_bool s.on_accept)) [ inl e ↦ rw e | inr e ↦ rw e ]

  -- Where no socket waits or is pending, a round changes nothing and calls nothing if all active
  -- sockets are in use and good. If one is not, the round puts it on the list of waiting sockets,
  -- takes it off the active ones, and then has behaviour that the language does not define: it steps
  -- the iterator that it has erased.
  round-busy :
      (All (λ h. is_sound (i.peer h) ≡ true) s.active_sockets
        × (round i (busy s) (idle_view w) ≡ next (busy s) (idle_view w) []))
      ⊎ ((h : ℕ) × (s' : Server W) × (0 < times h s.active_sockets)
          × (is_sound (i.peer h) ≡ false)
          × (round i (busy s) (idle_view w) ≡ undefined s' [])
          × (s'.waiting_sockets ≡ h ∷ [])
          × (times h s'.active_sockets ≡ 0))
  unfolding round wait_ops update dial_each remove_each drop_active
  round-busy =
      let quiet : Lobby W = record {
        server = busy s;
        world = w;
        to_kill = [];
        pipes = i.pipes;
        calls = [];
      } in
      let checked : round i (busy s) (idle_view w)
          ≡ after_check [] [] quiet (first_gone i.peer s.active_sockets) =
        ap (after_offers i.peer [] []) offers_nothing in
      elim (first_gone-cases i.peer s.active_sockets) [
        | inl (e, all) ↦ inl (all, checked ∙ ap (after_check [] [] quiet) e)
        | inr (h, e, there, gone) ↦ inr (
          h,
          (drop_active h (busy s)).0,
          there,
          gone,
          checked ∙ ap (after_check [] [] quiet) e,
          refl,
          rw (times-remove_handle h h s.active_sockets) (ground arith),
        )
      ]
