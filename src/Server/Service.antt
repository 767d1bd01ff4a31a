-- ===== src/Server/Service.antt =====
-- source/windows/server.cpp, server::_watcher: whom the listeners are told of.
use datapath.Base.{
  ◌==◌, if◌then◌else◌, Bool-cases, All, ℕ, ◌≡◌, refl, sym, ap, subst, ◌∙◌, ◌⊎◌, inl, inr, true,
  false, Option, none, some, List, [], ◌∷◌, ◌++◌, append_assoc, append-nil, arith,
}
use datapath.Event.{Event, call, to_bool}
use datapath.Server.{Server, Call, Guest, create_socket}
use datapath.Server.Dialing.{
  Dial, Dialing, dial_each, dial_handle, dialed, has_key, error_pipe_connected,
}
use datapath.Server.Offers.{
  Lobby, lobby, update, notify_pending, offer, offer_each, declined, seat, grown, may_grow,
  replenish,
}
use datapath.Server.Results.{Holds, Holds-bind, Holds-cases}
use datapath.Server.Rounds.{RoundHolds, round-Holds}
use datapath.Server.Watcher.{Input, View, next, round}
use datapath.Socket.{Socket, close, other_thread}
use datapath.Socket
use datapath.Socket.Lifecycle.{disconnect-other_thread}

-- The handles that a client is found on.
abbrev pub clients : (ℕ → Dial) → List ℕ → List ℕ
clients dial [] = []
clients dial (h ∷ hs) =
    let rest = clients dial hs in
    if (dial h).last_error == error_pipe_connected then h ∷ rest else rest

-- ConnectNamedPipe of an overlapped handle returns zero.
abbrev pub IsOverlapped : (ℕ → Dial) → ℕ → Type 0
IsOverlapped dial h = (dial h).suc_result ≡ false

dial_handle-cases :
    (dial : ℕ → Dial) (h : ℕ) (d : Dialing)
    → d.ovmap ≡ []
    → (dial h).suc_result ≡ false
    → let d1 = if has_key h d.ovmap then d else dial_handle (dial h) h d in
      (((dial h).last_error == error_pipe_connected) ≡ true)
        × (d1.pending ≡ d.pending ++ h ∷ [])
        × (d1.ovmap ≡ [])
      ⊎ (((dial h).last_error == error_pipe_connected) ≡ false)
        × (d1.pending ≡ d.pending)
        × (d1.ovmap ≡ [])
dial_handle-cases dial h d e z = elim (Bool-cases ((dial h).last_error == error_pipe_connected)) [
  | inl t ↦ inl (t, rw (e, z, t), rw (e, z, t))
  | inr t ↦ inr (t, rw (e, z, t), rw (e, z, t))
]

dial_each-clients :
    (dial : ℕ → Dial) (hs : List ℕ) (d : Dialing)
    → d.ovmap ≡ []
    → All (IsOverlapped dial) hs
    → ((dial_each dial hs d).pending ≡ d.pending ++ clients dial hs)
      × ((dial_each dial hs d).ovmap ≡ [])
unfolding dial_each
dial_each-clients dial [] d e all = (sym (append-nil d.pending), e)
dial_each-clients dial (h ∷ hs) d e (z, all) =
    let d1 = if has_key h d.ovmap then d else dial_handle (dial h) h d in
    elim (dial_handle-cases dial h d e z) [
      | inl (t, p, o) ↦
          let (ps, os) = dial_each-clients dial hs d1 o all in
          (
            ps
                ∙ ap (λ x. x ++ clients dial hs) p
                ∙ append_assoc d.pending (h ∷ []) (clients dial hs)
                ∙ ap (λ b. d.pending ++ (if b then h ∷ clients dial hs else clients dial hs))
                    (sym t),
            os,
          )
      | inr (t, p, o) ↦
          let (ps, os) = dial_each-clients dial hs d1 o all in
          (
            ps
                ∙ ap (λ x. x ++ clients dial hs) p
                ∙ ap (λ b. d.pending ++ (if b then h ∷ clients dial hs else clients dial hs))
                    (sym t),
            os,
          )
    ]

module _ {κ} {W : Type κ} where
  -- What becomes of the state of the program with a declined socket, whose close listeners are
  -- called if it is still connected.
  abbrev pub closed_world : Guest W → W
  closed_world g = if g.sock.is_connected then call g.sock.on_close tt g.world else g.world

  abbrev pub guest : ℕ → W → Guest W
  guest h w = record {
    accept = true;
    sock = record Socket.construct { is_connected = true; socket_handle = some h; joinable = true };
    world = w;
  }

  -- The listeners of `on_accept` are called for each of the handles, in order.
  abbrev pub told : Event (Unit {0} → Guest W → Guest W) → List ℕ → W → W
  told e [] w = w
  told e (h ∷ hs) w =
      let g = call e tt (guest h w) in told e hs (if g.accept then g.world else closed_world g)

  close-closed_world :
      (g : Guest W) → Holds (λ r. r.2 ≡ closed_world g) (close other_thread g.sock g.world)
  unfolding close
  close-closed_world g = elim (Bool-cases g.sock.is_connected) [
    | inl c ↦ rw (c, disconnect-other_thread g.sock g.world) refl
    | inr c ↦ rw c refl
  ]

  grown-same :
      (r : Option ℕ × List (Option ℕ) × List Call) (l : Lobby W)
      → ((grown r l).world ≡ l.world) × ((grown r l).server.on_accept ≡ l.server.on_accept)
  grown-same (none, rest, made) l = (refl, refl)
  grown-same (some k, rest, made) l = (refl, refl)

  replenish-same :
      (l : Lobby W)
      → ((replenish l).world ≡ l.world) × ((replenish l).server.on_accept ≡ l.server.on_accept)
  unfolding replenish
  replenish-same l = elim (Bool-cases (may_grow l.server)) [
    | inl m ↦ rw m (grown-same (create_socket l.server.path false l.pipes) l)
    | inr m ↦ rw m (refl, refl)
  ]

  -- The state behind the calls that are left is `w`.
  abbrev Tells : List ℕ → W → Lobby W → Type κ
  Tells hs w l = told l.server.on_accept hs l.world ≡ w

  offer-Tells :
      (h : ℕ) (hs : List ℕ) (w : W) (l : Lobby W)
      → Tells (h ∷ hs) w l
      → Holds (Tells hs w) (offer h l)
  unfolding offer
  offer-Tells h hs w l tells =
      let e = l.server.on_accept in
      let g = call e tt (guest h l.world) in
      let seated = seat h (record l { world = g.world }) in
      Holds-cases (Tells hs w) g.accept (some (replenish seated)) (declined h g l)
        (λ a.
          let (same_world, same_event) = replenish-same seated in
          ap (λ x. told x hs (replenish seated).world) same_event
          ∙ ap (told e hs) same_world
          ∙ ap (λ b. told e hs (if b then g.world else closed_world g)) (sym a)
          ∙ tells)
        (λ a.
          Holds-bind (λ r. r.2 ≡ closed_world g) (Tells hs w) (close other_thread g.sock g.world) _
            (close-closed_world g)
            (λ r c.
              ap (told e hs) c
              ∙ ap (λ b. told e hs (if b then g.world else closed_world g)) (sym a)
              ∙ tells))

  offer_each-Tells :
      (hs : List ℕ) (w : W) (l : Lobby W) → Tells hs w l → Holds (Tells [] w) (offer_each hs l)
  unfolding offer_each
  offer_each-Tells [] w l tells = tells
  offer_each-Tells (h ∷ hs) w l tells =
      Holds-bind (Tells hs w) (Tells [] w) (offer h l) (offer_each hs) (offer-Tells h hs w l tells)
        (offer_each-Tells hs w)

  -- Where no operation is under way, a listener is there and ConnectNamedPipe returns zero for each
  -- handle that waits, as it does for overlapped handles, a round that goes on calls the listeners
  -- once for every socket that was pending and then for every waiting one on which a client is found,
  -- in order; the close listeners of a socket that they decline are called before the next one.
  pub round-told :
      (i : Input W) (s : Server W) (w : W) (s' : Server W) (v' : View W) (calls : List Call)
      → to_bool s.on_accept ≡ true
      → All (IsOverlapped i.dial) s.waiting_sockets
      → round i s (record { ovmap = []; world = w }) ≡ next s' v' calls
      → v'.world ≡ told s.on_accept (s.pending_sockets ++ clients i.dial s.waiting_sockets) w
  unfolding notify_pending update
  round-told i s w s' v' calls listens overlapped ran =
      let all = s.pending_sockets ++ clients i.dial s.waiting_sockets in
      let end : W = told s.on_accept all w in
      let d = dialed i.dial s [] in
      let first = lobby (update d s) w i.pipes in
      let (found, _) =
        dial_each-clients i.dial s.waiting_sockets
          (record { ovmap = []; to_kill = []; pending = s.pending_sockets; calls = [] }) refl
          overlapped in
      subst (RoundHolds λ x u. u ≡ end) ran (
        round-Holds (λ x u. u ≡ end) i s (record { ovmap = []; world = w })
          (Holds-cases (λ l. l.world ≡ end) (to_bool s.on_accept) _ _
            (λ yes.
              Holds-bind (Tells [] end) (λ l. l.world ≡ end) (offer_each d.pending first) _
                (offer_each-Tells d.pending end first (ap (λ x. told s.on_accept x w) found))
                (λ l h. h))
            (λ no. absurd (ground (arith, listens, no)))))
