-- ===== src/Server/Limits.antt =====
-- source/windows/server.cpp, server::_watcher: how many sockets the server makes.
use datapath.Base.{
  Bool-cases, length, length-append, ℕ, ◌+◌, ◌≤◌, ◌<◌, ◌≡◌, refl, sym, ap, subst, ◌∙◌, ◌⊎◌, inl,
  inr, true, false, Option, none, some, List, [], ◌∷◌, ◌++◌, append_assoc, append-nil, arith,
}
use datapath.Event.{call, to_bool}
use datapath.Server.{Server, Call, create_socket}
use datapath.Server.Dialing.{dialed}
use datapath.Server.Results.{Holds, Holds-bind, Holds-any, Holds-if}
use datapath.Server.Offers.{
  Lobby, lobby, update, notify_pending, offer, offer_each, declined, seat, grown, may_grow,
  replenish,
}
use datapath.Server.Watcher.{Input, View, next, round}
use datapath.Server.Rounds.{RoundHolds, round-Holds}
use datapath.Socket.{Socket, close, connect_handle, other_thread}
use datapath.Socket

-- A server that has come out of `s`, with the same options: its sockets are those of `s` and others
-- behind them, and there are others only up to one more than the clients that are allowed.
pub record IsGrown {κ} {W : Type κ} (s s' : Server W) : Type 0 where
  pub same_limit : s'.max_clients ≡ s.max_clients
  pub kept : (more : List ℕ) × (s'.sockets ≡ s.sockets ++ more)
  pub limited :
      (length s'.sockets ≡ length s.sockets)
      ⊎ ((0 < s.max_clients) × (length s'.sockets ≤ s.max_clients + 1))

module _ {κ} {W : Type κ} (s : Server W) where
  IsGrown-refl : IsGrown s s
  IsGrown-refl = record {
    same_limit = refl;
    kept = ([], sym (append-nil s.sockets));
    limited = inl refl;
  }

  -- The fields that do not matter.
  IsGrown-same :
      (s1 s2 : Server W)
      → IsGrown s s1
      → s2.max_clients ≡ s1.max_clients
      → s2.sockets ≡ s1.sockets
      → IsGrown s s2
  IsGrown-same s1 s2 g m e = record {
    same_limit = m ∙ g.same_limit;
    kept = (g.kept.0, e ∙ g.kept.1);
    limited =
        subst
          (λ xs.
            (length xs ≡ length s.sockets)
            ⊎ ((0 < s.max_clients) × (length xs ≤ s.max_clients + 1)))
          (sym e) g.limited;
  }

  grown-IsGrown :
      (r : Option ℕ × List (Option ℕ) × List Call) (l : Lobby W)
      → IsGrown s l.server
      → may_grow l.server ≡ true
      → IsGrown s (grown r l).server
  grown-IsGrown (none, rest, made) l g m = g
  grown-IsGrown (some k, rest, made) l g m = record {
    same_limit = g.same_limit;
    kept = (
      g.kept.0 ++ k ∷ [],
      ap (λ xs. xs ++ k ∷ []) g.kept.1 ∙ append_assoc s.sockets g.kept.0 (k ∷ []),
    );
    limited = inr (ground (arith, m, g.same_limit, length-append l.server.sockets (k ∷ [])));
  }

  replenish-IsGrown : (l : Lobby W) → IsGrown s l.server → IsGrown s (replenish l).server
  unfolding replenish
  replenish-IsGrown l g =
      let made = create_socket l.server.path false l.pipes in
      elim (Bool-cases (may_grow l.server)) [
        | inl m ↦ rw m (grown-IsGrown made l g m)
        | inr m ↦ rw m g
      ]

  offer-IsGrown :
      (h : ℕ) (l : Lobby W) → IsGrown s l.server → Holds (λ x. IsGrown s x.server) (offer h l)
  unfolding offer
  offer-IsGrown h l g =
      let P : Lobby W → Type 0 = λ x. IsGrown s x.server in
      Holds-any P (connect_handle Socket.construct (some h)) _ λ sock.
        let guest =
          call l.server.on_accept tt (record { accept = true; sock = sock; world = l.world }) in
        let told = record l { world = guest.world } in
        Holds-if P guest.accept (some (replenish (seat h told))) (declined h guest l)
          (replenish-IsGrown (seat h told) (IsGrown-same l.server (seat h told).server g refl refl))
          (Holds-any P (close other_thread guest.sock guest.world) _
            (λ r. IsGrown-same l.server _ g refl refl))

  offer_each-IsGrown :
      (hs : List ℕ) (l : Lobby W)
      → IsGrown s l.server
      → Holds (λ x. IsGrown s x.server) (offer_each hs l)
  unfolding offer_each
  offer_each-IsGrown [] l g = g
  offer_each-IsGrown (h ∷ hs) l g =
      Holds-bind (λ x. IsGrown s x.server) (λ x. IsGrown s x.server) (offer h l) (offer_each hs)
        (offer-IsGrown h l g) (offer_each-IsGrown hs)

  notify_pending-IsGrown :
      (l : Lobby W) → IsGrown s l.server → Holds (λ x. IsGrown s x.server) (notify_pending l)
  unfolding notify_pending
  notify_pending-IsGrown l g =
      Holds-if (λ x. IsGrown s x.server) (to_bool l.server.on_accept) _ _
        (Holds-bind (λ x. IsGrown s x.server) (λ x. IsGrown s x.server)
          (offer_each l.server.pending_sockets l) _
          (offer_each-IsGrown l.server.pending_sockets l g)
          (λ x g'. IsGrown-same x.server _ g' refl refl))
        g

module _ {κ} {W : Type κ} where
  -- A round of the watcher that goes on keeps the options and all sockets of the server, in their
  -- order. It makes other ones only if the limit of clients is not 0, and then the sockets are at
  -- most one more than the limit.
  pub round-IsGrown :
      (i : Input W) (s : Server W) (v : View W) (s' : Server W) (v' : View W) (calls : List Call)
      → round i s v ≡ next s' v' calls
      → IsGrown s s'
  unfolding update
  round-IsGrown i s v s' v' calls e =
      let d = dialed i.dial s v.ovmap in
      subst (RoundHolds (λ x w. IsGrown s x)) e (
        round-Holds (λ x w. IsGrown s x) i s v
          (notify_pending-IsGrown s (lobby (update d s) v.world i.pipes)
            (IsGrown-same s s (update d s) (IsGrown-refl s) refl refl)))
