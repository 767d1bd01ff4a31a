-- ===== src/Server/Bounded.antt =====
-- source/windows/server.cpp, server::_watcher: what the updates of a round do to one handle.
use datapath.Base.{
  ◌==◌, if◌then◌else◌, ==_iff, if-cases, times, times-append, ℕ, ◌+◌, ◌≤◌, ◌≡◌, refl, subst, ◌∙◌,
  ◌⊎◌, inl, inr, Bool, true, false, not, ◌&&◌, Option, none, some, List, [], ◌∷◌, arith,
}
use datapath.Event.{call}
use datapath.Server.{Call, create_socket}
use datapath.Server.Dialing.{
  Dial, Dialing, dial_each, dial_handle, has_key, insert, error_pipe_connected,
}
use datapath.Server.Offers.{
  Lobby, offer, offer_each, declined, seat, grown, may_grow, replenish, accepted,
}
use datapath.Server.Results.{Holds, Holds-bind, Holds-any, Holds-if}
use datapath.Socket.{Socket, connect_handle, close, other_thread}
use datapath.Socket

-- A client has connected before the call that waits for one.
abbrev pub is_found : Dial → Bool
is_found d = not d.suc_result && d.last_error == error_pipe_connected

dial_handle-found :
    (h g : ℕ) (answer : Dial) (d : Dialing)
    → let d1 = if has_key g d.ovmap then d else dial_handle answer g d in
      (times h d1.to_kill ≡ times h d.to_kill) ⊎ ((g == h) ≡ true) × (is_found answer ≡ true)
dial_handle-found h g answer d = ground (arith, times-append h d.to_kill (g ∷ []))

pub dial_each-found :
    (h : ℕ) (dial : ℕ → Dial) (hs : List ℕ) (d : Dialing)
    → (times h (dial_each dial hs d).to_kill ≡ times h d.to_kill) ⊎ (is_found (dial h) ≡ true)
unfolding dial_each
dial_each-found h dial [] d = inl refl
dial_each-found h dial (g ∷ gs) d =
    let d1 = if has_key g d.ovmap then d else dial_handle (dial g) g d in
    let one : (times h d1.to_kill ≡ times h d.to_kill) ⊎ (is_found (dial h) ≡ true) =
      elim (dial_handle-found h g (dial g) d) [
        | inl same ↦ inl same
        | inr (e, y) ↦ inr (subst (λ x. is_found (dial x) ≡ true) ((==_iff g h).0 e) y)
      ] in
    elim (dial_each-found h dial gs d1) [
      | inr y ↦ inr y
      | inl same ↦ elim one [ inl e ↦ inl (same ∙ e) | inr y ↦ inr y ]
    ]

pub times-insert-bounds :
    (a h : ℕ) (xs : List ℕ)
    → (times a xs ≤ times a (insert (λ k. k) h xs))
      × (times a (insert (λ k. k) h xs) ≤ times a xs + times a (h ∷ []))
unfolding insert
times-insert-bounds a h [] = ground arith
times-insert-bounds a h (x ∷ xs) = ground (arith, times-insert-bounds a h xs)

-- The notification with `hs` before it, for one handle: its bounds among the active sockets, and that
-- the server keeps it.
pub record Bounded {κ} {W : Type κ} (h low high kept : ℕ) (hs : List ℕ) (l : Lobby W) : Type 0 where
  pub below : low ≤ times h l.server.active_sockets
  pub above : times h l.server.active_sockets + times h hs ≤ high
  pub held : kept ≤ times h l.server.sockets

module _ {κ} {W : Type κ} (h low high held : ℕ) where
  grown-Bounded :
      (hs : List ℕ) (r : Option ℕ × List (Option ℕ) × List Call) (l : Lobby W)
      → Bounded h low high held hs l
      → Bounded h low high held hs (grown r l)
  grown-Bounded hs (none, rest, made) l v = record {
    below = v.below;
    above = v.above;
    held = v.held;
  }
  grown-Bounded hs (some k, rest, made) l v = record {
    below = v.below;
    above = v.above;
    held = omega (arith, v.held, times-append h l.server.sockets (k ∷ []));
  }

  replenish-Bounded :
      (hs : List ℕ) (l : Lobby W)
      → Bounded h low high held hs l
      → Bounded h low high held hs (replenish l)
  unfolding replenish
  replenish-Bounded hs l v =
      if-cases (Bounded h low high held hs) (may_grow l.server)
        (λ _. grown-Bounded hs (create_socket l.server.path false l.pipes) l v) (λ _. v)

  offer-Bounded :
      (g : ℕ) (hs : List ℕ) (l : Lobby W)
      → Bounded h low high held (g ∷ hs) l
      → Holds (Bounded h low high held hs) (offer g l)
  unfolding offer
  offer-Bounded g hs l v =
      let P = Bounded h low high held hs in
      Holds-any P (connect_handle Socket.construct (some g)) _ λ sock.
        let guest =
          call l.server.on_accept tt (record { accept = true; sock = sock; world = l.world }) in
        let told = record l { world = guest.world } in
        let bounds = times-insert-bounds h g l.server.active_sockets in
        Holds-if P guest.accept (some (accepted g told)) (declined g guest l)
          (replenish-Bounded hs (seat g told) (record {
            below = omega (arith, v.below, bounds);
            above = ground (arith, v.above, bounds);
            held = v.held;
          }))
          (Holds-any P (close other_thread guest.sock guest.world) _
            (λ r. record { below = v.below; above = ground (arith, v.above); held = v.held }))

  pub offer_each-Bounded :
      (hs : List ℕ) (l : Lobby W)
      → Bounded h low high held hs l
      → Holds (Bounded h low high held []) (offer_each hs l)
  unfolding offer_each
  offer_each-Bounded [] l v = v
  offer_each-Bounded (g ∷ hs) l v =
      Holds-bind (Bounded h low high held hs) (Bounded h low high held []) (offer g l)
        (offer_each hs) (offer-Bounded g hs l v) (λ l'. offer_each-Bounded hs l')
