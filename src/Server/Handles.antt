-- ===== src/Server/Handles.antt =====
-- source/windows/server.cpp: the list in which the server keeps a handle, through the updates of its
-- watcher.
use datapath.Base.{
  ltb, ◌==◌, if◌then◌else◌, Bool-cases, times, times-append, ℕ, suc, ◌+◌, ◌≤◌, ◌≡◌, refl, inl, inr,
  Bool, true, false, Option, none, some, List, [], ◌∷◌, arith,
}
use datapath.Event.{to_bool, call}
use datapath.Server.{Call, Server, Guest, create_socket}
use datapath.Server.Dialing.{
  Dial, Ovmap, Dialing, insert, remove_handle, remove_each, dial_each, dial_handle, dialed, has_key,
}
use datapath.Server.Offers.{
  grown, may_grow, Lobby, lobby, update, replenish, offer, offer_each, notify_pending, declined,
  accepted, seat,
}
use datapath.Server.Results.{Holds, Holds-bind, Holds-any, Holds-if}
use datapath.Socket.{Socket, connect_handle, close, other_thread}
use datapath.Socket

-- Every handle is in one of the three lists, and in none twice.
pub record IsPartitioned {κ} {W : Type κ} (s : Server W) : Type 0 where
  pub single : (h : ℕ) → times h s.sockets ≤ 1
  pub placed :
      (h : ℕ)
      → times h s.waiting_sockets + times h s.pending_sockets + times h s.active_sockets
        ≡ times h s.sockets

-- How often the system is going to return a handle.
abbrev pub supply : ℕ → List (Option ℕ) → ℕ
supply h [] = 0
supply h (none ∷ pipes) = supply h pipes
supply h (some k ∷ pipes) = if k == h then suc (supply h pipes) else supply h pipes

pub times-remove_handle :
    (a h : ℕ) (xs : List ℕ) → times a (remove_handle h xs) ≡ (if h == a then 0 else times a xs)
unfolding remove_handle
times-remove_handle a h [] = ground arith
times-remove_handle a h (x ∷ xs) = ground (arith, times-remove_handle a h xs)

pub times-remove_each :
    (a : ℕ) (hs xs : List ℕ)
    → times a (remove_each hs xs) ≡ (if ltb 0 (times a hs) then 0 else times a xs)
unfolding remove_each
times-remove_each a [] xs = refl
times-remove_each a (h ∷ hs) xs =
    ground (arith, times-remove_each a hs (remove_handle h xs), times-remove_handle a h xs)

-- A key that is not there is put in once.
times-insert :
    (a h : ℕ) (xs : List ℕ)
    → times h xs ≡ 0
    → times a (insert (λ k. k) h xs) ≡ times a xs + times a (h ∷ [])
unfolding insert
times-insert a h [] z = ground arith
times-insert a h (x ∷ xs) z = ground (arith, times-insert a h xs)

-- What the update of the operations puts on the list of pending sockets, it takes off the list of
-- those that wait.
pub dial_each-times :
    (a : ℕ) (dial : ℕ → Dial) (hs : List ℕ) (d : Dialing)
    → let d' = dial_each dial hs d in
      (times a d'.pending + times a d.to_kill ≡ times a d.pending + times a d'.to_kill)
      × (times a d'.to_kill ≤ times a d.to_kill + times a hs)
unfolding dial_each
dial_each-times a dial [] d = omega arith
dial_each-times a dial (h ∷ hs) d =
    let d1 = if has_key h d.ovmap then d else dial_handle (dial h) h d in
    let one : (times a d1.pending + times a d.to_kill ≡ times a d.pending + times a d1.to_kill)
        × (times a d1.to_kill ≤ times a d.to_kill + times a (h ∷ [])) =
      ground (arith, times-append a d.to_kill (h ∷ []), times-append a d.pending (h ∷ [])) in
    let rest = dial_each-times a dial hs d1 in ground (arith, one, rest)

-- No handle that the system is going to return is one of the server's, or another that it returns.
pub record IsFresh {κ} {W : Type κ} (s : Server W) (pipes : List (Option ℕ)) : Type 0 where
  pub fresh : (h : ℕ) → times h s.sockets + supply h pipes ≤ 1

-- The notification with `hs` before it: the rest of the pending sockets.
pub record IsSeated {κ} {W : Type κ} (hs : List ℕ) (l : Lobby W) : Type 0 where
  pub fresh : (h : ℕ) → times h l.server.sockets + supply h l.pipes ≤ 1
  pub placed :
      (h : ℕ)
      → times h l.server.waiting_sockets + times h hs + times h l.server.active_sockets
        ≡ times h l.server.sockets
  pub seated : (h : ℕ) → times h l.to_kill + times h hs ≡ times h l.server.pending_sockets

create_socket-supply :
    (h : ℕ) (path : List ℕ) (initial : Bool) (pipes : List (Option ℕ))
    → let (p, rest, _) = create_socket path initial pipes in supply h (p ∷ rest) ≡ supply h pipes
unfolding create_socket
create_socket-supply h path initial [] = ground arith
create_socket-supply h path initial (p ∷ pipes) = ground arith

module _ {κ} {W : Type κ} where
  pub update-IsPartitioned :
      (dial : ℕ → Dial) (m : Ovmap) (s : Server W)
      → IsPartitioned s
      → IsPartitioned (update (dialed dial s m) s)
  unfolding update
  update-IsPartitioned dial m s v = record {
    single = v.single;
    placed = λ h. ground (
      arith,
      v.single h,
      v.placed h,
      times-remove_each h (dialed dial s m).to_kill s.waiting_sockets,
      dial_each-times h dial s.waiting_sockets
          (record { ovmap = m; to_kill = []; pending = s.pending_sockets; calls = [] }),
    );
  }

  grown-IsSeated :
      (hs : List ℕ) (r : Option ℕ × List (Option ℕ) × List Call) (l : Lobby W)
      → ((h : ℕ) → supply h (r.0 ∷ r.1) ≡ supply h l.pipes)
      → IsSeated hs l
      → IsSeated hs (grown r l)
  grown-IsSeated hs (none, rest, made) l left v = record {
    fresh = λ h. omega (arith, left h, v.fresh h);
    placed = v.placed;
    seated = v.seated;
  }
  grown-IsSeated hs (some k, rest, made) l left v = record {
    fresh = λ h. ground (arith, left h, v.fresh h, times-append h l.server.sockets (k ∷ []));
    placed = λ h. ground (
      arith,
      v.placed h,
      times-append h l.server.sockets (k ∷ []),
      times-append h l.server.waiting_sockets (k ∷ []),
    );
    seated = v.seated;
  }

  replenish-IsSeated : (hs : List ℕ) (l : Lobby W) → IsSeated hs l → IsSeated hs (replenish l)
  unfolding replenish
  replenish-IsSeated hs l v =
      let made = create_socket l.server.path false l.pipes in
      let grew =
        grown-IsSeated hs made l (λ h. create_socket-supply h l.server.path false l.pipes) v in
      elim (Bool-cases (may_grow l.server)) [ inl g ↦ rw g grew | inr g ↦ rw g v ]

  seat-IsSeated : (h : ℕ) (hs : List ℕ) (l : Lobby W) → IsSeated (h ∷ hs) l → IsSeated hs (seat h l)
  seat-IsSeated h hs l v = record {
    fresh = v.fresh;
    placed = λ a.
        ground (arith, v.placed a, v.placed h, v.fresh h, times-insert a h l.server.active_sockets);
    seated = λ a. ground (arith, v.seated a, times-append a l.to_kill (h ∷ []));
  }

  declined-IsSeated :
      (h : ℕ) (hs : List ℕ) (g : Guest W) (l : Lobby W)
      → IsSeated (h ∷ hs) l
      → Holds (IsSeated hs) (declined h g l)
  declined-IsSeated h hs g l v = Holds-any (IsSeated hs) (close other_thread g.sock g.world) _ (λ r.
      record {
        fresh = v.fresh;
        placed = λ a. ground (arith, v.placed a, times-append a l.server.waiting_sockets (h ∷ []));
        seated = λ a. ground (arith, v.seated a, times-append a l.to_kill (h ∷ []));
      })

  offer-IsSeated :
      (h : ℕ) (hs : List ℕ) (l : Lobby W) → IsSeated (h ∷ hs) l → Holds (IsSeated hs) (offer h l)
  unfolding offer
  offer-IsSeated h hs l v =
      Holds-any (IsSeated hs) (connect_handle Socket.construct (some h)) _ λ sock.
        let g =
          call l.server.on_accept tt (record { accept = true; sock = sock; world = l.world }) in
        let told = record l { world = g.world } in
        Holds-if (IsSeated hs) g.accept (some (accepted h told)) (declined h g l)
          (replenish-IsSeated hs (seat h told) (
            seat-IsSeated h hs told
              (record { fresh = v.fresh; placed = v.placed; seated = v.seated })))
          (declined-IsSeated h hs g l v)

  pub offer_each-IsSeated :
      (hs : List ℕ) (l : Lobby W) → IsSeated hs l → Holds (IsSeated []) (offer_each hs l)
  unfolding offer_each
  offer_each-IsSeated [] l v = v
  offer_each-IsSeated (h ∷ hs) l v =
      Holds-bind (IsSeated hs) (IsSeated []) (offer h l) (offer_each hs) (offer-IsSeated h hs l v)
        (λ l'. offer_each-IsSeated hs l')

  pub notify_pending-IsPartitioned :
      (s : Server W) (w : W) (pipes : List (Option ℕ))
      → IsPartitioned s
      → IsFresh s pipes
      → Holds (λ l. IsPartitioned l.server) (notify_pending (lobby s w pipes))
  unfolding notify_pending
  notify_pending-IsPartitioned s w pipes v f =
      Holds-if (λ l. IsPartitioned l.server) (to_bool s.on_accept) _ _
        (Holds-bind (IsSeated []) (λ l. IsPartitioned l.server)
          (offer_each s.pending_sockets (lobby s w pipes)) _
          (offer_each-IsSeated s.pending_sockets (lobby s w pipes)
            (record { fresh = f.fresh; placed = v.placed; seated = λ h. omega arith }))
          (λ l u. record {
            single = λ h. omega (arith, u.fresh h);
            placed = λ h. ground (
              arith,
              u.placed h,
              u.seated h,
              times-remove_each h l.to_kill l.server.pending_sockets,
            );
          }))
        v
