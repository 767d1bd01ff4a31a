-- ===== src/Server/Turns.antt =====
-- source/windows/server.cpp, server::_watcher: a round as a step of each handle.
use datapath.Base.{
  ◌>>=◌, times, ℕ, ◌+◌, ◌≤◌, ◌≡◌, sym, subst, ◌⊎◌, Bool, true, false, Option, some, List, [], arith,
}
use datapath.Event.{to_bool}
use datapath.Server.{Server, Call}
use datapath.Server.Dialing.{Dial, Dialing, Ovmap, dialed, remove_each}
use datapath.Server.Handles.{
  IsSeated, offer_each-IsSeated, update-IsPartitioned, IsPartitioned, IsFresh, times-remove_each,
  dial_each-times,
}
use datapath.Server.Offers.{lobby, update, notify_pending, offer_each, all_seated}
use datapath.Server.Reach.{Reach, Reach-IsPartitioned}
use datapath.Server.Results.{Holds-map, Holds-both, Holds, Holds-bind, Holds-cases}
use datapath.Server.Rounds.{RoundHolds, round-Holds}
use datapath.Server.Watcher.{Input, View, next, round}
use datapath.Server.Stages.{Turn, stage, turn-listens, turn-silent}
use datapath.Server.Bounded.{is_found, dial_each-found, Bounded, offer_each-Bounded}

-- How often the update of the operations has found a client on a handle.
abbrev hits {κ} : {W : Type κ} → ℕ → (ℕ → Dial) → Server W → Ovmap → ℕ
hits h dial s m = times h (dialed dial s m).to_kill

module _ {κ} {W : Type κ} (h : ℕ) (dial : ℕ → Dial) (m : Ovmap) (s : Server W)
    (p : IsPartitioned s) where
  updated-times :
      let d = dialed dial s m in
      ((hits h dial s m ≡ 0) ⊎ (is_found (dial h) ≡ true))
      × (hits h dial s m ≤ times h s.waiting_sockets)
      × (times h d.pending ≡ times h s.pending_sockets + hits h dial s m)
      × (times h (remove_each d.to_kill s.waiting_sockets) + hits h dial s m
          ≡ times h s.waiting_sockets)
  updated-times =
      let start : Dialing = record {
        ovmap = m;
        to_kill = [];
        pending = s.pending_sockets;
        calls = [];
      } in
      let moved = dial_each-times h dial s.waiting_sockets start in
      let d = dialed dial s m in
      (
        dial_each-found h dial s.waiting_sockets start,
        omega (arith, moved),
        omega (arith, moved),
        ground
            (arith, moved, times-remove_each h d.to_kill s.waiting_sockets, p.single h, p.placed h),
      )

  module _ (w : W) (pipes : List (Option ℕ)) (fresh : IsFresh s pipes) where
    abbrev Behind : Bool → Server W → Type 0
    Behind listens s' = Turn (is_found (dial h)) listens (stage h s) (stage h s')

    silent-Turn : Behind false (update (dialed dial s m) s)
    unfolding update
    silent-Turn =
        let (c, k, pend, wait) = updated-times in
        turn-silent (is_found (dial h)) (times h s.waiting_sockets) (times h s.pending_sockets)
          (times h s.active_sockets) _ _ (hits h dial s m) c k
          (omega (arith, p.single h, p.placed h)) wait pend

    offers-Turn :
        let d = dialed dial s m in
        Holds
          (λ l. Behind true (all_seated l).server)
          (offer_each d.pending (lobby (update d s) w pipes))
    unfolding update
    offers-Turn =
        let d = dialed dial s m in
        let l = lobby (update d s) w pipes in
        let q = update-IsPartitioned dial m s p in
        let (c, k, pend, wait) = updated-times in
        let seated =
          offer_each-IsSeated d.pending l
            (record { fresh = fresh.fresh; placed = q.placed; seated = λ g. omega arith }) in
        let bounded =
          offer_each-Bounded h (times h s.active_sockets)
            (times h s.active_sockets + times h d.pending) (times h s.sockets) d.pending l
            (record { below = omega arith; above = omega arith; held = omega arith }) in
        let Q =
          Bounded h (times h s.active_sockets) (times h s.active_sockets + times h d.pending)
            (times h s.sockets) [] in
        Holds-map (λ l'. IsSeated [] l' × Q l') (λ l'. Behind true (all_seated l').server)
          (offer_each d.pending l)
          (Holds-both (IsSeated []) Q (offer_each d.pending l) seated bounded)
          λ l' (u, b).
            let emptied : times h (remove_each l'.to_kill l'.server.pending_sockets) ≡ 0 =
              ground
                (arith, u.seated h, times-remove_each h l'.to_kill l'.server.pending_sockets) in
            turn-listens (is_found (dial h)) (times h s.waiting_sockets) (times h s.pending_sockets)
              (times h s.active_sockets) _ _ _ (hits h dial s m) c k
              (omega (arith, emptied, u.placed h, b.held, p.placed h))
              (omega (arith, emptied, u.placed h, u.fresh h)) emptied b.below
              (omega (arith, b.above, pend))

module _ {κ} {W : Type κ} where
  round-Holds-Turn :
      (i : Input W) (s : Server W) (v : View W) (h : ℕ)
      → IsPartitioned s
      → IsFresh s i.pipes
      → RoundHolds
          (λ s' w. Turn (is_found (i.dial h)) (to_bool s.on_accept) (stage h s) (stage h s'))
          (round i s v)
  unfolding notify_pending update
  round-Holds-Turn i s v h p f =
      let listens = to_bool s.on_accept in
      let P : Server W → Type 0 =
        λ s'. Turn (is_found (i.dial h)) listens (stage h s) (stage h s') in
      round-Holds (λ s' w. P s') i s v
        (Holds-cases (λ l. P l.server) listens _ _
          (λ on.
            subst
              (λ b.
                Holds (λ l. Turn (is_found (i.dial h)) b (stage h s) (stage h l.server))
                  (offer_each (dialed i.dial s v.ovmap).pending
                      (lobby (update (dialed i.dial s v.ovmap) s) v.world i.pipes)
                    >>= λ l'. some (all_seated l')))
              (sym on)
              (Holds-bind
                (λ l. Behind h i.dial v.ovmap s p v.world i.pipes f true (all_seated l).server)
                (λ l. Turn (is_found (i.dial h)) true (stage h s) (stage h l.server)) _ _
                (offers-Turn h i.dial v.ovmap s p v.world i.pipes f) (λ l t. t)))
          (λ off.
            subst
              (λ b.
                Turn (is_found (i.dial h)) b (stage h s)
                  (stage h (update (dialed i.dial s v.ovmap) s)))
              (sym off) (silent-Turn h i.dial v.ovmap s p v.world i.pipes f)))

  -- A round of the watcher that goes on moves each handle by the steps of an abstract machine, whatever
  -- the other handles do, as long as the system returns new handles only: a handle that the server
  -- does not have stays so or waits; one that waits goes on waiting, or, if a client is found on it,
  -- becomes active where there are listeners, and pending where there are none; one that is pending
  -- stays so without listeners, and with them becomes active or waits again; and one that is active
  -- stays active.
  pub round-Turn :
      (i : Input W) (s : Server W) (v : View W) (s' : Server W) (v' : View W) (calls : List Call)
      (h : ℕ)
      → Reach s
      → IsFresh s i.pipes
      → round i s v ≡ next s' v' calls
      → Turn (is_found (i.dial h)) (to_bool s.on_accept) (stage h s) (stage h s')
  round-Turn i s v s' v' calls h r f e =
      subst
        (RoundHolds λ x w. Turn (is_found (i.dial h)) (to_bool s.on_accept) (stage h s) (stage h x))
        e (round-Holds-Turn i s v h (Reach-IsPartitioned s r) f)
