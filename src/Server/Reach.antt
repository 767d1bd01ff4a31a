-- ===== src/Server/Reach.antt =====
-- source/windows/server.cpp: the servers that the calls of a program lead to.
use datapath.Base.{
  Bool-cases, times, ℕ, zero, suc, ◌≤◌, ◌≡◌, sym, subst, ◌∙◌, inl, inr, Option, none, some, List,
  [], ◌∷◌, arith,
}
use datapath.Error.{Error}
use datapath.Event.{Event}
use datapath.Server.{Server, Call, Guest, construct, create, close}
use datapath.Server.Backlog.{taken, made_for, create_cases, close-other_thread}
use datapath.Server.Dialing.{dialed}
use datapath.Server.Handles.{
  IsPartitioned, IsFresh, supply, update-IsPartitioned, notify_pending-IsPartitioned,
}
use datapath.Server.Offers.{update}
use datapath.Server.Watcher.{Input, View, next, round}
use datapath.Server.Results.{Holds}
use datapath.Server.Rounds.{RoundHolds, round-Holds}
use datapath.Socket.{other_thread}
use datapath.Utility.{make_pipe_path}

times-taken : (h n : ℕ) (pipes : List (Option ℕ)) → times h (taken n pipes) ≤ supply h pipes
times-taken h zero pipes = omega arith
times-taken h (suc n) [] = omega arith
times-taken h (suc n) (none ∷ pipes) = omega arith
times-taken h (suc n) (some k ∷ pipes) = ground (arith, times-taken h n pipes)

times-made_for :
    (h : ℕ) (path : List ℕ) (pipes : List (Option ℕ))
    → times h (made_for path pipes) ≤ supply h pipes
times-made_for h path pipes = elim (Bool-cases (make_pipe_path path).0) [
  | inl fits ↦ rw fits (times-taken h 8 pipes)
  | inr long ↦ rw long (omega arith)
]

module _ {κ} {W : Type κ} where
  round-IsPartitioned :
      (i : Input W) (s : Server W) (v : View W)
      → IsPartitioned s
      → IsFresh s i.pipes
      → RoundHolds (λ s' w. IsPartitioned s') (round i s v)
  unfolding update
  round-IsPartitioned i s v p f =
      let d = dialed i.dial s v.ovmap in
      round-Holds (λ s' w. IsPartitioned s') i s v
        (notify_pending-IsPartitioned (update d s) v.world i.pipes
          (update-IsPartitioned i.dial v.ovmap s p) (record { fresh = f.fresh }))

  create-Holds :
      (s : Server W) (path : List ℕ) (max_clients : ℕ) (pipes : List (Option ℕ))
      → ((h : ℕ) → supply h pipes ≤ 1)
      → Holds (λ r. IsPartitioned r.1) (create other_thread s path max_clients pipes)
  create-Holds s path max_clients pipes fresh =
      let (s1, calls, cases) = create_cases s path max_clients pipes in
      elim cases [
        | inl (_, e, same, _) ↦ subst (Holds λ r. IsPartitioned r.1) (sym e) (
            subst IsPartitioned (sym same) (record {
              single = λ h. omega (arith, fresh h, times-made_for h path pipes);
              placed = λ h. omega arith;
            }))
        | inr (_, e, same, _) ↦ subst (Holds λ r. IsPartitioned r.1) (sym e) (
            subst IsPartitioned (sym same)
              (record { single = λ h. omega arith; placed = λ h. omega arith }))
      ]

  -- A server as the calls of the program and its watcher leave it. The listeners may change at any
  -- time, and the system returns new handles only.
  pub data Reach : Server W → Type κ where
    made : Reach construct
    created :
        (s : Server W) (path : List ℕ) (max_clients : ℕ) (pipes : List (Option ℕ)) (code : Error)
        (s' : Server W) (calls : List Call)
        → Reach s
        → ((h : ℕ) → supply h pipes ≤ 1)
        → create other_thread s path max_clients pipes ≡ some (code, s', calls)
        → Reach s'
    closed :
        (s : Server W) (code : Error) (s' : Server W) (calls : List Call)
        → Reach s
        → close other_thread s ≡ some (code, s', calls)
        → Reach s'
    listened :
        (s : Server W) (e : Event (Unit {0} → Guest W → Guest W))
        → Reach s
        → Reach (record s { on_accept = e })
    watched :
        (i : Input W) (s : Server W) (v : View W) (s' : Server W) (v' : View W) (calls : List Call)
        → Reach s
        → IsFresh s i.pipes
        → round i s v ≡ next s' v' calls
        → Reach s'

  -- However a server is created, closed and given listeners by other threads than its watcher, and
  -- whatever rounds of the watcher go on between, as long as the system returns new handles only:
  -- each handle of the server is in exactly one of the lists of waiting, pending and active sockets,
  -- once, and no other handle is in any of them.
  pub Reach-IsPartitioned : (s : Server W) → Reach s → IsPartitioned s
  unfolding construct
  Reach-IsPartitioned s made = record { single = λ h. omega arith; placed = λ h. omega arith }
  Reach-IsPartitioned s (created s1 path max_clients pipes code s' calls r fresh e) =
      subst (Holds λ x. IsPartitioned x.1) e (create-Holds s1 path max_clients pipes fresh)
  Reach-IsPartitioned s (closed s1 code s' calls r e) =
      subst (Holds λ x. IsPartitioned x.1) (sym (close-other_thread s1) ∙ e)
        (record { single = λ h. omega arith; placed = λ h. omega arith })
  Reach-IsPartitioned s (listened s1 e r) =
      let p = Reach-IsPartitioned s1 r in record { single = p.single; placed = p.placed }
  Reach-IsPartitioned s (watched i s1 v s' v' calls r f e) =
      subst (RoundHolds (λ s' w. IsPartitioned s')) e
        (round-IsPartitioned i s1 v (Reach-IsPartitioned s1 r) f)
