-- ===== src/Server/Capacity.antt =====
-- source/windows/server.cpp: how many sockets a server ever has.
use datapath.Base.{length, ℕ, ◌+◌, ◌≤◌, ◌<◌, sym, subst, ◌∙◌, ◌⊎◌, inl, inr, Option, List, arith}
use datapath.Server.{Server, construct, create}
use datapath.Server.Backlog.{create_cases, close-other_thread}
use datapath.Server.Limits.{IsGrown, round-IsGrown}
use datapath.Server.Reach.{Reach, made, created, closed, listened, watched}
use datapath.Server.Results.{Holds}
use datapath.Socket.{other_thread}

module _ {κ} {W : Type κ} where
  -- No more sockets than the eight of the backlog, or, where there is a limit of clients, than one
  -- more than the limit.
  abbrev pub IsWithin : Server W → Type 0
  IsWithin s =
      (length s.sockets ≤ 8) ⊎ ((0 < s.max_clients) × (length s.sockets ≤ s.max_clients + 1))

  create-IsWithin :
      (s : Server W) (path : List ℕ) (max_clients : ℕ) (pipes : List (Option ℕ))
      → Holds (λ r. IsWithin r.1) (create other_thread s path max_clients pipes)
  create-IsWithin s path max_clients pipes =
      let (s1, calls, cases) = create_cases s path max_clients pipes in
      elim cases [
        | inl (eight, e, same, _) ↦
            subst (Holds λ r. IsWithin r.1) (sym e)
              (subst IsWithin (sym same) (inl (omega (arith, eight))))
        | inr (few, e, same, _) ↦
            subst (Holds λ r. IsWithin r.1) (sym e) (subst IsWithin (sym same) (inl (omega arith)))
      ]

  grown-IsWithin : (s s' : Server W) → IsWithin s → IsGrown s s' → IsWithin s'
  grown-IsWithin s s' h g = ground (arith, g.same_limit, g.limited)

  -- However a server is created, closed and given listeners, and whatever rounds of its watcher go on
  -- between, as long as the system returns new handles only: it has at most eight sockets or, if its
  -- limit of clients is not 0, at most one more than the limit. With the limit 0, which datapath::host
  -- takes if none is given, it never has more than eight.
  pub Reach-IsWithin : (s : Server W) → Reach s → IsWithin s
  unfolding construct
  Reach-IsWithin s made = inl (omega arith)
  Reach-IsWithin s (created s1 path max_clients pipes code s' calls r fresh e) =
      subst (Holds λ x. IsWithin x.1) e (create-IsWithin s1 path max_clients pipes)
  Reach-IsWithin s (closed s1 code s' calls r e) =
      subst (Holds λ x. IsWithin x.1) (sym (close-other_thread s1) ∙ e) (inl (omega arith))
  Reach-IsWithin s (listened s1 e r) = Reach-IsWithin s1 r
  Reach-IsWithin s (watched i s1 v s' v' calls r f e) =
      grown-IsWithin s1 s (Reach-IsWithin s1 r) (round-IsGrown i s1 v s v' calls e)
