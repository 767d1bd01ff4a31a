-- ===== src/Samples/Host/Pipes.antt =====
-- samples/benchmark/main.cpp and samples/single-process-ipc/main.cpp, `server::server`: the pipes that
-- the server has.
use datapath.Base.{
  ◌>>=◌, length, length-append, ℕ, ◌<◌, ◌≡◌, refl, sym, ap, ◌∙◌, ◌⊎◌, inl, inr, Option, none, some,
  List, [], ◌∷◌, ◌++◌, append-nil, arith,
}
use datapath.Event.{init, add}
use datapath.Samples.Echo.{System}
use datapath.Samples.Host.{Host, handle_accept, construct, listening}
use datapath.Server.{Server, Call, create}
use datapath.Server
use datapath.Server.Backlog.{create_cases, made_for}
use datapath.Server.Limits.{IsGrown, round-IsGrown}
use datapath.Server.Watcher.{Input, View, next, round}
use datapath.Socket.{other_thread}

empty_of_length : (xs more : List ℕ) → length (xs ++ more) ≡ length xs → more ≡ []
empty_of_length xs [] e = refl
empty_of_length xs (x ∷ more) e = absurd (omega (arith, length-append xs (x ∷ more)))

module _ {κ} {W : Type κ} where
  -- Any number of rounds of the watcher that go on.
  pub data Rounds (s : Server W) : Server W → Type κ where
    here : Rounds s s
    behind :
        (i : Input W) (s1 : Server W) (v : View W) (s2 : Server W) (v' : View W) (calls : List Call)
        → Rounds s s1
        → round i s1 v ≡ next s2 v' calls
        → Rounds s s2

  IsGrown-unlimited : (s s' : Server W) → s.max_clients ≡ 0 → IsGrown s s' → s'.sockets ≡ s.sockets
  IsGrown-unlimited s s' zero_limit g =
      let same : length s'.sockets ≡ length s.sockets = ground (arith, g.limited) in
      let none_more = empty_of_length s.sockets g.kept.0 (ap length (sym g.kept.1) ∙ same) in
      g.kept.1 ∙ ap (λ more. s.sockets ++ more) none_more ∙ append-nil s.sockets

  Rounds-same :
      (s s' : Server W)
      → s.max_clients ≡ 0
      → Rounds s s'
      → (s'.max_clients ≡ 0) × (s'.sockets ≡ s.sockets)
  Rounds-same s s' z here = (z, refl)
  Rounds-same s s' z (behind i s1 v s2 v' calls r e) =
      let (z1, same) = Rounds-same s s1 z r in
      let g = round-IsGrown i s1 v s' v' calls e in
      (g.same_limit ∙ z1, IsGrown-unlimited s1 s' z1 g ∙ same)

module _ {κ} {W : Type κ} (os : System) where
  construct_lem :
      (path : List ℕ) (pipes : List (Option ℕ))
      → construct {W = W} os path pipes
        ≡ (create other_thread Server.construct path 0 pipes >>= listening os)
  unfolding construct
  construct_lem path pipes = refl

  -- The server of the sample is made exactly if the system gives eight pipes for its path, of fewer
  -- than 250 bytes; else its constructor throws. However many rounds its watcher then does, whatever
  -- clients come and go, it has those eight pipes and never another one.
  pub construct-pipes :
      (path : List ℕ) (pipes : List (Option ℕ))
      → ((s : Server (Host W)) × (construct os path pipes ≡ some s)
          × (length (made_for path pipes) ≡ 8)
          × (s.waiting_sockets ≡ made_for path pipes)
          × (s.on_accept ≡ add init (handle_accept os))
          × ((s' : Server (Host W)) → Rounds s s' → s'.sockets ≡ made_for path pipes))
        ⊎ ((construct {W = W} os path pipes ≡ none) × (length (made_for path pipes) < 8))
  unfolding Server.construct
  construct-pipes path pipes =
      let fresh : Server (Host W) = Server.construct in
      let (s1, calls, cases) = create_cases fresh path 0 pipes in
      elim cases [
        | inl (eight, e, same, _) ↦
            let s2 : Server (Host W) = record s1 {
              on_accept = add s1.on_accept (handle_accept os);
            } in
            inl (
              s2,
              construct_lem path pipes ∙ ap (λ o. o >>= listening os) e,
              eight,
              ap (λ s. s.waiting_sockets) same,
              ap (λ s. add s.on_accept (handle_accept os)) same,
              λ s' r.
                  (Rounds-same s2 s' (ap (λ s. s.max_clients) same) r).1 ∙ ap (λ s. s.sockets) same,
            )
        | inr (few, e, same, _) ↦
            inr (construct_lem path pipes ∙ ap (λ o. o >>= listening os) e, few)
      ]
