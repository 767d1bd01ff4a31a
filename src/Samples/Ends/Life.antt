-- ===== src/Samples/Ends/Life.antt =====
-- samples/benchmark/main.cpp: the server from its constructor to its destructor.
use mathlib.Core.Option
use datapath.Base.{times, ℕ, ◌+◌, ◌≡◌, sym, ap, subst, ◌∙◌, inl, inr, false, Option, some, List, []}
use datapath.Overlapped
use datapath.Overlapped.Handles.{close_count}
use datapath.Samples.Echo.{Echo, System}
use datapath.Samples.Ends.{destroy_benchmark, Meanwhile}
use datapath.Samples.Ends.Closing.{told_each, clients_closes, destroy_benchmark-closes}
use datapath.Samples.Host.{Host, construct}
use datapath.Samples.Host.Pipes.{Rounds, construct-pipes}
use datapath.Server.{Server, Call}
use datapath.Server.Backlog.{made_for}
use datapath.Server.Closes.{closes}
use datapath.Socket.{Socket}

module _ {κ} {W : Type κ} (os : System) where
  kept_pipes :
      (path : List ℕ) (pipes : List (Option ℕ)) (s s' : Server (Host W))
      → construct os path pipes ≡ some s
      → Rounds s s'
      → s'.sockets ≡ made_for path pipes
  kept_pipes path pipes s s' made r = elim (construct-pipes {W = W} os path pipes) [
    | inl (s0, e, eight, waiting, listens, same) ↦
        same s' (subst (λ x. Rounds x s') (Option.some-injective s s0 (sym made ∙ e)) r)
    | inr (e, few) ↦ absurd (cc)
  ]

  -- The server of the benchmark from its constructor to its destructor, where its watcher does any
  -- number of rounds, each of which goes on, some of them perhaps between the moment at which the
  -- destructor has cleared the map of the clients and its close, whatever clients it has, and whatever
  -- new ones come meanwhile. In the calls of the destructor on pipes, each pipe that the system gave
  -- to the constructor is closed exactly once, and no other handle. Of the tasks of the clients, old
  -- and new, each has its event closed once if its operation has completed, and twice if it is
  -- pending, and no other event is closed with them. The close listeners of every client that is
  -- still connected are called once, in order, those of the new clients last; the server has no
  -- socket, and its watcher has been joined. The operations of that watcher are not counted.
  pub life-closes :
      (path : List ℕ) (pipes : List (Option ℕ)) (s s' : Server (Host W))
      (es : List (Socket (Host W) × Echo (Host W))) (w : Host W)
      (meanwhile : Host W → Meanwhile (Host W))
      → construct os path pipes ≡ some s
      → Rounds s s'
      → (meanwhile (told_each es w)).server ≡ some s'
      → let m = meanwhile (told_each es w) in
        (end : Server (Host W)) × (calls : List Call) × (ends : List Overlapped.Call)
        × (destroy_benchmark os.has_completed es meanwhile w
            ≡ some (told_each m.late m.world, some end, calls, ends))
        × (end.sockets ≡ [])
        × (end.joinable ≡ false)
        × ((h : ℕ) → closes h calls ≡ times h (made_for path pipes))
        × ((event : ℕ)
            → close_count event ends
              ≡ clients_closes os.has_completed event es
                + clients_closes os.has_completed event m.late)
  life-closes path pipes s s' es w meanwhile made r found =
      let same = kept_pipes path pipes s s' made r in
      let (end, calls, ends, ran, gone, joined, once, events) =
        destroy_benchmark-closes os.has_completed es meanwhile w s' found in
      (end, calls, ends, ran, gone, joined, λ h. once h ∙ ap (times h) same, events)
