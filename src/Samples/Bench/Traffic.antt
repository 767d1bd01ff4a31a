-- ===== src/Samples/Bench/Traffic.antt =====
-- samples/benchmark/main.cpp, `client`: its two threads and the messages that are under way. The server
-- sends each message back once and unchanged (Samples.Echo.Replies).
use datapath.Base.{drop, ℕ, ◌≡◌, Bool, true, false, some, List, [], ◌∷◌, ◌++◌}
use datapath.Samples.Bench.{Bench, Tick, construct, step, handle_message, handle_close}
use datapath.Socket.{Socket, write_file_ex, disconnect_named_pipe}
use datapath.Socket

-- The message behind the size, for a write that is accepted.
abbrev pub messages : Bool → List Socket.Call → List (List ℕ)
messages false calls = []
messages true [] = []
messages true (write_file_ex h bytes size ∷ calls) = drop 4 bytes ∷ messages true calls
messages true (disconnect_named_pipe h ∷ calls) = messages true calls

pub record Traffic {κ} (W : Type κ) : Type κ where
  pub client : Bench W
  pub flying : List (List ℕ)

module _ {κ ℓ} {W : Type κ} {V : Type ℓ} (s : Socket V) (w : W) where
  abbrev pub stepped : Tick → Traffic W → Traffic W
  stepped i t =
      let (c, calls) = step s i w t.client in
      record { client = c; flying = t.flying ++ messages i.accepted calls }

  -- A step of the watcher, the first message under way coming back, and the end of the connection.
  pub data Move : Traffic W → Traffic W → Type κ where
    steps : (i : Tick) {t : Traffic W} → Move t (stepped i t)
    gets :
        (now : ℕ) (m : List ℕ) (ms : List (List ℕ)) (c c' : Bench W)
        → handle_message now m c ≡ some c'
        → Move (record { client = c; flying = m ∷ ms }) (record { client = c'; flying = ms })
    closes : {t : Traffic W} → Move t (record t { client = handle_close t.client })

  pub data Moves (t : Traffic W) : Traffic W → Type κ where
    rest : Moves t t
    more : {u v : Traffic W} → Moves t u → Move u v → Moves t v

module _ {κ} {W : Type κ} where
  abbrev pub start : Traffic W
  start = record { client = construct; flying = [] }
