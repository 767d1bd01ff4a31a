-- ===== src/Socket/Coherence.antt =====
-- source/windows/socket.cpp, socket::_watcher: how the state, the buffer and the pending read belong
-- together.
use datapath.Base.{
  Bool-cases, length, take, drop, ℕ, ◌≡◌, refl, ◌≢◌, ◌⊎◌, inl, inr, Bool, true, Option, none, some,
  List, [], ◌∷◌, ◌++◌, arith,
}
use datapath.Socket.{Socket}
use datapath.Socket.Watcher.{
  unknown, header, content, View, Input, Round, Slot, header_ov, content_ov, next, left, blocked,
  crashed, on_header, on_content, blocked, crashed, next, Watch, ReadState, receive, advance, round,
  wait_or_sleep, is_live, run, then_run,
}
use datapath.Frame.Sizes.{length-resize}
use datapath.Frame.{read_size}
use datapath.Socket.Waits.{heard, first-Ends, Ends}

-- No read is pending in the state unknown; in the state header one is, for a header of four bytes;
-- in the state content either one is, or a message is kept in the buffer.
abbrev CoherentAt : ReadState → Watch → Type 0
CoherentAt unknown v = v.waitable ≡ none
CoherentAt header v = (v.waitable ≡ some header_ov) × (length v.read_buffer ≡ 4)
CoherentAt content v = (v.waitable ≡ some content_ov) ⊎ (v.waitable ≡ none)

abbrev IsCoherent : Watch → Type 0
IsCoherent v = CoherentAt v.state v

length-overwrite :
    (xs ys : List ℕ) → length (take (length ys) xs ++ drop (length xs) ys) ≡ length ys
length-overwrite [] [] = refl
length-overwrite [] (y ∷ ys) = refl
length-overwrite (x ∷ xs) [] = refl
length-overwrite (x ∷ xs) (y ∷ ys) = omega (arith, length-overwrite xs ys)

read_size-four : (xs : List ℕ) → length xs ≡ 4 → read_size xs ≢ none
unfolding read_size
read_size-four xs h = ground arith

header_or_not : (r : ReadState) → (r ≡ header) ⊎ (r ≢ header)
header_or_not unknown = inr (λ e. cc)
header_or_not header = inl refl
header_or_not content = inr (λ e. cc)

header-IsCoherent :
    (v : Watch) → IsCoherent v → (v.state ≢ header) ⊎ (read_size v.read_buffer ≢ none)
header-IsCoherent v c = elim (header_or_not v.state) [
  | inl e ↦ inr (read_size-four v.read_buffer (ground arith))
  | inr n ↦ inl n
]

module _ {κ} {W : Type κ} where
  receive-IsCoherent :
      (bytes : List ℕ) (v : View W) → IsCoherent v.watch → IsCoherent (receive bytes v).watch
  receive-IsCoherent bytes v c = ground (arith, length-overwrite bytes v.watch.read_buffer)

  heard-IsCoherent :
      (s : Socket W) (ok : Bool) (slot : Slot) (v : View W)
      → v.watch.waitable ≡ some slot
      → IsCoherent v.watch
      → IsCoherent (heard s ok slot v).watch
  unfolding on_header on_content
  heard-IsCoherent s ok header_ov v p c = ground arith
  heard-IsCoherent s ok content_ov v p c = ground arith

  advance-IsCoherent :
      (s : Socket W) (ok : Bool) (v : View W)
      → IsCoherent v.watch
      → IsCoherent (advance s ok v).watch
  unfolding advance
  advance-IsCoherent s ok v c = ground (arith, length-resize 4 v.watch.read_buffer)

  -- What a round can come to: an end of the loop or of the process, a wait that has not returned,
  -- or the next round, with the socket as it was.
  abbrev Goes : Socket W → (View W → Type 0) → Round W → Type κ
  Goes s P (next s' v) = (s' ≡ s) × P v
  Goes s P r = Unit

  Ends-Goes :
      (P : View W → Type 0) (s : Socket W) (ok : Bool) (slot : Slot) (v : View W) (r : Round W)
      → Ends s ok slot v r
      → P v
      → P (heard s ok slot v)
      → Goes s P r
  Ends-Goes P s ok slot v r (inl e) p h = rw e tt
  Ends-Goes P s ok slot v r (inr (inl e)) p h = rw e tt
  Ends-Goes P s ok slot v r (inr (inr (inl e))) p h = rw e (refl, h)
  Ends-Goes P s ok slot v r (inr (inr (inr e))) p h = rw e (refl, p)

  waits-Goes :
      (s : Socket W) (i : Input) (o : Option Slot) (v : View W)
      → s.joinable ≡ true
      → v.watch.waitable ≡ o
      → IsCoherent v.watch
      → Goes s (λ u. IsCoherent u.watch) (wait_or_sleep s i o v)
  waits-Goes s i none v j e c = (refl, c)
  waits-Goes s i (some slot) v j e c =
      let got = receive i.arrived v in
      let c' = receive-IsCoherent i.arrived v c in
      Ends-Goes (λ u. IsCoherent u.watch) s i.content_ok slot got _ (first-Ends s j i slot got e) c'
        (heard-IsCoherent s i.content_ok slot got e c')

  round-Goes :
      (s : Socket W) (i : Input) (v : View W)
      → s.joinable ≡ true
      → IsCoherent v.watch
      → Goes s (λ u. IsCoherent u.watch) (round s i v)
  unfolding round
  round-Goes s i v j c = elim (Bool-cases (is_live s)) [
    | inl live ↦ rw live (
        waits-Goes s i (advance s i.header_ok v).watch.waitable (advance s i.header_ok v) j refl
          (advance-IsCoherent s i.header_ok v c))
    | inr dead ↦ rw dead tt
  ]

  then_run-Goes :
      (P : View W → Type 0) (s : Socket W) (rest : Socket W → View W → Round W) (r : Round W)
      → Goes s P r
      → ((v : View W) → P v → Goes s P (rest s v))
      → Goes s P (then_run rest r)
  then_run-Goes P s rest (next s' v) (e, p) h = rw e (h v p)
  then_run-Goes P s rest (left v) g h = tt
  then_run-Goes P s rest blocked g h = tt
  then_run-Goes P s rest crashed g h = tt

  run-Goes :
      (s : Socket W) (is : List Input) (v : View W)
      → s.joinable ≡ true
      → IsCoherent v.watch
      → Goes s (λ u. IsCoherent u.watch) (run s is v)
  unfolding run
  run-Goes s [] v j c = (refl, c)
  run-Goes s (i ∷ is) v j c =
      then_run-Goes (λ u. IsCoherent u.watch) s (λ s' v'. run s' is v') (round s i v)
        (round-Goes s i v j c) (λ u cu. run-Goes s is u j cu)

  Goes-next :
      (P : View W → Type 0) (s s' : Socket W) (v : View W) (r : Round W)
      → r ≡ next s' v
      → Goes s P r
      → (s' ≡ s) × P v
  Goes-next P s s' v r e g = rw e at g

  -- However many rounds the watcher of a socket has done, whatever the operating system answered:
  -- the socket is as it was; no read is pending in the state unknown, the header's is in the state
  -- header, with a buffer of four bytes whose size field can be read, and in the state content
  -- either the content's is or none; all this if it was so at the start.
  pub run-IsCoherent :
      (s s' : Socket W) (is : List Input) (v v' : View W)
      → s.joinable ≡ true
      → IsCoherent v.watch
      → run s is v ≡ next s' v'
      → (s' ≡ s)
        × IsCoherent v'.watch
        × ((v'.watch.state ≢ header) ⊎ (read_size v'.watch.read_buffer ≢ none))
  run-IsCoherent s s' is v v' j c e =
      let (same, c') = Goes-next (λ u. IsCoherent u.watch) s s' v' _ e (run-Goes s is v j c) in
      (same, c', header-IsCoherent v'.watch c')
