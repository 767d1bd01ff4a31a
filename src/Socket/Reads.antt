-- ===== src/Socket/Reads.antt =====
-- source/windows/socket.cpp, socket::_watcher: the rounds of a read.
use datapath.Base.{
  length, take, drop, All, ℕ, ◌^◌, ◌<◌, ◌≡◌, refl, sym, ap, subst, ◌∙◌, fun_ext, Bool, true, Option,
  none, some, List, [], ◌∷◌, ◌++◌,
}
use datapath.Event.{to_bool, call}
use datapath.Frame.{read_size, resize}
use datapath.Overlapped.{Overlapped}
use datapath.Socket.{Socket}
use datapath.Socket.Watcher.{
  unknown, header, content, header_ov, content_ov, View, Input, Round, next, left, blocked, crashed,
  ReadState, Slot, round, run, then_run, on_header, on_content, advance, is_live, waits,
}
use datapath.Socket.Waits.{wait_or_sleep_idle, wait_or_sleep_arrived}
use datapath.Task.{Task}
use datapath.Task.Frames.{assign-frame}
use datapath.Task
use datapath.Socket.Traffic.{
  IsIdle, IsArrival, frame, overwrite_all, length-overwrite, header_bytes, overwritten, state_of,
}

on_header-some :
    (state : ReadState) (o : Option Slot) (ok : Bool) (buffer bytes : List ℕ) (n : ℕ)
    → ok ≡ true
    → buffer ≡ bytes
    → read_size bytes ≡ some n
    → on_header ok (record { state = state; read_buffer = buffer; waitable = o })
      ≡ record { state = content; read_buffer = resize n bytes; waitable = some content_ov }
unfolding on_header
on_header-some state o ok buffer bytes n p q r = rw (p, q) (rw (r, on_header))

module _ {κ} {W : Type κ} where
  abbrev pub view : ReadState → Option Slot → List ℕ → W → View W
  view state o buffer w = record {
    watch = record { state = state; read_buffer = buffer; waitable = o };
    world = w;
  }

  -- A read into the buffer is pending.
  abbrev pub reading : Slot → List ℕ → W → View W
  reading slot buffer w = view (state_of slot) (some slot) buffer w

  then_run_assoc :
      (f g : Socket W → View W → Round W) (r : Round W)
      → then_run g (then_run f r) ≡ then_run (λ s v. then_run g (f s v)) r
  then_run_assoc f g (next s v) = refl
  then_run_assoc f g (left v) = refl
  then_run_assoc f g blocked = refl
  then_run_assoc f g crashed = refl

  pub run-append :
      (is js : List Input) (s : Socket W) (v : View W)
      → run s (is ++ js) v ≡ then_run (λ s' v'. run s' js v') (run s is v)
  unfolding run
  run-append [] js s v = refl
  run-append (i ∷ is) js s v =
      ap (λ f. then_run f (round s i v)) (fun_ext λ s'. fun_ext λ v'. run-append is js s' v')
      ∙ sym (then_run_assoc (λ s' v'. run s' is v') (λ s' v'. run s' js v') (round s i v))

module _ {κ} {W : Type κ} (s : Socket W) (live : is_live s ≡ true) where
  pub idle_round :
      (slot : Slot) (buffer : List ℕ) (w : W) (i : Input)
      → IsIdle i
      → round s i (reading slot buffer w) ≡ next s (reading slot (overwritten i.arrived buffer) w)
  unfolding round
  idle_round header_ov buffer w i idle = rw live (
      wait_or_sleep_idle s i header_ov (reading header_ov buffer w) refl idle.first_timeout
        idle.second_timeout)
  idle_round content_ov buffer w i idle = rw live (
      wait_or_sleep_idle s i content_ov (reading content_ov buffer w) refl idle.first_timeout
        idle.second_timeout)

  pub idle_rounds :
      (slot : Slot) (is : List Input) (buffer : List ℕ) (w : W)
      → All IsIdle is
      → (buffer' : List ℕ) × (run s is (reading slot buffer w) ≡ next s (reading slot buffer' w))
        × (length buffer' ≡ length buffer)
  unfolding run
  idle_rounds slot [] buffer w h = (buffer, refl, refl)
  idle_rounds slot (i ∷ is) buffer w h =
      let got = overwritten i.arrived buffer in
      let (rest, ran, size) = idle_rounds slot is got w h.1 in
      (rest, rw (idle_round slot buffer w i h.0) ran, size ∙ length-overwrite i.arrived buffer)

  -- With no read pending the first round begins one, as if it had been begun before.
  pub begin_round :
      (buffer : List ℕ) (w : W) (i : Input)
      → i.header_ok ≡ true
      → round s i (view unknown none buffer w) ≡ round s i (reading header_ov (resize 4 buffer) w)
  unfolding round
  begin_round buffer w i h =
      let old = view unknown none buffer w in
      let new = reading header_ov (resize 4 buffer) w in
      rw live (subst (λ ok. waits s i (advance s ok old) ≡ waits s i new) (sym h) refl)

  pub header_round :
      (message : List ℕ) (ov : Overlapped) (buffer : List ℕ) (w : W) (i : Input)
      → length message < 2 ^ 32
      → length buffer ≡ 4
      → IsArrival (take 4 (frame message ov)) i
      → round s i (reading header_ov buffer w)
        ≡ next s (reading content_ov (resize (length message) (take 4 (frame message ov))) w)
  unfolding round on_header
  header_round message ov buffer w i small four a =
      let (size, count) = header_bytes message ov small in
      let bytes : overwritten i.arrived buffer ≡ take 4 (frame message ov) =
        rw a.complete (overwrite_all (take 4 (frame message ov)) buffer (count ∙ sym four)) in
      rw live (
        wait_or_sleep_arrived s i header_ov (reading header_ov buffer w) a.signaled
        ∙ ap (λ u. next s (record { watch = u; world = w }))
            (on_header-some header (some header_ov) i.content_ok _ _ _ a.content_begun bytes size))

  module _ (listens : to_bool s.on_message ≡ true) where
    pub content_round :
        (message : List ℕ) (ov : Overlapped) (buffer : List ℕ) (w : W) (i : Input)
        → length buffer ≡ length message
        → IsArrival (drop 4 (frame message ov)) i
        → round s i (reading content_ov buffer w)
          ≡ next s (view unknown none message (call s.on_message message w))
    unfolding round on_content
    content_round message ov buffer w i room a =
        let payload : drop 4 (frame message ov) ≡ message =
          (assign-frame Task.construct message ov).3 in
        let bytes : overwritten i.arrived buffer ≡ message =
          ap (λ b. overwritten b buffer) (a.complete ∙ payload)
          ∙ overwrite_all message buffer (sym room) in
        rw live (
          wait_or_sleep_arrived s i content_ov (reading content_ov buffer w) a.signaled
          ∙ rw listens (ap (λ b. next s (view unknown none b (call s.on_message b w))) bytes))
