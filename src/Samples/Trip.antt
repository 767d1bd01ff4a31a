-- ===== src/Samples/Trip.antt =====
-- samples/benchmark/main.cpp: the way of a message, from the client through the watchers of both
-- sockets and the server's listener back to the client's listener.
pub mod Tests
use datapath.Base.{
  length, take, drop, All, ℕ, ◌+◌, ◌-◌, ◌%◌, ◌^◌, ◌≡◌, refl, ap, ◌∙◌, true, false, Option, none,
  some, List, [], ◌∷◌, ◌++◌, arith,
}
use datapath.Event.{init, add, call, to_bool}
use datapath.Event.Order.{to_bool-add}
use datapath.Samples.Bench.{Bench, write_stamp, hear, handle_message, received}
use datapath.Samples.Bench
use datapath.Samples.Bench.Stamps.{read_stamp-write_stamp}
use datapath.Samples.Echo.{System, Program}
use datapath.Samples.Echo
use datapath.Samples.Echo.Replies.{replies, run-replies}
use datapath.Samples.Measurer.{track, signed}
use datapath.Socket.{Socket, write_file_ex}
use datapath.Socket
use datapath.Socket.Delivery.{messages_read, all_heard}
use datapath.Socket.Reads.{view}
use datapath.Socket.Traffic.{Delivery, IsDelivery, frame, all_inputs}
use datapath.Socket.Watcher.{unknown, next, run, is_live}
use datapath.Frame.{write_size}
use datapath.Task.{assign, task_data}

-- The messages of the deliveries are the times.
abbrev pub Carries : List ℕ → List Delivery → Type 0
Carries [] [] = Unit
Carries (t ∷ ts) (d ∷ ds) = (d.message ≡ write_stamp t) × Carries ts ds
Carries _ _ = false ≡ true

-- The pipe: what each call passes, up to its size, is what arrives.
abbrev pub Passes : List Socket.Call → List Delivery → Type 0
Passes [] [] = Unit
Passes (write_file_ex h bytes size ∷ calls) (d ∷ ds) =
    (frame d.message d.operation ≡ take size bytes) × Passes calls ds
Passes _ _ = false ≡ true

Passes-Carries :
    (h : Option ℕ) (ts : List ℕ) (ds es : List Delivery)
    → Carries ts ds
    → Passes (replies h ds) es
    → Carries ts es
unfolding assign task_data write_stamp write_size
Passes-Carries h [] [] [] c p = tt
Passes-Carries h [] [] (e ∷ es) c p = absurd (ground arith)
Passes-Carries h (t ∷ ts) [] es c p = absurd (ground arith)
Passes-Carries h [] (d ∷ ds) es c p = absurd (ground arith)
Passes-Carries h (t ∷ ts) (d ∷ ds) [] c p = absurd (ground arith)
Passes-Carries h (t ∷ ts) (d ∷ ds) (e ∷ es) (c, cs) (p, ps) = (
  ap (drop 4) p ∙ ap (λ m. drop 4 (take ((length m + 4) % 2 ^ 32) (frame m d.operation))) c,
  Passes-Carries h ts ds es cs ps,
)

module _ {κ} {W : Type κ} (clock : ℕ → ℕ) where
  -- What the client makes of the times: it measures the time from each until it comes back.
  abbrev pub timed : List ℕ → Bench W → Bench W
  timed [] c = c
  timed (t ∷ ts) c = timed ts (record c {
    can_send_msg = true;
    ms = track (signed ((clock c.cnt + 2 ^ 64 - t % 2 ^ 64) % 2 ^ 64)) c.ms;
    cnt = (c.cnt + 1) % 2 ^ 64;
  })

  all_heard-timed :
      (s : Socket (Option (Bench W))) (ts : List ℕ) (es : List Delivery) (c : Bench W)
      → s.on_message ≡ add init (hear clock)
      → Carries ts es
      → all_heard s es (some c) ≡ some (timed ts c)
  unfolding call add init hear handle_message
  all_heard-timed s [] [] c e h = refl
  all_heard-timed s [] (d ∷ es) c e h = absurd (ground arith)
  all_heard-timed s (t ∷ ts) [] c e h = absurd (ground arith)
  all_heard-timed s (t ∷ ts) (d ∷ es) c e (same, h) =
      let c1 : Bench W = record c {
        can_send_msg = true;
        ms = track (signed ((clock c.cnt + 2 ^ 64 - t % 2 ^ 64) % 2 ^ 64)) c.ms;
        cnt = (c.cnt + 1) % 2 ^ 64;
      } in
      let heard : call s.on_message d.message (some c) ≡ some c1 =
        ap (λ ev. call ev d.message (some c)) e
        ∙ ap (λ m. handle_message (clock c.cnt) m c) same
        ∙ ap (received (clock c.cnt) c) (read_stamp-write_stamp t) in
      ap (all_heard s es) heard ∙ all_heard-timed s ts es c1 e h

module _ {κ} {W : Type κ} (os : System) (clock : ℕ → ℕ) where
  -- The messages of a client, each a time, over two new connected sockets, whose reads are accepted and
  -- complete, by a pipe that passes on what is written: while the server's watcher reads the messages,
  -- it makes one call for each, and while the client's watcher reads what these calls pass, the client
  -- measures the time from each of its times until the message comes back, in order, counts it and
  -- may send again.
  pub trip :
      (s : Socket (Program W)) (c : Socket (Option (Bench W)))
      (close : Unit {0} → Program W → Program W) (ts : List ℕ) (ds es : List Delivery)
      (server_buffer client_buffer : List ℕ) (p : Program W) (b : Bench W)
      → s.on_message ≡ init
      → is_live s ≡ true
      → c.on_message ≡ init
      → is_live c ≡ true
      → All IsDelivery ds
      → All IsDelivery es
      → Carries ts ds
      → Passes (replies s.socket_handle ds) es
      → let s' = Echo.attach os close s in
        let c' = Bench.attach clock c in
        (p' : Program W) × (buffer1 : List ℕ) × (buffer2 : List ℕ) × (run s'
            (all_inputs ds)
            (view unknown none server_buffer p)
          ≡ next s' (view unknown none buffer1 p'))
        × (p'.calls ≡ p.calls ++ replies s.socket_handle ds)
        × (run c' (all_inputs es) (view unknown none client_buffer (some b))
            ≡ next c' (view unknown none buffer2 (some (timed clock ts b))))
  unfolding Bench.attach
  trip s c close ts ds es sb cb p b s_new s_live c_new c_live d_ok e_ok carries passes =
      let (buffer1, p', ran, sent, kept) = run-replies os s close ds sb p s_new s_live d_ok in
      let c' = Bench.attach clock c in
      let heard : c'.on_message ≡ add init (hear clock) = ap (λ e. add e (hear clock)) c_new in
      let (buffer2, read) =
        messages_read c' c_live (ap to_bool heard ∙ to_bool-add (hear clock)) es cb (some b) e_ok in
      let timed_all =
        all_heard-timed clock c' ts es b heard
          (Passes-Carries s.socket_handle ts ds es carries passes) in
      (
        p',
        buffer1,
        buffer2,
        ran,
        sent,
        read ∙ ap (λ w. next c' (view unknown none buffer2 w)) timed_all,
      )
