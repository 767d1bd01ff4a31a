-- ===== src/Socket/Delivery.antt =====
-- source/windows/socket.cpp and task.cpp: the messages that reach the listeners of a socket.
use datapath.Base.{length, take, All, ℕ, ◌≡◌, refl, ap, ◌∙◌, true, none, List, [], ◌∷◌, ◌++◌}
use datapath.Event.{to_bool, call}
use datapath.Frame.{resize}
use datapath.Frame.Sizes.{length-resize}
use datapath.Socket.{Socket}
use datapath.Socket.Watcher.{
  unknown, header_ov, content_ov, View, Input, next, round, run, then_run, is_live,
}
use datapath.Socket.Traffic.{Delivery, IsDelivery, IsIdle, frame, inputs, all_inputs}
use datapath.Socket.Reads.{
  view, reading, run-append, idle_rounds, begin_round, header_round, content_round,
}

module _ {κ} {W : Type κ} where
  run_through :
      (s : Socket W) (is js : List Input) (v v' : View W)
      → run s is v ≡ next s v'
      → run s (is ++ js) v ≡ run s js v'
  run_through s is js v v' e = run-append is js s v ∙ ap (then_run (λ s' u. run s' js u)) e

  run_step :
      (s : Socket W) (i : Input) (is : List Input) (v v' : View W)
      → round s i v ≡ next s v'
      → run s (i ∷ is) v ≡ run s is v'
  unfolding run
  run_step s i is v v' e = ap (then_run (λ s' u. run s' is u)) e

  -- Calls the message listeners for each message, in order.
  abbrev pub all_heard : Socket W → List Delivery → W → W
  all_heard s [] w = w
  all_heard s (d ∷ ds) w = all_heard s ds (call s.on_message d.message w)

module _ {κ} {W : Type κ} (s : Socket W) (live : is_live s ≡ true)
    (listens : to_bool s.on_message ≡ true) where
  -- The reads of one message, where the header's has been begun.
  message_read :
      (d : Delivery) (buffer : List ℕ) (w : W)
      → IsDelivery d
      → length buffer ≡ 4
      → run s (inputs d) (reading header_ov buffer w)
        ≡ next s (view unknown none d.message (call s.on_message d.message w))
  unfolding run
  message_read d buffer w h four =
      let (buffer1, ran1, size1) =
        idle_rounds s live header_ov d.header_idles buffer w h.header_waits in
      let begun = resize (length d.message) (take 4 (frame d.message d.operation)) in
      let (buffer2, ran2, size2) =
        idle_rounds s live content_ov d.content_idles begun w h.content_waits in
      let last = d.content_input ∷ [] in
      run_through s d.header_idles (d.header_input ∷ (d.content_idles ++ last)) _ _ ran1
      ∙ run_step s d.header_input (d.content_idles ++ last) (reading header_ov buffer1 w) _ (
          header_round s live d.message d.operation buffer1 w d.header_input h.small (size1 ∙ four)
            h.header_arrives)
      ∙ run_through s d.content_idles last _ _ ran2
      ∙ run_step s d.content_input [] (reading content_ov buffer2 w) _ (
          content_round s live listens d.message d.operation buffer2 w d.content_input
            (size2 ∙ length-resize (length d.message) (take 4 (frame d.message d.operation)))
            h.content_arrives)

  begin_run :
      (idles is : List Input) (i : Input) (buffer : List ℕ) (w : W)
      → All IsIdle idles
      → i.header_ok ≡ true
      → run s (idles ++ i ∷ is) (view unknown none buffer w)
        ≡ run s (idles ++ i ∷ is) (reading header_ov (resize 4 buffer) w)
  unfolding run
  begin_run [] is i buffer w h ok =
      ap (then_run (λ s' u. run s' is u)) (begin_round s live buffer w i ok)
  begin_run (j ∷ idles) is i buffer w h ok =
      ap (then_run (λ s' u. run s' (idles ++ i ∷ is) u)) (begin_round s live buffer w j h.0.begun)

  -- On a connected socket with a message listener, the rounds of the watcher read any number of
  -- messages, each sent as the frame of a task and shorter than 2 ^ 32 bytes, however long the
  -- header and the content of each make the watcher wait: the listeners get every message once, in
  -- order and unchanged, and afterwards no read is pending and the next round begins the next one.
  pub messages_read :
      (ds : List Delivery) (buffer : List ℕ) (w : W)
      → All IsDelivery ds
      → (buffer' : List ℕ) × (run s (all_inputs ds) (view unknown none buffer w)
          ≡ next s (view unknown none buffer' (all_heard s ds w)))
  unfolding run
  messages_read [] buffer w h = (buffer, refl)
  messages_read (d ∷ ds) buffer w h =
      let heard_one = call s.on_message d.message w in
      let (buffer', ran) = messages_read ds d.message heard_one h.1 in
      (
        buffer',
        run_through s (inputs d) (all_inputs ds) (view unknown none buffer w)
              (view unknown none d.message heard_one)
              (begin_run d.header_idles (d.content_idles ++ d.content_input ∷ []) d.header_input
                  buffer w h.0.header_waits h.0.header_arrives.header_begun
                ∙ message_read d (resize 4 buffer) w h.0 (length-resize 4 buffer))
            ∙ ran,
      )
