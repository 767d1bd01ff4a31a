-- ===== src/Socket/Silence.antt =====
-- source/windows/socket.cpp, socket::_watcher: messages that nobody listens to, and reads that fail.
use datapath.Base.{
  length, take, drop, All, ℕ, ◌≡◌, refl, sym, ap, subst, ◌∙◌, true, false, none, some, List, [],
  ◌∷◌, ◌++◌,
}
use datapath.Event.{to_bool, call}
use datapath.Frame.{resize}
use datapath.Socket.{Socket}
use datapath.Socket.Watcher.{
  unknown, content, content_ov, Input, next, round, run, then_run, on_content, advance, is_live,
  waits,
}
use datapath.Socket.Traffic.{overwrite_all}
use datapath.Socket.Reads.{view, reading}
use datapath.Socket.Waits.{wait_or_sleep_arrived}
use datapath.Waitable.{wait_object_0}
use datapath.Waitable.Outcomes.{first_final}

module _ {κ} {W : Type κ} (s : Socket W) (live : is_live s ≡ true) where
  unheard_round :
      (i : Input) (buffer : List ℕ) (w : W)
      → to_bool s.on_message ≡ false
      → round s i (view content none buffer w) ≡ next s (view content none buffer w)
  unfolding round
  unheard_round i buffer w silent = rw (live, silent)

  unheard_rounds :
      (is : List Input) (buffer : List ℕ) (w : W)
      → to_bool s.on_message ≡ false
      → run s is (view content none buffer w) ≡ next s (view content none buffer w)
  unfolding run
  unheard_rounds [] buffer w silent = refl
  unheard_rounds (i ∷ is) buffer w silent =
      rw (unheard_round i buffer w silent) (unheard_rounds is buffer w silent)

  unheard_arrival :
      (message buffer : List ℕ) (w : W) (i : Input)
      → to_bool s.on_message ≡ false
      → length buffer ≡ length message
      → i.arrived ≡ message
      → first_final i.first ≡ some wait_object_0
      → round s i (reading content_ov buffer w) ≡ next s (view content none message w)
  unfolding round on_content
  unheard_arrival message buffer w i silent room got signaled = rw live (
      wait_or_sleep_arrived s i content_ov (reading content_ov buffer w) signaled
      ∙ rw silent (
          ap (λ b. next s (view content none (take (length buffer) b ++ drop (length b) buffer) w))
            got
          ∙ ap (λ b. next s (view content none b w)) (overwrite_all message buffer (sym room))))

  heard_late :
      (i : Input) (message : List ℕ) (w : W)
      → to_bool s.on_message ≡ true
      → round s i (view content none message w)
        ≡ next s (view unknown none message (call s.on_message message w))
  unfolding round
  heard_late i message w listens = rw (live, listens)

  refused_round :
      (i : Input) (buffer : List ℕ) (w : W)
      → i.header_ok ≡ false
      → round s i (view unknown none buffer w) ≡ next s (view unknown none (resize 4 buffer) w)
  unfolding round
  refused_round i buffer w h =
      let old = view unknown none buffer w in
      rw live (
        subst (λ ok. waits s i (advance s ok old) ≡ next s (view unknown none (resize 4 buffer) w))
          (sym h) refl)

  -- While every read that the watcher begins is refused, as it is once the other side is gone, the
  -- loop goes on without end: the socket stays as it was, so it still counts as connected, and the
  -- program is not told, so that no close listener runs.
  pub refused_reads :
      (is : List Input) (buffer : List ℕ) (w : W)
      → All (λ i. i.header_ok ≡ false) is
      → (buffer' : List ℕ) × (run s is (view unknown none buffer w)
          ≡ next s (view unknown none buffer' w))
  unfolding run
  refused_reads [] buffer w h = (buffer, refl)
  refused_reads (i ∷ is) buffer w h =
      rw (refused_round i buffer w h.0) (refused_reads is (resize 4 buffer) w h.1)

-- A message whose content arrives while nobody listens is kept unchanged through any number of
-- rounds, whatever the operating system does in them, and nothing else is read meanwhile. Once the
-- socket has a listener, the next round gives it the message, once.
pub message_kept {κ} :
    {W : Type κ} (s s' : Socket W) (message buffer : List ℕ) (w : W) (i j : Input) (is : List Input)
    → is_live s ≡ true
    → is_live s' ≡ true
    → to_bool s.on_message ≡ false
    → to_bool s'.on_message ≡ true
    → length buffer ≡ length message
    → i.arrived ≡ message
    → first_final i.first ≡ some wait_object_0
    → (run s (i ∷ is) (reading content_ov buffer w) ≡ next s (view content none message w))
      × (round s' j (view content none message w)
          ≡ next s' (view unknown none message (call s'.on_message message w)))
unfolding run
message_kept s s' message buffer w i j is live live' silent listens room got signaled = (
  ap (then_run (λ t u. run t is u))
        (unheard_arrival s live message buffer w i silent room got signaled)
      ∙ unheard_rounds s live is message w silent,
  heard_late s' live' j message w listens,
)
