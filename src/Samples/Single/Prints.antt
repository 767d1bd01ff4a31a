-- ===== src/Samples/Single/Prints.antt =====
-- samples/single-process-ipc/main.cpp, `client`: from its constructor to the times that it prints.
use datapath.Base.{
  ◌>>=◌, length, length-append, All, ℕ, suc, ◌+◌, ◌-◌, ◌%◌, ◌^◌, ◌<◌, ◌≡◌, refl, sym, ap, ◌∙◌, true,
  false, Option, none, some, List, [], ◌∷◌, ◌++◌, append_assoc, append-nil, arith,
}
use datapath.Entry.{connect}
use datapath.Event.{init, add, call}
use datapath.Event.Order.{to_bool-add}
use datapath.Samples.Bench.{write_stamp}
use datapath.Samples.Bench.Stamps.{read_stamp-write_stamp}
use datapath.Samples.Single.{
  Single, construct, hear, attach, connected, make_client, handle_message,
}
use datapath.Samples.Trip.{Carries}
use datapath.Socket.{Socket, Opened, open_failed}
use datapath.Socket.Delivery.{messages_read, all_heard}
use datapath.Socket.Lifecycle.{connect_opened, opened_for}
use datapath.Socket.Reads.{view}
use datapath.Socket.Traffic.{Delivery, IsDelivery, all_inputs}
use datapath.Socket.Watcher.{unknown, next, run}

module _ (clock : ℕ → ℕ) where
  -- The time from each of the times until the clock at the message, where `n` have been printed.
  abbrev pub round_trips : ℕ → List ℕ → List ℕ
  round_trips n [] = []
  round_trips n (t ∷ ts) = (clock n + 2 ^ 64 - t % 2 ^ 64) % 2 ^ 64 ∷ round_trips (suc n) ts

  module _ {κ} {W : Type κ} where
    hear-write_stamp :
        (c : Single W) (printed : List ℕ) (t : ℕ)
        → hear clock (write_stamp t) (some (c, printed))
          ≡ some (c, printed ++ round_trips (length printed) (t ∷ []))
    unfolding hear handle_message
    hear-write_stamp c printed t =
        ap
          (λ o.
            (o >>= λ stamp. some ((clock (length printed) + 2 ^ 64 - stamp) % 2 ^ 64)) >>= λ rtt.
            some (c, printed ++ rtt ∷ []))
          (read_stamp-write_stamp t)

    all_heard-printed :
        (s : Socket (Option (Single W × List ℕ))) (ts : List ℕ) (ds : List Delivery) (c : Single W)
        (printed : List ℕ)
        → s.on_message ≡ add init (hear clock)
        → Carries ts ds
        → all_heard s ds (some (c, printed)) ≡ some (c, printed ++ round_trips (length printed) ts)
    unfolding call add init
    all_heard-printed s [] [] c printed e h = ap (λ l. some (c, l)) (sym (append-nil printed))
    all_heard-printed s [] (d ∷ ds) c printed e h = absurd (ground arith)
    all_heard-printed s (t ∷ ts) [] c printed e h = absurd (ground arith)
    all_heard-printed s (t ∷ ts) (d ∷ ds) c printed e (same, h) =
        let one = round_trips (length printed) (t ∷ []) in
        let heard : call s.on_message d.message (some (c, printed)) ≡ some (c, printed ++ one) =
          ap (λ ev. call ev d.message (some (c, printed))) e
          ∙ ap (λ m. hear clock m (some (c, printed))) same
          ∙ hear-write_stamp c printed t in
        let longer : length (printed ++ one) ≡ suc (length printed) =
          omega (arith, length-append printed one) in
        ap (all_heard s ds) heard
        ∙ all_heard-printed s ts ds c (printed ++ one) e h
        ∙ ap (λ n. some (c, (printed ++ one) ++ round_trips n ts)) longer
        ∙ ap (λ l. some (c, l)) (append_assoc printed one (round_trips (suc (length printed)) ts))

  module _ {κ} {W : Type κ} (create_file : List ℕ → Opened) (path : List ℕ) where
    -- For a path of fewer than 250 bytes whose pipe can be opened, the constructor of the client makes
    -- a client with a socket that is connected. While the watcher of that socket then reads any
    -- number of messages, each the bytes of a time, whose reads are accepted and complete, the
    -- client prints for each, in order, the time from then until it came, modulo 2 ^ 64.
    pub make_client-prints :
        (ts : List ℕ) (ds : List Delivery) (buffer : List ℕ)
        → length path < 250
        → open_failed (opened_for create_file path) ≡ false
        → All IsDelivery ds
        → Carries ts ds
        → (s : Socket (Option (Single W × List ℕ))) × (buffer' : List ℕ) × (make_client create_file
              clock path
            ≡ some (s, construct))
          × (run s (all_inputs ds) (view unknown none buffer (some (construct, [])))
              ≡ next s (view unknown none buffer' (some (construct, round_trips 0 ts))))
    unfolding make_client connect attach
    make_client-prints ts ds buffer short opened d_ok carries =
        let (h, got, made) =
          connect_opened {W = Option (Single W × List ℕ)} create_file path short opened in
        let fresh : Socket (Option (Single W × List ℕ)) = record {
          is_connected = true;
          socket_handle = some h;
          shutdown = false;
          joinable = true;
          on_message = init;
          on_close = init;
        } in
        let s = attach clock fresh in
        let (buffer', read) =
          messages_read s refl (to_bool-add (hear clock)) ds buffer (some (construct, [])) d_ok in
        (
          s,
          buffer',
          ap (λ o. o >>= connected clock) made,
          read
              ∙ ap (λ w. next s (view unknown none buffer' w))
                  (all_heard-printed s ts ds construct [] refl carries),
        )
