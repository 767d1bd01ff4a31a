-- ===== src/Samples/Echo/Replies.antt =====
-- samples/benchmark/main.cpp and samples/single-process-ipc/main.cpp, `server::client`: the messages that
-- a connection gets and what is sent back.
use datapath.Base.{
  if◌then◌else◌, Bool-cases, length, length-append, All, ℕ, suc, ◌+◌, ◌%◌, ◌^◌, ◌≡◌, sym, ap, ◌∙◌,
  inl, inr, true, Option, none, List, [], ◌∷◌, ◌++◌, append_assoc, append-nil, arith,
}
use datapath.Event.{init, add, call, to_bool}
use datapath.Event.Order.{to_bool-add}
use datapath.Frame.{write_size}
use datapath.Samples.Echo.{Program, System, handle_message, reply, attach}
use datapath.Socket.{Socket, write_file_ex, write}
use datapath.Socket
use datapath.Socket.Delivery.{messages_read, all_heard}
use datapath.Socket.Reads.{view}
use datapath.Socket.Traffic.{Delivery, IsDelivery, frame, all_inputs}
use datapath.Socket.Watcher.{unknown, next, run, is_live}
use datapath.Task.{assign, task_data}
use datapath.Frame.Sizes.{length-write_size}

-- The calls that send the messages back.
abbrev pub replies : Option ℕ → List Delivery → List Socket.Call
replies h [] = []
replies h (d ∷ ds) =
    write_file_ex h (frame d.message d.operation) ((length d.message + 4) % 2 ^ 32) ∷ replies h ds

-- How many of the writes from number `n` on are accepted.
abbrev pub accepted : System → ℕ → List Delivery → ℕ
accepted os n [] = 0
accepted os n (d ∷ ds) =
    let rest = accepted os (n + 1) ds in if os.accepts n then suc rest else rest

module _ {κ} {W : Type κ} (os : System) (s : Socket (Program W)) where
  reply_lem :
      (d : Delivery) (p : Program W)
      → ((reply os s d.message p).calls ≡ p.calls ++ replies s.socket_handle (d ∷ []))
        × (length (reply os s d.message p).echo.tasks
            ≡ length p.echo.tasks + (if os.accepts (length p.calls) then 1 else 0))
  unfolding reply handle_message write assign task_data
  reply_lem d p =
      let size : length (write_size (length d.message) ++ d.message) ≡ length d.message + 4 =
        omega (
          arith,
          length-append (write_size (length d.message)) d.message,
          length-write_size (length d.message),
        ) in
      let sent =
        ap
          (λ n.
            p.calls
            ++ write_file_ex s.socket_handle (frame d.message d.operation) (n % 2 ^ 32) ∷ [])
          size in
      elim (Bool-cases (os.accepts (length p.calls))) [
        | inl e ↦ rw e (sent, length-append p.echo.tasks _)
        | inr e ↦ rw e (sent, omega arith)
      ]

  all_heard-replies :
      (ds : List Delivery) (t : Socket (Program W)) (p : Program W)
      → t.on_message ≡ add init (reply os s)
      → ((all_heard t ds p).calls ≡ p.calls ++ replies s.socket_handle ds)
        × (length (all_heard t ds p).echo.tasks
            ≡ length p.echo.tasks + accepted os (length p.calls) ds)
  unfolding call add init
  all_heard-replies [] t p e = (sym (append-nil p.calls), omega arith)
  all_heard-replies (d ∷ ds) t p e =
      let p' = reply os s d.message p in
      let one : call t.on_message d.message p ≡ p' = ap (λ ev. call ev d.message p) e in
      let (sent, kept) = reply_lem d p in
      let (sent_all, kept_all) = all_heard-replies ds t p' e in
      let next_call : length p'.calls ≡ length p.calls + 1 =
        ap length sent ∙ length-append p.calls _ in
      (
        ap (λ q. (all_heard t ds q).calls) one
            ∙ sent_all
            ∙ ap (λ c. c ++ replies s.socket_handle ds) sent
            ∙ append_assoc p.calls (replies s.socket_handle (d ∷ [])) (replies s.socket_handle ds),
        ap (λ q. length (all_heard t ds q).echo.tasks) one
            ∙ kept_all
            ∙ ground (arith, kept, ap (λ n. accepted os n ds) next_call),
      )

  -- A new connection whose message listener is that of the sample: while its watcher reads any number
  -- of messages, each sent as the frame of a task, it sends each message back by one call, in order,
  -- with the bytes that it was sent with, and keeps one task for each write that is accepted.
  pub run-replies :
      (handle_close : Unit {0} → Program W → Program W) (ds : List Delivery) (buffer : List ℕ)
      (p : Program W)
      → s.on_message ≡ init
      → is_live s ≡ true
      → All IsDelivery ds
      → let t = attach os handle_close s in
        (buffer' : List ℕ) × (p' : Program W) × (run t (all_inputs ds) (view unknown none buffer p)
          ≡ next t (view unknown none buffer' p'))
        × (p'.calls ≡ p.calls ++ replies s.socket_handle ds)
        × (length p'.echo.tasks ≡ length p.echo.tasks + accepted os (length p.calls) ds)
  unfolding attach
  run-replies handle_close ds buffer p new live h =
      let t = attach os handle_close s in
      let heard : t.on_message ≡ add init (reply os s) = ap (λ e. add e (reply os s)) new in
      let (buffer', ran) =
        messages_read t live (ap to_bool heard ∙ to_bool-add (reply os s)) ds buffer p h in
      let (sent, kept) = all_heard-replies ds t p heard in
      (buffer', all_heard t ds p, ran, sent, kept)
