-- ===== src/Samples/Ends/Fatal.antt =====
-- samples/single-process-ipc/main.cpp, `~server` and `handle_close`: the listener of the end, which
-- erases the client that is ending.
use datapath.Base.{
  if◌then◌else◌, Bool-cases, All, ℕ, ◌≡◌, refl, ap, ◌∙◌, ◌⊎◌, inl, inr, Bool, true, false, ◌||◌,
  Option, some, List, [], ◌∷◌, ◌++◌, map, append-nil, arith,
}
use datapath.Error.{success}
use datapath.Event.{init, call, call_all}
use datapath.Overlapped
use datapath.Samples.Echo.{Echo}
use datapath.Samples.Ends.{
  Clients, kept, dying, undefined, has_client, handle_close, attach_close, close_hosted,
  destroy_single, destroy_tasks,
}
use datapath.Samples.Ends.Closing.{told_one, told_each, goodbyes, task_ends, destroy_each_lem}
use datapath.Server.{Server, Call, of_socket, close_handles}
use datapath.Server.Backlog
use datapath.Socket.{Socket, other_thread}
use datapath.Socket
use datapath.Socket.Lifecycle

abbrev pub attached : List (Socket Clients × Echo Clients) → List (Socket Clients × Echo Clients)
attached ts = map (λ t. (attach_close t.0, t.1)) ts

abbrev pub any_connected : List (Socket Clients × Echo Clients) → Bool
any_connected [] = false
any_connected ((s, e) ∷ ts) = s.is_connected || any_connected ts

-- Nobody else listens for the end.
abbrev pub IsOwn : Socket Clients × Echo Clients → Type 0
IsOwn t = t.0.on_close ≡ init

call_own :
    (s : Socket Clients) (m : Clients)
    → s.on_close ≡ init
    → call (attach_close s).on_close tt m ≡ handle_close s.socket_handle m
unfolding attach_close init call call_all
call_own s m own = rw own refl

told_own :
    (s : Socket Clients) (m : Clients)
    → s.on_close ≡ init
    → told_one (attach_close s) m ≡ (if s.is_connected then handle_close s.socket_handle m else m)
unfolding attach_close
told_own s m own = ap (λ x. if s.is_connected then x else m) (call_own s m own)

stays : (b : Bool) → (if b then undefined else undefined) ≡ undefined
stays true = refl
stays false = refl

told_undefined :
    (ts : List (Socket Clients × Echo Clients))
    → All IsOwn ts
    → told_each (attached ts) undefined ≡ undefined
unfolding handle_close
told_undefined [] own = refl
told_undefined ((s, e) ∷ ts) own =
    ap (told_each (attached ts)) (told_own s undefined own.0 ∙ stays s.is_connected)
    ∙ told_undefined ts own.1

told_dying :
    (ts : List (Socket Clients × Echo Clients))
    → All IsOwn ts
    → told_each (attached ts) dying ≡ (if any_connected ts then undefined else dying)
unfolding handle_close
told_dying [] own = refl
told_dying ((s, e) ∷ ts) own = elim (Bool-cases s.is_connected) [
  | inl c ↦
      ap (told_each (attached ts)) (told_own s dying own.0 ∙ rw c refl)
      ∙ told_undefined ts own.1
      ∙ rw c refl
  | inr c ↦
      ap (told_each (attached ts)) (told_own s dying own.0 ∙ rw c refl)
      ∙ told_dying ts own.1
      ∙ rw c refl
]

silent :
    (ts : List (Socket Clients × Echo Clients))
    → any_connected ts ≡ false
    → goodbyes (attached ts) ≡ []
unfolding attach_close
silent [] h = refl
silent ((s, e) ∷ ts) h = elim (Bool-cases s.is_connected) [
  | inl c ↦ ground arith
  | inr c ↦ rw c (silent ts (ground arith))
]

ends_attached :
    (has_completed : ℕ → Bool) (ts : List (Socket Clients × Echo Clients))
    → task_ends has_completed (attached ts) ≡ task_ends has_completed ts
ends_attached has_completed [] = refl
ends_attached has_completed ((s, e) ∷ ts) =
    ap (λ l. destroy_tasks has_completed e.tasks ++ l) (ends_attached has_completed ts)

-- The destructor of the server in the single process, whose clients have no other listeners for the
-- end: if the socket of no client is connected any more, each handle of the server is closed, the
-- operations of the clients' tasks end, and the destructor comes to its end. If one is, the destructor does what the language does not define: the
-- listener of its end erases from the map that is being destroyed.
pub destroy_single-cases :
    (has_completed : ℕ → Bool) (ts : List (Socket Clients × Echo Clients)) (s : Server Clients)
    → All IsOwn ts
    → (s' : Server Clients) × (calls : List Call) × (((any_connected ts ≡ false)
          × (destroy_single has_completed (attached ts) (some s)
              ≡ some (dying, some s', close_handles s.sockets, task_ends has_completed ts))
          × (s'.sockets ≡ []))
        ⊎ ((any_connected ts ≡ true)
            × (ends : List Overlapped.Call) × (destroy_single has_completed (attached ts) (some s)
                ≡ some (undefined, some s', calls, ends))))
unfolding destroy_single close_hosted
destroy_single-cases has_completed ts s own =
    let s' : Server Clients = record s {
      sockets = [];
      waiting_sockets = [];
      pending_sockets = [];
      active_sockets = [];
      shutdown = true;
      joinable = false;
    } in
    let calls = close_handles s.sockets ++ map of_socket (goodbyes (attached ts)) in
    let ends = task_ends has_completed (attached ts) in
    let all : destroy_single has_completed (attached ts) (some s)
        ≡ some (told_each (attached ts) dying, some s', calls, ends) =
      rw (Backlog.close-other_thread s, destroy_each_lem has_completed (attached ts) dying) refl in
    elim (Bool-cases (any_connected ts)) [
      | inl c ↦ (
        s',
        calls,
        inr (
          c,
          ends,
          all ∙ ap (λ m. some (m, some s', calls, ends)) (told_dying ts own ∙ rw c refl),
        ),
      )
      | inr c ↦ (
        s',
        calls,
        inl (
          c,
          all
              ∙ ap (λ m. some (m, some s', calls, ends)) (told_dying ts own ∙ rw c refl)
              ∙ ap (λ l. some (dying, some s', close_handles s.sockets ++ map of_socket l, ends))
                  (silent ts c)
              ∙ ap (λ l. some (dying, some s', l, ends)) (append-nil (close_handles s.sockets))
              ∙ ap (λ l. some (dying, some s', close_handles s.sockets, l))
                  (ends_attached has_completed ts),
          refl,
        ),
      )
    ]

-- Nor can the socket of a client be closed before.
close_kept :
    (s : Socket Clients) (ks : List (Option ℕ))
    → s.on_close ≡ init
    → s.is_connected ≡ true
    → has_client s.socket_handle ks ≡ true
    → (s' : Socket Clients) × (calls : List Socket.Call) × (Socket.close other_thread
          (attach_close s)
          (kept ks)
        ≡ some (success, s', undefined, calls))
unfolding handle_close attach_close
close_kept s ks own c there =
    let (s', e, off, live, again, more) =
      Socket.Lifecycle.close-other_thread (attach_close s) (kept ks) 0 c in
    (
      s',
      Socket.disconnect_named_pipe s.socket_handle ∷ [],
      e
          ∙ ap (λ m. some (success, s', m, Socket.disconnect_named_pipe s.socket_handle ∷ []))
              (call_own s (kept ks) own ∙ rw there refl),
    )
