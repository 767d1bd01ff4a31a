-- ===== src/Socket/Lifecycle.antt =====
-- source/windows/socket.cpp: the connection of a socket, and its end.
use datapath.Base.{
  if◌then◌else◌, Bool-cases, length, ℕ, ◌≤◌, ◌<◌, ◌≡◌, refl, sym, ◌⊎◌, inl, inr, Bool, true, false,
  none, some, List, [], ◌∷◌, arith,
}
use datapath.Error.{success, failure, closed, invalid_path}
use datapath.Event.{init, Event, to_bool, call, call_all, empty}
use datapath.Socket.{
  Socket, watcher_thread, other_thread, disconnect_named_pipe, Opened, connect, connect_handle,
  close, disconnect, good, open_failed,
}
use datapath.Socket.Watcher.{is_live}
use datapath.Utility.{make_pipe_path}

opened_handle :
    (o : Opened) → open_failed o ≡ false → (h : ℕ) × (o.handle ≡ some h) × (o.last_error ≡ 0)
opened_handle o e = ground arith

fits_or_not :
    (path : List ℕ)
    → ((length path < 250) × ((make_pipe_path path).0 ≡ true))
      ⊎ ((250 ≤ length path) × ((make_pipe_path path).0 ≡ false))
unfolding make_pipe_path
fits_or_not path = ground arith

joined_or_not {ℓ} :
    {A : Type ℓ} (j : Bool) (f : Bool → A)
    → (if j then some (f false) else some (f j)) ≡ some (f false)
joined_or_not true f = refl
joined_or_not false f = refl

-- What CreateFileW gives for the name of the pipe.
abbrev pub opened_for : (List ℕ → Opened) → List ℕ → Opened
opened_for create_file path = create_file (make_pipe_path path).1

module _ {κ} {W : Type κ} (create_file : List ℕ → Opened) (path : List ℕ) where
  -- A connection from a null pointer has one of three results. For a path of 250 bytes or more it
  -- is invalid path; where the named pipe cannot be opened it is failure; and the pointer stays
  -- null. Otherwise it is success, and the new socket has the handle of the pipe and no listeners,
  -- is good, and has a watcher whose loop runs.
  pub connect_cases :
      ((250 ≤ length path) × (connect {W = W} create_file none path ≡ some (invalid_path, none)))
      ⊎ ((length path < 250)
          × (open_failed (opened_for create_file path) ≡ true)
          × (connect {W = W} create_file none path ≡ some (failure, none)))
      ⊎ ((s : Socket W) × (length path < 250)
          × (open_failed (opened_for create_file path) ≡ false)
          × (connect create_file none path ≡ some (success, some s))
          × (s.socket_handle ≡ (opened_for create_file path).handle)
          × (good s ≡ true)
          × (is_live s ≡ true)
          × (s.joinable ≡ true)
          × (to_bool s.on_message ≡ false)
          × (to_bool s.on_close ≡ false))
  unfolding connect good to_bool init
  connect_cases = elim (fits_or_not path) [
    | inr (long, e) ↦ inl (long, rw e)
    | inl (short, e) ↦ elim (Bool-cases (open_failed (opened_for create_file path))) [
      | inl f ↦ inr (inl (short, f, rw (e, f)))
      | inr f ↦
          let (h, got, _) = opened_handle (opened_for create_file path) f in
          inr (
            inr (
              record {
                is_connected = true;
                socket_handle = some h;
                shutdown = false;
                joinable = true;
                on_message = init;
                on_close = init;
              },
              short,
              f,
              rw (e, f, got),
              sym got,
              refl,
              refl,
              refl,
              refl,
              refl,
            ))
    ]
  ]

  -- The socket that is made.
  pub connect_opened :
      length path < 250
      → open_failed (opened_for create_file path) ≡ false
      → (h : ℕ) × ((opened_for create_file path).handle ≡ some h)
        × (connect {W = W} create_file none path
            ≡ some (
              success,
              some (record {
                is_connected = true;
                socket_handle = some h;
                shutdown = false;
                joinable = true;
                on_message = init;
                on_close = init;
              }),
            ))
  unfolding connect
  connect_opened short f = elim (fits_or_not path) [
    | inr (long, e) ↦ absurd (omega arith)
    | inl (_, e) ↦
        let (h, got, _) = opened_handle (opened_for create_file path) f in
        (h, got, rw (e, f, got) refl)
  ]

module _ {κ} {W : Type κ} where
  call_if_listens :
      (e : Event (Unit {0} → W → W)) (w : W) → (if to_bool e then call e tt w else w) ≡ call e tt w
  unfolding to_bool call empty call_all
  call_if_listens e w = ground arith

  pub disconnect-other_thread :
      (s : Socket W) (w : W)
      → disconnect other_thread s w
        ≡ some (
          record s { is_connected = false; shutdown = true; joinable = false },
          call s.on_close tt w,
        )
  unfolding disconnect
  disconnect-other_thread s w = rw (call_if_listens s.on_close w) (
      joined_or_not s.joinable λ b.
        (record s { is_connected = false; shutdown = true; joinable = b }, call s.on_close tt w))

  -- A connected socket that another thread than its watcher closes disconnects its pipe, runs its
  -- close listeners once and answers success. It is then no longer good, its watcher has ended, a
  -- second close answers closed and changes nothing, and the socket can be connected again, with
  -- its listeners.
  pub close-other_thread :
      (s : Socket W) (w : W) (h : ℕ)
      → s.is_connected ≡ true
      → (s' : Socket W) × (close other_thread s w
          ≡ some (success, s', call s.on_close tt w, disconnect_named_pipe s.socket_handle ∷ []))
        × (good s' ≡ false)
        × (is_live s' ≡ false)
        × (close other_thread s' (call s.on_close tt w)
            ≡ some (closed, s', call s.on_close tt w, []))
        × (connect_handle s' (some h)
            ≡ some (record s {
              is_connected = true;
              socket_handle = some h;
              shutdown = false;
              joinable = true;
            }))
  unfolding close good connect_handle
  close-other_thread s w h c = (
    record s { is_connected = false; shutdown = true; joinable = false },
    rw (c, disconnect-other_thread s w),
    refl,
    refl,
    refl,
    refl,
  )

  -- A socket that is closed by its own watcher, so by a message listener, ends the process.
  pub close-watcher_thread :
      (s : Socket W) (w : W)
      → s.is_connected ≡ true
      → s.joinable ≡ true
      → close watcher_thread s w ≡ none
  unfolding close
  close-watcher_thread s w c j = rw (c, j)

  -- A connection of a socket whose watcher has not been joined ends the process, where the path is
  -- short and the named pipe is opened.
  pub connect_joinable :
      (create_file : List ℕ → Opened) (s : Socket W) (path : List ℕ)
      → s.joinable ≡ true
      → length path < 250
      → open_failed (create_file (make_pipe_path path).1) ≡ false
      → connect create_file (some s) path ≡ none
  unfolding connect
  connect_joinable create_file s path j short f = elim (fits_or_not path) [
    | inr (long, e) ↦ absurd (omega arith)
    | inl (_, e) ↦
        let (h, got, _) = opened_handle (create_file (make_pipe_path path).1) f in rw (e, f, got, j)
  ]
