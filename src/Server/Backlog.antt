-- ===== src/Server/Backlog.antt =====
-- source/windows/server.cpp, server::create: the pipes that are made for the backlog.
use datapath.Base.{
  if◌then◌else◌, Bool-cases, length, times, ℕ, zero, suc, ◌+◌, ◌<◌, ◌≡◌, refl, sym, ap, subst, ◌∙◌,
  ◌⊎◌, inl, inr, Bool, true, false, Option, none, some, List, [], ◌∷◌, ◌++◌, append_assoc,
  append-nil, arith,
}
use datapath.Error.{success, critical_failure}
use datapath.Server.{
  Server, Call, create_named_pipe, backlog_num, create_socket, close_handles, close, push_waiting,
  stock_backlog, create, next_pipe, after_socket,
}
use datapath.Server.Closes.{closes, closes-append, closes-close_handles}
use datapath.Socket.{other_thread}
use datapath.Utility.{make_pipe_path}

-- The handles that the system gives up to its first refusal, at most `n`.
abbrev pub taken : ℕ → List (Option ℕ) → List ℕ
taken zero pipes = []
taken (suc n) [] = []
taken (suc n) (none ∷ pipes) = []
taken (suc n) (some h ∷ pipes) = h ∷ taken n pipes

-- The handles that a call of `create` gets.
abbrev pub made_for : List ℕ → List (Option ℕ) → List ℕ
made_for path pipes = if (make_pipe_path path).0 then taken backlog_num pipes else []

create_socket-fits :
    (path : List ℕ) (initial : Bool) (pipes : List (Option ℕ))
    → (make_pipe_path path).0 ≡ true
    → create_socket path initial pipes ≡ (
      (next_pipe pipes).0,
      (next_pipe pipes).1,
      create_named_pipe (make_pipe_path path).1 initial ∷ [],
    )
unfolding create_socket
create_socket-fits path initial pipes fits = rw fits

create_socket-long :
    (path : List ℕ) (initial : Bool) (pipes : List (Option ℕ))
    → (make_pipe_path path).0 ≡ false
    → create_socket path initial pipes ≡ (none, pipes, [])
unfolding create_socket
create_socket-long path initial pipes long = rw long

abbrev is_full : ℕ → List ℕ → Bool
is_full zero hs = true
is_full (suc n) [] = false
is_full (suc n) (h ∷ hs) = is_full n hs

is_full-taken :
    (n : ℕ) (pipes : List (Option ℕ))
    → ((is_full n (taken n pipes) ≡ true) × (length (taken n pipes) ≡ n))
      ⊎ ((is_full n (taken n pipes) ≡ false) × (length (taken n pipes) < n))
is_full-taken zero pipes = inl (refl, refl)
is_full-taken (suc n) [] = inr (refl, omega arith)
is_full-taken (suc n) (none ∷ pipes) = inr (refl, omega arith)
is_full-taken (suc n) (some h ∷ pipes) = ground (arith, is_full-taken n pipes)

module _ {κ} {W : Type κ} where
  abbrev pub pushed : List ℕ → Server W → Server W
  pushed [] s = s
  pushed (h ∷ hs) s = pushed hs (push_waiting h s)

  pushed_lem :
      (hs : List ℕ) (s : Server W)
      → pushed hs s
        ≡ record s { sockets = s.sockets ++ hs; waiting_sockets = s.waiting_sockets ++ hs }
  pushed_lem [] s = rw (append-nil s.sockets, append-nil s.waiting_sockets)
  pushed_lem (h ∷ hs) s = rw (
    pushed_lem hs (push_waiting h s),
    append_assoc s.sockets (h ∷ []) hs,
    append_assoc s.waiting_sockets (h ∷ []) hs,
  )

  -- The loop, with a path that fits: it ends where all pipes were made, and closes nothing.
  stock_backlog-taken :
      (n : ℕ) (initial : Bool) (pipes : List (Option ℕ)) (s : Server W)
      → (make_pipe_path s.path).0 ≡ true
      → (calls : List Call) × (stock_backlog n initial pipes s
          ≡ (is_full n (taken n pipes), pushed (taken n pipes) s, calls))
        × ((h : ℕ) → closes h calls ≡ 0)
  unfolding stock_backlog
  stock_backlog-taken zero initial pipes s fits = ([], refl, λ h. refl)
  stock_backlog-taken (suc n) initial [] s fits = (
    create_named_pipe (make_pipe_path s.path).1 initial ∷ [],
    ap (after_socket (stock_backlog n false) s) (create_socket-fits s.path initial [] fits),
    λ h. refl,
  )
  stock_backlog-taken (suc n) initial (none ∷ pipes) s fits = (
    create_named_pipe (make_pipe_path s.path).1 initial ∷ [],
    ap (after_socket (stock_backlog n false) s)
        (create_socket-fits s.path initial (none ∷ pipes) fits),
    λ h. refl,
  )
  stock_backlog-taken (suc n) initial (some k ∷ pipes) s fits =
      let (calls, ran, none_closed) = stock_backlog-taken n false pipes (push_waiting k s) fits in
      let made = create_named_pipe (make_pipe_path s.path).1 initial in
      (
        made ∷ calls,
        ap (after_socket (stock_backlog n false) s)
              (create_socket-fits s.path initial (some k ∷ pipes) fits)
            ∙ ap (λ r. (r.0, r.1, made ∷ r.2)) ran,
        none_closed,
      )

  -- The loop of eight rounds has pushed `hs`, and was full or was not.
  abbrev IsStocked : List (Option ℕ) → Server W → List ℕ → Type κ
  IsStocked pipes s hs =
      ((calls : List Call) × (stock_backlog 8 true pipes s ≡ (is_full 8 hs, pushed hs s, calls))
        × ((h : ℕ) → closes h calls ≡ 0))
      × (((is_full 8 hs ≡ true) × (length hs ≡ 8)) ⊎ ((is_full 8 hs ≡ false) × (length hs < 8)))

  stock_backlog-IsStocked :
      (pipes : List (Option ℕ)) (s : Server W) → IsStocked pipes s (made_for s.path pipes)
  unfolding stock_backlog
  stock_backlog-IsStocked pipes s =
      let chosen : Bool → List ℕ = λ fits. if fits then taken backlog_num pipes else [] in
      elim (Bool-cases (make_pipe_path s.path).0) [
        | inl fits ↦
            subst (IsStocked pipes s) (sym (ap chosen fits))
              (stock_backlog-taken 8 true pipes s fits, is_full-taken 8 pipes)
        | inr long ↦ subst (IsStocked pipes s) (sym (ap chosen long)) (
          (
            [],
            ap (after_socket (stock_backlog 7 false) s) (create_socket-long s.path true pipes long),
            λ h. refl,
          ),
          inr (refl, omega arith),
        )
      ]

  pub close-other_thread :
      (s : Server W)
      → close other_thread s
        ≡ some (
          success,
          record s {
            sockets = [];
            waiting_sockets = [];
            pending_sockets = [];
            active_sockets = [];
            shutdown = true;
            joinable = false;
          },
          close_handles s.sockets,
        )
  unfolding close
  close-other_thread s = elim (Bool-cases s.joinable) [ inl j ↦ rw j refl | inr j ↦ rw j refl ]

  -- A call of `create` by another thread than the watcher gets handles for its path until there are
  -- eight or one is refused; a path of 250 bytes or more gets none. With eight it answers success:
  -- those handles, in order, are the sockets and all wait, and the watcher is started with the
  -- options. With fewer it answers critical failure, the server has no socket and no watcher, and
  -- every handle has been closed once. On both branches, every socket that the server had before
  -- has been closed once.
  pub create_cases :
      (s : Server W) (path : List ℕ) (max_clients : ℕ) (pipes : List (Option ℕ))
      → let hs = made_for path pipes in
        (s' : Server W) × (calls : List Call) × (((length hs ≡ 8)
            × (create other_thread s path max_clients pipes ≡ some (success, s', calls))
            × (s' ≡ record s {
              is_created = true;
              max_clients = max_clients;
              path = path;
              sockets = hs;
              waiting_sockets = hs;
              pending_sockets = [];
              active_sockets = [];
              shutdown = false;
              joinable = true;
            })
            × ((h : ℕ) → closes h calls ≡ times h s.sockets))
          ⊎ ((length hs < 8)
              × (create other_thread s path max_clients pipes ≡ some (critical_failure, s', calls))
              × (s' ≡ record s {
                max_clients = max_clients;
                path = path;
                sockets = [];
                waiting_sockets = [];
                pending_sockets = [];
                active_sockets = [];
                shutdown = true;
                joinable = false;
              })
              × ((h : ℕ) → closes h calls ≡ times h s.sockets + times h hs)))
  unfolding create
  create_cases s path max_clients pipes =
      let fresh = record s {
        max_clients = max_clients;
        path = path;
        sockets = [];
        waiting_sockets = [];
        pending_sockets = [];
        active_sockets = [];
        shutdown = true;
        joinable = false;
      } in
      let ((calls, ran, none_closed), full) = stock_backlog-IsStocked pipes fresh in
      elim full [
        | inl (f, eight) ↦ (
          record s {
            is_created = true;
            max_clients = max_clients;
            path = path;
            sockets = made_for path pipes;
            waiting_sockets = made_for path pipes;
            pending_sockets = [];
            active_sockets = [];
            shutdown = false;
            joinable = true;
          },
          close_handles s.sockets ++ calls ++ [],
          inl (
            eight,
            rw (close-other_thread s, ran, f, pushed_lem (made_for path pipes) fresh),
            refl,
            λ h. omega (
              arith,
              closes-append h (close_handles s.sockets ++ calls) [],
              closes-append h (close_handles s.sockets) calls,
              closes-close_handles h s.sockets,
              none_closed h,
            ),
          ),
        )
        | inr (f, few) ↦ (
          fresh,
          close_handles s.sockets ++ calls ++ close_handles (made_for path pipes),
          inr (
            few,
            rw (close-other_thread s, ran, f, pushed_lem (made_for path pipes) fresh),
            refl,
            λ h. omega (
              arith,
              closes-append h (close_handles s.sockets ++ calls)
                  (close_handles (made_for path pipes)),
              closes-append h (close_handles s.sockets) calls,
              closes-close_handles h s.sockets,
              closes-close_handles h (made_for path pipes),
              none_closed h,
            ),
          ),
        )
      ]
