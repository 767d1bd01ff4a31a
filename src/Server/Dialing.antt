-- ===== src/Server/Dialing.antt =====
-- source/windows/server.cpp, server::_watcher: the wait for the operations under way, and the update
-- of the waiting sockets, with the containers that both use.
use datapath.Base.{
  ltb, ◌==◌, if◌then◌else◌, ℕ, Bool, true, false, ◌||◌, Option, none, some, List, [], ◌∷◌, ◌++◌,
  map,
}
use datapath.Base.Int.{pos}
use datapath.Error.{success}
use datapath.Event.{init, add}
use datapath.Overlapped.{Overlapped}
use datapath.Overlapped
use datapath.Server.{Server, Call, connect_named_pipe, of_overlapped}
use datapath.Waitable.{Waitable, Answer, Outcome, returned}
use datapath.Waitable.Many.{wait_any}

-- What CreateEventW and ConnectNamedPipe return for a handle, and GetLastError behind them.
pub record Dial : Type 0 where
  pub event : ℕ
  pub suc_result : Bool
  pub last_error : ℕ

-- The map of the operations under way, by handle.
abbrev pub Ovmap : Type 0
Ovmap = List (ℕ × Overlapped)

abbrev pub error_pipe_connected : ℕ
error_pipe_connected = 535

-- `insert` of a map that is kept in the order of its keys: a key that is there stays as it is.
unfoldable pub insert {ℓ} : {A : Type ℓ} → (A → ℕ) → A → List A → List A
insert key a [] = a ∷ []
insert key a (x ∷ xs) =
    if ltb (key a) (key x)
    then a ∷ x ∷ xs
    else if key a == key x
    then x ∷ xs
    else x ∷ insert key a xs

abbrev pub has_key : ℕ → Ovmap → Bool
has_key h [] = false
has_key h (kv ∷ kvs) = kv.0 == h || has_key h kvs

-- `std::list::remove`
unfoldable pub remove_handle : ℕ → List ℕ → List ℕ
remove_handle h [] = []
remove_handle h (x ∷ xs) = if x == h then remove_handle h xs else x ∷ remove_handle h xs

-- `for (auto hnd : to_kill) ….remove(hnd);`
unfoldable pub remove_each : List ℕ → List ℕ → List ℕ
unfolding remove_handle
remove_each [] xs = xs
remove_each (h ∷ hs) xs = remove_each hs (remove_handle h xs)

abbrev event_or_null : Option ℕ → ℕ
event_or_null none = 0
event_or_null (some e) = e

-- The operations as waitables. The listener that each of them has uses an iterator and a variable of
-- a loop that has ended: the state of the waits says whether one was called.
abbrev watched : Ovmap → List (Option (Waitable Bool))
watched [] = []
watched ((h, ov) ∷ kvs) =
    some (record {
      handle = event_or_null (Overlapped.get_waitable ov);
      on_wait_error = init;
      on_wait_success = add init (λ ec stale. true);
    })
    ∷ watched kvs

abbrev wait_again : Ovmap → List Answer → Outcome (ℕ × Bool) → Outcome (ℕ × Bool)
wait_again m answers (returned success v) = returned success v
wait_again m answers (returned ec v) = (wait_any (watched m) (pos 1000000) answers v).1
wait_again m answers o = o

-- The wait for the operations, where there are any.
unfoldable pub wait_ops : Ovmap → List Answer → List Answer → Outcome (ℕ × Bool)
unfolding wait_any
wait_ops [] first second = returned success (0, false)
wait_ops (kv ∷ kvs) first second =
    wait_again (kv ∷ kvs) second (wait_any (watched (kv ∷ kvs)) (pos 0) first (0, false)).1

-- The update of the operations: `pending` is the list of pending sockets.
pub record Dialing : Type 0 where
  pub ovmap : Ovmap
  pub to_kill : List ℕ
  pub pending : List ℕ
  pub calls : List Call

-- The data of the operation is the pointer to the server, 1 here; nothing reads it.
abbrev pub dial_handle : Dial → ℕ → Dialing → Dialing
dial_handle answer h d =
    let (made, created) = Overlapped.construct answer.event in
    let ov = Overlapped.set_data (Overlapped.set_handle made (some h)) 1 in
    let calls = d.calls ++ map of_overlapped created ++ connect_named_pipe h ∷ [] in
    let dropped = calls ++ map of_overlapped (Overlapped.destroy ov) in
    if answer.suc_result
    then record d { ovmap = insert (λ kv. kv.0) (h, ov) d.ovmap; calls = calls }
    else if answer.last_error == error_pipe_connected
    then (record {
      ovmap = d.ovmap;
      to_kill = d.to_kill ++ h ∷ [];
      pending = d.pending ++ h ∷ [];
      calls = dropped;
    })
    else record d { calls = dropped }

unfoldable pub dial_each : (ℕ → Dial) → List ℕ → Dialing → Dialing
unfolding insert Overlapped.construct Overlapped.set_handle Overlapped.set_data Overlapped.destroy
dial_each dial [] d = d
dial_each dial (h ∷ hs) d =
    dial_each dial hs (if has_key h d.ovmap then d else dial_handle (dial h) h d)

-- The update leaves out of the waiting sockets those that a client has been found on.
abbrev pub dialed {κ} : {W : Type κ} → (ℕ → Dial) → Server W → Ovmap → Dialing
dialed dial s m =
    dial_each dial s.waiting_sockets
      (record { ovmap = m; to_kill = []; pending = s.pending_sockets; calls = [] })
