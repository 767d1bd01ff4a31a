-- ===== src/Socket/Watcher.antt =====
-- source/windows/socket.cpp, socket::_watcher: the thread that reads the messages of a socket.
-- A round of its loop gets what the operating system does meanwhile: whether each ReadFileEx was
-- accepted, the bytes that have been put into the buffer before the waits return, and the answers
-- to each of the two waits. The socket is given anew to each round, since other threads may change
-- it between rounds.
use mathlib.Core.Option
use datapath.Base.{
  if◌then◌else◌, length, take, drop, ℕ, Bool, true, false, not, ◌&&◌, Option, none, some, List, [],
  ◌∷◌, ◌++◌,
}
use datapath.Base.Int.{pos}
use datapath.Error.{success, closed}
use datapath.Event.{init, add, to_bool, call}
use datapath.Frame.{read_size, resize}
use datapath.Socket.{Socket, watcher_thread, disconnect}
use datapath.Waitable.{Waitable, Answer, Outcome, returned, waiting, fault}
use datapath.Waitable.Single.{wait}

pub data ReadState : Type 0 where
  unknown header content : ReadState

-- `waitable` is null, `read_header_ov` or `read_content_ov`.
pub data Slot : Type 0 where
  header_ov content_ov : Slot

-- The local variables of the loop.
pub record Watch : Type 0 where
  pub state : ReadState
  pub read_buffer : List ℕ
  pub waitable : Option Slot

pub record View {κ} (W : Type κ) : Type κ where
  pub watch : Watch
  pub world : W

pub record Input : Type 0 where
  pub header_ok : Bool
  pub content_ok : Bool
  pub arrived : List ℕ
  pub first : List Answer
  pub second : List Answer

-- `left` is the end of the loop; `blocked`, that a wait has not returned; `crashed`, the end of the
-- process by a null pointer or a thread that joins itself.
pub data Round {κ} (W : Type κ) : Type κ where
  next : Socket W → View W → Round W
  left : View W → Round W
  blocked : Round W
  crashed : Round W

-- The start of a read, where ReadFileEx returns `ok`.
abbrev begin_read : Bool → ReadState → Slot → List ℕ → Watch
begin_read ok state slot buffer =
    if ok
    then record { state = state; read_buffer = buffer; waitable = some slot }
    else record { state = unknown; read_buffer = buffer; waitable = none }

-- The listener of `read_header_ov._on_wait_success`. A buffer of less than four bytes would be a
-- read out of bounds: the watcher never has one in that state (Socket.Coherence).
unfoldable pub on_header : Bool → Watch → Watch
on_header ok v = elim (read_size v.read_buffer) [
  | none ↦ v
  | some size ↦ begin_read ok content content_ov (resize size v.read_buffer)
]

-- The listener of both `_on_wait_error`.
abbrev on_wait_error : Watch → Watch
on_wait_error v = record v { state = unknown; waitable = none }

abbrev is_valid : Option ℕ → Bool
is_valid none = false
is_valid (some h) = true

module _ {κ} {W : Type κ} where
  -- The listener of `read_content_ov._on_wait_success`.
  unfoldable pub on_content : Socket W → View W → View W
  on_content s v =
      if to_bool s.on_message
      then (record {
        watch = record v.watch { state = unknown; waitable = none };
        world = call s.on_message v.watch.read_buffer v.world;
      })
      else record v { watch = record v.watch { waitable = none } }

  -- The two operations with their listeners. Their events are 1 and 2 here.
  unfoldable pub slot_waitable : Socket W → Bool → Slot → Waitable (View W)
  unfolding on_header on_content init add
  slot_waitable s content_ok header_ov = record {
    handle = 1;
    on_wait_error = add init (λ ec v. record v { watch = on_wait_error v.watch });
    on_wait_success = add init (λ ec v. record v { watch = on_header content_ok v.watch });
  }
  slot_waitable s content_ok content_ov = record {
    handle = 2;
    on_wait_error = add init (λ ec v. record v { watch = on_wait_error v.watch });
    on_wait_success = add init (λ ec v. on_content s v);
  }

  abbrev flush : Socket W → Option Slot → View W → View W
  flush s none v =
      if to_bool s.on_message
      then (record {
        watch = record v.watch { state = unknown };
        world = call s.on_message v.watch.read_buffer v.world;
      })
      else v
  flush s (some slot) v = v

  abbrev advance_state : Socket W → Bool → ReadState → View W → View W
  advance_state s header_ok unknown v = record v {
    watch = begin_read header_ok header header_ov (resize 4 v.watch.read_buffer);
  }
  advance_state s header_ok header v = v
  advance_state s header_ok content v = flush s v.watch.waitable v

  -- The branches on `state`.
  unfoldable pub advance : Socket W → Bool → View W → View W
  advance s header_ok v = advance_state s header_ok v.watch.state v

  -- The bytes that have arrived for the pending read, up to the size of the buffer.
  abbrev pub receive : List ℕ → View W → View W
  receive bytes v =
      let buffer = v.watch.read_buffer in
      record v {
        watch = record v.watch {
          read_buffer = take (length buffer) bytes ++ drop (length bytes) buffer;
        };
      }

  abbrev after_disconnect : Option (Socket W × W) → View W → Round W
  after_disconnect none v = crashed
  after_disconnect (some (s, w)) v = next s (record v { world = w })

  abbrev pub after_second : Socket W → Outcome (View W) → Round W
  after_second s (returned closed v) = after_disconnect (disconnect watcher_thread s v.world) v
  after_second s (returned ec v) = next s v
  after_second s (waiting v) = blocked
  after_second s fault = crashed

  -- The second wait, for what `waitable` is by then.
  abbrev pub wait_again : Socket W → Input → View W → Round W
  wait_again s i v =
      after_second s
        (wait (Option.map (slot_waitable s i.content_ok) v.watch.waitable) (pos 1000000) i.second
          v).1

  abbrev pub after_first : Socket W → Input → Outcome (View W) → Round W
  after_first s i (returned success v) = next s v
  after_first s i (returned ec v) = wait_again s i v
  after_first s i (waiting v) = blocked
  after_first s i fault = crashed

  abbrev pub wait_or_sleep : Socket W → Input → Option Slot → View W → Round W
  wait_or_sleep s i none v = next s v
  wait_or_sleep s i (some slot) v =
      after_first s i
        (wait (some (slot_waitable s i.content_ok slot)) (pos 0) i.first (receive i.arrived v)).1

  abbrev pub waits : Socket W → Input → View W → Round W
  waits s i v = wait_or_sleep s i v.watch.waitable v

  abbrev pub is_live : Socket W → Bool
  is_live s = not s.shutdown && is_valid s.socket_handle && s.is_connected

  -- One round of the loop, its conditions first.
  unfoldable pub round : Socket W → Input → View W → Round W
  unfolding advance slot_waitable
  round s i v = if is_live s then waits s i (advance s i.header_ok v) else left v

  abbrev pub then_run : (Socket W → View W → Round W) → Round W → Round W
  then_run rest (next s v) = rest s v
  then_run rest (left v) = left v
  then_run rest blocked = blocked
  then_run rest crashed = crashed

  -- Rounds one after the other, while the socket stays as the watcher leaves it.
  unfoldable pub run : Socket W → List Input → View W → Round W
  unfolding round
  run s [] v = next s v
  run s (i ∷ is) v = then_run (λ s' v'. run s' is v') (round s i v)
