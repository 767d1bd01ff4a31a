-- ===== src/Socket/Waits.antt =====
-- source/windows/socket.cpp, socket::_watcher: what the waits of a round come to.
use mathlib.Core.Option
use datapath.Base.{
  ◌≡◌, refl, sym, ap, subst, ◌∙◌, ◌⊎◌, inl, inr, Bool, true, Option, none, some, List, arith,
}
use datapath.Base.Int.{ℤ, pos}
use datapath.Error.{Error, success, closed, timed_out, failure}
use datapath.Event.{init, add, call, call_all}
use datapath.Socket.{Socket, disconnect, watcher_thread}
use datapath.Socket.Watcher.{
  View, Input, Round, Slot, header_ov, content_ov, next, blocked, crashed, slot_waitable, on_header,
  on_content, wait_again, blocked, crashed, next, after_second, after_first, wait_or_sleep, receive,
}
use datapath.Waitable.{Waitable, Answer, returned, waiting, wait_object_0, wait_timeout}
use datapath.Waitable.Single.{wait}
use datapath.Waitable.Outcomes.{wait-settle, first_final}

module _ {κ} {W : Type κ} where
  -- The results that a wait for an object can have.
  pub wait_cases :
      (obj : Waitable W) (d : ℤ) (answers : List Answer) (w : W)
      → let r = (wait (some obj) d answers w).1 in
        (r ≡ waiting w)
        ⊎ (r ≡ returned success (call obj.on_wait_success success w))
        ⊎ (r ≡ returned timed_out w)
        ⊎ (r ≡ returned closed (call obj.on_wait_error closed w))
        ⊎ (r ≡ returned failure w)
  wait_cases obj d answers w = ground (arith, (wait-settle obj d answers w).0)

module _ {κ} {W : Type κ} where
  -- What the success listener of a read does.
  abbrev pub heard : Socket W → Bool → Slot → View W → View W
  heard s ok header_ov v = record v { watch = on_header ok v.watch }
  heard s ok content_ov v = on_content s v

  -- The ends that the waits of a round can have in the watcher of a socket, where `v` is the view
  -- when the bytes have arrived.
  abbrev pub Ends : Socket W → Bool → Slot → View W → Round W → Type κ
  Ends s ok slot v r =
      (r ≡ blocked) ⊎ (r ≡ crashed) ⊎ (r ≡ next s (heard s ok slot v)) ⊎ (r ≡ next s v)

  slot_success :
      (s : Socket W) (ok : Bool) (slot : Slot) (ec : Error) (v : View W)
      → call (slot_waitable s ok slot).on_wait_success ec v ≡ heard s ok slot v
  unfolding slot_waitable call call_all add init
  slot_success s ok header_ov ec v = refl
  slot_success s ok content_ov ec v = refl

  slot_error :
      (s : Socket W) (ok : Bool) (slot : Slot) (ec : Error) (v : View W)
      → (call (slot_waitable s ok slot).on_wait_error ec v).watch.waitable ≡ none
  unfolding slot_waitable call call_all add init
  slot_error s ok header_ov ec v = refl
  slot_error s ok content_ov ec v = refl

  disconnect_self :
      (s : Socket W) (w : W) → s.joinable ≡ true → disconnect watcher_thread s w ≡ none
  unfolding disconnect
  disconnect_self s w j = rw j

  module _ (s : Socket W) (joinable : s.joinable ≡ true) (i : Input) (slot : Slot)
      (v : View W) where
    abbrev obj : Waitable (View W)
    obj = slot_waitable s i.content_ok slot

    success_next :
        next s (call obj.on_wait_success success v) ≡ next s (heard s i.content_ok slot v)
    success_next = ap (next s) (slot_success s i.content_ok slot success v)

    second-Ends :
        Ends s i.content_ok slot v (after_second s (wait (some obj) (pos 1000000) i.second v).1)
    second-Ends = elim (wait_cases obj (pos 1000000) i.second v) [
      | inl p ↦ inl (rw p)
      | inr (inl p) ↦ inr (inr (inl (rw p success_next)))
      | inr (inr (inl p)) ↦ inr (inr (inr (rw p)))
      | inr (inr (inr (inl p))) ↦
          inr (inl (rw p (rw (disconnect_self s (call obj.on_wait_error closed v).world joinable))))
      | inr (inr (inr (inr p))) ↦ inr (inr (inr (rw p)))
    ]

    again-Ends : v.watch.waitable ≡ some slot → Ends s i.content_ok slot v (wait_again s i v)
    again-Ends e =
        subst
          (λ o. Ends s i.content_ok slot v (
            after_second s
              (wait (Option.map (slot_waitable s i.content_ok) o) (pos 1000000) i.second v).1))
          (sym e) second-Ends

    closed_crashes : wait_again s i (call obj.on_wait_error closed v) ≡ crashed
    unfolding wait
    closed_crashes =
        let u = call obj.on_wait_error closed v in
        subst
          (λ o.
            after_second s
              (wait (Option.map (slot_waitable s i.content_ok) o) (pos 1000000) i.second u).1
            ≡ crashed)
          (sym (slot_error s i.content_ok slot closed v)) refl

    pub first-Ends :
        v.watch.waitable ≡ some slot
        → Ends s i.content_ok slot v (after_first s i (wait (some obj) (pos 0) i.first v).1)
    first-Ends e = elim (wait_cases obj (pos 0) i.first v) [
      | inl p ↦ inl (rw p)
      | inr (inl p) ↦ inr (inr (inl (rw p success_next)))
      | inr (inr (inl p)) ↦ rw p (again-Ends e)
      | inr (inr (inr (inl p))) ↦ inr (inl (rw p closed_crashes))
      | inr (inr (inr (inr p))) ↦ rw p (again-Ends e)
    ]

  module _ (s : Socket W) (i : Input) (slot : Slot) (v : View W) where
    abbrev target : Waitable (View W)
    target = slot_waitable s i.content_ok slot

    abbrev again : View W → Option Slot → Round W
    again u o =
        after_second s
          (wait (Option.map (slot_waitable s i.content_ok) o) (pos 1000000) i.second u).1

    -- Where both waits time out, only the bytes that have arrived are new.
    pub wait_or_sleep_idle :
        v.watch.waitable ≡ some slot
        → first_final i.first ≡ some wait_timeout
        → first_final i.second ≡ some wait_timeout
        → wait_or_sleep s i (some slot) v ≡ next s (receive i.arrived v)
    wait_or_sleep_idle e p q =
        let got = receive i.arrived v in
        let one : (wait (some target) (pos 0) i.first got).1 ≡ returned timed_out got =
          (wait-settle target (pos 0) i.first got).0 ∙ rw p in
        let two : (wait (some target) (pos 1000000) i.second got).1 ≡ returned timed_out got =
          (wait-settle target (pos 1000000) i.second got).0 ∙ rw q in
        rw one (subst (λ o. again got o ≡ next s got) (sym e) (rw two))

    -- Where the first wait is signaled, the success listener of the read runs.
    pub wait_or_sleep_arrived :
        first_final i.first ≡ some wait_object_0
        → wait_or_sleep s i (some slot) v ≡ next s (heard s i.content_ok slot (receive i.arrived v))
    wait_or_sleep_arrived p =
        let got = receive i.arrived v in
        let one : (wait (some target) (pos 0) i.first got).1
            ≡ returned success (call target.on_wait_success success got) =
          (wait-settle target (pos 0) i.first got).0 ∙ rw p in
        rw one (ap (next s) (slot_success s i.content_ok slot success got))
