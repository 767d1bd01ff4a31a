-- ===== src/Samples/Bench/Stall.antt =====
-- samples/benchmark/main.cpp, `client`: it may wait for a message that does not come.
use datapath.Base.{
  if◌then◌else◌, if-cases, ℕ, ◌+◌, ◌-◌, ◌%◌, ◌^◌, ◌≡◌, refl, sym, ap, subst, ◌∙◌, true, false,
  Option, none, some, List, [], ◌++◌, arith,
}
use datapath.Samples.Bench.{
  Bench, Tick, Phase, looping, written, testing, ended, step, step_in, handle_message, handle_close,
  is_over, may_send, send, write_stamp,
}
use datapath.Samples.Bench.Fairness.{in_turn, nothing_sent, send-messages, stamps}
use datapath.Samples.Bench.Steps.{test_task-cases}
use datapath.Samples.Bench.Traffic.{
  Traffic, Move, Moves, steps, gets, closes, rest, more, stepped, messages,
}
use datapath.Task.{Task}
use datapath.Socket.{Socket, Call}
use datapath.Samples.Bench.{received}
use datapath.Samples.Bench.Stamps.{read_stamp-write_stamp}
use datapath.Samples.Measurer.{track, signed}
use mathlib.Core.Option

-- It is the other side's turn, and no message is under way.
pub record Stalled {κ} {W : Type κ} (send_cnt cnt : ℕ) (t : Traffic W) : Type 0 where
  pub none_flying : t.flying ≡ []
  pub no_turn : t.client.can_send_msg ≡ false
  pub not_writing : in_turn t.client.phase ≡ 0
  pub same_sent : t.client.send_cnt ≡ send_cnt
  pub same_received : t.client.cnt ≡ cnt

module _ {κ ℓ} {W : Type κ} {V : Type ℓ} (s : Socket V) (w : W) (send_cnt cnt : ℕ) where
  still_Stalled :
      (o : Option (Task W)) (p : Phase) (c : Bench W) (flying flying' : List (List ℕ))
      → in_turn p ≡ 0
      → flying' ≡ []
      → Stalled send_cnt cnt (record { client = c; flying = flying })
      → Stalled send_cnt cnt
          (record { client = record c { task = o; phase = p }; flying = flying' })
  still_Stalled o p c flying flying' e f h = record {
    none_flying = f;
    no_turn = h.no_turn;
    not_writing = e;
    same_sent = h.same_sent;
    same_received = h.same_received;
  }

  step_in-Stalled :
      (p : Phase) (i : Tick) (c : Bench W) (flying : List (List ℕ))
      → c.phase ≡ p
      → Stalled send_cnt cnt (record { client = c; flying = flying })
      → let (c', calls) = step_in p s i w c in
        Stalled send_cnt cnt (record { client = c'; flying = flying ++ messages i.accepted calls })
  step_in-Stalled looping i c flying e h =
      let P : Bench W × List Call → Type 0 = λ r.
        Stalled send_cnt cnt
          (record { client = r.0; flying = flying ++ messages i.accepted r.1 }) in
      let now = flying ++ messages i.accepted [] in
      let silent = nothing_sent flying i.accepted ∙ h.none_flying in
      if-cases P (is_over c) (λ _. still_Stalled c.task ended c flying now refl silent h)
        λ _.
          if-cases P (may_send c) (λ turn. absurd (ground (arith, turn, h.no_turn)))
            λ _. still_Stalled c.task testing c flying now refl silent h
  step_in-Stalled written i c flying e h = absurd (ground (arith, ap in_turn e, h.not_writing))
  step_in-Stalled testing i c flying e h =
      let now = flying ++ messages i.accepted [] in
      let silent = nothing_sent flying i.accepted ∙ h.none_flying in
      test_task-cases (λ c'. Stalled send_cnt cnt (record { client = c'; flying = now })) c
        (still_Stalled c.task looping c flying now refl silent h)
        (still_Stalled none looping c flying now refl silent h)
        (still_Stalled c.task c.phase c flying now h.not_writing silent h) c.task i w
  step_in-Stalled ended i c flying e h =
      still_Stalled c.task c.phase c flying (flying ++ messages i.accepted []) h.not_writing
        (nothing_sent flying i.accepted ∙ h.none_flying) h

  Move-Stalled : (t u : Traffic W) → Move s w t u → Stalled send_cnt cnt t → Stalled send_cnt cnt u
  unfolding step handle_close
  Move-Stalled t u (steps i) h = step_in-Stalled t.client.phase i t.client t.flying refl h
  Move-Stalled t u (gets now m ms c c' e) h = absurd (ground (arith, h.none_flying))
  Move-Stalled t u closes h = record {
    none_flying = h.none_flying;
    no_turn = h.no_turn;
    not_writing = h.not_writing;
    same_sent = h.same_sent;
    same_received = h.same_received;
  }

  Moves-Stalled :
      (t u : Traffic W) → Moves s w t u → Stalled send_cnt cnt t → Stalled send_cnt cnt u
  Moves-Stalled t u rest h = h
  Moves-Stalled t u (more {u = v} ms m) h = Move-Stalled v u m (Moves-Stalled t v ms h)

module _ {κ ℓ} {W : Type κ} {V : Type ℓ} (s : Socket V) (w : W) where
  -- The client may send, and nothing is under way.
  pub record IsReady (t : Traffic W) : Type κ where
    pub looping_still : t.client.phase ≡ looping
    pub going : is_over t.client ≡ false
    pub turn : may_send t.client ≡ true
    pub none_flying : t.flying ≡ []

  -- The state behind the write.
  abbrev sent : Tick → Traffic W → Traffic W
  sent i t = record { client = (send s i t.client).0; flying = stamps i.accepted i.now }

  stepped-sent : (i : Tick) (t : Traffic W) → IsReady t → stepped s w i t ≡ sent i t
  unfolding step
  stepped-sent i t r =
      let c = t.client in
      let written_now : step s i w c ≡ send s i c =
        ap (λ p. step_in p s i w c) r.looping_still
        ∙ ap
            (λ b.
              if b
              then (record c { phase = ended }, [])
              else if may_send c
              then send s i c
              else (record c { phase = testing }, []))
            r.going
        ∙ ap (λ b. if b then send s i c else (record c { phase = testing }, [])) r.turn in
      ap (λ x. record { client = x.0; flying = t.flying ++ messages i.accepted x.1 }) written_now
      ∙ ap
          (λ fs. record {
            client = (send s i c).0;
            flying = fs ++ messages i.accepted (send s i c).1;
          })
          r.none_flying
      ∙ ap (λ fs. record { client = (send s i c).0; flying = fs })
          (send-messages s w i c i.accepted)

  -- Behind the assignments of the watcher, where nothing is under way.
  booked-Stalled :
      (j : Tick) (t : Traffic W)
      → t.client.phase ≡ written
      → t.flying ≡ []
      → Stalled ((t.client.send_cnt + 1) % 2 ^ 64) t.client.cnt (stepped s w j t)
  unfolding step
  booked-Stalled j t e f =
      let booked = stepped s w j t in
      subst
        (λ p. Stalled ((t.client.send_cnt + 1) % 2 ^ 64) t.client.cnt (record {
          client = (step_in p s j w t.client).0;
          flying = t.flying ++ messages j.accepted (step_in p s j w t.client).1;
        }))
        (sym e)
        (record {
          none_flying = nothing_sent t.flying j.accepted ∙ f;
          no_turn = refl;
          not_writing = refl;
          same_sent = refl;
          same_received = refl;
        })

  -- A client that may send, and whose write the operating system refuses: it never sends again, and
  -- no message ever comes back, whatever happens from then on.
  pub refused_write_stalls :
      (i j : Tick) (t u : Traffic W)
      → IsReady t
      → i.accepted ≡ false
      → Moves s w (stepped s w j (stepped s w i t)) u
      → (u.client.send_cnt ≡ (t.client.send_cnt + 1) % 2 ^ 64) × (u.client.cnt ≡ t.client.cnt)
  refused_write_stalls i j t u r refused ms =
      let sent_cnt = (t.client.send_cnt + 1) % 2 ^ 64 in
      let h : Stalled sent_cnt t.client.cnt (stepped s w j (stepped s w i t)) =
        subst (λ x. Stalled sent_cnt t.client.cnt (stepped s w j x)) (sym (stepped-sent i t r))
          (booked-Stalled j (sent i t) refl (ap (λ b. stamps b i.now) refused)) in
      let end = Moves-Stalled s w sent_cnt t.client.cnt (stepped s w j (stepped s w i t)) u ms h in
      (end.same_sent, end.same_received)

  -- A client that may send, and whose message comes back before its watcher has noted that it was
  -- sent: the watcher takes the turn back that the message gave it, and the client never sends again,
  -- and no message ever comes back, whatever happens from then on.
  pub early_reply_stalls :
      (i j : Tick) (now : ℕ) (t u : Traffic W) (c : Bench W)
      → IsReady t
      → handle_message now (write_stamp i.now) (stepped s w i t).client ≡ some c
      → Moves s w (stepped s w j (record { client = c; flying = [] })) u
      → (u.client.send_cnt ≡ (t.client.send_cnt + 1) % 2 ^ 64)
        × (u.client.cnt ≡ (t.client.cnt + 1) % 2 ^ 64)
  unfolding handle_message
  early_reply_stalls i j now t u c r back ms =
      let c1 = (send s i t.client).0 in
      let c2 : Bench W = record c1 {
        can_send_msg = true;
        ms = track (signed ((now + 2 ^ 64 - i.now % 2 ^ 64) % 2 ^ 64)) c1.ms;
        cnt = (c1.cnt + 1) % 2 ^ 64;
      } in
      let same : c2 ≡ c = Option.some-injective c2 c (
        ap (received now c1) (sym (read_stamp-write_stamp i.now))
        ∙ ap (λ x. handle_message now (write_stamp i.now) x.client) (sym (stepped-sent i t r))
        ∙ back) in
      let start : Traffic W = record { client = c; flying = [] } in
      let h = booked-Stalled j start (sym (ap (λ x. x.phase) same)) refl in
      let end = Moves-Stalled s w ((c.send_cnt + 1) % 2 ^ 64) c.cnt (stepped s w j start) u ms h in
      (
        end.same_sent ∙ ap (λ x. (x.send_cnt + 1) % 2 ^ 64) (sym same),
        end.same_received ∙ ap (λ x. x.cnt) (sym same),
      )
