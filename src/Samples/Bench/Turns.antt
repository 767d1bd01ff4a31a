-- ===== src/Samples/Bench/Turns.antt =====
-- samples/benchmark/main.cpp, `client`: one message at a time.
use mathlib.Core.Option
use datapath.Base.{
  Option-cases, ℕ, ◌+◌, ◌-◌, ◌%◌, ◌^◌, ◌≤◌, ◌<◌, ◌≡◌, refl, sym, subst, ◌∙◌, inl, inr, Bool, true,
  false, some, List, [], ◌∷◌, arith,
}
use datapath.Base.Int.{ℤ}
use datapath.Samples.Bench.{
  Bench, Phase, looping, written, testing, ended, construct, step, handle_message, handle_close,
  read_stamp, received,
}
use datapath.Samples.Bench.Traffic.{Traffic, Move, Moves, steps, gets, closes, rest, more, start}
use datapath.Samples.Measurer
use datapath.Samples.Measurer.{track, signed}
use datapath.Samples.Measurer.Bag.{sum-track_in}
use datapath.Samples.Measurer.Order.{sum, get}
use datapath.Socket.{Socket}
use datapath.Samples.Bench.Fairness.{Fair, IsFair, step_in-IsFair, in_turn, room}

get-sum : (d : ℤ) (kvs : List (ℤ × ℕ)) → get d kvs ≤ sum kvs
get-sum d [] = omega arith
get-sum d (kv ∷ kvs) = ground (arith, get-sum d kvs)

room_le : (can : Bool) (turn : ℕ) → turn ≤ 1 → room can turn ≤ 1
room_le true turn h = h
room_le false turn h = omega arith

in_turn_le : (p : Phase) → in_turn p ≤ 1
in_turn_le looping = omega arith
in_turn_le written = omega arith
in_turn_le testing = omega arith
in_turn_le ended = omega arith

received-Fair :
    (turn : ℕ) (can : Bool) (send_cnt cnt : ℕ) (m : List ℕ) (ms : List (List ℕ))
    → turn ≤ 1
    → Fair turn can send_cnt cnt (m ∷ ms)
    → Fair turn true send_cnt (cnt + 1) ms
received-Fair turn can send_cnt cnt m ms h f = record {
  sent = f.sent;
  balance = omega (arith, f.balance);
  few = omega (arith, f.few, room_le can turn h);
  stamped = f.stamped.1;
}

module _ {κ} {W : Type κ} where
  handle_message-IsFair :
      (now : ℕ) (m : List ℕ) (ms : List (List ℕ)) (c c' : Bench W)
      → handle_message now m c ≡ some c'
      → IsFair (record { client = c; flying = m ∷ ms })
      → IsFair (record { client = c'; flying = ms })
  unfolding handle_message track
  handle_message-IsFair now m ms c c' e (f, measured) = elim (Option-cases (read_stamp m)) [
    | inl bad ↦ absurd (cc)
    | inr (stamp, good) ↦
        let d = signed ((now + 2 ^ 64 - stamp) % 2 ^ 64) in
        let c1 : Bench W = record c {
          can_send_msg = true;
          ms = track d c.ms;
          cnt = (c.cnt + 1) % 2 ^ 64;
        } in
        let same : c1 ≡ c' =
          Option.some-injective c1 c' (subst (λ o. received now c o ≡ some c') good e) in
        let whole : (c.cnt + 1) % 2 ^ 64 ≡ c.cnt + 1 = omega (arith, f.balance, f.sent) in
        let fits : get d c.ms.timings + 1 < 2 ^ 64 =
          omega (arith, get-sum d c.ms.timings, f.balance, f.sent) in
        subst (λ x. IsFair (record { client = x; flying = ms })) same
          (
            subst (λ n. Fair (in_turn c.phase) true c.send_cnt n ms) (sym whole)
                (received-Fair (in_turn c.phase) c.can_send_msg c.send_cnt c.cnt m ms
                  (in_turn_le c.phase) f),
            (sum-track_in d c.ms.timings fits).0 ∙ omega (arith, whole, measured),
          )
  ]

  module _ {ℓ} {V : Type ℓ} (s : Socket V) (w : W) where
    Move-IsFair : (t u : Traffic W) → Move s w t u → IsFair t → IsFair u
    unfolding step handle_close
    Move-IsFair t u (steps i) (f, m) =
        step_in-IsFair s w t.client.phase i t.client t.flying refl f m
    Move-IsFair t u (gets now m ms c c' e) f = handle_message-IsFair now m ms c c' e f
    Move-IsFair t u closes f = f

    -- In every state that the client and the messages under way come to, whatever the clock, the waits
    -- and the operating system do, and in whatever order the two threads take their steps: no more
    -- than 10000 messages have been sent, at most one is under way, it is a time of eight bytes, no
    -- more have come back than were sent, and as many durations have been measured as messages came
    -- back.
    pub Moves-IsFair : (t : Traffic W) → Moves s w start t → IsFair t
    unfolding construct Measurer.construct
    Moves-IsFair t rest = (
      record { sent = omega arith; balance = omega arith; few = omega arith; stamped = tt },
      refl,
    )
    Moves-IsFair t (more {u = u} ms m) = Move-IsFair u t m (Moves-IsFair u ms)
