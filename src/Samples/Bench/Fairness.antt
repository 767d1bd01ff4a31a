-- ===== src/Samples/Bench/Fairness.antt =====
-- samples/benchmark/main.cpp, `client`: a step of the watcher, with the counters and the messages
-- under way.
use datapath.Base.{
  ltb, if-cases, length, length-append, All, All-append, ℕ, ◌+◌, ◌%◌, ◌^◌, ◌≤◌, ◌≡◌, refl, sym,
  subst, Bool, true, false, List, [], ◌∷◌, ◌++◌, append-nil, arith,
}
use datapath.Samples.Bench.{
  Bench, Tick, Phase, looping, written, testing, ended, step_in, write_stamp, message_count,
  is_over, may_send, send,
}
use datapath.Samples.Bench.Steps.{test_task-cases}
use datapath.Samples.Bench.Traffic.{Traffic, messages}
use datapath.Samples.Measurer.Order.{sum}
use datapath.Socket.{Socket, Call, write}
use datapath.Task.{assign, task_data}

abbrev pub in_turn : Phase → ℕ
in_turn written = 1
in_turn p = 0

-- How many messages may be under way.
abbrev pub room : Bool → ℕ → ℕ
room true turn = turn
room false turn = 1

-- What holds of the counters and the messages under way; `turn` is 1 behind a write.
pub record Fair (turn : ℕ) (can_send : Bool) (send_cnt cnt : ℕ) (flying : List (List ℕ))
    : Type 0 where
  pub sent : send_cnt + turn ≤ message_count
  pub balance : cnt + length flying ≤ send_cnt + turn
  pub few : length flying ≤ room can_send turn
  pub stamped : All (λ m. (n : ℕ) × (m ≡ write_stamp n)) flying

module _ {κ} {W : Type κ} where
  abbrev pub IsFair : Traffic W → Type 0
  IsFair t =
      let c = t.client in
      Fair (in_turn c.phase) c.can_send_msg c.send_cnt c.cnt t.flying × (sum c.ms.timings ≡ c.cnt)

pub nothing_sent : (flying : List (List ℕ)) (b : Bool) → flying ++ messages b [] ≡ flying
nothing_sent flying true = append-nil flying
nothing_sent flying false = append-nil flying

-- The message of a write, if it is accepted.
abbrev pub stamps : Bool → ℕ → List (List ℕ)
stamps true n = write_stamp n ∷ []
stamps false n = []

length-stamps : (accepted : Bool) (n : ℕ) → length (stamps accepted n) ≤ 1
length-stamps true n = omega arith
length-stamps false n = omega arith

stamps-stamped :
    (accepted : Bool) (n : ℕ) → All (λ m. (k : ℕ) × (m ≡ write_stamp k)) (stamps accepted n)
stamps-stamped true n = ((n, refl), tt)
stamps-stamped false n = tt

sent-Fair :
    (accepted : Bool) (n : ℕ) (can : Bool) (send_cnt cnt : ℕ) (flying : List (List ℕ))
    → Fair 0 can send_cnt cnt flying
    → can ≡ true
    → ltb send_cnt message_count ≡ true
    → Fair 1 can send_cnt cnt (flying ++ stamps accepted n)
sent-Fair accepted n can send_cnt cnt flying f h l =
    let nothing : length flying ≤ room true 0 = subst (λ b. length flying ≤ room b 0) h f.few in
    let one = length-stamps accepted n in
    let size = length-append flying (stamps accepted n) in
    record {
      sent = ground arith;
      balance = omega (arith, f.balance, nothing, one, size);
      few = rw h (omega (arith, nothing, one, size));
      stamped =
          All-append (λ m. (k : ℕ) × (m ≡ write_stamp k)) flying (stamps accepted n) f.stamped
            (stamps-stamped accepted n);
    }

room_one : (can : Bool) (flying : List (List ℕ)) → length flying ≤ room can 1 → length flying ≤ 1
room_one true flying h = h
room_one false flying h = h

booked-Fair :
    (can : Bool) (send_cnt cnt : ℕ) (flying : List (List ℕ))
    → Fair 1 can send_cnt cnt flying
    → Fair 0 false ((send_cnt + 1) % 2 ^ 64) cnt flying
booked-Fair can send_cnt cnt flying f =
    let whole : (send_cnt + 1) % 2 ^ 64 ≡ send_cnt + 1 = omega (arith, f.sent) in
    rw whole (record {
      sent = omega (arith, f.sent);
      balance = omega (arith, f.balance);
      few = room_one can flying f.few;
      stamped = f.stamped;
    })

module _ {κ ℓ} {W : Type κ} {V : Type ℓ} (s : Socket V) (w : W) where
  pub send-messages :
      (i : Tick) (c : Bench W) (accepted : Bool)
      → messages accepted (send s i c).1 ≡ stamps accepted i.now
  unfolding write assign task_data
  send-messages i c true = refl
  send-messages i c false = refl

  send-IsFair :
      (i : Tick) (c : Bench W) (flying : List (List ℕ))
      → Fair 0 c.can_send_msg c.send_cnt c.cnt flying
      → sum c.ms.timings ≡ c.cnt
      → is_over c ≡ false
      → may_send c ≡ true
      → IsFair (record {
        client = (send s i c).0;
        flying = flying ++ messages i.accepted (send s i c).1;
      })
  send-IsFair i c flying f m going turn = rw (send-messages i c i.accepted) (
    sent-Fair i.accepted i.now c.can_send_msg c.send_cnt c.cnt flying f (ground (arith, turn))
        (ground (arith, turn)),
    m,
  )

  pub step_in-IsFair :
      (p : Phase) (i : Tick) (c : Bench W) (flying : List (List ℕ))
      → c.phase ≡ p
      → Fair (in_turn p) c.can_send_msg c.send_cnt c.cnt flying
      → sum c.ms.timings ≡ c.cnt
      → let (c', calls) = step_in p s i w c in
        IsFair (record { client = c'; flying = flying ++ messages i.accepted calls })
  step_in-IsFair looping i c flying e f m =
      let P : Bench W × List Call → Type 0 =
        λ r. IsFair (record { client = r.0; flying = flying ++ messages i.accepted r.1 }) in
      let silent = nothing_sent flying i.accepted in
      if-cases P (is_over c) (λ over. rw silent (f, m))
        λ going.
          if-cases P (may_send c) (send-IsFair i c flying f m going) (λ no_turn. rw silent (f, m))
  step_in-IsFair written i c flying e f m =
      rw (nothing_sent flying i.accepted) (booked-Fair c.can_send_msg c.send_cnt c.cnt flying f, m)
  step_in-IsFair testing i c flying e f m = rw (nothing_sent flying i.accepted) (
      test_task-cases (λ x. IsFair (record { client = x; flying = flying })) c (f, m) (f, m)
        (subst (λ p. Fair (in_turn p) c.can_send_msg c.send_cnt c.cnt flying) (sym e) f, m) c.task i
        w)
  step_in-IsFair ended i c flying e f m =
      rw (nothing_sent flying i.accepted)
        (subst (λ p. Fair (in_turn p) c.can_send_msg c.send_cnt c.cnt flying) (sym e) f, m)
