-- ===== src/Samples/Log/Lines.antt =====
-- samples/benchmark/main.cpp and samples/single-process-ipc/main.cpp, `log`: what a line holds.
use datapath.Base.{
  ◌==◌, length, take, drop, replicate, All, ℕ, zero, suc, ◌+◌, ◌-◌, ◌*◌, ◌%◌, ◌^◌, ◌≤◌, ◌<◌, ◌≡◌,
  refl, ap, ◌∙◌, ◌≢◌, false, List, [], ◌∷◌, ◌++◌, append_assoc, arith,
}
use datapath.Samples.{Clock, split_time}
use datapath.Samples.LogTime.{split_time_lem}
use datapath.Samples.Log.{
  log_benchmark, log_single, time_stamp, message_of, vsnprintf, print_text, padded,
}
use datapath.Samples.Log.Digits.{numbers, numbers-padded, is_digit}

-- What is printed of a text with no zero byte in a buffer that it fills.
print-written :
    (text : List ℕ) (n : ℕ) (s : List ℕ)
    → All (λ c. c ≢ 0) text
    → length text ≤ n
    → print_text n (text ++ 0 ∷ s) ≡ text
unfolding print_text
print-written [] zero s h fits = refl
print-written [] (suc n) s h fits = refl
print-written (c ∷ text) zero s h fits = absurd (omega arith)
print-written (c ∷ text) (suc n) s h fits = ground (arith, h.0, print-written text n s h.1)

take-All : (n : ℕ) (text : List ℕ) → All (λ c. c ≢ 0) text → All (λ c. c ≢ 0) (take n text)
take-All zero text h = tt
take-All (suc n) [] h = tt
take-All (suc n) (c ∷ text) h = (h.0, take-All n text h.1)

length-take : (n : ℕ) (text : List ℕ) → length (take n text) ≤ n
length-take zero text = omega arith
length-take (suc n) [] = omega arith
length-take (suc n) (c ∷ text) = omega (arith, length-take n text)

take-length : (text : List ℕ) → take (length text) text ≡ text
take-length [] = refl
take-length (c ∷ text) = ap (◌∷◌ c) (take-length text)

vsnprintf-suc :
    (n : ℕ) (text buffer : List ℕ)
    → vsnprintf (suc n) text buffer
      ≡ take n text ++ 0 ∷ drop (length (take n text ++ 0 ∷ [])) buffer
unfolding vsnprintf
vsnprintf-suc n text buffer =
    let some_room : (suc n == 0) ≡ false = ground arith in
    let less : suc n - 1 ≡ n = omega arith in
    rw (some_room, less)
      (append_assoc (take n text) (0 ∷ []) (drop (length (take n text ++ 0 ∷ [])) buffer))

-- All but the last byte of the buffer can be used.
message_of-suc :
    (n : ℕ) (text : List ℕ) → All (λ c. c ≢ 0) text → message_of (suc n) text ≡ take n text
message_of-suc n text h =
    ap (print_text (suc n)) (vsnprintf-suc n text (replicate (suc n) 0))
    ∙ print-written (take n text) (suc n)
        (drop (length (take n text ++ 0 ∷ [])) (replicate (suc n) 0)) (take-All n text h)
        (omega (arith, length-take n text))

message_of-length :
    (text : List ℕ)
    → All (λ c. c ≢ 0) text
    → message_of (length text) text ≡ take (length text - 1) text
unfolding print_text
message_of-length [] h = refl
message_of-length (c ∷ text) h =
    message_of-suc (length text) (c ∷ text) h ∙ ap (λ n. take n (c ∷ text)) (omega arith)

numbers-part :
    (width n c : ℕ) (rest s : List ℕ)
    → n < 10 ^ 20
    → is_digit c ≡ false
    → numbers 0 ((padded width n ++ c ∷ rest) ++ s) ≡ n ∷ numbers 0 (rest ++ s)
numbers-part width n c rest s h end =
    ap (numbers 0) (append_assoc (padded width n) (c ∷ rest) s)
    ∙ numbers-padded width n c (rest ++ s) h end

-- The numbers of a time.
numbers-time_stamp :
    (t : Clock) (s : List ℕ)
    → t.hour < 10 ^ 20
    → t.minute < 60
    → t.second < 60
    → t.nanosecond < 1000000000
    → numbers 0 (time_stamp t ++ s)
      ≡ 0 ∷ t.hour ∷ t.minute ∷ t.second ∷ t.nanosecond ∷ 0 ∷ numbers 0 s
unfolding numbers
numbers-time_stamp t s hour minute second nanosecond =
    let behind : List ℕ = 93 ∷ 32 ∷ [] in
    let seconds : List ℕ = padded 2 t.second ++ 46 ∷ (padded 9 t.nanosecond ++ behind) in
    let minutes : List ℕ = padded 2 t.minute ++ 58 ∷ seconds in
    ap (◌∷◌ 0) (
      numbers-part 2 t.hour 58 minutes s hour refl
      ∙ ap (◌∷◌ t.hour) (
          numbers-part 2 t.minute 58 seconds s (omega arith) refl
          ∙ ap (◌∷◌ t.minute) (
              numbers-part 2 t.second 46 (padded 9 t.nanosecond ++ behind) s (omega arith) refl
              ∙ ap (◌∷◌ t.second) (numbers-part 9 t.nanosecond 93 (32 ∷ []) s (omega arith) refl))))

-- A message with no zero byte: both programs print a line with the same time, from which the time
-- since the start can be read, modulo 2 ^ 32 seconds, with minutes and seconds below 60; behind it
-- the benchmark prints the whole message, and the other program the message without its last
-- character. A newline ends the line.
pub log-numbers :
    (elapsed : ℕ) (text : List ℕ)
    → All (λ c. c ≢ 0) text
    → (stamp : List ℕ) × (t : Clock) × (log_benchmark elapsed text ≡ stamp ++ (text ++ 10 ∷ []))
      × (log_single elapsed text ≡ stamp ++ (take (length text - 1) text ++ 10 ∷ []))
      × ((s : List ℕ)
          → numbers 0 (stamp ++ s)
            ≡ 0 ∷ t.hour ∷ t.minute ∷ t.second ∷ t.nanosecond ∷ 0 ∷ numbers 0 s)
      × (((t.hour * 60 + t.minute) * 60 + t.second) * 1000000000 + t.nanosecond
          ≡ elapsed % (2 ^ 32 * 1000000000))
      × (t.minute < 60)
      × (t.second < 60)
unfolding log_benchmark log_single
log-numbers elapsed text h =
    let t = split_time elapsed in
    let more : length text + 1 ≡ suc (length text) = omega arith in
    let (whole, minute, second, nanosecond) = split_time_lem elapsed in
    (
      time_stamp t,
      t,
      ap (λ m. time_stamp t ++ (m ++ 10 ∷ []))
          (ap (λ n. message_of n text) more
            ∙ message_of-suc (length text) text h
            ∙ take-length text),
      ap (λ m. time_stamp t ++ (m ++ 10 ∷ [])) (message_of-length text h),
      λ s. numbers-time_stamp t s (omega (arith, whole)) minute second nanosecond,
      whole,
      minute,
      second,
    )
