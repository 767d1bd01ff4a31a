-- ===== src/Samples/Log.antt =====
-- samples/benchmark/main.cpp and samples/single-process-ipc/main.cpp: `log`, which prints a line with
-- the time since the start of the program. The text that vsnprintf makes of the format and its
-- arguments is an argument here, and holds no zero byte.
pub mod Digits
pub mod Lines
pub mod Tests
use datapath.Base.{
  ltb, ◌==◌, if◌then◌else◌, length, take, drop, replicate, ℕ, zero, suc, ◌+◌, ◌-◌, ◌/◌, ◌%◌, List,
  [], ◌∷◌, ◌++◌,
}
use datapath.Samples.{Clock, split_time}

-- The digits of a number below 10 ^ fuel, in decimal, and padded with zeros.
unfoldable pub decimal : ℕ → ℕ → List ℕ
decimal zero n = []
decimal (suc fuel) n =
    let more = decimal fuel (n / 10) in (if ltb n 10 then [] else more) ++ (48 + n % 10) ∷ []

-- No uint64_t has more than 20 digits.
unfoldable pub padded : ℕ → ℕ → List ℕ
unfolding decimal
padded width n = let digits = decimal 20 n in replicate (width - length digits) 48 ++ digits

-- What vsnprintf leaves in a buffer of `size` bytes.
unfoldable pub vsnprintf : ℕ → List ℕ → List ℕ → List ℕ
vsnprintf size text buffer =
    let written = take (size - 1) text ++ 0 ∷ [] in
    if size == 0 then buffer else written ++ drop (length written) buffer

-- What `%.*s` prints, for the precision and the bytes.
unfoldable pub print_text : ℕ → List ℕ → List ℕ
print_text zero s = []
print_text (suc n) [] = []
print_text (suc n) (c ∷ s) = let rest = print_text n s in if c == 0 then [] else c ∷ rest

abbrev pub time_stamp : Clock → List ℕ
time_stamp t =
    91
    ∷ (padded 2 t.hour
        ++ 58
          ∷ (padded 2 t.minute
              ++ 58 ∷ (padded 2 t.second ++ 46 ∷ (padded 9 t.nanosecond ++ 93 ∷ 32 ∷ []))))

-- The message in a buffer of so many bytes.
abbrev pub message_of : ℕ → List ℕ → List ℕ
message_of size text = print_text size (vsnprintf size text (replicate size 0))

unfoldable pub log_benchmark : ℕ → List ℕ → List ℕ
unfolding padded vsnprintf print_text split_time
log_benchmark elapsed text =
    time_stamp (split_time elapsed) ++ (message_of (length text + 1) text ++ 10 ∷ [])

unfoldable pub log_single : ℕ → List ℕ → List ℕ
unfolding padded vsnprintf print_text split_time
log_single elapsed text =
    time_stamp (split_time elapsed) ++ (message_of (length text) text ++ 10 ∷ [])
