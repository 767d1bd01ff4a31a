-- ===== src/Samples/Log/Tests.antt =====
-- A line of each program: "Hi" after an hour, a minute, a second and a nanosecond.
use datapath.Base.{
  length, take, All, ℕ, ◌+◌, ◌-◌, ◌*◌, ◌%◌, ◌^◌, ◌<◌, ◌≡◌, refl, ◌≢◌, List, [], ◌∷◌, ◌++◌,
}
use datapath.Samples.{Clock}
use datapath.Samples.Log.{log_benchmark, log_single}
use datapath.Samples.Log.Digits.{numbers}
use datapath.Samples.Log.Lines.{log-numbers}

abbrev stamp : List ℕ
stamp =
    91 ∷ 48 ∷ 49 ∷ 58 ∷ 48 ∷ 49 ∷ 58 ∷ 48 ∷ 49 ∷ 46 ∷ 48 ∷ 48 ∷ 48 ∷ 48 ∷ 48 ∷ 48 ∷ 48 ∷ 48 ∷ 49
    ∷ 93 ∷ 32 ∷ []

abbrev text : List ℕ
text = 72 ∷ 105 ∷ []

benchmark_line : log_benchmark 3661000000001 text ≡ stamp ++ 72 ∷ 105 ∷ 10 ∷ []
unfolding log_benchmark
benchmark_line = refl

single_line : log_single 3661000000001 text ≡ stamp ++ 72 ∷ 10 ∷ []
unfolding log_single
single_line = refl

no_zero : All (λ c. c ≢ 0) text
no_zero = (cc, (cc, tt))

log-numbers_example :
    (stamp : List ℕ) × (t : Clock) × (log_benchmark 3661000000001 text ≡ stamp ++ (text ++ 10 ∷ []))
    × (log_single 3661000000001 text ≡ stamp ++ (take (length text - 1) text ++ 10 ∷ []))
    × ((s : List ℕ)
        → numbers 0 (stamp ++ s)
          ≡ 0 ∷ t.hour ∷ t.minute ∷ t.second ∷ t.nanosecond ∷ 0 ∷ numbers 0 s)
    × (((t.hour * 60 + t.minute) * 60 + t.second) * 1000000000 + t.nanosecond
        ≡ 3661000000001 % (2 ^ 32 * 1000000000))
    × (t.minute < 60)
    × (t.second < 60)
log-numbers_example = log-numbers 3661000000001 text no_zero
