-- ===== src/Samples/Bench/Reports.antt =====
-- samples/benchmark/main.cpp, `client::handle_message`: what it prints behind a message.
use datapath.Base.{
  leb, ◌==◌, if◌then◌else◌, ◌>>=◌, length, ℕ, ◌%◌, ◌≡◌, true, false, Option, some, List, [], ◌∷◌,
  ◌++◌,
}
use datapath.Base.Int.{ℤ}
use datapath.Samples.Bench.{Bench, message_count}
use datapath.Samples.Bench.Traffic.{Traffic}
use datapath.Samples.Measurer.{Measurer, Double, percentile}
use datapath.Samples.Measurer.Order.{sum}
use datapath.Samples.Measurer.Shares.{IsExact, Reached}
use datapath.Socket.{Socket}

pub data Line : Type 0 where
  messages : ℕ → Line
  buffer_size : ℕ → Line
  percentile_ns : ℤ → Line

-- The arguments of the seven calls, in thousandths.
abbrev pub levels : List ℕ
levels = 999 ∷ 990 ∷ 900 ∷ 500 ∷ 100 ∷ 10 ∷ 1 ∷ []

abbrev pub progress : ℕ → List Line
progress cnt = if cnt % 1000 == 0 then messages cnt ∷ [] else []

-- What IEEE 754 says of such a literal.
pub record IsLevel {D : Type 0} (f : Double D) (literal : ℕ → D) (p : ℕ) : Type 0 where
  pub exact : IsExact f (literal p)
  pub low : f.lt (f.of_nat 0) (literal p) ≡ true
  pub high : f.lt (f.of_nat 1) (literal p) ≡ false
  pub positive : f.eq (literal p) (f.of_nat 0) ≡ false

-- `literal` gives the literals of the source, and the tolerances are those of the measurer.
module _ {D : Type 0} (f : Double D) (literal : ℕ → D) (tolerance by_time_tolerance : D) where
  -- `none` is a read of an empty map.
  unfoldable pub percentiles : List ℕ → Measurer → Option (List Line)
  percentiles [] m = some []
  percentiles (p ∷ ps) m = percentile f tolerance by_time_tolerance (literal p) false m m >>= λ d.
      (percentiles ps m >>= λ lines. some (percentile_ns d ∷ lines))

  abbrev pub statistics {κ} : {W : Type κ} → Bench W → Option (List Line)
  statistics c =
      percentiles levels c.ms >>= λ lines. some (buffer_size (length c.write_buf) ∷ lines)

  -- The lines that are printed, where the counters are those behind the message.
  unfoldable pub report {κ} : {W : Type κ} → Bench W → Option (List Line)
  report c =
      if leb message_count c.cnt
      then (statistics c >>= λ lines. some (progress c.cnt ++ lines))
      else some (progress c.cnt)

  -- Each duration is that of its level.
  abbrev pub AllReached : Measurer → List ℕ → List ℤ → Type 0
  AllReached m [] [] = Unit
  AllReached m [] (d ∷ ds) = ⊥
  AllReached m (p ∷ ps) [] = ⊥
  AllReached m (p ∷ ps) (d ∷ ds) =
      Reached f tolerance (literal p) (sum m.timings) m.timings d × AllReached m ps ds
