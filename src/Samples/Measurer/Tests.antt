-- ===== src/Samples/Measurer/Tests.antt =====
-- A measurer at concrete inputs; numbers of type double are thousandths here, rounded down.
use native.Mathlib.Nat.{mul-div_cancel, zero-div}
use datapath.Base.{
  ltb, leb, ◌==◌, if◌then◌else◌, ◌>>=◌, ℕ, ◌+◌, ◌-◌, ◌*◌, ◌/◌, ◌≡◌, refl, ◌↔◌, Bool, true, false,
  Option, none, some, List, [], ◌∷◌, arith,
}
use datapath.Base.Int.{ℤ, pos, negsuc}
use datapath.Samples.Measurer.{Measurer, Double, construct, percentile}
use datapath.Samples.Measurer.Bag.{Bag, represent, represent_exact, tracks}
use datapath.Samples.Measurer.Shares.{IsExact, Reached, percentile-Reached}
use mathlib.Core.Quot

abbrev durations : List ℤ
durations = pos 30 ∷ pos 10 ∷ pos 30 ∷ []

abbrev swapped : List ℤ
swapped = pos 10 ∷ pos 30 ∷ pos 30 ∷ []

represent_exact_example :
    (represent (Quot.mk (durations, omega arith)) ≡ tracks durations construct)
    × ((tracks durations construct ≡ tracks swapped construct)
        ↔ (◌≡◌ {A = Bag} (Quot.mk (durations, omega arith)) (Quot.mk (swapped, omega arith))))
represent_exact_example = represent_exact (durations, omega arith) (swapped, omega arith)

abbrev pub thousandths : Double ℕ
thousandths = record {
  of_nat = λ n. n * 1000;
  of_int = λ d. elim d [ pos n ↦ n * 1000 | negsuc n ↦ 0 ];
  div = λ a b. a * 1000 / b;
  add = λ a b. a + b;
  sub = λ a b. a - b;
  lt = ltb;
  le = leb;
  eq = λ a b. a == b;
}

pub thousandths-IsExact : (p : ℕ) → IsExact thousandths p
thousandths-IsExact p = record {
  compare_share = λ n calls some. ground arith;
  no_share = λ calls some. ground (arith, zero-div (calls * 1000));
  whole_share = λ calls some. ground (arith, mul-div_cancel 1000 {n = calls * 1000});
}

abbrev measured : Measurer
measured = record { timings = (pos 10, 1) ∷ (pos 30, 2) ∷ (pos 90, 1) ∷ [] }

percentile-Reached_example :
    (duration : ℤ) × (percentile thousandths 5 5 500 false measured measured ≡ some duration)
    × Reached thousandths 5 500 4 measured.timings duration
percentile-Reached_example =
    percentile-Reached thousandths 5 5 500 measured (thousandths-IsExact 500) refl refl refl
      (omega arith) (omega arith)

abbrev is_just : Option Bool → Bool
is_just none = false
is_just (some b) = true

-- Whole numbers and what is not a number.
abbrev whole : Double (Option ℕ)
whole = record {
  of_nat = some;
  of_int = λ d. elim d [ pos n ↦ some n | negsuc n ↦ some 0 ];
  div = λ a b. a >>= λ m. b >>= λ n. if n == 0 then none else some (m / n);
  add = λ a b. a >>= λ m. b >>= λ n. some (m + n);
  sub = λ a b. a >>= λ m. b >>= λ n. some (m - n);
  lt = λ a b. is_just (a >>= λ m. b >>= λ n. if ltb m n then some true else none);
  le = λ a b. is_just (a >>= λ m. b >>= λ n. if leb m n then some true else none);
  eq = λ a b. is_just (a >>= λ m. b >>= λ n. if m == n then some true else none);
}
