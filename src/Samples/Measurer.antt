-- ===== src/Samples/Measurer.antt =====
-- samples/benchmark/measurer.hpp and measurer.cpp: how often each duration was measured. A duration
-- is its count of nanoseconds. The lock makes each method one step, but for `percentile`, which
-- counts before it copies the map: it gets the map at both times. Numbers of type double are of a
-- type `D` with the operations of `Double`.
pub mod Order
pub mod Bag
pub mod Shares
pub mod Tests
use datapath.Base.{
  ltb, ◌==◌, if◌then◌else◌, ℕ, ◌+◌, ◌-◌, ◌*◌, ◌%◌, ◌^◌, Bool, ◌&&◌, ◌||◌, Option, none, some, List,
  [], ◌∷◌,
}
use datapath.Base.Int.{ℤ, pos, negsuc, ltb_ℤ, eqb_ℤ, ◌-ℤ◌}

-- std::map: the keys are in order.
pub record Measurer : Type 0 where
  pub timings : List (ℤ × ℕ)

unfoldable pub construct : Measurer
construct = record { timings = [] }

-- `find`, and then `insert` or the increment of a size_t.
unfoldable pub track_in : ℤ → List (ℤ × ℕ) → List (ℤ × ℕ)
track_in d [] = (d, 1) ∷ []
track_in d (kv ∷ kvs) =
    if ltb_ℤ d kv.0
    then (d, 1) ∷ kv ∷ kvs
    else if eqb_ℤ d kv.0
    then (kv.0, (kv.1 + 1) % 2 ^ 64) ∷ kvs
    else kv ∷ track_in d kvs

unfoldable pub track : ℤ → Measurer → Measurer
unfolding track_in
track d m = record { timings = track_in d m.timings }

unfoldable pub count_from : ℕ → List (ℤ × ℕ) → ℕ
count_from count [] = count
count_from count (kv ∷ kvs) = count_from ((count + kv.1) % 2 ^ 64) kvs

unfoldable pub count : Measurer → ℕ
unfolding count_from
count m = count_from 0 m.timings

-- The bits of an int64_t.
abbrev pub word : ℤ → ℕ
word (pos n) = n % 2 ^ 64
word (negsuc n) = 2 ^ 64 - 1 - n % 2 ^ 64

-- The product of a duration and a size_t is of uint64_t; the sum is given by its bits.
unfoldable pub total_from : ℕ → List (ℤ × ℕ) → ℕ
total_from duration [] = duration
total_from duration (kv ∷ kvs) = total_from ((duration + word kv.0 * kv.1) % 2 ^ 64) kvs

-- The variable of the sum is not initialised: `garbage` is what it holds.
unfoldable pub total_duration : ℕ → Measurer → ℕ
unfolding total_from
total_duration garbage m = total_from garbage m.timings

-- The type double: `of_nat` and `of_int` convert a uint64_t and an int64_t.
pub record Double (D : Type 0) : Type 0 where
  pub of_nat : ℕ → D
  pub of_int : ℤ → D
  pub div : D → D → D
  pub add : D → D → D
  pub sub : D → D → D
  pub lt : D → D → Bool
  pub le : D → D → Bool
  pub eq : D → D → Bool

-- The signed reading of the bits of an int64_t.
abbrev pub signed : ℕ → ℤ
signed w = if ltb w (2 ^ 63) then pos w else negsuc (2 ^ 64 - 1 - w)

module _ {D : Type 0} (f : Double D) where
  unfoldable pub average_duration : ℕ → Measurer → D
  unfolding total_from count_from
  average_duration garbage m =
      f.div (f.of_int (signed (total_from garbage m.timings))) (f.of_nat (count_from 0 m.timings))

  abbrev pub is_equal : D → D → D → Bool
  is_equal a b c = f.eq a b || (f.le (f.sub b c) a && f.le a (f.add b c))

  -- The part `n` of `calls`.
  abbrev pub share : ℕ → ℕ → D
  share n calls = f.div (f.of_nat n) (f.of_nat calls)

  abbrev pub is_reached : D → D → D → D → Bool
  is_reached tolerance p last now = is_equal p now tolerance || (f.lt last p && f.lt p now)

  -- The loop by calls, where `accu` calls are behind it.
  unfoldable pub by_calls : D → D → ℕ → ℕ → List (ℤ × ℕ) → ℤ
  by_calls tolerance p calls accu [] = negsuc 0
  by_calls tolerance p calls accu (kv ∷ kvs) =
      let accu' = (accu + kv.1) % 2 ^ 64 in
      let rest = by_calls tolerance p calls accu' kvs in
      if is_reached tolerance p (share accu calls) (share accu' calls) then kv.0 else rest

  -- The loop by time, for the smallest duration and the distance to the largest.
  unfoldable pub by_time : D → D → ℤ → ℤ → List (ℤ × ℕ) → ℤ
  by_time tolerance p smallest variance [] = negsuc 0
  by_time tolerance p smallest variance (kv ∷ kvs) =
      let rest = by_time tolerance p smallest variance kvs in
      let part = f.div (f.of_int (kv.0 -ℤ smallest)) (f.of_int variance) in
      if is_equal part p tolerance || f.lt p part then kv.0 else rest

  abbrev pub last_key : ℤ → List (ℤ × ℕ) → ℤ
  last_key d [] = d
  last_key d (kv ∷ kvs) = last_key kv.0 kvs

  abbrev percentile_by_time : D → D → List (ℤ × ℕ) → Option ℤ
  percentile_by_time tolerance p [] = none
  percentile_by_time tolerance p (kv ∷ kvs) =
      some (by_time tolerance p kv.0 (last_key kv.0 kvs -ℤ kv.0) (kv ∷ kvs))

  abbrev first_key : List (ℤ × ℕ) → Option ℤ
  first_key [] = none
  first_key (kv ∷ kvs) = some kv.0

  -- `percentile`, with the tolerances 0.0005 and 0.00005. `none` is the first element of an empty
  -- map. The map is `before` when the calls are counted.
  unfoldable pub percentile : D → D → D → Bool → Measurer → Measurer → Option ℤ
  unfolding count by_calls by_time ◌-ℤ◌
  percentile by_calls_tolerance by_time_tolerance p timed before m =
      if timed
      then percentile_by_time by_time_tolerance p m.timings
      else if f.eq p (f.of_nat 0)
      then first_key m.timings
      else some (by_calls by_calls_tolerance p (count before) 0 m.timings)

-- `measurer::instance`, a measurement that ends with it. A pointer to a measurer is its number.
pub record Instance : Type 0 where
  pub parent : Option ℕ
  pub start : ℤ

unfoldable pub begin : Option ℕ → ℤ → Instance
begin parent now = record { parent = parent; start = now }

unfoldable pub cancel : Instance → Instance
cancel i = record i { parent = none }

unfoldable pub reparent : Option ℕ → Instance → Instance
reparent parent i = record i { parent = parent }

abbrev set_at : ℕ → Measurer → (ℕ → Measurer) → ℕ → Measurer
set_at id m all k = if k == id then m else all k

-- The destructor, where the clock says `now`.
unfoldable pub finish : ℤ → Instance → (ℕ → Measurer) → ℕ → Measurer
unfolding track ◌-ℤ◌
finish now i all = elim i.parent [
  | none ↦ all
  | some id ↦ set_at id (track (now -ℤ i.start) (all id)) all
]
