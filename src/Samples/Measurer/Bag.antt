-- ===== src/Samples/Measurer/Bag.antt =====
-- samples/benchmark/measurer.cpp: the map of a measurer is the multiset of the durations that it was
-- given; what it forgets is their order.
use mathlib.Core.HLevel.{Π_prop, →_prop}
use mathlib.Core.Quot
use mathlib.Core.Quot.{Quot, Quot-set}
use datapath.Base.{
  if◌then◌else◌, Bool-cases, length, ℕ, suc, ◌+◌, ◌*◌, ◌%◌, ◌^◌, ◌<◌, ◌≡◌, refl, sym, ap, ◌∙◌, ◌↔◌,
  inl, inr, List, [], ◌∷◌, arith,
}
use datapath.Base.Int.{ℤ, eqb_ℤ, ltb_ℤ, eqb_ℤ→eq}
use datapath.Samples.Measurer.{
  Measurer, construct, track, track_in, count, total_duration, total_from, word,
}
use datapath.Samples.Measurer.Order.{
  sum, count_from-sum, get, IsOrdered, IsOrdered-ext, track_in-get, track_in-IsOrdered,
}

-- A call of `track` for each duration.
abbrev pub tracks : List ℤ → Measurer → Measurer
tracks [] m = m
tracks (d ∷ ds) m = tracks ds (track d m)

abbrev pub occurrences : ℤ → List ℤ → ℕ
occurrences k [] = 0
occurrences k (d ∷ ds) = if eqb_ℤ k d then suc (occurrences k ds) else occurrences k ds

track-get :
    (k d : ℤ) (m : Measurer)
    → IsOrdered m.timings
    → get d m.timings + 1 < 2 ^ 64
    → get k (track d m).timings ≡ (if eqb_ℤ k d then get k m.timings + 1 else get k m.timings)
unfolding track
track-get k d m o small = track_in-get k d m.timings o small

track-IsOrdered :
    (d : ℤ) (m : Measurer)
    → IsOrdered m.timings
    → get d m.timings + 1 < 2 ^ 64
    → IsOrdered (track d m).timings
unfolding track
track-IsOrdered d m o small = track_in-IsOrdered d m.timings o small

tracks_lem :
    (ds : List ℤ) (m : Measurer)
    → IsOrdered m.timings
    → ((k : ℤ) → get k m.timings + length ds < 2 ^ 64)
    → IsOrdered (tracks ds m).timings
      × ((k : ℤ) → get k (tracks ds m).timings ≡ get k m.timings + occurrences k ds)
tracks_lem [] m o small = (o, λ k. omega arith)
tracks_lem (d ∷ ds) m o small =
    let fits : get d m.timings + 1 < 2 ^ 64 = omega (arith, small d) in
    let rest =
      tracks_lem ds (track d m) (track-IsOrdered d m o fits)
        (λ k. ground (arith, small k, track-get k d m o fits)) in
    (rest.0, λ k. ground (arith, rest.1 k, track-get k d m o fits))

abbrev sum_words : List (ℤ × ℕ) → ℕ
sum_words [] = 0
sum_words (kv ∷ kvs) = word kv.0 * kv.1 + sum_words kvs

-- The durations, as bits.
abbrev pub words : List ℤ → ℕ
words [] = 0
words (d ∷ ds) = word d + words ds

total_from-sum :
    (c : ℕ) (kvs : List (ℤ × ℕ)) → c < 2 ^ 64 → total_from c kvs ≡ (c + sum_words kvs) % 2 ^ 64
unfolding total_from
total_from-sum c [] h = omega arith
total_from-sum c (kv ∷ kvs) h = omega (arith, total_from-sum ((c + word kv.0 * kv.1) % 2 ^ 64) kvs)

same_key :
    (d k : ℤ) (n : ℕ) (kvs : List (ℤ × ℕ))
    → d ≡ k
    → n + 1 < 2 ^ 64
    → ((n + 1) % 2 ^ 64 + sum kvs ≡ n + sum kvs + 1)
      × (word k * ((n + 1) % 2 ^ 64) + sum_words kvs ≡ word k * n + sum_words kvs + word d)
same_key d k n kvs e small =
    let whole : (n + 1) % 2 ^ 64 ≡ n + 1 = omega arith in (omega arith, rw (whole, e) (grind arith))

pub sum-track_in :
    (d : ℤ) (kvs : List (ℤ × ℕ))
    → get d kvs + 1 < 2 ^ 64
    → (sum (track_in d kvs) ≡ sum kvs + 1) × (sum_words (track_in d kvs) ≡ sum_words kvs + word d)
unfolding track_in
sum-track_in d [] small = ground arith
sum-track_in d (kv ∷ kvs) small = elim (Bool-cases (ltb_ℤ d kv.0)) [
  | inl lt ↦ rw lt (grind arith)
  | inr ge ↦ elim (Bool-cases (eqb_ℤ d kv.0)) [
    | inl e ↦ rw (ge, e) (same_key d kv.0 kv.1 kvs (eqb_ℤ→eq d kv.0 e) (rw e at small))
    | inr ne ↦ rw (ge, ne) (ground (arith, sum-track_in d kvs (rw ne at small)))
  ]
]

tracks-sum :
    (ds : List ℤ) (m : Measurer)
    → IsOrdered m.timings
    → ((k : ℤ) → get k m.timings + length ds < 2 ^ 64)
    → (sum (tracks ds m).timings ≡ sum m.timings + length ds)
      × (sum_words (tracks ds m).timings ≡ sum_words m.timings + words ds)
unfolding track
tracks-sum [] m o small = omega arith
tracks-sum (d ∷ ds) m o small =
    let fits : get d m.timings + 1 < 2 ^ 64 = omega (arith, small d) in
    let rest =
      tracks-sum ds (track d m) (track-IsOrdered d m o fits)
        (λ k. ground (arith, small k, track-get k d m o fits)) in
    omega (arith, rest, sum-track_in d m.timings fits)

Measurer-set : IsSet Measurer
Measurer-set = hlevel

-- A series of measurements that the counters can hold.
abbrev pub Series : Type 0
Series = (ds : List ℤ) × (length ds < 2 ^ 64)

abbrev pub SameItems : Series → Series → Type 0
SameItems s t = (k : ℤ) → occurrences k s.0 ≡ occurrences k t.0

-- The multiset of the durations.
abbrev pub Bag : Type 0
Bag = Quot SameItems

Series-tracks :
    (s : Series)
    → IsOrdered (tracks s.0 construct).timings
      × ((k : ℤ) → get k (tracks s.0 construct).timings ≡ occurrences k s.0)
unfolding construct
Series-tracks s =
    let r = tracks_lem s.0 construct tt (λ k. omega (arith, s.1)) in
    (r.0, λ k. omega (arith, r.1 k))

SameItems-tracks : (s t : Series) → SameItems s t → tracks s.0 construct ≡ tracks t.0 construct
SameItems-tracks s t same =
    let a = Series-tracks s in
    let b = Series-tracks t in
    ap (λ kvs. record { timings = kvs })
      (IsOrdered-ext (tracks s.0 construct).timings (tracks t.0 construct).timings a.0 b.0
        (λ k. a.1 k ∙ same k ∙ sym (b.1 k)))

-- The measurer that a multiset of durations leads to, whatever their order.
pub represent : Bag → Measurer
represent = Quot.lift Measurer-set (λ s. tracks s.0 construct) SameItems-tracks

represent-injective : (a b : Bag) → represent a ≡ represent b → a ≡ b
unfolding represent
represent-injective =
    Quot.ind (λ a. Π_prop λ b. →_prop (Quot-set a b))
      λ s.
        Quot.ind (λ b. →_prop (Quot-set (Quot.mk s) b))
          λ t same. Quot.sound λ k.
            sym ((Series-tracks s).1 k) ∙ ap (λ m. get k m.timings) same ∙ (Series-tracks t).1 k

-- A measurer is the multiset of its durations, and neither more nor less: two series of fewer than
-- 2 ^ 64 durations lead to the same measurer exactly if they are the same multiset, in which each
-- duration stands as often, in whatever order.
pub represent_exact :
    (s t : Series)
    → (represent (Quot.mk s) ≡ tracks s.0 construct)
      × ((tracks s.0 construct ≡ tracks t.0 construct) ↔ (◌≡◌ {A = Bag} (Quot.mk s) (Quot.mk t)))
unfolding represent
represent_exact s t = (refl, (represent-injective (Quot.mk s) (Quot.mk t), ap represent))

-- For a series of fewer than 2 ^ 64 durations a new measurer counts as many, its map says of each
-- duration how often it was in the series, and its total is their sum and what the variable of the
-- sum held before, modulo 2 ^ 64.
pub tracks_sums :
    (ds : List ℤ) (garbage : ℕ)
    → length ds < 2 ^ 64
    → garbage < 2 ^ 64
    → (count (tracks ds construct) ≡ length ds)
      × ((k : ℤ) → get k (tracks ds construct).timings ≡ occurrences k ds)
      × (total_duration garbage (tracks ds construct) ≡ (garbage + words ds) % 2 ^ 64)
unfolding construct count total_duration
tracks_sums ds garbage short small =
    let sums = tracks-sum ds construct tt (λ k. omega (arith, short)) in
    (
      omega (arith, sums, count_from-sum 0 (tracks ds construct).timings (omega arith)),
      (Series-tracks (ds, short)).1,
      omega (arith, sums, total_from-sum garbage (tracks ds construct).timings small),
    )
