-- ===== src/Samples/Measurer/Order.antt =====
-- samples/benchmark/measurer.cpp: the map of the durations, and how it is read.
use datapath.Base.{
  if◌then◌else◌, All, ℕ, ◌+◌, ◌%◌, ◌^◌, ◌<◌, ◌≡◌, refl, ◌⊎◌, true, List, [], ◌∷◌, ◌++◌, arith,
}
use datapath.Base.Int.{ℤ, ltb_ℤ, eqb_ℤ, eqb_ℤ_refl}
use datapath.Samples.Measurer.{track_in, count_from}

-- How often a duration was measured.
abbrev pub get : ℤ → List (ℤ × ℕ) → ℕ
get d [] = 0
get d (kv ∷ kvs) = if eqb_ℤ d kv.0 then kv.1 else get d kvs

abbrev pub IsAbove : ℤ → List (ℤ × ℕ) → Type 0
IsAbove d kvs = All (λ kv. ltb_ℤ d kv.0 ≡ true) kvs

-- The keys are in order, and each was measured, fewer times than 2 ^ 64.
abbrev pub IsOrdered : List (ℤ × ℕ) → Type 0
IsOrdered [] = Unit
IsOrdered (kv ∷ kvs) = IsAbove kv.0 kvs × (0 < kv.1) × IsOrdered kvs

IsAbove-get :
    (d k : ℤ) (kvs : List (ℤ × ℕ)) → IsAbove d kvs → (ltb_ℤ k d ≡ true) ⊎ (k ≡ d) → get k kvs ≡ 0
IsAbove-get d k [] h c = refl
IsAbove-get d k (kv ∷ kvs) h c = ground (arith, h.0, IsAbove-get d k kvs h.1 c)

-- A map is what it says of each duration.
pub IsOrdered-ext :
    (xs ys : List (ℤ × ℕ)) → IsOrdered xs → IsOrdered ys → ((d : ℤ) → get d xs ≡ get d ys) → xs ≡ ys
IsOrdered-ext [] [] p q h = refl
IsOrdered-ext [] (y ∷ ys) p q h = absurd (ground (arith, h y.0, q.1, eqb_ℤ_refl y.0))
IsOrdered-ext (x ∷ xs) [] p q h = absurd (ground (arith, h x.0, p.1, eqb_ℤ_refl x.0))
IsOrdered-ext (x ∷ xs) (y ∷ ys) p q h =
    let same : x.0 ≡ y.0 =
      ground
        (arith, h x.0, h y.0, IsAbove-get x.0 y.0 xs p.0, IsAbove-get y.0 x.0 ys q.0, p.1, q.1) in
    let often : x.1 ≡ y.1 = ground (arith, same, h x.0, eqb_ℤ_refl x.0) in
    let rest : xs ≡ ys =
      IsOrdered-ext xs ys p.2 q.2
        λ d. ground (arith, same, h d, IsAbove-get x.0 d xs p.0, IsAbove-get y.0 d ys q.0) in
    cc (same, often, rest)

pub track_in-get :
    (k d : ℤ) (kvs : List (ℤ × ℕ))
    → IsOrdered kvs
    → get d kvs + 1 < 2 ^ 64
    → get k (track_in d kvs) ≡ (if eqb_ℤ k d then get k kvs + 1 else get k kvs)
unfolding track_in
track_in-get k d [] o small = ground arith
track_in-get k d (kv ∷ kvs) o small =
    ground (arith, track_in-get k d kvs o.2, IsAbove-get kv.0 d kvs o.0)

IsAbove-trans : (a b : ℤ) (kvs : List (ℤ × ℕ)) → ltb_ℤ a b ≡ true → IsAbove b kvs → IsAbove a kvs
IsAbove-trans a b [] lt h = tt
IsAbove-trans a b (kv ∷ kvs) lt h = (ground (arith, h.0), IsAbove-trans a b kvs lt h.1)

track_in-IsAbove :
    (a d : ℤ) (kvs : List (ℤ × ℕ)) → ltb_ℤ a d ≡ true → IsAbove a kvs → IsAbove a (track_in d kvs)
unfolding track_in
track_in-IsAbove a d [] lt h = ground arith
track_in-IsAbove a d (kv ∷ kvs) lt h = ground (arith, track_in-IsAbove a d kvs lt h.1)

pub track_in-IsOrdered :
    (d : ℤ) (kvs : List (ℤ × ℕ))
    → IsOrdered kvs
    → get d kvs + 1 < 2 ^ 64
    → IsOrdered (track_in d kvs)
unfolding track_in
track_in-IsOrdered d [] o small = ground arith
track_in-IsOrdered d (kv ∷ kvs) o small =
    ground
      (arith, track_in-IsOrdered d kvs o.2, track_in-IsAbove kv.0 d kvs, IsAbove-trans d kv.0 kvs)

-- All counts of a map.
abbrev pub sum : List (ℤ × ℕ) → ℕ
sum [] = 0
sum (kv ∷ kvs) = kv.1 + sum kvs

pub sum-append : (xs ys : List (ℤ × ℕ)) → sum (xs ++ ys) ≡ sum xs + sum ys
sum-append [] ys = omega arith
sum-append (x ∷ xs) ys = omega (arith, sum-append xs ys)

pub count_from-sum :
    (c : ℕ) (kvs : List (ℤ × ℕ)) → c < 2 ^ 64 → count_from c kvs ≡ (c + sum kvs) % 2 ^ 64
unfolding count_from
count_from-sum c [] h = omega arith
count_from-sum c (kv ∷ kvs) h = omega (arith, count_from-sum ((c + kv.1) % 2 ^ 64) kvs)
