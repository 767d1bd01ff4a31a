-- ===== src/Samples/Measurer/Shares.antt =====
-- samples/benchmark/measurer.cpp, measurer::percentile: the duration that is returned.
use datapath.Base.{
  Bool-cases, ℕ, ◌+◌, ◌%◌, ◌^◌, ◌<◌, ◌≡◌, refl, subst, ◌∙◌, ◌⊎◌, inl, inr, true, false, some, List,
  [], ◌∷◌, ◌++◌, append_assoc, arith,
}
use datapath.Base.Int.{ℤ, pos, negsuc, ◌-ℤ◌}
use datapath.Samples.Measurer.Order.{sum, sum-append, count_from-sum}
use datapath.Samples.Measurer.{
  Measurer, Double, share, is_reached, is_equal, by_calls, by_time, percentile, count, count_from,
}

-- What IEEE 754 says of the parts of a number of calls and of a percentile that is a number: they
-- can be compared, no call is the part 0, and all calls are the part 1.
pub record IsExact {D : Type 0} (f : Double D) (p : D) : Type 0 where
  pub compare_share :
      (n calls : ℕ)
      → 0 < calls
      → (f.lt (share f n calls) p ≡ true)
        ⊎ (f.eq p (share f n calls) ≡ true)
        ⊎ (f.lt p (share f n calls) ≡ true)
  pub no_share : (calls : ℕ) → 0 < calls → f.lt (share f 0 calls) p ≡ f.lt (f.of_nat 0) p
  pub whole_share : (calls : ℕ) → 0 < calls → f.lt (share f calls calls) p ≡ f.lt (f.of_nat 1) p

-- The durations before `duration` are fewer than the part `p` of the calls; with those of `duration`
-- they are that part within the tolerance, or more.
pub record Reached {D : Type 0} (f : Double D) (tolerance p : D) (calls : ℕ) (kvs : List (ℤ × ℕ))
    (duration : ℤ) : Type 0 where
  pub before : List (ℤ × ℕ)
  pub often : ℕ
  pub after : List (ℤ × ℕ)
  pub split : kvs ≡ before ++ (duration, often) ∷ after
  pub below : f.lt (share f (sum before) calls) p ≡ true
  pub reached :
      (is_equal f p (share f (sum before + often) calls) tolerance ≡ true)
      ⊎ (f.lt p (share f (sum before + often) calls) ≡ true)

module _ {D : Type 0} (f : Double D) (tolerance p : D) (exact : IsExact f p)
    (low : f.lt (f.of_nat 0) p ≡ true) (high : f.lt (f.of_nat 1) p ≡ false) (calls : ℕ)
    (some_calls : 0 < calls) (small : calls < 2 ^ 64) where
  by_calls-Reached :
      (kvs seen : List (ℤ × ℕ)) (accu : ℕ)
      → accu ≡ sum seen
      → accu + sum kvs ≡ calls
      → f.lt (share f accu calls) p ≡ true
      → Reached f tolerance p calls (seen ++ kvs) (by_calls f tolerance p calls accu kvs)
  unfolding by_calls
  by_calls-Reached [] seen accu e all below =
      let whole : f.lt (share f calls calls) p ≡ true =
        subst (λ n. f.lt (share f n calls) p ≡ true) (omega arith) below in
      absurd (cc (whole, exact.whole_share calls some_calls, high))
  by_calls-Reached (kv ∷ kvs) seen accu e all below =
      let fits : (accu + kv.1) % 2 ^ 64 ≡ accu + kv.1 = omega arith in
      let now = share f (accu + kv.1) calls in
      rw fits (elim (Bool-cases (is_reached f tolerance p (share f accu calls) now)) [
        | inl r ↦ rw r (record {
          before = seen;
          often = kv.1;
          after = kvs;
          split = refl;
          below = subst (λ n. f.lt (share f n calls) p ≡ true) e below;
          reached =
              subst
                (λ n.
                  (is_equal f p (share f (n + kv.1) calls) tolerance ≡ true)
                  ⊎ (f.lt p (share f (n + kv.1) calls) ≡ true))
                e (ground (arith, r));
        })
        | inr nr ↦
            let next : f.lt now p ≡ true =
              ground (arith, nr, below, exact.compare_share (accu + kv.1) calls some_calls) in
            rw nr (
              subst
                (λ xs.
                  Reached f tolerance p calls xs (by_calls f tolerance p calls (accu + kv.1) kvs))
                (append_assoc seen (kv ∷ []) kvs)
                (by_calls-Reached kvs (seen ++ kv ∷ []) (accu + kv.1)
                  (rw (sum-append seen (kv ∷ [])) (omega (arith, e))) (omega arith) next))
      ])

no_distance : (d : ℤ) → d -ℤ d ≡ pos 0
unfolding ◌-ℤ◌
no_distance d = ground arith

module _ {D : Type 0} (f : Double D) (tolerance by_time_tolerance p : D) where
  -- With some calls, fewer than 2 ^ 64, a percentile by calls above 0 and up to 1 always is one of
  -- the durations that were measured: the one at which that part of the calls is
  -- reached, within the tolerance, and before which it is not.
  pub percentile-Reached :
      (m : Measurer)
      → IsExact f p
      → f.lt (f.of_nat 0) p ≡ true
      → f.lt (f.of_nat 1) p ≡ false
      → f.eq p (f.of_nat 0) ≡ false
      → 0 < sum m.timings
      → sum m.timings < 2 ^ 64
      → (duration : ℤ) × (percentile f tolerance by_time_tolerance p false m m ≡ some duration)
        × Reached f tolerance p (sum m.timings) m.timings duration
  unfolding percentile count
  percentile-Reached m exact low high positive some_calls small =
      let calls : count_from 0 m.timings ≡ sum m.timings =
        omega (arith, count_from-sum 0 m.timings (omega arith)) in
      (
        by_calls f tolerance p (sum m.timings) 0 m.timings,
        rw (positive, calls),
        by_calls-Reached f tolerance p exact low high (sum m.timings) some_calls small m.timings []
            0 refl (omega arith) (exact.no_share (sum m.timings) some_calls ∙ low),
      )

  -- The percentile by time of a single duration is -1, whatever it is: 0 is divided by 0, and what
  -- that gives is not a number, so that it compares to false with everything.
  pub percentile_single :
      (d : ℤ) (often : ℕ)
      → let nan = f.div (f.of_int (pos 0)) (f.of_int (pos 0)) in
        f.eq nan p ≡ false
        → f.le (f.sub p by_time_tolerance) nan ≡ false
        → f.lt p nan ≡ false
        → percentile f tolerance by_time_tolerance p true
            (record { timings = (d, often) ∷ [] })
            (record { timings = (d, often) ∷ [] })
          ≡ some (negsuc 0)
  unfolding percentile by_time
  percentile_single d often a b c = rw (no_distance d, a, b, c)
