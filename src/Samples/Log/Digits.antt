-- ===== src/Samples/Log/Digits.antt =====
-- samples/benchmark/main.cpp and samples/single-process-ipc/main.cpp, `log`: the numbers of a line.
use datapath.Base.{
  ltb, leb, if◌then◌else◌, if-cases, length, replicate, ℕ, zero, suc, ◌+◌, ◌-◌, ◌*◌, ◌/◌, ◌%◌, ◌^◌,
  ◌<◌, ◌≡◌, refl, ap, ◌∙◌, Bool, false, ◌&&◌, List, [], ◌∷◌, ◌++◌, append_assoc, arith,
}
use native.Mathlib.Nat.{pow-suc}
use datapath.Samples.Log.{decimal, padded}

abbrev pub is_digit : ℕ → Bool
is_digit c = leb 48 c && leb c 57

-- A reader of the numbers in a line: between any other two bytes there is one, `n` that of the digits
-- so far.
unfoldable pub numbers : ℕ → List ℕ → List ℕ
numbers n [] = n ∷ []
numbers n (c ∷ s) =
    let more = numbers (n * 10 + (c - 48)) s in
    let next = n ∷ numbers 0 s in if is_digit c then more else next

-- The power of a number that is one greater.
tenth : (fuel n : ℕ) → n < 10 ^ suc fuel → n / 10 < 10 ^ fuel
tenth fuel n h = omega (arith, pow-suc 10 fuel)

numbers-digit : (n d : ℕ) (s : List ℕ) → d < 10 → numbers n ((48 + d) ∷ s) ≡ numbers (n * 10 + d) s
unfolding numbers
numbers-digit n d s h = ground arith

numbers-end : (n c : ℕ) (s : List ℕ) → is_digit c ≡ false → numbers n (c ∷ s) ≡ n ∷ numbers 0 s
unfolding numbers
numbers-end n c s h = rw h

numbers-zeros : (k : ℕ) (s : List ℕ) → numbers 0 (replicate k 48 ++ s) ≡ numbers 0 s
numbers-zeros zero s = refl
numbers-zeros (suc k) s = numbers-digit 0 0 (replicate k 48 ++ s) (omega arith) ∙ numbers-zeros k s

numbers-decimal :
    (fuel n : ℕ) (s : List ℕ) → n < 10 ^ fuel → numbers 0 (decimal fuel n ++ s) ≡ numbers n s
unfolding decimal
numbers-decimal zero n s h = ap (λ m. numbers m s) (omega arith)
numbers-decimal (suc fuel) n s h =
    if-cases (λ l. numbers 0 ((l ++ (48 + n % 10) ∷ []) ++ s) ≡ numbers n s) (ltb n 10)
      (λ small. numbers-digit 0 (n % 10) s (omega arith) ∙ ap (λ m. numbers m s) (ground arith))
      λ big.
        ap (numbers 0) (append_assoc (decimal fuel (n / 10)) ((48 + n % 10) ∷ []) s)
        ∙ numbers-decimal fuel (n / 10) ((48 + n % 10) ∷ s) (tenth fuel n h)
        ∙ numbers-digit (n / 10) (n % 10) s (omega arith)
        ∙ ap (λ m. numbers m s) (omega arith)

-- A padded number is read back, and the reading goes on behind it.
pub numbers-padded :
    (width n c : ℕ) (s : List ℕ)
    → n < 10 ^ 20
    → is_digit c ≡ false
    → numbers 0 (padded width n ++ c ∷ s) ≡ n ∷ numbers 0 s
unfolding padded
numbers-padded width n c s h end =
    ap (numbers 0)
      (append_assoc (replicate (width - length (decimal 20 n)) 48) (decimal 20 n) (c ∷ s))
    ∙ numbers-zeros (width - length (decimal 20 n)) (decimal 20 n ++ c ∷ s)
    ∙ numbers-decimal 20 n (c ∷ s) h
    ∙ numbers-end n c s end
