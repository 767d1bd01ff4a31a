-- ===== src/Frame/Sizes.antt =====
-- The size of a message, written and read back.
use datapath.Base.{
  length, take, replicate, length-append, length-replicate, ℕ, zero, suc, ◌+◌, ◌-◌, ◌*◌, ◌/◌, ◌%◌,
  ◌^◌, ◌≡◌, refl, ap, some, List, [], ◌∷◌, ◌++◌, arith,
}
use datapath.Frame.{write_size, read_size, resize}

-- A size is read back modulo 2 ^ 32, whatever bytes follow.
pub read_size-write_size :
    (n : ℕ) (rest : List ℕ) → read_size (write_size n ++ rest) ≡ some (n % 2 ^ 32)
unfolding read_size write_size
read_size-write_size n rest =
    let sum : n % 256
          + 256 * (n / 256 % 256)
          + 65536 * (n / 65536 % 256)
          + 16777216 * (n / 16777216 % 256)
        ≡ n % 2 ^ 32 =
      omega arith in
    ap some sum

pub length-write_size : (n : ℕ) → length (write_size n) ≡ 4
unfolding write_size
length-write_size n = refl

pub length-frame :
    (message : List ℕ) → length (write_size (length message) ++ message) ≡ length message + 4
length-frame message =
    omega (
      arith,
      length-append (write_size (length message)) message,
      length-write_size (length message),
    )

length-take-add : (n : ℕ) (xs : List ℕ) → length (take n xs) + (n - length xs) ≡ n
length-take-add zero xs = omega arith
length-take-add (suc n) [] = omega arith
length-take-add (suc n) (x ∷ xs) = omega (arith, length-take-add n xs)

pub length-resize : (n : ℕ) (xs : List ℕ) → length (resize n xs) ≡ n
unfolding resize
length-resize n xs = omega (
  arith,
  length-append (take n xs) (replicate (n - length xs) 0),
  length-replicate {A = ℕ} (n - length xs) 0,
  length-take-add n xs,
)
