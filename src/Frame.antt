-- ===== src/Frame.antt =====
-- SIZE_ELEMENT in source/windows/task.cpp and socket.cpp: a message on the wire is its size, a
-- uint32_t in the byte order of the machine (little-endian on Windows), and its bytes.
pub mod Sizes
use datapath.Base.{
  length, take, replicate, ℕ, ◌+◌, ◌-◌, ◌*◌, ◌/◌, ◌%◌, Option, none, some, List, [], ◌∷◌, ◌++◌,
}

-- The four bytes of a size that is cast to uint32_t.
unfoldable pub write_size : ℕ → List ℕ
write_size n = n % 256 ∷ n / 256 % 256 ∷ n / 65536 % 256 ∷ n / 16777216 % 256 ∷ []

-- `reinterpret_cast<SIZE_ELEMENT&>(buffer[0])`; `none` is a read out of bounds.
unfoldable pub read_size : List ℕ → Option ℕ
read_size (a ∷ b ∷ c ∷ d ∷ rest) = some (a + 256 * b + 65536 * c + 16777216 * d)
read_size _ = none

-- `resize` of a vector of bytes.
unfoldable pub resize : ℕ → List ℕ → List ℕ
resize n xs = take n xs ++ replicate (n - length xs) 0
