-- ===== src/Utility/Wide.antt =====
-- source/windows/utility.hpp, make_wide_string: the names of pipes in UTF-16. The standard library's
-- converter between UTF-8 and UTF-16 is written out, byte by byte; `none` is the std::range_error
-- that it throws at bytes that are not UTF-8.
pub mod Units
pub mod Bytes
pub mod Reader
pub mod Names
pub mod Texts
pub mod Tests
use datapath.Base.{
  ltb, leb, ◌==◌, if◌then◌else◌, ◌>>=◌, ℕ, ◌+◌, ◌-◌, ◌*◌, ◌/◌, ◌%◌, Bool, ◌&&◌, ◌||◌, Option, none,
  some, List, [], ◌∷◌, ◌++◌,
}

-- How many bytes of a character are to come, what those before them say, and the least number for
-- which so many bytes are needed.
pub record Partial : Type 0 where
  pub left : ℕ
  pub value : ℕ
  pub least : ℕ

abbrev pub between : Partial
between = record { left = 0; value = 0; least = 0 }

abbrev pub is_scalar : ℕ → Bool
is_scalar c = ltb c 0xD800 || (leb 0xE000 c && ltb c 0x110000)

-- The UTF-16 of a character: a unit or a surrogate pair.
unfoldable pub utf16 : ℕ → List ℕ
utf16 c =
    if ltb c 0x10000
    then c ∷ []
    else (0xD800 + (c - 0x10000) / 1024) ∷ (0xDC00 + (c - 0x10000) % 1024) ∷ []

-- A first byte, and a byte behind it.
unfoldable pub first_byte : ℕ → Option (Partial × List ℕ)
first_byte b =
    if ltb b 0x80
    then some (between, b ∷ [])
    else if ltb b 0xC0
    then none
    else if ltb b 0xE0
    then some (record { left = 1; value = b - 0xC0; least = 0x80 }, [])
    else if ltb b 0xF0
    then some (record { left = 2; value = b - 0xE0; least = 0x800 }, [])
    else if ltb b 0xF8
    then some (record { left = 3; value = b - 0xF0; least = 0x10000 }, [])
    else none

abbrev pub grow_value : ℕ → ℕ → ℕ
grow_value v b = v * 64 + (b - 0x80)

unfoldable pub next_byte : Partial → ℕ → Option (Partial × List ℕ)
unfolding utf16
next_byte p b =
    let v = grow_value p.value b in
    if leb 0x80 b && ltb b 0xC0
    then (if p.left == 1
        then (if leb p.least v && is_scalar v then some (between, utf16 v) else none)
        else some (record { left = p.left - 1; value = v; least = p.least }, []))
    else none

abbrev pub take_byte : Partial → ℕ → Option (Partial × List ℕ)
take_byte p b = if p.left == 0 then first_byte b else next_byte p b

unfoldable pub convert : Partial → List ℕ → Option (List ℕ)
unfolding first_byte next_byte
convert p [] = if p.left == 0 then some [] else none
convert p (b ∷ s) = (take_byte p b >>= λ r. convert r.0 s >>= λ units. some (r.1 ++ units))

unfoldable pub make_wide_string : List ℕ → Option (List ℕ)
unfolding convert
make_wide_string s = convert between s
