-- ===== src/Utility/Wide/Reader.antt =====
-- source/windows/utility.hpp, make_wide_string: a reader of UTF-16, against which the conversion is
-- held.
use datapath.Base.{
  ltb, leb, if◌then◌else◌, Bool-cases, ◌>>=◌, ℕ, ◌+◌, ◌-◌, ◌*◌, ◌/◌, ◌%◌, ◌<◌, ◌≡◌, refl, ap, ◌∙◌,
  inl, inr, Bool, true, false, ◌&&◌, All, Option, none, some, List, [], ◌∷◌, ◌++◌, arith,
}
use datapath.Utility.Wide.{utf16}
use datapath.Utility.Wide.Units.{IsScalar, utf16_all}

abbrev is_high : ℕ → Bool
is_high u = leb 0xD800 u && ltb u 0xDC00

abbrev is_low : ℕ → Bool
is_low u = leb 0xDC00 u && ltb u 0xE000

-- Puts a character in front of those that are read.
abbrev pub with_char : ℕ → Option (List ℕ) → Option (List ℕ)
with_char c o = o >>= λ cs. some (c ∷ cs)

-- The characters of the units, where a first half may have been read; `none` for half a pair.
unfoldable pub read_utf16 : Option ℕ → List ℕ → Option (List ℕ)
read_utf16 none [] = some []
read_utf16 (some high) [] = none
read_utf16 none (u ∷ us) =
    let plain = with_char u (read_utf16 none us) in
    let pair = read_utf16 (some u) us in
    if is_high u then pair else if is_low u then none else plain
read_utf16 (some high) (u ∷ us) =
    let rest = with_char (0x10000 + (high - 0xD800) * 1024 + (u - 0xDC00)) (read_utf16 none us) in
    if is_low u then rest else none

read_unit :
    (c : ℕ) (us : List ℕ)
    → IsScalar c
    → c < 0x10000
    → read_utf16 none (c ∷ us) ≡ with_char c (read_utf16 none us)
unfolding read_utf16
read_unit c us h small =
    let one : is_high c ≡ false = ground arith in
    let two : is_low c ≡ false = ground arith in rw (one, two) refl

read_pair :
    (x y : ℕ) (us : List ℕ)
    → x < 1024
    → y < 1024
    → read_utf16 none ((0xD800 + x) ∷ (0xDC00 + y) ∷ us)
      ≡ with_char (0x10000 + x * 1024 + y) (read_utf16 none us)
unfolding read_utf16
read_pair x y us hx hy =
    let one : is_high (0xD800 + x) ≡ true = ground arith in
    let two : is_low (0xDC00 + y) ≡ true = ground arith in
    rw (one, two) (ap (λ c. with_char c (read_utf16 none us)) (omega arith))

read_utf16-utf16 :
    (c : ℕ) (us : List ℕ)
    → IsScalar c
    → read_utf16 none (utf16 c ++ us) ≡ with_char c (read_utf16 none us)
unfolding utf16
read_utf16-utf16 c us h = elim (Bool-cases (ltb c 0x10000)) [
  | inl small ↦ rw small (read_unit c us h (ground (arith, small)))
  | inr big ↦
      let whole : 0x10000 + (c - 0x10000) / 1024 * 1024 + (c - 0x10000) % 1024 ≡ c = ground arith in
      rw big (
        read_pair ((c - 0x10000) / 1024) ((c - 0x10000) % 1024) us (ground arith) (omega arith)
        ∙ ap (λ x. with_char x (read_utf16 none us)) whole)
]

pub read_utf16-utf16_all :
    (cs : List ℕ) → All IsScalar cs → read_utf16 none (utf16_all cs) ≡ some cs
unfolding utf16_all read_utf16
read_utf16-utf16_all [] h = refl
read_utf16-utf16_all (c ∷ cs) h =
    read_utf16-utf16 c (utf16_all cs) h.0 ∙ ap (with_char c) (read_utf16-utf16_all cs h.1)
