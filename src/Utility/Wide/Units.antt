-- ===== src/Utility/Wide/Units.antt =====
-- source/windows/utility.hpp, make_wide_string: what it makes of text in UTF-8.
use datapath.Base.{
  ltb, if◌then◌else◌, if-cases, ◌>>=◌, ℕ, ◌+◌, ◌-◌, ◌*◌, ◌/◌, ◌%◌, ◌≤◌, ◌<◌, ◌≡◌, refl, ap, ◌∙◌,
  ◌⊎◌, Option, none, some, List, [], ◌∷◌, ◌++◌, arith,
}
use datapath.Utility.Wide.{Partial, between, convert, utf16, first_byte, next_byte, take_byte}

-- A character: a code point that is no surrogate.
abbrev pub IsScalar : ℕ → Type 0
IsScalar c = (c < 0xD800) ⊎ ((0xE000 ≤ c) × (c < 0x110000))

-- The UTF-8 of a character.
unfoldable pub utf8 : ℕ → List ℕ
utf8 c =
    if ltb c 0x80
    then c ∷ []
    else if ltb c 0x800
    then (0xC0 + c / 64) ∷ (0x80 + c % 64) ∷ []
    else if ltb c 0x10000
    then (0xE0 + c / 4096) ∷ (0x80 + c / 64 % 64) ∷ (0x80 + c % 64) ∷ []
    else (0xF0 + c / 262144) ∷ (0x80 + c / 4096 % 64) ∷ (0x80 + c / 64 % 64) ∷ (0x80 + c % 64) ∷ []

unfoldable pub utf8_all : List ℕ → List ℕ
unfolding utf8
utf8_all [] = []
utf8_all (c ∷ cs) = utf8 c ++ utf8_all cs

unfoldable pub utf16_all : List ℕ → List ℕ
unfolding utf16
utf16_all [] = []
utf16_all (c ∷ cs) = utf16 c ++ utf16_all cs

next_byte_last :
    (v least c b : ℕ)
    → IsScalar c
    → least ≤ c
    → 0x80 ≤ b
    → b < 0xC0
    → v * 64 + (b - 0x80) ≡ c
    → next_byte (record { left = 1; value = v; least = least }) b ≡ some (between, utf16 c)
unfolding next_byte
next_byte_last v least c b scalar enough lo hi e = rw e (ground arith)

take_more :
    (n v least c b : ℕ)
    → 0x80 ≤ b
    → b < 0xC0
    → v * 64 + (b - 0x80) ≡ c
    → take_byte (record { left = n + 2; value = v; least = least }) b
      ≡ some (record { left = n + 1; value = c; least = least }, [])
unfolding next_byte
take_more n v least c b lo hi e = rw e (ground arith)

first_one : (c : ℕ) → c < 0x80 → first_byte c ≡ some (between, utf16 c)
unfolding first_byte utf16
first_one c h = ground arith

first_two :
    (v : ℕ)
    → v < 0x20
    → first_byte (0xC0 + v) ≡ some (record { left = 1; value = v; least = 0x80 }, [])
unfolding first_byte
first_two v h = ground arith

first_three :
    (v : ℕ)
    → v < 0x10
    → first_byte (0xE0 + v) ≡ some (record { left = 2; value = v; least = 0x800 }, [])
unfolding first_byte
first_three v h = ground arith

first_four :
    (v : ℕ)
    → v < 8
    → first_byte (0xF0 + v) ≡ some (record { left = 3; value = v; least = 0x10000 }, [])
unfolding first_byte
first_four v h = ground arith

bind_some : (o : Option (List ℕ)) → (o >>= λ u. some ([] ++ u)) ≡ o
bind_some none = refl
bind_some (some u) = refl

-- A byte that is taken, the others behind it.
module _ (s : List ℕ) where
  convert_first :
      (b : ℕ) (q : Partial) (us : List ℕ)
      → first_byte b ≡ some (q, us)
      → convert between (b ∷ s) ≡ (convert q s >>= λ u. some (us ++ u))
  unfolding convert
  convert_first b q us e = rw e

  convert_lead :
      (b : ℕ) (q : Partial) → first_byte b ≡ some (q, []) → convert between (b ∷ s) ≡ convert q s
  convert_lead b q e = convert_first b q [] e ∙ bind_some (convert q s)

  convert_last :
      (v least c b : ℕ)
      → IsScalar c
      → least ≤ c
      → 0x80 ≤ b
      → b < 0xC0
      → v * 64 + (b - 0x80) ≡ c
      → convert (record { left = 1; value = v; least = least }) (b ∷ s)
        ≡ (convert between s >>= λ u. some (utf16 c ++ u))
  unfolding convert
  convert_last v least c b scalar enough lo hi e =
      rw (next_byte_last v least c b scalar enough lo hi e)

  convert_more :
      (n v least c b : ℕ)
      → 0x80 ≤ b
      → b < 0xC0
      → v * 64 + (b - 0x80) ≡ c
      → convert (record { left = n + 2; value = v; least = least }) (b ∷ s)
        ≡ convert (record { left = n + 1; value = c; least = least }) s
  unfolding convert
  convert_more n v least c b lo hi e =
      let p : Partial = record { left = n + 1; value = c; least = least } in
      let q : Partial = record { left = n + 2; value = v; least = least } in
      ap (λ r. r >>= λ r. convert r.0 s >>= λ u. some (r.1 ++ u)) (take_more n v least c b lo hi e)
      ∙ bind_some (convert p s)

module _ (s : List ℕ) where
  -- A character, by the number of its bytes.
  convert_two :
      (v least c : ℕ)
      → IsScalar c
      → least ≤ c
      → v ≡ c / 4096
      → convert
          (record { left = 2; value = v; least = least })
          ((0x80 + c / 64 % 64) ∷ (0x80 + c % 64) ∷ s)
        ≡ (convert between s >>= λ u. some (utf16 c ++ u))
  convert_two v least c scalar enough e =
      convert_more ((0x80 + c % 64) ∷ s) 0 v least (c / 64) (0x80 + c / 64 % 64) (omega arith)
        (omega arith) (omega arith)
      ∙ convert_last s (c / 64) least c (0x80 + c % 64) scalar enough (omega arith) (omega arith)
          (omega arith)

  pub convert-utf8 :
      (c : ℕ)
      → IsScalar c
      → convert between (utf8 c ++ s) ≡ (convert between s >>= λ u. some (utf16 c ++ u))
  unfolding utf8
  convert-utf8 c scalar =
      let P : List ℕ → Type 0 =
        λ l. convert between (l ++ s) ≡ (convert between s >>= λ u. some (utf16 c ++ u)) in
      if-cases P (ltb c 0x80)
        (λ h. convert_first s c between (utf16 c) (first_one c (ground arith)))
        λ h.
          if-cases P (ltb c 0x800)
            (λ k.
              convert_lead ((0x80 + c % 64) ∷ s) (0xC0 + c / 64) _
                (first_two (c / 64) (ground arith))
              ∙ convert_last s (c / 64) 0x80 c (0x80 + c % 64) scalar (ground arith) (omega arith)
                  (omega arith) (omega arith))
            λ k.
              if-cases P (ltb c 0x10000)
                (λ m.
                  convert_lead ((0x80 + c / 64 % 64) ∷ (0x80 + c % 64) ∷ s) (0xE0 + c / 4096) _
                    (first_three (c / 4096) (ground arith))
                  ∙ convert_two (c / 4096) 0x800 c scalar (ground arith) refl)
                λ m.
                  convert_lead ((0x80 + c / 4096 % 64) ∷ (0x80 + c / 64 % 64) ∷ (0x80 + c % 64) ∷ s)
                    (0xF0 + c / 262144) _ (first_four (c / 262144) (ground arith))
                  ∙ convert_more ((0x80 + c / 64 % 64) ∷ (0x80 + c % 64) ∷ s) 1 (c / 262144) 0x10000
                      (c / 4096) (0x80 + c / 4096 % 64) (omega arith) (omega arith) (omega arith)
                  ∙ convert_two (c / 4096) 0x10000 c scalar (ground arith) refl
