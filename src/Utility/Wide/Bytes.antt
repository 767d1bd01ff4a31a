-- ===== src/Utility/Wide/Bytes.antt =====
-- source/windows/utility.hpp, make_wide_string: the bytes of one character, one by one.
use datapath.Base.{
  ltb, Bool-cases, Option-cases, ◌>>=◌, ℕ, zero, suc, ◌+◌, ◌-◌, ◌/◌, ◌%◌, ◌≤◌, ◌<◌, ◌≡◌, refl, inl,
  inr, true, Option, none, some, List, [], ◌∷◌, ◌++◌, arith,
}
use datapath.Utility.Wide.{
  Partial, between, convert, utf16, first_byte, next_byte, grow_value, is_scalar,
}
use datapath.Utility.Wide.Units.{IsScalar, utf8}

-- What is done when a conversion that has come to `p` succeeds.
pub bind-eq-some :
    (o : Option (Partial × List ℕ)) (s out : List ℕ)
    → (o >>= λ r. convert r.0 s >>= λ units. some (r.1 ++ units)) ≡ some out
    → (q : Partial) × (us : List ℕ) × (rest : List ℕ) × (o ≡ some (q, us))
      × (convert q s ≡ some rest)
      × (out ≡ us ++ rest)
bind-eq-some none s out e = cc
bind-eq-some (some (q, us)) s out e = elim (Option-cases (convert q s)) [
  | inl n ↦ cc
  | inr (rest, f) ↦ (q, us, rest, refl, f, cc)
]

is_scalar→IsScalar : (c : ℕ) → is_scalar c ≡ true → IsScalar c
is_scalar→IsScalar c h = elim (Bool-cases (ltb c 0xD800)) [
  | inl y ↦ inl (ground arith)
  | inr n ↦ inr (ground arith, ground arith)
]

pub next_one :
    (v least b : ℕ) (q : Partial) (us : List ℕ)
    → next_byte (record { left = 1; value = v; least = least }) b ≡ some (q, us)
    → let c = grow_value v b in
      (0x80 ≤ b) × (b < 0xC0) × (least ≤ c) × IsScalar c × (q ≡ between) × (us ≡ utf16 c)
unfolding next_byte
next_one v least b q us e = elim (Bool-cases (is_scalar (grow_value v b))) [
  | inl y ↦ (
    ground arith,
    ground arith,
    ground arith,
    is_scalar→IsScalar (grow_value v b) y,
    ground arith,
    ground arith,
  )
  | inr n ↦ ground arith
]

pub next_more :
    (n v least b : ℕ) (q : Partial) (us : List ℕ)
    → next_byte (record { left = n + 2; value = v; least = least }) b ≡ some (q, us)
    → (0x80 ≤ b)
      × (b < 0xC0)
      × (q ≡ record { left = n + 1; value = grow_value v b; least = least })
      × (us ≡ [])
unfolding next_byte
next_more n v least b q us e = (ground arith, ground arith, ground arith, ground arith)

pub data First (b : ℕ) (q : Partial) (us : List ℕ) : Type 0 where
  one : b < 0x80 → q ≡ between → us ≡ b ∷ [] → First b q us
  two :
      0xC0 ≤ b
      → b < 0xE0
      → q ≡ record { left = 1; value = b - 0xC0; least = 0x80 }
      → us ≡ []
      → First b q us
  three :
      0xE0 ≤ b
      → b < 0xF0
      → q ≡ record { left = 2; value = b - 0xE0; least = 0x800 }
      → us ≡ []
      → First b q us
  four :
      0xF0 ≤ b
      → b < 0xF8
      → q ≡ record { left = 3; value = b - 0xF0; least = 0x10000 }
      → us ≡ []
      → First b q us

pub first_cases : (b : ℕ) (q : Partial) (us : List ℕ) → first_byte b ≡ some (q, us) → First b q us
unfolding first_byte
first_cases b q us e = elim (Bool-cases (ltb b 0x80)) [
  | inl h ↦ one (ground arith) (ground arith) (ground arith)
  | inr h ↦ elim (Bool-cases (ltb b 0xC0)) [
    | inl k ↦ ground arith
    | inr k ↦ elim (Bool-cases (ltb b 0xE0)) [
      | inl m ↦ two (ground arith) (ground arith) (ground arith) (ground arith)
      | inr m ↦ elim (Bool-cases (ltb b 0xF0)) [
        | inl o ↦ three (ground arith) (ground arith) (ground arith) (ground arith)
        | inr o ↦ elim (Bool-cases (ltb b 0xF8)) [
          | inl p ↦ four (ground arith) (ground arith) (ground arith) (ground arith)
          | inr p ↦ ground arith
        ]
      ]
    ]
  ]
]

-- The last `n` of the bytes of a character, and what the bytes before them say.
abbrev pub trail : ℕ → ℕ → List ℕ
trail zero c = []
trail (suc zero) c = (0x80 + c % 64) ∷ []
trail (suc (suc zero)) c = (0x80 + c / 64 % 64) ∷ (0x80 + c % 64) ∷ []
trail (suc (suc (suc n))) c = (0x80 + c / 4096 % 64) ∷ (0x80 + c / 64 % 64) ∷ (0x80 + c % 64) ∷ []

abbrev pub front : ℕ → ℕ → ℕ
front zero c = c
front (suc zero) c = c / 64
front (suc (suc zero)) c = c / 4096
front (suc (suc (suc n))) c = c / 262144

pub utf8_one : (c : ℕ) → c < 0x80 → utf8 c ≡ c ∷ []
unfolding utf8
utf8_one c h = ground arith

pub utf16_one : (c : ℕ) → c < 0x80 → utf16 c ≡ c ∷ []
unfolding utf16
utf16_one c h = ground arith

pub utf8_two :
    (b c : ℕ) → 0xC0 ≤ b → b < 0xE0 → 0x80 ≤ c → b - 0xC0 ≡ c / 64 → utf8 c ≡ b ∷ trail 1 c
unfolding utf8
utf8_two b c lo hi m e = ground arith

pub utf8_three :
    (b c : ℕ) → 0xE0 ≤ b → b < 0xF0 → 0x800 ≤ c → b - 0xE0 ≡ c / 4096 → utf8 c ≡ b ∷ trail 2 c
unfolding utf8
utf8_three b c lo hi m e = ground arith

pub utf8_four : (b c : ℕ) → 0xF0 ≤ b → 0x10000 ≤ c → b - 0xF0 ≡ c / 262144 → utf8 c ≡ b ∷ trail 3 c
unfolding utf8
utf8_four b c lo m e = ground arith
