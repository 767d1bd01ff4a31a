-- ===== src/Utility/Wide/Texts.antt =====
-- source/windows/utility.hpp, make_wide_string: which bytes it takes.
use datapath.Base.{
  All, ℕ, zero, suc, ◌-◌, ◌≤◌, ◌≡◌, refl, sym, ap, ◌∙◌, ◌↔◌, inl, some, List, [], ◌∷◌, ◌++◌, arith,
}
use datapath.Utility.Wide.{
  Partial, between, convert, utf16, take_byte, make_wide_string, grow_value,
}
use datapath.Utility.Wide.Names.{convert-utf8_all}
use datapath.Utility.Wide.Bytes.{
  bind-eq-some, next_one, next_more, one, two, three, four, first_cases, trail, front, utf8_one,
  utf8_two, utf8_three, utf8_four, utf16_one,
}
use datapath.Utility.Wide.Units.{IsScalar, utf8, utf8_all, utf16_all}

record IsText (s out : List ℕ) : Type 0 where
  pub chars : List ℕ
  pub scalars : All IsScalar chars
  pub bytes : s ≡ utf8_all chars
  pub units : out ≡ utf16_all chars

record IsRest (n v least : ℕ) (s out : List ℕ) : Type 0 where
  pub char : ℕ
  pub scalar : IsScalar char
  pub enough : least ≤ char
  pub front_bits : v ≡ front n char
  pub bytes_behind : List ℕ
  pub units_behind : List ℕ
  pub bytes : s ≡ trail n char ++ bytes_behind
  pub units : out ≡ utf16 char ++ units_behind
  pub behind : IsText bytes_behind units_behind

IsText-char :
    (c : ℕ) (s out bytes units : List ℕ)
    → IsScalar c
    → s ≡ utf8 c ++ bytes
    → out ≡ utf16 c ++ units
    → IsText bytes units
    → IsText s out
unfolding utf8_all utf16_all
IsText-char c s out bytes units scalar e f t = record {
  chars = c ∷ t.chars;
  scalars = (scalar, t.scalars);
  bytes = e ∙ ap (λ l. utf8 c ++ l) t.bytes;
  units = f ∙ ap (λ l. utf16 c ++ l) t.units;
}

-- A whole character before others, by its first byte.
char-IsText :
    (n : ℕ) (base b least : ℕ) (s out : List ℕ)
    → ((c : ℕ) → IsScalar c → least ≤ c → b - base ≡ front n c → utf8 c ≡ b ∷ trail n c)
    → IsRest n (b - base) least s out
    → IsText (b ∷ s) out
char-IsText n base b least s out whole r =
    IsText-char r.char (b ∷ s) out r.bytes_behind r.units_behind r.scalar
      (ap (◌∷◌ b) r.bytes
        ∙ ap (λ l. l ++ r.bytes_behind) (sym (whole r.char r.scalar r.enough r.front_bits)))
      r.units r.behind

moved :
    (q q' : Partial) (us s rest out : List ℕ)
    → convert q s ≡ some rest
    → q ≡ q'
    → us ≡ []
    → out ≡ us ++ rest
    → convert q' s ≡ some out
moved q q' us s rest out f eq none_yet o =
    ap (λ x. convert x s) (sym eq) ∙ f ∙ ap some (sym (o ∙ ap (λ l. l ++ rest) none_yet))

-- One byte more in front of the others.
IsRest-suc :
    (n v least b : ℕ) (s out : List ℕ)
    → ((c : ℕ) → grow_value v b ≡ front n c → v ≡ front (suc n) c)
    → ((c : ℕ) → grow_value v b ≡ front n c → b ∷ trail n c ≡ trail (suc n) c)
    → IsRest n (grow_value v b) least s out
    → IsRest (suc n) v least (b ∷ s) out
IsRest-suc n v least b s out fronts trails r = record {
  char = r.char;
  scalar = r.scalar;
  enough = r.enough;
  front_bits = fronts r.char r.front_bits;
  bytes_behind = r.bytes_behind;
  units_behind = r.units_behind;
  bytes = ap (◌∷◌ b) r.bytes ∙ ap (λ l. l ++ r.bytes_behind) (trails r.char r.front_bits);
  units = r.units;
  behind = r.behind;
}

abbrev IsTaken : ℕ → ℕ → ℕ → List ℕ → List ℕ → Type 0
IsTaken zero v least s out = IsText s out
IsTaken (suc n) v least s out = IsRest (suc n) v least s out

converted :
    (n v least : ℕ) (s out : List ℕ)
    → n ≤ 3
    → convert (record { left = n; value = v; least = least }) s ≡ some out
    → IsTaken n v least s out
unfolding convert utf8_all utf16_all
converted zero v least [] out h e = record { chars = []; scalars = tt; bytes = refl; units = cc }
converted (suc n) v least [] out h e = ground arith
converted zero v least (b ∷ s) out h e =
    let p : Partial = record { left = 0; value = v; least = least } in
    let (q, us, rest, t, f, o) = bind-eq-some (take_byte p b) s out e in
    elim (first_cases b q us t) [
      | one hi eq none_yet ↦
          IsText-char b (b ∷ s) out s rest (inl (omega arith))
            (ap (λ l. l ++ s) (sym (utf8_one b hi)))
            (o ∙ ap (λ l. l ++ rest) (none_yet ∙ sym (utf16_one b hi)))
            (converted 0 0 0 s rest (omega arith) (ap (λ x. convert x s) (sym eq) ∙ f))
      | two lo hi eq none_yet ↦
          char-IsText 1 0xC0 b 0x80 s out (λ c _ m e. utf8_two b c lo hi m e)
            (converted 1 (b - 0xC0) 0x80 s out (omega arith) (
              moved q (record { left = 1; value = b - 0xC0; least = 0x80 }) us s rest out f eq
                none_yet o))
      | three lo hi eq none_yet ↦
          char-IsText 2 0xE0 b 0x800 s out (λ c _ m e. utf8_three b c lo hi m e)
            (converted 2 (b - 0xE0) 0x800 s out (omega arith) (
              moved q (record { left = 2; value = b - 0xE0; least = 0x800 }) us s rest out f eq
                none_yet o))
      | four lo hi eq none_yet ↦
          char-IsText 3 0xF0 b 0x10000 s out (λ c _ m e. utf8_four b c lo m e)
            (converted 3 (b - 0xF0) 0x10000 s out (omega arith) (
              moved q (record { left = 3; value = b - 0xF0; least = 0x10000 }) us s rest out f eq
                none_yet o))
    ]
converted (suc zero) v least (b ∷ s) out h e =
    let p : Partial = record { left = 1; value = v; least = least } in
    let (q, us, rest, t, f, o) = bind-eq-some (take_byte p b) s out e in
    let (lo, hi, enough, scalar, eq, same) = next_one v least b q us t in
    let c = grow_value v b in
    record {
      char = c;
      scalar = scalar;
      enough = enough;
      front_bits = omega arith;
      bytes_behind = s;
      units_behind = rest;
      bytes = ap (λ x. x ∷ s) (omega arith);
      units = o ∙ ap (λ l. l ++ rest) same;
      behind = converted 0 0 0 s rest (omega arith) (ap (λ x. convert x s) (sym eq) ∙ f);
    }
converted (suc (suc zero)) v least (b ∷ s) out h e =
    let p : Partial = record { left = 2; value = v; least = least } in
    let (q, us, rest, t, f, o) = bind-eq-some (take_byte p b) s out e in
    let (lo, hi, eq, none_yet) = next_more 0 v least b q us t in
    let c = grow_value v b in
    IsRest-suc 1 v least b s out (λ c e. omega arith) (λ c e. ap (λ x. x ∷ trail 1 c) (omega arith))
      (converted 1 c least s out (omega arith)
        (moved q (record { left = 1; value = c; least = least }) us s rest out f eq none_yet o))
converted (suc (suc (suc zero))) v least (b ∷ s) out h e =
    let p : Partial = record { left = 3; value = v; least = least } in
    let (q, us, rest, t, f, o) = bind-eq-some (take_byte p b) s out e in
    let (lo, hi, eq, none_yet) = next_more 1 v least b q us t in
    let c = grow_value v b in
    IsRest-suc 2 v least b s out (λ c e. omega arith) (λ c e. ap (λ x. x ∷ trail 2 c) (omega arith))
      (converted 2 c least s out (omega arith)
        (moved q (record { left = 2; value = c; least = least }) us s rest out f eq none_yet o))
converted (suc (suc (suc (suc n)))) v least (b ∷ s) out h e = absurd (omega arith)

-- The bytes that are taken are exactly the UTF-8 of characters, and the result is their UTF-16: no
-- other bytes are taken, be they cut off, longer than they have to be, or the code of a surrogate.
make_wide_string_exact :
    (s out : List ℕ)
    → (make_wide_string s ≡ some out)
      ↔ ((cs : List ℕ) × All IsScalar cs × (s ≡ utf8_all cs) × (out ≡ utf16_all cs))
unfolding make_wide_string
make_wide_string_exact s out = (
  (λ e. let t = converted 0 0 0 s out (omega arith) e in (t.chars, t.scalars, t.bytes, t.units)),
  λ (cs, scalars, e, f). ap (convert between) e ∙ convert-utf8_all cs scalars ∙ ap some (sym f),
)
