-- ===== src/Utility/Wide/Names.antt =====
-- source/windows/utility.hpp, make_pipe_path and make_wide_string: the name of a pipe in UTF-16.
use datapath.Base.{
  leb, ◌==◌, if◌then◌else◌, none, Bool-cases, ◌>>=◌, length, length-append, length-map, All,
  All-append, ℕ, ◌+◌, ◌≤◌, ◌<◌, ◌≡◌, refl, sym, ap, ◌∙◌, inl, inr, true, false, some, List, [], ◌∷◌,
  ◌++◌, map, append_assoc, arith,
}
use datapath.Utility.{make_pipe_path, pipe_prefix, slash}
use datapath.Utility.Wide.{between, convert, utf16, make_wide_string}
use datapath.Utility.Wide.Reader.{read_utf16, read_utf16-utf16_all}
use datapath.Utility.Wide.Units.{IsScalar, utf8, utf8_all, utf16_all, convert-utf8}

pub convert-utf8_all :
    (cs : List ℕ) → All IsScalar cs → convert between (utf8_all cs) ≡ some (utf16_all cs)
unfolding utf8_all utf16_all convert
convert-utf8_all [] h = refl
convert-utf8_all (c ∷ cs) h =
    convert-utf8 (utf8_all cs) c h.0
    ∙ ap (λ o. o >>= λ u. some (utf16 c ++ u)) (convert-utf8_all cs h.1)

utf8_all-append : (cs ds : List ℕ) → utf8_all (cs ++ ds) ≡ utf8_all cs ++ utf8_all ds
unfolding utf8_all
utf8_all-append [] ds = refl
utf8_all-append (c ∷ cs) ds =
    ap (λ l. utf8 c ++ l) (utf8_all-append cs ds)
    ∙ sym (append_assoc (utf8 c) (utf8_all cs) (utf8_all ds))

map-append : (f : ℕ → ℕ) (xs ys : List ℕ) → map f (xs ++ ys) ≡ map f xs ++ map f ys
map-append f [] ys = refl
map-append f (x ∷ xs) ys = ap (◌∷◌ (f x)) (map-append f xs ys)

-- No byte of a longer character is a backslash.
slash-utf8 : (c : ℕ) → map slash (utf8 c) ≡ utf8 (slash c)
unfolding utf8
slash-utf8 c = ground arith

slash-utf8_all : (cs : List ℕ) → map slash (utf8_all cs) ≡ utf8_all (map slash cs)
unfolding utf8_all
slash-utf8_all [] = refl
slash-utf8_all (c ∷ cs) =
    map-append slash (utf8 c) (utf8_all cs)
    ∙ ap (λ l. l ++ map slash (utf8_all cs)) (slash-utf8 c)
    ∙ ap (λ l. utf8 (slash c) ++ l) (slash-utf8_all cs)

slash_one : (c : ℕ) → IsScalar c → IsScalar (slash c)
slash_one c h = elim (Bool-cases (c == 92)) [ inl e ↦ rw e (inl (omega arith)) | inr e ↦ rw e h ]

slash-IsScalar : (cs : List ℕ) → All IsScalar cs → All IsScalar (map slash cs)
slash-IsScalar [] h = tt
slash-IsScalar (c ∷ cs) h = (slash_one c h.0, slash-IsScalar cs h.1)

length-utf16 : (c : ℕ) → length (utf16 c) ≤ length (utf8 c)
unfolding utf16 utf8
length-utf16 c = ground arith

length-utf16_all : (cs : List ℕ) → length (utf16_all cs) ≤ length (utf8_all cs)
unfolding utf16_all utf8_all
length-utf16_all [] = omega arith
length-utf16_all (c ∷ cs) = omega (
  arith,
  length-utf16 c,
  length-utf16_all cs,
  length-append (utf16 c) (utf16_all cs),
  length-append (utf8 c) (utf8_all cs),
)

prefixed : (cs : List ℕ) → pipe_prefix ++ utf8_all cs ≡ utf8_all (pipe_prefix ++ cs)
unfolding utf8_all
prefixed cs = refl

prefixed-utf16 : (cs : List ℕ) → utf16_all (pipe_prefix ++ cs) ≡ pipe_prefix ++ utf16_all cs
unfolding utf16_all
prefixed-utf16 cs = refl

prefix-IsScalar : (cs : List ℕ) → All IsScalar cs → All IsScalar (pipe_prefix ++ cs)
prefix-IsScalar cs h = All-append IsScalar pipe_prefix cs (omega arith) h

slashed : (cs : List ℕ) → map slash cs ≡ map (λ c. if c == 92 then 47 else c) cs
slashed cs = refl

-- For a path of characters, whose UTF-8 has fewer than 250 bytes, the string that is given to the
-- operating system is, read as UTF-16, `\\.\pipe\` and then the characters of the path in their order,
-- with a slash, 47, for each backslash, 92, and all else unchanged; together with a final zero it
-- fits into the 260 units of a Windows path.
pub make_wide_string-make_pipe_path :
    (cs : List ℕ)
    → All IsScalar cs
    → length (utf8_all cs) < 250
    → (units : List ℕ) × ((make_pipe_path (utf8_all cs)).0 ≡ true)
      × (make_wide_string (make_pipe_path (utf8_all cs)).1 ≡ some units)
      × (read_utf16 none units
          ≡ some (
              (92 ∷ 92 ∷ 46 ∷ 92 ∷ 112 ∷ 105 ∷ 112 ∷ 101 ∷ 92 ∷ [])
              ++ map (λ c. if c == 92 then 47 else c) cs))
      × (length units + 1 ≤ 260)
unfolding make_pipe_path make_wide_string
make_wide_string-make_pipe_path cs scalar short =
    let fits : leb 250 (length (utf8_all cs)) ≡ false = ground arith in
    let name = pipe_prefix ++ map slash cs in
    let name-IsScalar = prefix-IsScalar (map slash cs) (slash-IsScalar cs scalar) in
    rw fits (
      utf16_all name,
      refl,
      ap (λ p. convert between (pipe_prefix ++ p)) (slash-utf8_all cs)
          ∙ ap (convert between) (prefixed (map slash cs))
          ∙ convert-utf8_all name name-IsScalar,
      read_utf16-utf16_all name name-IsScalar ∙ ap (λ p. some (pipe_prefix ++ p)) (slashed cs),
      omega (
        arith,
        ap length (prefixed-utf16 (map slash cs)),
        length-utf16_all (map slash cs),
        ap length (sym (slash-utf8_all cs)),
        length-map (utf8_all cs) slash,
        short,
      ),
    )
