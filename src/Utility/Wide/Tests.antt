-- ===== src/Utility/Wide/Tests.antt =====
-- The conversion to UTF-16 at concrete inputs: letters, a backslash, an accent and a smiley.
use datapath.Base.{
  length, All, ℕ, ◌+◌, ◌≤◌, ◌≡◌, refl, inl, inr, true, none, some, List, [], ◌∷◌, arith,
}
use datapath.Utility.{make_pipe_path}
use datapath.Utility.Wide.{make_wide_string}
use datapath.Utility.Wide.Names.{make_wide_string-make_pipe_path}
use datapath.Utility.Wide.Reader.{read_utf16}
use datapath.Utility.Wide.Units.{IsScalar, utf8_all}

abbrev chars : List ℕ
chars = 97 ∷ 92 ∷ 233 ∷ 8364 ∷ 128512 ∷ []

converted_bytes :
    make_wide_string (97 ∷ 92 ∷ 195 ∷ 169 ∷ 226 ∷ 130 ∷ 172 ∷ 240 ∷ 159 ∷ 152 ∷ 128 ∷ [])
    ≡ some (97 ∷ 92 ∷ 233 ∷ 8364 ∷ 55357 ∷ 56832 ∷ [])
unfolding make_wide_string
converted_bytes = refl

-- A byte that continues nothing, a character cut off, a zero in two bytes, and a surrogate.
lone_byte : make_wide_string (128 ∷ []) ≡ none
unfolding make_wide_string
lone_byte = refl

cut_off : make_wide_string (226 ∷ 130 ∷ []) ≡ none
unfolding make_wide_string
cut_off = refl

too_long : make_wide_string (192 ∷ 128 ∷ []) ≡ none
unfolding make_wide_string
too_long = refl

surrogate : make_wide_string (237 ∷ 160 ∷ 128 ∷ []) ≡ none
unfolding make_wide_string
surrogate = refl

chars-IsScalar : All IsScalar chars
chars-IsScalar = (
  inl (omega arith),
  (
    inl (omega arith),
    (inl (omega arith), (inl (omega arith), (inr (omega arith, omega arith), tt))),
  ),
)

make_wide_string-make_pipe_path_example :
    (units : List ℕ) × ((make_pipe_path (utf8_all chars)).0 ≡ true)
    × (make_wide_string (make_pipe_path (utf8_all chars)).1 ≡ some units)
    × (read_utf16 none units
        ≡ some
            (92 ∷ 92 ∷ 46 ∷ 92 ∷ 112 ∷ 105 ∷ 112 ∷ 101 ∷ 92 ∷ 97 ∷ 47 ∷ 233 ∷ 8364 ∷ 128512 ∷ []))
    × (length units + 1 ≤ 260)
unfolding utf8_all
make_wide_string-make_pipe_path_example =
    make_wide_string-make_pipe_path chars chars-IsScalar (omega arith)
