-- ===== src/Utility.antt =====
-- source/windows/utility.hpp: the names of pipes. A string is the list of its bytes.
-- The conversion to UTF-16 is in Utility.Wide. The completion routine only sets an event: it enters
-- the components that use it as a call of the operating system.
pub mod Paths
pub mod Wide
use datapath.Base.{
  leb, ◌==◌, if◌then◌else◌, length, ℕ, ◌-◌, Bool, true, false, List, [], ◌∷◌, ◌++◌, map,
}

abbrev pub max_path : ℕ
max_path = 260

-- `\\.\pipe\`
abbrev pub pipe_prefix : List ℕ
pipe_prefix = 92 ∷ 92 ∷ 46 ∷ 92 ∷ 112 ∷ 105 ∷ 112 ∷ 101 ∷ 92 ∷ []

-- A backslash, 92, becomes a slash, 47.
abbrev pub slash : ℕ → ℕ
slash v = if v == 92 then 47 else v

-- Whether the path is short enough, and the string as the call leaves it.
unfoldable pub make_pipe_path : List ℕ → Bool × List ℕ
make_pipe_path s =
    if leb (max_path - 10) (length s) then (false, s) else (true, pipe_prefix ++ map slash s)
