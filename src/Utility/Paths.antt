-- ===== src/Utility/Paths.antt =====
-- source/windows/utility.hpp: which paths are taken, and which pipe they name.
use datapath.Base.{
  leb, Bool-cases, length, take, drop, length-map, All, ℕ, ◌+◌, ◌≤◌, ◌<◌, ◌≡◌, refl, ap, ◌≢◌, ◌↔◌,
  ◌⊎◌, inl, inr, true, false, List, [], ◌∷◌, ◌++◌, map, arith,
}
use datapath.Utility.{make_pipe_path, pipe_prefix, slash, max_path}

no_backslash : (s : List ℕ) → All (λ v. v ≢ 92) (map slash s)
no_backslash [] = tt
no_backslash (v ∷ s) = (ground arith, no_backslash s)

-- A path is taken exactly if it has fewer than 250 bytes, and is left as it was if it is not. The
-- name of its pipe is the pipe prefix and behind it a path of the same length with no backslash,
-- so that the name and a final zero byte fit into the 260 bytes of a Windows path.
make_pipe_path_bounds :
    (s : List ℕ)
    → ((length s < 250)
        × ((make_pipe_path s).0 ≡ true)
        × (length (make_pipe_path s).1 ≡ length s + 9)
        × (length (make_pipe_path s).1 + 1 ≤ max_path)
        × (take 9 (make_pipe_path s).1 ≡ pipe_prefix)
        × All (λ v. v ≢ 92) (drop 9 (make_pipe_path s).1))
      ⊎ ((250 ≤ length s) × (make_pipe_path s ≡ (false, s)))
unfolding make_pipe_path
make_pipe_path_bounds s = elim (Bool-cases (leb 250 (length s))) [
  | inl long ↦ inr (ground arith, rw long)
  | inr short ↦ rw short (
      inl (
        ground arith,
        refl,
        omega (arith, length-map s slash),
        ground (arith, length-map s slash),
        refl,
        no_backslash s,
      ))
]

-- Two short paths name the same pipe exactly if they differ in nothing but the kind of their
-- slashes.
make_pipe_path_same :
    (s t : List ℕ)
    → length s < 250
    → length t < 250
    → (make_pipe_path s ≡ make_pipe_path t) ↔ (map slash s ≡ map slash t)
unfolding make_pipe_path
make_pipe_path_same s t hs ht =
    let short_s : leb 250 (length s) ≡ false = ground arith in
    let short_t : leb 250 (length t) ≡ false = ground arith in
    rw (short_s, short_t)
      ((λ e. ap (λ r. drop 9 r.1) e), (λ e. ap (λ p. (true, pipe_prefix ++ p)) e))
