-- ===== src/Samples/Echo/Erasing.antt =====
-- samples/benchmark/main.cpp and samples/single-process-ipc/main.cpp, `server::client::_watcher`: the
-- task that is erased.
use datapath.Base.{
  ◌==◌, if◌then◌else◌, ◌>>=◌, get_elem?, All, ℕ, zero, suc, ◌≡◌, refl, ap, subst, ◌∙◌, true, false,
  some, List, [], ◌∷◌, ◌++◌, arith,
}
use datapath.Samples.Echo.{erase_task}
use datapath.Task.{Task}

module _ {κ} {W : Type κ} where
  -- Each task has an address of its own.
  abbrev pub IsDistinct : List (ℕ × Task W) → Type κ
  IsDistinct [] = Unit
  IsDistinct (t ∷ ts) = All (λ u. (u.0 == t.0) ≡ false) ts × IsDistinct ts

  -- `rest` is `all` without the task `t`.
  pub record Erased (t : ℕ × Task W) (all rest : List (ℕ × Task W)) : Type κ where
    pub before : List (ℕ × Task W)
    pub after : List (ℕ × Task W)
    pub split : all ≡ before ++ t ∷ after
    pub left : rest ≡ before ++ after

  get_elem?-All {ℓ} :
      (P : ℕ × Task W → Type ℓ) (ts : List (ℕ × Task W)) (r : ℕ) (t : ℕ × Task W)
      → All P ts
      → get_elem? ts r ≡ some t
      → P t
  get_elem?-All P [] r t h e = absurd (cc)
  get_elem?-All P (u ∷ ts) zero t h e = let same : u ≡ t = cc in subst P same h.0
  get_elem?-All P (u ∷ ts) (suc r) t h e = get_elem?-All P ts r t h.1 e

  -- A search by the address of a task of the list finds that task.
  pub erase_task-Erased :
      (all : List (ℕ × Task W)) (r : ℕ) (t : ℕ × Task W)
      → IsDistinct all
      → get_elem? all r ≡ some t
      → (rest : List (ℕ × Task W)) × (erase_task t.0 all ≡ some rest) × Erased t all rest
  unfolding erase_task
  erase_task-Erased [] r t d e = absurd (cc)
  erase_task-Erased (u ∷ us) zero t d e =
      let same : u ≡ t = cc in
      let here : (u.0 == t.0) ≡ true = rw same (ground arith) in
      (
        us,
        ap (λ b. if b then some us else (erase_task t.0 us >>= λ vs. some (u ∷ vs))) here,
        record { before = []; after = us; split = ap (λ x. x ∷ us) same; left = refl },
      )
  erase_task-Erased (u ∷ us) (suc r) t d e =
      let (rest, found, er) = erase_task-Erased us r t d.1 e in
      let other = get_elem?-All (λ v. (v.0 == u.0) ≡ false) us r t d.0 e in
      let elsewhere : (u.0 == t.0) ≡ false = ground (arith, other) in
      (
        u ∷ rest,
        ap (λ b. if b then some us else (erase_task t.0 us >>= λ vs. some (u ∷ vs))) elsewhere
            ∙ ap (λ o. o >>= λ vs. some (u ∷ vs)) found,
        record {
          before = u ∷ er.before;
          after = er.after;
          split = ap (◌∷◌ u) er.split;
          left = ap (◌∷◌ u) er.left;
        },
      )
