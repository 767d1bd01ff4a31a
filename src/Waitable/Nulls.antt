-- ===== src/Waitable/Nulls.antt =====
-- source/windows/waitable.cpp: the translation list, where some objects are null.
use datapath.Base.{
  length, replicate, length-append, set, set-append, ℕ, suc, ◌+◌, ◌≡◌, refl, sym, ap, ◌∙◌, Option,
  none, some, List, [], ◌∷◌, ◌++◌, append_assoc, append-nil, arith,
}
use datapath.Waitable.{Waitable}
use datapath.Waitable.Many.{Table, translate_loop, translate}

-- The two vectors with what is filled in already, and zeros behind it.
abbrev filled : List ℕ → List ℕ → ℕ → ℕ → Table
filled hs is zeros valid = record {
  handles = hs ++ replicate zeros 0;
  indexes = is ++ replicate zeros 0;
  valid = valid;
}

set_next :
    (xs : List ℕ) (k z n v : ℕ)
    → k ≡ length xs
    → z ≡ suc n
    → set (xs ++ replicate z 0) k v ≡ (xs ++ v ∷ []) ++ replicate n 0
set_next xs k z n v l e =
    rw (l, e) (set-append xs (replicate n 0) 0 v ∙ sym (append_assoc xs (v ∷ []) (replicate n 0)))

module _ {κ} {W : Type κ} where
  -- The handles and the indices of the objects that are not null, in order, and how many are null.
  abbrev valid_handles : List (Option (Waitable W)) → List ℕ
  valid_handles [] = []
  valid_handles (none ∷ objs) = valid_handles objs
  valid_handles (some obj ∷ objs) = obj.handle ∷ valid_handles objs

  abbrev pub valid_indexes : ℕ → List (Option (Waitable W)) → List ℕ
  valid_indexes idx [] = []
  valid_indexes idx (none ∷ objs) = valid_indexes (idx + 1) objs
  valid_indexes idx (some obj ∷ objs) = idx ∷ valid_indexes (idx + 1) objs

  abbrev pub null_count : List (Option (Waitable W)) → ℕ
  null_count [] = 0
  null_count (none ∷ objs) = suc (null_count objs)
  null_count (some obj ∷ objs) = null_count objs

  translate_loop_lem :
      (objs : List (Option (Waitable W))) (idx s z k : ℕ) (hs is : List ℕ)
      → z ≡ length objs + s
      → k ≡ length hs
      → k ≡ length is
      → translate_loop objs idx (filled hs is z k)
        ≡ filled
            (hs ++ valid_handles objs)
            (is ++ valid_indexes idx objs)
            (null_count objs + s)
            (k + length (valid_handles objs))
  unfolding translate_loop
  translate_loop_lem [] idx s z k hs is e l m =
      let zeros : z ≡ 0 + s = e in
      let same : k ≡ k + 0 = omega arith in rw (append-nil hs, append-nil is, zeros, ← same)
  translate_loop_lem (none ∷ objs) idx s z k hs is e l m =
      let more : null_count objs + (s + 1) ≡ suc (null_count objs) + s = omega arith in
      rw (← more) (translate_loop_lem objs (idx + 1) (s + 1) z k hs is (omega arith) l m)
  translate_loop_lem (some obj ∷ objs) idx s z k hs is e l m =
      let rest = length objs + s in
      let hs' = hs ++ obj.handle ∷ [] in
      let is' = is ++ idx ∷ [] in
      let step =
        translate_loop_lem objs (idx + 1) s rest (k + 1) hs' is' refl
          (omega (arith, length-append hs (obj.handle ∷ [])))
          (omega (arith, length-append is (idx ∷ []))) in
      let more : k + 1 + length (valid_handles objs) ≡ k + suc (length (valid_handles objs)) =
        omega arith in
      rw (set_next hs k z rest obj.handle l (omega arith), set_next is k z rest idx m (omega arith))
        (step
          ∙ rw (
            append_assoc hs (obj.handle ∷ []) (valid_handles objs),
            append_assoc is (idx ∷ []) (valid_indexes (idx + 1) objs),
            more,
          ))

  -- The translation list holds the handles and the indices of the objects that are not null, in
  -- order, and then, since both vectors keep the length of the array, a zero handle and the index 0
  -- for each null object.
  pub translate_lem :
      (objs : List (Option (Waitable W)))
      → ((translate objs).handles ≡ valid_handles objs ++ replicate (null_count objs) 0)
        × ((translate objs).indexes ≡ valid_indexes 0 objs ++ replicate (null_count objs) 0)
        × ((translate objs).valid ≡ length (valid_handles objs))
  unfolding translate
  translate_lem objs =
      let e = translate_loop_lem objs 0 0 (length objs) 0 [] [] (omega arith) refl refl in
      let zeros : null_count objs + 0 ≡ null_count objs = omega arith in
      (
        ap (λ t. t.handles) e ∙ ap (λ n. valid_handles objs ++ replicate n 0) zeros,
        ap (λ t. t.indexes) e ∙ ap (λ n. valid_indexes 0 objs ++ replicate n 0) zeros,
        ap (λ t. t.valid) e ∙ omega arith,
      )
