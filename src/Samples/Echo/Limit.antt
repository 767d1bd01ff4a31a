-- ===== src/Samples/Echo/Limit.antt =====
-- samples/single-process-ipc/main.cpp, `server::client::_watcher`: how many tasks it waits for.
use datapath.Base.{
  leb, if◌then◌else◌, Bool-cases, length, length-map, ℕ, ◌≤◌, ◌<◌, ◌≡◌, refl, sym, ap, ◌∙◌, ◌⊎◌,
  inl, inr, true, false, some, List, [], ◌∷◌, ◌++◌, arith,
}
use datapath.Base.Int.{pos}
use datapath.Samples.Echo.{
  Echo, Input, Pass, ended, aborted, undefined, round, pass, collect_64, collect_all, after_wait,
  wait_again, objects,
}
use datapath.Samples.Echo.Waits.{collect_all-same, collect-short}
use datapath.Task.{Task, waitable}
use datapath.Waitable.{Answer, fault}
use datapath.Waitable.Many.{wait_any, is_count}

module _ {κ} {W : Type κ} where
  too_many :
      (waits : List (ℕ × Task W)) (first second : List Answer) (e : Echo W) (w : W)
      → 64 < length waits
      → after_wait waits e
          (wait_again waits second (wait_any (objects waits) (pos 0) first (0, w)).1)
        ≡ aborted
  unfolding wait_any
  too_many waits first second e w h =
      let size : length (objects waits) ≡ length waits =
        length-map waits (λ t. some (waitable t.1)) in
      let counted : is_count (objects waits) ≡ false = rw size (ground arith) in
      let refused : wait_any (objects waits) (pos 0) first (0, w) ≡ ([], fault) = rw counted refl in
      ap (λ o. after_wait waits e (wait_again waits second o.1)) refused
      ∙ ap (λ b. if b then undefined else aborted) counted

  pass_all-cases :
      (i : Input W) (tasks : List (ℕ × Task W)) (e : Echo W) (w : W)
      → ((length (tasks ++ i.early) ≤ 64) ⊎ (tasks ≡ []))
          × (pass collect_all i tasks e w ≡ pass collect_64 i tasks e w)
        ⊎ ((64 < length (tasks ++ i.early)) × (pass collect_all i tasks e w ≡ aborted))
  unfolding collect_64
  pass_all-cases i [] e w = inl (inr refl, refl)
  pass_all-cases i (t ∷ ts) e w =
      let now = t ∷ ts ++ i.early in
      let behind : List (ℕ × Task W) → Pass W = λ waits.
        after_wait waits (record e { tasks = now ++ i.late })
          (wait_again waits i.second (wait_any (objects waits) (pos 0) i.first (0, w)).1) in
      elim (Bool-cases (leb (length now) 64)) [
        | inl few ↦ inl (
          inl (ground (arith, few)),
          ap behind (collect_all-same now ∙ sym (collect-short 0 now (ground (arith, few)))),
        )
        | inr many ↦ inr (
          ground (arith, many),
          ap behind (collect_all-same now)
              ∙ too_many now i.first i.second (record e { tasks = now ++ i.late }) w
                  (ground (arith, many)),
        )
      ]

  -- A round of the watcher of the other program: it does the same as that of the benchmark, and then
  -- it is shut down, has no tasks, or finds 64 tasks at most; or it finds more, and then an assertion
  -- of wait_any fails, whatever happens: they are more objects than the operating system waits for.
  -- This is a build with assertions, where that ends the process.
  pub round_all-cases :
      (i : Input W) (e : Echo W) (w : W)
      → ((e.shutdown ≡ true) ⊎ (length (e.tasks ++ i.early) ≤ 64) ⊎ (e.tasks ≡ []))
          × (round collect_all i e w ≡ round collect_64 i e w)
        ⊎ ((64 < length (e.tasks ++ i.early)) × (round collect_all i e w ≡ aborted))
  unfolding round
  round_all-cases i e w = elim (Bool-cases e.shutdown) [
    | inl h ↦ inl (
      inl h,
      ap (λ x. if x then ended else pass collect_all i e.tasks e w) h
          ∙ ap (λ x. if x then ended else pass collect_64 i e.tasks e w) (sym h),
    )
    | inr h ↦
        let off : round collect_all i e w ≡ pass collect_all i e.tasks e w =
          ap (λ x. if x then ended else pass collect_all i e.tasks e w) h in
        let on : pass collect_64 i e.tasks e w ≡ round collect_64 i e w =
          ap (λ x. if x then ended else pass collect_64 i e.tasks e w) (sym h) in
        elim (pass_all-cases i e.tasks e w) [
          | inl (why, same) ↦ inl (inr why, off ∙ same ∙ on)
          | inr (many, bad) ↦ inr (many, off ∙ bad)
        ]
  ]
