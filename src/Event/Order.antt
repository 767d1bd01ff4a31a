-- ===== src/Event/Order.antt =====
-- include/event.hpp: who is called, and in which order.
use datapath.Base.{
  if◌then◌else◌, length, length-append, ℕ, suc, ◌+◌, ◌≡◌, refl, ap, ◌∙◌, Bool, true, false, none,
  List, [], ◌∷◌, ◌++◌, arith,
}
use datapath.Event.{
  Event, add, remove, drop_same, call, call_all, count, to_bool, move_construct, move_assign, init,
  empty,
}

pub to_bool-add {ℓ} : {L : Type ℓ} (l : L) → to_bool (add init l) ≡ true
unfolding to_bool add init empty
to_bool-add l = refl

module _ {ℓ κ} {A : Type ℓ} {W : Type κ} where
  call_all-append :
      (ls ks : List (A → W → W)) (a : A) (w : W)
      → call_all (ls ++ ks) a w ≡ call_all ks a (call_all ls a w)
  unfolding call_all
  call_all-append [] ks a w = refl
  call_all-append (l ∷ ls) ks a w = call_all-append ls ks a (l a w)

  add_unhooked :
      (e : Event (A → W → W)) (l : A → W → W)
      → e.on_add ≡ none
      → add e l ≡ record e { listeners = e.listeners ++ l ∷ [] }
  unfolding add
  add_unhooked e l h = ground arith

  call-add :
      (e : Event (A → W → W)) (l : A → W → W) (a : A) (w : W)
      → e.on_add ≡ none
      → call (add e l) a w ≡ l a (call e a w)
  unfolding call call_all
  call-add e l a w h = rw (add_unhooked e l h) (call_all-append e.listeners (l ∷ []) a w)

  -- Adds a list of listeners, one after the other.
  abbrev add_each : Event (A → W → W) → List (A → W → W) → Event (A → W → W)
  add_each e [] = e
  add_each e (l ∷ ls) = add_each (add e l) ls

  -- On an event with no `on_add` hook, listeners added one after the other are called behind those
  -- that were there, in the order in which they were added, and the event then holds as many more.
  call-add_each :
      (ls : List (A → W → W)) (e : Event (A → W → W)) (a : A) (w : W)
      → e.on_add ≡ none
      → (call (add_each e ls) a w ≡ call_all ls a (call e a w))
        × (count (add_each e ls) ≡ count e + length ls)
  unfolding call_all count
  call-add_each [] e a w h = (refl, omega arith)
  call-add_each (l ∷ ls) e a w h =
      let unhooked : (add e l).on_add ≡ none = ap (λ x. x.on_add) (add_unhooked e l h) ∙ h in
      let (called, counted) = call-add_each ls (add e l) a w unhooked in
      let grown : length (add e l).listeners ≡ length e.listeners + 1 =
        ap (λ x. length x.listeners) (add_unhooked e l h) ∙ length-append e.listeners (l ∷ []) in
      (called ∙ ap (call_all ls a) (call-add e l a w h), omega (arith, counted, grown))

module _ {ℓ} {L : Type ℓ} (same : L → L → Bool) (l : L) where
  -- How many entries of a list are the same as `l`, and how many are not.
  abbrev pub same_count : List L → ℕ
  same_count [] = 0
  same_count (x ∷ xs) = if same x l then suc (same_count xs) else same_count xs

  abbrev others : List L → List L
  others [] = []
  others (x ∷ xs) = let rest = others xs in if same x l then rest else x ∷ rest

  drop_same-count : (xs : List L) → same_count (drop_same same l xs) ≡ 0
  unfolding drop_same
  drop_same-count [] = refl
  drop_same-count (x ∷ xs) = ground (arith, drop_same-count xs)

  length-drop_same : (xs : List L) → length (drop_same same l xs) + same_count xs ≡ length xs
  unfolding drop_same
  length-drop_same [] = refl
  length-drop_same (x ∷ xs) = ground (arith, length-drop_same xs)

  -- On an event with no `on_remove` hook `remove` takes out every listener that is the same as the
  -- given one: none is left, and the count falls by as many as there were.
  pub count-remove :
      (e : Event L)
      → e.on_remove ≡ none
      → (same_count (remove same e l).listeners ≡ 0)
        × (count (remove same e l) + same_count e.listeners ≡ count e)
  unfolding remove count
  count-remove e h = ground (arith, drop_same-count e.listeners, length-drop_same e.listeners)

module _ {ℓ κ} {A : Type ℓ} {W : Type κ} where
  -- A move constructs an event that calls what the old one called and has no hooks; the old event
  -- converts to false, calls nothing and keeps its hooks. Moving it back restores the listeners.
  pub call-move_construct :
      (e : Event (A → W → W)) (a : A) (w : W)
      → let (fresh, old) = move_construct e in
        (call fresh a w ≡ call e a w)
        × (fresh.on_add ≡ none)
        × (call old a w ≡ w)
        × (to_bool old ≡ false)
        × (old.on_add ≡ e.on_add)
        × ((move_assign old fresh).0 ≡ e)
  unfolding call call_all move_construct move_assign to_bool
  call-move_construct e a w = (refl, refl, refl, refl, refl, refl)
