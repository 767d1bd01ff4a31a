-- ===== src/Event.antt =====
-- include/event.hpp: an ordered list of listeners, with two optional hooks.
-- A listener is a function of the arguments that acts on the state `W` of the program. A hook is
-- given the event and the listener by reference: it may change the list of listeners and put
-- another listener in place of its argument. That it replaces the hooks themselves, and that a
-- listener changes the list that is being walked, is not modelled.
pub mod Order
pub mod Tests
use datapath.Base.{
  if◌then◌else◌, length, ℕ, Bool, true, false, not, Option, none, some, List, [], ◌∷◌, ◌++◌,
}

pub record Event {ℓ} (L : Type ℓ) : Type ℓ where
  pub listeners : List L
  pub on_add : Option (List L → L → List L × L)
  pub on_remove : Option (List L → L → List L × L)

module _ {ℓ} {L : Type ℓ} where
  unfoldable pub init : Event L
  init = record { listeners = []; on_add = none; on_remove = none }

  abbrev is_empty_list : List L → Bool
  is_empty_list [] = true
  is_empty_list (l ∷ ls) = false

  unfoldable pub empty : Event L → Bool
  empty e = is_empty_list e.listeners

  -- `operator bool`
  unfoldable pub to_bool : Event L → Bool
  unfolding empty
  to_bool e = not (empty e)

  unfoldable pub count : Event L → ℕ
  count e = length e.listeners

  abbrev run_hook : Option (List L → L → List L × L) → List L → L → List L × L
  run_hook none ls l = (ls, l)
  run_hook (some hook) ls l = hook ls l

  -- The hook runs first, and what it leaves in its argument is what is added.
  unfoldable pub add : Event L → L → Event L
  add e l = let (ls, l') = run_hook e.on_add e.listeners l in record e { listeners = ls ++ l' ∷ [] }

  -- `std::list::remove`, by the test `same` for equal listeners.
  unfoldable pub drop_same : (L → L → Bool) → L → List L → List L
  drop_same same l [] = []
  drop_same same l (x ∷ xs) = if same x l then drop_same same l xs else x ∷ drop_same same l xs

  unfoldable pub remove : (L → L → Bool) → Event L → L → Event L
  unfolding drop_same
  remove same e l = record e {
    listeners = (run_hook e.on_remove (drop_same same l e.listeners) l).0;
  }

  abbrev clear : Event L → Event L
  clear e = record e { listeners = [] }

  -- The move constructor: the new event, and what is left of the old one. The hooks stay behind.
  unfoldable pub move_construct : Event L → Event L × Event L
  unfolding init
  move_construct rhs = (record init { listeners = rhs.listeners }, record rhs { listeners = [] })

  -- The move assignment `lhs = std::move(rhs)`: the left and the right side after it.
  unfoldable pub move_assign : Event L → Event L → Event L × Event L
  move_assign lhs rhs =
      (record lhs { listeners = rhs.listeners }, record rhs { listeners = lhs.listeners })

module _ {ℓ κ} {A : Type ℓ} {W : Type κ} where
  unfoldable pub call_all : List (A → W → W) → A → W → W
  call_all [] a w = w
  call_all (l ∷ ls) a w = call_all ls a (l a w)

  -- `operator()`
  unfoldable pub call : Event (A → W → W) → A → W → W
  unfolding call_all
  call e a w = call_all e.listeners a w
