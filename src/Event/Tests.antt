-- ===== src/Event/Tests.antt =====
-- Events at concrete inputs: listeners that append their number and their argument to a log.
use datapath.Base.{ℕ, ◌+◌, ◌==◌, ◌≡◌, refl, none, some, List, [], ◌∷◌, ◌++◌}
use datapath.Event.{Event, add, call, count, remove}

abbrev note : ℕ → ℕ → List ℕ → List ℕ
note n a log = log ++ (n + a) ∷ []

abbrev numbers : Event ℕ
numbers = record { listeners = 4 ∷ 7 ∷ 4 ∷ []; on_add = none; on_remove = none }

abbrev hooked : Event (ℕ → List ℕ → List ℕ)
hooked = record { listeners = note 10 ∷ []; on_add = some (λ ls l. (ls, l)); on_remove = none }

called_in_order : call (add hooked (note 20)) 5 [] ≡ 15 ∷ 25 ∷ []
unfolding call add
called_in_order = refl

one_left : count (remove (λ x y. x == y) numbers 4) ≡ 1
unfolding count remove
one_left = refl
