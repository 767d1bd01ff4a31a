-- ===== src/Overlapped/Tests.antt =====
-- An object at concrete inputs: cancelled once and destroyed, it closes its event twice.
use datapath.Base.{◌≡◌, some, [], ◌∷◌}
use datapath.Overlapped.{construct, get_waitable}
use datapath.Overlapped.Handles.{
  construct-close_count, live, cancels, sets_handle, close_count, apply_each,
}

construct-close_count_example :
    (close_count 5 (live (construct 5).0 (sets_handle (some 9) ∷ cancels ∷ [])) ≡ 2)
    × (get_waitable (apply_each (construct 5).0 (sets_handle (some 9) ∷ cancels ∷ [])) ≡ some 5)
construct-close_count_example = construct-close_count 5 (sets_handle (some 9) ∷ cancels ∷ [])
