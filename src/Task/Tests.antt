-- ===== src/Task/Tests.antt =====
-- Tasks at concrete inputs. The operation 7 has the status 0x103, which is that of a pending one.
use datapath.Base.{◌==◌, ℕ, ◌≡◌, refl, Bool, not, none, some, List, [], ◌∷◌, ◌++◌}
use datapath.Error.{Error}
use datapath.Event.{Event}
use datapath.Overlapped.{Overlapped}
use datapath.Overlapped
use datapath.Task.{Task}

abbrev operation : ℕ → Overlapped
operation status = record {
  overlapped_ptr = some (record {
    internal = status;
    internal_high = 0;
    offset = 0;
    offset_high = 0;
    pointer = 0;
    event = 7;
  });
  handle = some 3;
  user_data = 0;
}

abbrev log_failure : Event (Error → List ℕ → List ℕ)
log_failure = record { listeners = (λ e log. log ++ 0 ∷ []) ∷ []; on_add = none; on_remove = none }

abbrev log_success : Event (Error × List ℕ → List ℕ → List ℕ)
log_success = record { listeners = (λ m log. log ++ m.1) ∷ []; on_add = none; on_remove = none }

abbrev pending : Task (List ℕ)
pending = record {
  overlapped = some (operation 0x103);
  buffer = 1 ∷ 0 ∷ 0 ∷ 0 ∷ 65 ∷ [];
  on_failure = log_failure;
  on_success = log_success;
}

abbrev has_completed : ℕ → Bool
has_completed status = not (status == 0x103)

operation_event : Overlapped.get_waitable (operation 0x103) ≡ some 7
unfolding Overlapped.get_waitable
operation_event = refl
