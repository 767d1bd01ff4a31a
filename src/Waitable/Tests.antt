-- ===== src/Waitable/Tests.antt =====
-- The waits at concrete inputs. The listeners append the number of their object to a log.
use datapath.Base.{length, ℕ, ◌+◌, ◌≤◌, ◌≡◌, refl, Option, none, some, List, [], ◌∷◌, ◌++◌, arith}
use datapath.Base.Int.{pos}
use datapath.Error.{Error, success}
use datapath.Event.{Event, call, call_all}
use datapath.Waitable.{Waitable, Answer, returned, wait_io_completion, int32_max}
use datapath.Waitable.Many.{wait_all, wait_any}
use datapath.Waitable.WaitAny.{wait_any-picks}
use datapath.Waitable.Timeouts.{Falling, waits-Falling}
use datapath.Waitable.Outcomes.{wait-settle}
use datapath.Waitable.WaitAll.{wait_all-settle_all}
use datapath.Waitable.Single.{wait}

abbrev logging : ℕ → Event (Error → List ℕ → List ℕ)
logging n = record { listeners = (λ e log. log ++ n ∷ []) ∷ []; on_add = none; on_remove = none }

abbrev object : ℕ → Waitable (List ℕ)
object n = record {
  handle = 100 + n;
  on_wait_error = logging (n + 50);
  on_wait_success = logging n;
}

-- The second object of three is null.
abbrev with_null : List (Option (Waitable (List ℕ)))
with_null = some (object 1) ∷ none ∷ some (object 3) ∷ []

abbrev alert : Answer
alert = record { result = wait_io_completion; elapsed = pos 4000000 }

abbrev answer : ℕ → Answer
answer r = record { result = r; elapsed = pos 1000000 }

waits-Falling_example :
    Falling 10 (wait (some (object 1)) (pos 10000000) (alert ∷ alert ∷ answer 0 ∷ []) []).0
    × Falling 10 (wait_all with_null (pos 10000000) (alert ∷ alert ∷ answer 0 ∷ []) []).0
    × Falling 10 (wait_any with_null (pos 10000000) (alert ∷ alert ∷ answer 0 ∷ []) (7, [])).0
    × (10 ≤ int32_max)
waits-Falling_example =
    waits-Falling (some (object 1)) with_null (pos 10000000) (alert ∷ alert ∷ answer 0 ∷ []) 7 []
      (omega arith)

wait-settle_example :
    ((wait (some (object 1)) (pos 10000000) (alert ∷ answer 0 ∷ []) []).1
      ≡ returned success (1 ∷ []))
    × (length (wait (some (object 1)) (pos 10000000) (alert ∷ answer 0 ∷ []) []).0 ≡ 2)
unfolding call call_all
wait-settle_example = wait-settle (object 1) (pos 10000000) (alert ∷ answer 0 ∷ []) []

-- The listeners of the first object run twice.

wait_all-settle_all_example :
    (wait_all with_null (pos 0) (alert ∷ answer 0 ∷ []) []).1 ≡ returned success (1 ∷ 3 ∷ 1 ∷ [])
unfolding call call_all
wait_all-settle_all_example = wait_all-settle_all with_null (pos 0) (alert ∷ answer 0 ∷ []) [] refl

wait_any-picks_example :
    (wait_any with_null (pos 0) (alert ∷ answer 1 ∷ []) (7, [])).1 ≡ returned success (2, 3 ∷ [])
unfolding call call_all
wait_any-picks_example =
    wait_any-picks with_null (pos 0) (alert ∷ answer 1 ∷ []) 7 [] 1 refl refl refl refl
