-- ===== src/Samples/Single/Tests.antt =====
-- The client of the single process at concrete inputs.
use datapath.Base.{ℕ, ◌≡◌, refl, Option, none, some, List, [], ◌∷◌, arith}
use datapath.Samples.Single.{Single, construct, make_client}
use datapath.Samples.Single.Prints.{round_trips, make_client-prints}
use datapath.Samples.Trip.Tests.{clock, delivery, delivery-IsDelivery, delivery-Carries}
use datapath.Socket.{Socket, Opened}
use datapath.Socket.Reads.{view}
use datapath.Socket.Traffic.{all_inputs}
use datapath.Socket.Watcher.{unknown, next, run}

abbrev opens : List ℕ → Opened
opens name = record { handle = some 4; last_error = 0 }

make_client-prints_example :
    (s : Socket (Option (Single (Unit {0}) × List ℕ))) × (buffer' : List ℕ) × (make_client opens
        clock
        (97 ∷ [])
      ≡ some (s, construct))
    × (run s (all_inputs (delivery ∷ [])) (view unknown none [] (some (construct, [])))
        ≡ next s (view unknown none buffer' (some (construct, round_trips clock 0 (513 ∷ [])))))
make_client-prints_example =
    make_client-prints clock opens (97 ∷ []) (513 ∷ []) (delivery ∷ []) [] (omega arith) refl
      (delivery-IsDelivery, tt) delivery-Carries
