-- ===== src/Tests/Waiting.antt =====
-- The properties of waiting and testing at the sample worlds.
use umpi.Base.{ℕ, some, none, Option, List, [], ◌∷◌, ◌≡◌, refl}
use umpi.World.{World, notify_done, waiting_for_any_cookie}
use umpi.Calls.{Umpi, Status, mpi_wait, asleep, returned, wait_begin, wait_round}
use umpi.Calls.Wakeup.{wait_wakes}
use umpi.Tests.Samples.{sent, quiet}

abbrev sender : Umpi
sender = record { size = 2; rank = 0; trigger = 8 }

wait_wakes_example :
    let w1 = wait_begin 0 5 sent in
    let w2 = (notify_done 0 5 0 w1).1 in
    (ret : ℕ) × (s : Option Status) × (w3 : World) × (mpi_wait (some sender) (some 5) none sent
      ≡ asleep w1)
    × ((w2.process 0).signals ≡ 1)
    × (wait_round sender 5 none w2 ≡ returned ret none s w3)
wait_wakes_example = wait_wakes sender 5 0 none sent refl refl

-- Process 0 sleeps for one of several requests.
abbrev sleeping : World
sleeping = record sent { process = λ r. record (quiet r) { waiting_for = waiting_for_any_cookie } }

abbrev requests : List (Option ℕ)
requests = none ∷ none ∷ some 5 ∷ []
