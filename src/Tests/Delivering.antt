-- ===== src/Tests/Delivering.antt =====
-- Broadcasts and the freeing of datatypes at samples.
use umpi.Base.{All, ℕ, ◌*◌, ◌≡◌, refl, false, some, List, [], ◌∷◌, arith}
use umpi.Iovec.{len, is_scattered}
use umpi.World.{World, mpi_success}
use umpi.Transfer.Delivery.{load}
use umpi.Collect.{Slot, Slots, goes_on, mpi_ibcast}
use umpi.Collect.Arriving.{Leaf}
use umpi.Collect.Broadcast.Slots.{ibcasts}
use umpi.Collect.Broadcast.Ibcast.{ibcast_delivers}
use umpi.Calls.{comm_world}
use umpi.Tests.Samples.{copying, copying-Reliable, ints, silent}

-- Of three processes, 1 is the root; 0 and 2 follow.
abbrev others : List Leaf
others = record { rank = 0; node = 20; buf = 700 } ∷ record { rank = 2; node = 21; buf = 900 } ∷ []

abbrev empty_slot : Slot
empty_slot = record { ticket = 0; joined = 0; box = []; displs = λ k. 0; locked = false }

abbrev slots_of_three : Slots
slots_of_three = record { ticket = 7; slots = λ i. empty_slot }

ibcast_delivers_example :
    (c : ℕ) × (w1 : World) × (s1 : Slots) × (w' : World) × (mpi_ibcast copying 16
        (some (record { size = 3; rank = 1; trigger = 6 }))
        19
        100
        3
        (some ints)
        1
        comm_world
        slots_of_three
        silent
      ≡ goes_on (some (record { ret = mpi_success; request = some c; world = w1 }), s1))
    × (ibcasts copying 16 3 6 3 ints 1 others 7 s1.slots w1 ≡ some w')
    × All
        (λ (l : Leaf).
          load w'.memory (silent.process l.rank).pid l.buf (3 * len ints)
          ≡ load silent.memory (silent.process 1).pid 100 (3 * len ints))
        others
unfolding len is_scattered
ibcast_delivers_example =
    ibcast_delivers copying 16 3 6 1 19 100 3 ints others slots_of_three silent copying-Reliable
      refl refl (omega arith) (omega arith) (omega arith) (omega arith) (omega arith) (omega arith)
      (omega arith)
      (
        omega arith,
        λ e. omega (arith, e),
        (λ e. omega (arith, e), tt),
        (omega arith, λ e. omega (arith, e), tt, tt),
      )
      ((omega arith, λ e. omega (arith, e)), ((omega arith, λ e. omega (arith, e)), tt))
      (omega arith) (omega arith) (omega arith)
