-- ===== src/Collect/Alone.antt =====
-- A broadcast in a world of one process.
use umpi.Base.{ℕ, ◌≡◌, ◌<◌, Bool, true, false, refl, arith, none, some, [], update_self, ◌==◌}
use umpi.Iovec.{Iovec}
use umpi.World.{World}
use umpi.Transfer.{Kernel}
use umpi.Calls.{comm_world}
use umpi.Collect.{
  Slots, Slot, turn, get_current_slot, mpi_ibcast, goes_on, Outcome, ends, root_bcast_request,
  ibcast_refuses, opened, take_turn, back, in_slot, in_turn,
}

-- Whether a broadcast's reply is undefined.
pub undefined : Outcome → Bool
undefined ends = false
undefined (goes_on (none, s)) = true
undefined (goes_on (some a, s)) = false

-- Where one process is the whole world, each broadcast of a buffer that is not null, with a type,
-- on a slot where no request waits, takes the last element of an empty list, which is undefined.
pub mpi_ibcast_alone :
    (kernel : Kernel) (n trigger node buf count : ℕ) (v : Iovec) (s : Slots) (w : World)
    → 0 < buf
    → (s.slots (turn n s.ticket)).box ≡ []
    → undefined (
        mpi_ibcast kernel n
          (some (record { size = 1; rank = 0; trigger = trigger }))
          node
          buf
          count
          (some v)
          0
          comm_world
          s
          w)
      ≡ true
unfolding undefined mpi_ibcast ibcast_refuses root_bcast_request get_current_slot opened take_turn
    back in_slot in_turn
mpi_ibcast_alone kernel n trigger node buf count v s w some_buf empty =
    let there : (buf == 0) ≡ false = ground (arith, some_buf) in
    let opened_slot : Slot = record {
      ticket = s.ticket;
      joined = 1;
      box = [];
      displs = (s.slots (turn n s.ticket)).displs;
      locked = true;
    } in
    rw (there, empty, update_self s.slots (turn n s.ticket) opened_slot) refl
