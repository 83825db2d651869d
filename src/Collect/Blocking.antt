-- ===== src/Collect/Blocking.antt =====
-- umpi.cc, the blocking collective calls: a request call, and `MPI_Wait` for its request. Each calls
-- the request call with the same arguments, so one function stands for the part that they share.
use umpi.Base.{ℕ, ◌≡◌, ◌<◌, ap, arith, Bool, true, false, [], Option, none, some, ◌==◌, update_self}
use umpi.Iovec.{Iovec}
use umpi.World.{World, new_cookie}
use umpi.Transfer.{Kernel}
use umpi.Calls.{Umpi, Comm, comm_world, Progress, asleep}
use umpi.Calls.Blocking.{then_wait, wait_sleeps}
use umpi.Collect.{
  Slots, Slot, Outcome, ends, goes_on, mpi_ibcast, turn, in_slot, get_current_slot, opened,
  take_turn, in_turn, request_in, tag_cc,
}
use umpi.Collect.Rooted.{mul32}
use umpi.Collect.Rooted.Entry.{mpi_igather, mpi_igatherv, mpi_iscatter}
use umpi.Collect.Everyone.{mpi_iallgather, iallgather_refuses, allgather_request, allgather_first}
use umpi.Collect.Scan.{Op, mpi_iexscan, mpi_iscan}

-- What a blocking collective call comes to, up to its first sleep: the process ends, or the wait goes
-- on (or what it waits for is undefined).
pub data Waited : Type 0 where
  ended : Waited
  waits : Option Progress → Slots → Waited

unfoldable pub collect_wait : Option Umpi → Outcome → Waited
unfolding then_wait
collect_wait u ends = ended
collect_wait u (goes_on (reply, s)) = waits (then_wait u none reply) s

module _ (kernel : Kernel) (n : ℕ) (u : Option Umpi) where
  -- `MPI_Bcast`
  unfoldable pub mpi_bcast : ℕ → ℕ → ℕ → Option Iovec → ℕ → Comm → Slots → World → Waited
  mpi_bcast node buf count datatype root comm s w =
      collect_wait u (mpi_ibcast kernel n u node buf count datatype root comm s w)

  -- `MPI_Allgather`
  unfoldable pub mpi_allgather :
      ℕ → ℕ → ℕ → ℕ → Option Iovec → ℕ → ℕ → Option Iovec → Comm → Slots → World → Waited
  mpi_allgather in_place node sendbuf sendcount sendtype recvbuf recvcount recvtype comm s w =
      collect_wait u (
        mpi_iallgather in_place kernel n u node sendbuf sendcount sendtype recvbuf recvcount
          recvtype comm s w)

  -- `MPI_Exscan`
  unfoldable pub mpi_exscan :
      ℕ → ℕ → ℕ → ℕ → ℕ → ℕ → ℕ → Option Iovec → Option Op → Comm → Slots → World → Waited
  mpi_exscan in_place sb rb node sendbuf recvbuf count datatype op comm s w =
      collect_wait u
        (mpi_iexscan in_place kernel n sb rb u node sendbuf recvbuf count datatype op comm s w)

  -- `MPI_Scan`
  unfoldable pub mpi_scan :
      ℕ → ℕ → ℕ → ℕ → ℕ → ℕ → ℕ → Option Iovec → Option Op → Comm → Slots → World → Waited
  mpi_scan in_place sb rb node sendbuf recvbuf count datatype op comm s w =
      collect_wait u
        (mpi_iscan in_place kernel n sb rb u node sendbuf recvbuf count datatype op comm s w)

  -- `MPI_Gather`
  unfoldable pub mpi_gather :
      ℕ → ℕ → ℕ → ℕ → Option Iovec → ℕ → ℕ → Option Iovec → ℕ → Comm → Slots → World → Waited
  mpi_gather in_place node sendbuf sendcount sendtype recvbuf recvcount recvtype root comm s w =
      collect_wait u (
        mpi_igather in_place kernel n u node sendbuf sendcount sendtype recvbuf recvcount recvtype
          root comm s w)

  -- `MPI_Gatherv`
  unfoldable pub mpi_gatherv :
      ℕ
      → ℕ
      → ℕ
      → ℕ
      → Option Iovec
      → ℕ
      → Option (ℕ → ℕ)
      → Option (ℕ → ℕ)
      → Option Iovec
      → ℕ
      → Comm
      → Slots
      → World
      → Waited
  mpi_gatherv in_place node sendbuf sendcount sendtype recvbuf counts displs recvtype root comm s
        w =
      collect_wait u (
        mpi_igatherv in_place kernel n u node sendbuf sendcount sendtype recvbuf counts displs
          recvtype root comm s w)

  -- `MPI_Scatter`
  unfoldable pub mpi_scatter :
      ℕ → ℕ → ℕ → ℕ → Option Iovec → ℕ → ℕ → Option Iovec → ℕ → Comm → Slots → World → Waited
  mpi_scatter in_place node sendbuf sendcount sendtype recvbuf recvcount recvtype root comm s w =
      collect_wait u (
        mpi_iscatter in_place kernel n u node sendbuf sendcount sendtype recvbuf recvcount recvtype
          root comm s w)

abbrev sleeping : Option Progress → Bool
sleeping (some (asleep w)) = true
sleeping _ = false

-- Whether a call sleeps.
abbrev pub sleeps : Waited → Bool
sleeps ended = false
sleeps (waits p s) = sleeping p

-- Where one process is the whole world, `MPI_Allgather` with MPI_IN_PLACE, of elements of a buffer that
-- is not null, with a type, on a slot where no request waits, goes to sleep: its request waits for one
-- more process.
pub mpi_allgather_alone :
    (kernel : Kernel) (n trigger node sendcount recvbuf recvcount in_place : ℕ) (v : Iovec)
    (s : Slots) (w : World)
    → 0 < in_place
    → 0 < recvbuf
    → (s.slots (turn n s.ticket)).box ≡ []
    → sleeps (
        mpi_allgather kernel n
          (some (record { size = 1; rank = 0; trigger = trigger }))
          in_place
          node
          in_place
          sendcount
          none
          recvbuf
          recvcount
          (some v)
          comm_world
          s
          w)
      ≡ true
unfolding mpi_allgather mpi_iallgather iallgather_refuses in_slot get_current_slot opened take_turn
    in_turn allgather_request allgather_first collect_wait then_wait request_in new_cookie
mpi_allgather_alone kernel n trigger node sendcount recvbuf recvcount in_place v s w some_place
      some_buf empty =
    let u : Umpi = record { size = 1; rank = 0; trigger = trigger } in
    let here : (in_place == 0) ≡ false = ground (arith, some_place) in
    let same : (in_place == in_place) ≡ true = ground arith in
    let there : (recvbuf == 0) ≡ false = ground (arith, some_buf) in
    let opened_slot : Slot = record {
      ticket = s.ticket;
      joined = 1;
      box = [];
      displs = (s.slots (turn n s.ticket)).displs;
      locked = true;
    } in
    let k = new_cookie 0 recvbuf v (mul32 recvcount 1) recvcount 0 tag_cc 1 in
    let made = request_in 0 node k opened_slot w in
    let new = update_self w.cookie made.request k in
    rw (here, same, there, empty, update_self s.slots (turn n s.ticket) opened_slot)
      (rw same (
        ap (λ p. sleeping (some p))
          (wait_sleeps u made.request none made.world (ap (λ k. k.owner) new)
            (ap (λ k. k.busy) new))))
