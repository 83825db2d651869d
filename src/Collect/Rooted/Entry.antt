-- ===== src/Collect/Rooted/Entry.antt =====
-- umpi.cc, MPI_Igather, MPI_Igatherv and MPI_Iscatter.
use umpi.Transfer.Copy.{umpi_copy}
use umpi.World.{mpi_fail}
use umpi.Calls.{Comm, is_world, refuse}
use umpi.Collect.{Outcome, goes_on, in_slot, Slots}
use umpi.Base.{
  mul64, sext32, lt32, Bool, Option, none, some, not, ◌&&◌, ◌||◌, ◌==◌, if◌then◌else◌, ℕ,
}
use umpi.Iovec.{Iovec, len}
use umpi.World.{World}
use umpi.Transfer.{Kernel}
use umpi.Calls.{Umpi}
use umpi.Collect.{Slot, Joined}
use umpi.Collect.Rooted.{
  mul32, gather_request, root_gather_request, scatter_request, root_scatter_request,
  gatherv_request, root_gatherv_request,
}

-- A call that goes through a null pointer, or returns MPI_FAIL, while it holds the slot.
abbrev pub crashes : Slot → Joined
crashes s = record { reply = none; slot = s }

abbrev pub fails_locked : Slot → World → Joined
fails_locked s w = record {
  reply = some (record { ret = mpi_fail; request = none; world = w });
  slot = s;
}

-- Whether two buffers have different numbers of bytes.
abbrev pub other_bytes : ℕ → Iovec → ℕ → Iovec → Bool
other_bytes n v m t = not (mul64 (sext32 n) (len v) == mul64 (sext32 m) (len t))

-- The root's copy of its own elements, unless they are there already.
abbrev pub copy_own : Bool → Kernel → ℕ → ℕ → Iovec → ℕ → ℕ → ℕ → Iovec → ℕ → ℕ → World → World
copy_own there kernel me from v n skip to t k seek w =
    if there then w else (umpi_copy kernel me from v n skip to t k seek w).1

-- `in_place` is the address MPI_IN_PLACE.
module _ (in_place : ℕ) (kernel : Kernel) (n : ℕ) where
  -- The checks that MPI_Igather, MPI_Igatherv and MPI_Iscatter share, for the buffer and type that
  -- each process has; `n` is the number of processes.
  unfoldable pub rooted_refuses : ℕ → ℕ → ℕ → Option Iovec → ℕ → Comm → Bool
  rooted_refuses size buf count none root comm =
      (buf == 0 && not (count == 0))
      || not (buf == in_place)
      || lt32 root 0
      || not (lt32 root size)
      || not (is_world comm)
  rooted_refuses size buf count (some v) root comm =
      (buf == 0 && not (count == 0)) || lt32 root 0 || not (lt32 root size) || not (is_world comm)

  -- `MPI_Igather` in its slot: the root, and any other process.
  unfoldable pub gather_root :
      Umpi → ℕ → ℕ → ℕ → Option Iovec → ℕ → ℕ → Option Iovec → Slot → World → Joined
  gather_root u node sendbuf sendcount sendtype recvbuf recvcount none s w = fails_locked s w
  gather_root u node sendbuf sendcount none recvbuf recvcount (some t) s w =
      if recvbuf == 0 && not (recvcount == 0)
      then fails_locked s w
      else root_gather_request kernel u node recvbuf recvcount t s w
  gather_root u node sendbuf sendcount (some v) recvbuf recvcount (some t) s w =
      if (recvbuf == 0 && not (recvcount == 0))
        || (not (sendbuf == in_place) && other_bytes sendcount v recvcount t)
      then fails_locked s w
      else root_gather_request kernel u node recvbuf recvcount t s (
          copy_own (sendbuf == in_place) kernel u.rank sendbuf v sendcount 0 recvbuf t recvcount
            (mul32 u.rank recvcount) w)

  unfoldable pub gather_leaf : Umpi → ℕ → ℕ → ℕ → Option Iovec → ℕ → Slot → World → Joined
  gather_leaf u node buf count none root s w = crashes s
  gather_leaf u node buf count (some v) root s w = gather_request kernel u node buf count v root s w

  -- `MPI_Igather`
  unfoldable pub mpi_igather :
      Option Umpi
      → ℕ
      → ℕ
      → ℕ
      → Option Iovec
      → ℕ
      → ℕ
      → Option Iovec
      → ℕ
      → Comm
      → Slots
      → World
      → Outcome
  unfolding rooted_refuses gather_root gather_leaf
  mpi_igather none node sendbuf sendcount sendtype recvbuf recvcount recvtype root comm s w =
      goes_on (refuse w, s)
  mpi_igather (some u) node sendbuf sendcount sendtype recvbuf recvcount recvtype root comm s w =
      if rooted_refuses u.size sendbuf sendcount sendtype root comm
      then goes_on (refuse w, s)
      else (if u.rank == root
          then in_slot n (gather_root u node sendbuf sendcount sendtype recvbuf recvcount recvtype)
              s w
          else in_slot n (gather_leaf u node sendbuf sendcount sendtype root) s w)

  -- `MPI_Iscatter` in its slot: the root, and any other process.
  unfoldable pub scatter_root :
      Umpi → ℕ → ℕ → ℕ → Option Iovec → ℕ → ℕ → Option Iovec → Slot → World → Joined
  scatter_root u node sendbuf sendcount none recvbuf recvcount recvtype s w = fails_locked s w
  scatter_root u node sendbuf sendcount (some v) recvbuf recvcount none s w =
      if sendbuf == 0 && not (sendcount == 0)
      then fails_locked s w
      else root_scatter_request kernel u node sendbuf sendcount v s w
  scatter_root u node sendbuf sendcount (some v) recvbuf recvcount (some t) s w =
      if (sendbuf == 0 && not (sendcount == 0))
        || (not (recvbuf == in_place) && other_bytes sendcount v recvcount t)
      then fails_locked s w
      else root_scatter_request kernel u node sendbuf sendcount v s (
          copy_own (recvbuf == in_place) kernel u.rank sendbuf v sendcount (mul32 u.rank sendcount)
            recvbuf t recvcount 0 w)

  unfoldable pub scatter_leaf : Umpi → ℕ → ℕ → ℕ → Option Iovec → ℕ → Slot → World → Joined
  scatter_leaf u node buf count none root s w = crashes s
  scatter_leaf u node buf count (some v) root s w =
      scatter_request kernel u node buf count v root s w

  -- `MPI_Iscatter`
  unfoldable pub mpi_iscatter :
      Option Umpi
      → ℕ
      → ℕ
      → ℕ
      → Option Iovec
      → ℕ
      → ℕ
      → Option Iovec
      → ℕ
      → Comm
      → Slots
      → World
      → Outcome
  unfolding rooted_refuses scatter_root scatter_leaf
  mpi_iscatter none node sendbuf sendcount sendtype recvbuf recvcount recvtype root comm s w =
      goes_on (refuse w, s)
  mpi_iscatter (some u) node sendbuf sendcount sendtype recvbuf recvcount recvtype root comm s w =
      if rooted_refuses u.size recvbuf recvcount recvtype root comm
      then goes_on (refuse w, s)
      else (if u.rank == root
          then in_slot n (scatter_root u node sendbuf sendcount sendtype recvbuf recvcount recvtype)
              s w
          else in_slot n (scatter_leaf u node recvbuf recvcount recvtype root) s w)

  -- `MPI_Igatherv` in its slot, at the root. Null pointers for the arrays are `none`.
  unfoldable pub gatherv_root :
      Umpi
      → ℕ
      → ℕ
      → ℕ
      → Option Iovec
      → ℕ
      → Option (ℕ → ℕ)
      → Option (ℕ → ℕ)
      → Option Iovec
      → Slot
      → World
      → Joined
  gatherv_root u node sendbuf sendcount sendtype recvbuf none displs recvtype s w = fails_locked s w
  gatherv_root u node sendbuf sendcount sendtype recvbuf (some counts) none recvtype s w =
      fails_locked s w
  gatherv_root u node sendbuf sendcount sendtype recvbuf (some counts) (some displs) none s w =
      fails_locked s w
  gatherv_root u node sendbuf sendcount none recvbuf (some counts) (some displs) (some t) s w =
      if recvbuf == 0
      then fails_locked s w
      else root_gatherv_request kernel u node recvbuf counts displs t s w
  gatherv_root u node sendbuf sendcount (some v) recvbuf (some counts) (some displs) (some t) s w =
      if recvbuf == 0 || (not (sendbuf == in_place) && other_bytes sendcount v (counts u.rank) t)
      then fails_locked s w
      else root_gatherv_request kernel u node recvbuf counts displs t s (
          copy_own (sendbuf == in_place) kernel u.rank sendbuf v sendcount 0 recvbuf t
            (counts u.rank) (displs u.rank) w)

  unfoldable pub gatherv_leaf : Umpi → ℕ → ℕ → ℕ → Option Iovec → ℕ → Slot → World → Joined
  gatherv_leaf u node buf count none root s w = crashes s
  gatherv_leaf u node buf count (some v) root s w =
      gatherv_request kernel u node buf count v root s w

  -- `MPI_Igatherv`
  unfoldable pub mpi_igatherv :
      Option Umpi
      → ℕ
      → ℕ
      → ℕ
      → Option Iovec
      → ℕ
      → Option (ℕ → ℕ)
      → Option (ℕ → ℕ)
      → Option Iovec
      → ℕ
      → Comm
      → Slots
      → World
      → Outcome
  unfolding rooted_refuses gatherv_root gatherv_leaf
  mpi_igatherv none node sendbuf sendcount sendtype recvbuf counts displs recvtype root comm s w =
      goes_on (refuse w, s)
  mpi_igatherv (some u) node sendbuf sendcount sendtype recvbuf counts displs recvtype root comm s
        w =
      if rooted_refuses u.size sendbuf sendcount sendtype root comm
      then goes_on (refuse w, s)
      else (if u.rank == root
          then in_slot n
              (gatherv_root u node sendbuf sendcount sendtype recvbuf counts displs recvtype) s w
          else in_slot n (gatherv_leaf u node sendbuf sendcount sendtype root) s w)
