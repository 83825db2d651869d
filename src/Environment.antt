-- ===== src/Environment.antt =====
-- umpi.cc, the state of the library in a process, and the calls on communicators. `none` as a result
-- stands for MPI_FAIL.
use umpi.Base.{ℕ, Bool, true, false, not, ◌||◌, Option, none, some, ◌≡◌, refl, if◌then◌else◌}
use umpi.Calls.{Umpi, Comm, comm_null, comm_world, comm_self, is_world}

abbrev pub is_self : Comm → Bool
is_self comm_self = true
is_self _ = false

abbrev pub is_null : Comm → Bool
is_null comm_null = true
is_null _ = false

-- `MPI_Initialized` and `MPI_Finalized`, the value of `*flag`.
unfoldable pub mpi_initialized : Option Umpi → Bool
mpi_initialized none = false
mpi_initialized (some _) = true

unfoldable pub mpi_finalized : Option Umpi → Bool
mpi_finalized none = true
mpi_finalized (some _) = false

-- `MPI_Comm_rank` and `MPI_Comm_size`; the Bool is whether there is a place for the result.
unfoldable pub mpi_comm_rank : Option Umpi → Comm → Bool → Option ℕ
mpi_comm_rank none comm place = none
mpi_comm_rank (some u) comm place = if not place || not (is_world comm) then none else some u.rank

unfoldable pub mpi_comm_size : Option Umpi → Comm → Bool → Option ℕ
mpi_comm_size none comm place = none
mpi_comm_size (some u) comm place = if not place || not (is_world comm) then none else some u.size

-- What `MPI_Comm_dup` and `MPI_Comm_free` return.
pub data CommResult : Type 0 where
  comm_error arg_error : CommResult
  success : Comm → CommResult

-- `MPI_Comm_dup`: on success the new communicator.
unfoldable pub mpi_comm_dup : Comm → Bool → CommResult
mpi_comm_dup comm newcomm =
    if is_null comm || not (is_self comm) || not (is_world comm)
    then comm_error
    else (if not newcomm then arg_error else success comm)

-- `MPI_Comm_free`; `none` is a null pointer. On success what `*comm` is then.
unfoldable pub mpi_comm_free : Option Comm → CommResult
mpi_comm_free none = arg_error
mpi_comm_free (some c) =
    if is_null c || not (is_self c) || not (is_world c) then comm_error else success comm_null

-- No communicator is duplicated: each one, also MPI_COMM_WORLD and MPI_COMM_SELF, is refused by
-- `MPI_Comm_dup`, and by `MPI_Comm_free`.
pub comm_dup_refuses :
    (c : Comm) (newcomm : Bool)
    → (mpi_comm_dup c newcomm ≡ comm_error) × (mpi_comm_free (some c) ≡ comm_error)
unfolding mpi_comm_dup mpi_comm_free
comm_dup_refuses comm_null newcomm = (refl, refl)
comm_dup_refuses comm_world newcomm = (refl, refl)
comm_dup_refuses comm_self newcomm = (refl, refl)
