-- ===== src/Datatype/Freeing.antt =====
-- umpi.cc, `MPI_Type_free`, with the destructor of `struct umpi_datatype`.
use umpi.Base.{ℕ, Bool, true, false, Option, none, some, List, [], ◌∷◌, if◌then◌else◌}
use umpi.Iovec.{Iovec, is_derived}
use umpi.World.{mpi_success, mpi_fail}
use umpi.Datatype.{IovecPointer, Handle, Datatype, committed, pointee}

-- What the call returns, `*datatype` after it, and the arrays that go back to the heap.
pub record Freed : Type 0 where
  pub ret : ℕ
  pub handle : Handle
  pub deleted : List Iovec

-- The destructor's `delete`.
unfoldable pub destroyed : IovecPointer → List Iovec
destroyed p = if committed p then [] else elim (pointee p) [ none ↦ [] | some v ↦ v ∷ [] ]

abbrev refused : Handle → Freed
refused h = record { ret = mpi_fail; handle = h; deleted = [] }

unfoldable pub free_type : Datatype → Option Iovec → Freed
unfolding destroyed
free_type t none = refused (some t)
free_type t (some v) =
    if is_derived v
    then record { ret = mpi_success; handle = none; deleted = destroyed t.iovec }
    else refused (some t)

-- `MPI_Type_free`; the pointer to the handle is null where there is none.
unfoldable pub mpi_type_free : Bool → Option Handle → Freed
unfolding free_type
mpi_type_free initialized none = refused none
mpi_type_free false (some h) = refused h
mpi_type_free true (some none) = record { ret = mpi_success; handle = none; deleted = [] }
mpi_type_free true (some (some t)) = free_type t (pointee t.iovec)
