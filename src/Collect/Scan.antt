-- ===== src/Collect/Scan.antt =====
-- umpi.cc, MPI_Iscan and MPI_Iexscan: the last process to come does the whole scan, over the
-- requests in the order of the ranks.
pub mod Order
pub mod Lock
use umpi.Base.{
  ℕ, Bool, true, false, not, ◌&&◌, ◌||◌, Option, none, some, List, [], ◌∷◌, ◌==◌, if◌then◌else◌,
  mul64, sext32, sext16, lt64, lt32, update,
}
use umpi.Iovec.{Iovec, stride}
use umpi.World.{Cookie, World, new_cookie, mpi_success, mpi_fail}
use umpi.Transfer.{Kernel, write_to_owner, read_from_owner}
use umpi.Transfer.Copy.{umpi_copy}
use umpi.Mailbox.{move_to_pending}
use umpi.Calls.{Umpi, Comm, is_world, refuse, Answer}
use umpi.Collect.{
  Slot, Slots, Joined, Posted, request_in, succeeds, finishes, unlock, and_then, in_slot, tag_cc,
  Outcome, goes_on,
}
use umpi.Collect.Rooted.Entry.{fails_locked, crashes}

-- UMPI_MAX_IN_PLACE_LEN
abbrev pub max_in_place : ℕ
max_in_place = 64

-- `UMPI_MAX_IN_PLACE_LEN < count * datatype->stride()`
unfoldable pub too_wide : ℕ → Iovec → Bool
too_wide count v = lt64 max_in_place (mul64 (sext32 count) (stride v))

-- `todo.sort(…)`, a stable sort by `src_`.
unfoldable pub insert_by : (ℕ → ℕ) → ℕ → List ℕ → List ℕ
insert_by key c [] = c ∷ []
insert_by key c (d ∷ ds) =
    let later = insert_by key c ds in if lt32 (key d) (key c) then d ∷ later else c ∷ d ∷ ds

unfoldable pub sort_by : (ℕ → ℕ) → List ℕ → List ℕ
unfolding insert_by
sort_by key [] = []
sort_by key (c ∷ cs) = insert_by key c (sort_by key cs)

-- `(*op)(invec, inoutvec, &count, &datatype)` on the memory of the process that calls it.
abbrev pub Op : Type 0
Op = ℕ → ℕ → ℕ → Iovec → (ℕ → ℕ) → ℕ → ℕ

abbrev pub combine : Op → ℕ → ℕ → ℕ → ℕ → Iovec → World → World
combine op me invec inoutvec count v w =
    let pid = (w.process me).pid in
    record w { memory = update w.memory pid (op invec inoutvec count v (w.memory pid)) }

-- `sb` and `rb` are the addresses of `sendbuf_` and `recvbuf_` of the slot.
module _ (kernel : Kernel) (u : Umpi) (op : Op) (sb rb count : ℕ) (v : Iovec) where
  abbrev pub pend : ℕ → World → World
  pend c w = move_to_pending (w.cookie c).owner c w

  -- The loop of `exscan_request`: each process gets the values of those before it.
  unfoldable pub exscan_loop : List ℕ → World → Option (ℕ × World)
  unfolding and_then
  exscan_loop [] w = some (mpi_success, w)
  exscan_loop (c ∷ cs) w =
      and_then (read_from_owner kernel u.rank c rb v count 0 0 0 (pend c w)) λ x.
        and_then (write_to_owner kernel u.rank c sb v count 0 0 x)
          λ y. exscan_loop cs (elim cs [ [] ↦ y | _ ∷ _ ↦ combine op u.rank rb sb count v y ])

  -- The loop of `scan_request`: each process's own values are combined first.
  unfoldable pub scan_loop : List ℕ → World → Option (ℕ × World)
  unfolding and_then
  scan_loop [] w = some (mpi_success, w)
  scan_loop (c ∷ cs) w = and_then (read_from_owner kernel u.rank c rb v count 0 0 0 (pend c w)) λ x.
      and_then (write_to_owner kernel u.rank c sb v count 0 0 (combine op u.rank rb sb count v x))
        (scan_loop cs)

  -- Before the loop the first process's values are read into `sendbuf_`.
  unfoldable pub from_first :
      (List ℕ → World → Option (ℕ × World)) → List ℕ → World → Option (ℕ × World)
  unfolding and_then
  from_first loop [] w = none
  from_first loop (c ∷ cs) w =
      and_then (read_from_owner kernel u.rank c sb v count 0 0 0 (pend c w)) (loop cs)

  -- A process posts its request, and the last one does the scan.
  unfoldable pub scan_posted : (List ℕ → World → Option (ℕ × World)) → Posted → Joined
  unfolding from_first sort_by
  scan_posted loop p = if not (p.slot.joined == u.size) then succeeds p else record {
    reply =
        finishes p.request
          (from_first loop (sort_by (λ c. sext16 (p.world.cookie c).src) p.slot.box) p.world);
    slot = unlock (record p.slot { box = [] });
  }

  -- `collect::exscan_request`
  unfoldable pub exscan_request : ℕ → ℕ → ℕ → ℕ → Slot → World → Joined
  unfolding request_in scan_posted exscan_loop too_wide
  exscan_request in_place node sendbuf recvbuf s w =
      if too_wide count v
      then fails_locked s w
      else scan_posted exscan_loop (
          request_in u.rank node
            (new_cookie u.rank (if u.rank == 0 then sendbuf else recvbuf) v count count u.rank
              tag_cc (if u.rank == 0 then 1 else 2))
            s
            (if not (u.rank == 0) && not (sendbuf == in_place)
              then (umpi_copy kernel u.rank sendbuf v count 0 recvbuf v count 0 w).1
              else w))

  -- `collect::scan_request`
  unfoldable pub scan_request : ℕ → ℕ → ℕ → ℕ → Slot → World → Joined
  unfolding request_in scan_posted scan_loop too_wide
  scan_request in_place node sendbuf recvbuf s w =
      if too_wide count v
      then fails_locked s w
      else scan_posted scan_loop (
          request_in u.rank node
            (new_cookie u.rank recvbuf v count count u.rank tag_cc (if u.rank == 0 then 1 else 2)) s
            (if not (sendbuf == in_place)
              then (umpi_copy kernel u.rank sendbuf v count 0 recvbuf v count 0 w).1
              else w))

-- The checks of `MPI_Iexscan` and of `MPI_Iscan` after those for null pointers to `umpi`, the type
-- and the operation.
unfoldable pub iexscan_refuses : ℕ → ℕ → ℕ → ℕ → ℕ → Iovec → Comm → Bool
unfolding too_wide
iexscan_refuses in_place me sendbuf recvbuf count v comm =
    ((sendbuf == 0 || (not (me == 0) && recvbuf == 0)) && not (count == 0))
    || not (is_world comm)
    || (sendbuf == in_place && too_wide count v)

unfoldable pub iscan_refuses : ℕ → ℕ → ℕ → ℕ → Iovec → Comm → Bool
unfolding too_wide
iscan_refuses in_place sendbuf recvbuf count v comm =
    ((sendbuf == 0 || recvbuf == 0) && not (count == 0))
    || not (is_world comm)
    || (sendbuf == in_place && too_wide count v)

-- `MPI_Iexscan` and `MPI_Iscan`, with `n` slots.
module _ (in_place : ℕ) (kernel : Kernel) (n sb rb : ℕ) where
  unfoldable pub mpi_iexscan :
      Option Umpi → ℕ → ℕ → ℕ → ℕ → Option Iovec → Option Op → Comm → Slots → World → Outcome
  unfolding iexscan_refuses exscan_request
  mpi_iexscan none node sendbuf recvbuf count datatype op comm s w = goes_on (refuse w, s)
  mpi_iexscan (some u) node sendbuf recvbuf count none op comm s w = goes_on (refuse w, s)
  mpi_iexscan (some u) node sendbuf recvbuf count (some v) none comm s w = goes_on (refuse w, s)
  mpi_iexscan (some u) node sendbuf recvbuf count (some v) (some op) comm s w =
      if iexscan_refuses in_place u.rank sendbuf recvbuf count v comm
      then goes_on (refuse w, s)
      else in_slot n (exscan_request kernel u op sb rb count v in_place node sendbuf recvbuf) s w

  unfoldable pub mpi_iscan :
      Option Umpi → ℕ → ℕ → ℕ → ℕ → Option Iovec → Option Op → Comm → Slots → World → Outcome
  unfolding iscan_refuses scan_request
  mpi_iscan none node sendbuf recvbuf count datatype op comm s w = goes_on (refuse w, s)
  mpi_iscan (some u) node sendbuf recvbuf count none op comm s w = goes_on (refuse w, s)
  mpi_iscan (some u) node sendbuf recvbuf count (some v) none comm s w = goes_on (refuse w, s)
  mpi_iscan (some u) node sendbuf recvbuf count (some v) (some op) comm s w =
      if iscan_refuses in_place sendbuf recvbuf count v comm
      then goes_on (refuse w, s)
      else in_slot n (scan_request kernel u op sb rb count v in_place node sendbuf recvbuf) s w
