-- ===== src/Collect/Allreduce.antt =====
-- umpi.cc, MPI_Iallreduce and MPI_Allreduce: each process combines its values with those of the one
-- before, and the last one gives the result to all.
use umpi.Base.{
  ℕ, ◌+◌, ◌-◌, Bool, true, false, not, ◌&&◌, ◌||◌, Option, none, some, [], ◌==◌, if◌then◌else◌, ltb,
  leb, update, ◌≡◌, refl, arith,
}
use umpi.Iovec.{Iovec}
use umpi.World.{World, new_cookie, set_cookie, join, mpi_success, mpi_fail}
use umpi.Transfer.{Kernel, write_to_owner, read_from_owner}
use umpi.Transfer.Copy.{umpi_copy}
use umpi.Calls.{Umpi, Comm, is_world, refuse, returned}
use umpi.Collect.{
  Slot, Slots, Joined, request_in, succeeds, finishes, hand_out, back, tag_cc, turn,
  get_current_slot, finish_in, Outcome, ends, goes_on,
}
use umpi.Collect.Blocking.{Waited, waits, collect_wait}
use umpi.Collect.Scan.{max_in_place, too_wide, Op, combine}

-- `iovec_`, `count_`, `sendbuf_` and `recvbuf_` of a slot, the bytes by their index.
pub record Buffers : Type 0 where
  pub iovec : Iovec
  pub count : ℕ
  pub send : ℕ → ℕ
  pub recv : ℕ → ℕ

-- A process's memory with the bytes of a buffer of the slot at the address where it sees them.
unfoldable pub seen_at : ℕ → (ℕ → ℕ) → (ℕ → ℕ) → ℕ → ℕ
seen_at base bytes m a = if leb base a && ltb a (base + max_in_place) then bytes (a - base) else m a

-- What a call of the process has: the slot's buffers and the world.
pub record Shared : Type 0 where
  pub buffers : Buffers
  pub world : World

-- `sb` and `rb` are the addresses of `sendbuf_` and `recvbuf_` in the process.
module _ (in_place : ℕ) (kernel : Kernel) (u : Umpi) (op : Op) (sb rb : ℕ) where
  unfoldable pub mapped : Buffers → World → World
  unfolding seen_at
  mapped b w =
      let pid = (w.process u.rank).pid in
      record w {
        memory = update w.memory pid (seen_at sb b.send (seen_at rb b.recv (w.memory pid)));
      }

  -- The slot's buffers as the process leaves them, with the type and count that it stores.
  unfoldable pub saved : Iovec → ℕ → World → Shared
  saved v count w =
      let m = w.memory (w.process u.rank).pid in
      record {
        buffers = record {
          iovec = v;
          count = count;
          send = λ i. m (sb + i);
          recv = λ i. m (rb + i);
        };
        world = w;
      }

  -- The part of `allreduce_request` for MPI_IN_PLACE.
  unfoldable pub reduce_in_place : ℕ → ℕ → Iovec → Slot → Buffers → World → Shared
  unfolding mapped saved
  reduce_in_place recvbuf count v s b w =
      let x = mapped b w in
      let y = (umpi_copy kernel u.rank sb b.iovec b.count 0 rb v count 0 x).1 in
      let z = combine op u.rank recvbuf rb count v y in
      if s.joined == 1
      then saved v count (umpi_copy kernel u.rank recvbuf v count 0 sb v count 0 x).1
      else (if not (s.joined == u.size)
          then saved v count (umpi_copy kernel u.rank rb v count 0 sb v count 0 z).1
          else saved b.iovec b.count (combine op u.rank rb recvbuf count v y))

  -- The values of the one before, and the operation; an error of the reading is returned.
  unfoldable pub combine_with : ℕ → ℕ → ℕ → Iovec → Option ℕ → World → Option (ℕ × World)
  combine_with sendbuf recvbuf count v none w = none
  combine_with sendbuf recvbuf count v (some c) w =
      elim (read_from_owner kernel u.rank c recvbuf v count count 0 0 w) [
        | none ↦ none
        | some (ret, x) ↦ some (
            if ret == mpi_success
            then (mpi_success, combine op u.rank sendbuf recvbuf count v x)
            else (ret, x))
      ]

  -- The part for a buffer of its own.
  unfoldable pub reduce_own : ℕ → ℕ → ℕ → Iovec → Slot → World → Option (ℕ × World)
  unfolding combine_with back
  reduce_own sendbuf recvbuf count v s w =
      if s.joined == 1
      then some (mpi_success, (umpi_copy kernel u.rank sendbuf v count 0 recvbuf v count 0 w).1)
      else combine_with sendbuf recvbuf count v (back s.box) w

  -- The last process: it joins the request of the one before, and gives its values to all.
  unfoldable pub give_all : ℕ → ℕ → Iovec → Slot → World → Option ℕ → Joined
  unfolding hand_out
  give_all recvbuf count v s w none = record {
    reply = none;
    slot = record s { box = []; locked = false };
  }
  give_all recvbuf count v s w (some b) = record {
    reply = finishes b (
        hand_out kernel u (λ c. write_to_owner kernel u.rank c recvbuf v count 0 0) s.box
          (set_cookie w b (join (w.cookie b))));
    slot = record s { box = []; locked = false };
  }

  -- After the values are combined; an error leaves the slot locked.
  unfoldable pub reduced : ℕ → Bool → ℕ → ℕ → Iovec → Slot → Option (ℕ × World) → Joined
  unfolding give_all request_in
  reduced node place recvbuf count v s none = record { reply = none; slot = s }
  reduced node place recvbuf count v s (some (ret, w)) =
      if not (ret == mpi_success)
      then record { reply = some (record { ret = ret; request = none; world = w }); slot = s }
      else (if not (s.joined == u.size)
          then succeeds (
              request_in u.rank node
                (new_cookie u.rank recvbuf v count count u.rank tag_cc (if place then 1 else 2)) s
                w)
          else give_all recvbuf count v s w (back s.box))

  -- `collect::allreduce_request`
  unfoldable pub allreduce_request :
      ℕ → ℕ → ℕ → ℕ → Iovec → Slot → Buffers → World → Joined × Buffers
  unfolding reduce_in_place reduce_own reduced
  allreduce_request node sendbuf recvbuf count v s b w =
      let x = reduce_in_place recvbuf count v s b w in
      if sendbuf == in_place
      then (reduced node true recvbuf count v s (some (mpi_success, x.world)), x.buffers)
      else (reduced node false recvbuf count v s (reduce_own sendbuf recvbuf count v s w), b)

-- The checks that both calls share, after those for `umpi`, the type and the operation.
unfoldable pub allreduce_refuses : ℕ → ℕ → ℕ → Comm → Bool
allreduce_refuses sendbuf recvbuf count comm =
    ((sendbuf == 0 || recvbuf == 0) && not (count == 0)) || not (is_world comm)

-- The call returns MPI_FAIL and took no slot.
abbrev failed : Slots → World → Waited
failed s w = waits (some (returned mpi_fail none none w)) s

-- The request in the slot of turn `i`, where the ticket lets the process in.
unfoldable pub allreduce_turn :
    ℕ
    → (Slot → Buffers → World → Joined × Buffers)
    → (ℕ → Buffers)
    → World
    → Option Slots
    → Outcome × (ℕ → Buffers)
allreduce_turn i request b w none = (ends, b)
allreduce_turn i request b w (some s) =
    let (j, b') = request (s.slots i) (b i) w in (goes_on (finish_in i s j), update b i b')

-- `MPI_Iallreduce`, with `n` slots and their buffers.
module _ (in_place : ℕ) (kernel : Kernel) (n sb rb : ℕ) where
  unfoldable pub mpi_iallreduce :
      Option Umpi
      → ℕ
      → ℕ
      → ℕ
      → ℕ
      → Option Iovec
      → Option Op
      → Comm
      → Slots
      → (ℕ → Buffers)
      → World
      → Outcome × (ℕ → Buffers)
  unfolding allreduce_refuses allreduce_turn allreduce_request
  mpi_iallreduce none node sendbuf recvbuf count datatype op comm s b w = (goes_on (refuse w, s), b)
  mpi_iallreduce (some u) node sendbuf recvbuf count none op comm s b w = (goes_on (refuse w, s), b)
  mpi_iallreduce (some u) node sendbuf recvbuf count (some v) none comm s b w =
      (goes_on (refuse w, s), b)
  mpi_iallreduce (some u) node sendbuf recvbuf count (some v) (some op) comm s b w =
      if allreduce_refuses sendbuf recvbuf count comm || (sendbuf == in_place && too_wide count v)
      then (goes_on (refuse w, s), b)
      else allreduce_turn (turn n s.ticket)
          (allreduce_request in_place kernel u op sb rb node sendbuf recvbuf count v) b w
          (get_current_slot n s)

  -- `MPI_Allreduce`
  unfoldable pub mpi_allreduce :
      Option Umpi
      → ℕ
      → ℕ
      → ℕ
      → ℕ
      → Option Iovec
      → Option Op
      → Comm
      → Slots
      → (ℕ → Buffers)
      → World
      → Waited × (ℕ → Buffers)
  unfolding allreduce_refuses mpi_iallreduce
  mpi_allreduce none node sendbuf recvbuf count datatype op comm s b w = (failed s w, b)
  mpi_allreduce (some u) node sendbuf recvbuf count none op comm s b w = (failed s w, b)
  mpi_allreduce (some u) node sendbuf recvbuf count (some v) none comm s b w = (failed s w, b)
  mpi_allreduce (some u) node sendbuf recvbuf count (some v) (some op) comm s b w =
      let (o, b') =
        mpi_iallreduce (some u) node sendbuf recvbuf count (some v) (some op) comm s b w in
      if allreduce_refuses sendbuf recvbuf count comm
      then (failed s w, b)
      else (if u.size == 1
          then (
            waits
                (some (
                  returned mpi_success none none (
                    if sendbuf == in_place
                    then w
                    else (umpi_copy kernel u.rank sendbuf v count 0 recvbuf v count 0 w).1)))
                s,
            b,
          )
          else (collect_wait (some u) o, b'))

-- Where a single process makes the reduction, `MPI_Allreduce` with arguments that pass the checks
-- returns MPI_SUCCESS at once, and takes no slot.
pub mpi_allreduce_alone :
    (in_place : ℕ) (kernel : Kernel) (n sb rb : ℕ) (u : Umpi) (node sendbuf recvbuf count : ℕ)
    (v : Iovec) (op : Op) (comm : Comm) (s : Slots) (b : ℕ → Buffers) (w : World)
    → u.size ≡ 1
    → allreduce_refuses sendbuf recvbuf count comm ≡ false
    → (x : World) × (mpi_allreduce in_place kernel n sb rb
          (some u)
          node
          sendbuf
          recvbuf
          count
          (some v)
          (some op)
          comm
          s
          b
          w
        ≡ (waits (some (returned mpi_success none none x)) s, b))
unfolding mpi_allreduce
mpi_allreduce_alone in_place kernel n sb rb u node sendbuf recvbuf count v op comm s b w one ok =
    let single : (u.size == 1) ≡ true = ground (arith, one) in
    (
      if sendbuf == in_place
          then w
          else (umpi_copy kernel u.rank sendbuf v count 0 recvbuf v count 0 w).1,
      rw (ok, single) refl,
    )
