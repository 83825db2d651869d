-- ===== src/Collect/Everyone.antt =====
-- umpi.cc, MPI_Iallgather: each process has a buffer for the elements of all.
use umpi.Base.{ℕ, Bool, not, ◌&&◌, ◌||◌, Option, none, some, List, [], ◌∷◌, ◌==◌, if◌then◌else◌}
use umpi.Iovec.{Iovec}
use umpi.World.{World, new_cookie, set_cookie, join, mpi_success}
use umpi.Transfer.{Kernel, write_to_owner, read_from_owner}
use umpi.Mailbox.{move_to_pending}
use umpi.Calls.{Umpi, Comm, is_world, refuse}
use umpi.Collect.{
  Slot, Slots, Joined, request_in, succeeds, finishes, unlock, hand_out, in_slot, tag_cc, Outcome,
  goes_on,
}
use umpi.Collect.Rooted.{mul32}
use umpi.Collect.Rooted.Entry.{other_bytes, copy_own, crashes}

module _ (in_place : ℕ) (kernel : Kernel) (u : Umpi) where
  -- The request of the first process, with all the others to come.
  unfoldable pub allgather_first : ℕ → ℕ → ℕ → Option Iovec → ℕ → ℕ → Iovec → Slot → World → Joined
  unfolding request_in
  allgather_first node sendbuf sendcount none recvbuf recvcount t s w =
      if sendbuf == in_place
      then succeeds (
          request_in u.rank node
            (new_cookie u.rank recvbuf t (mul32 recvcount u.size) recvcount u.rank tag_cc u.size) s
            w)
      else crashes s
  allgather_first node sendbuf sendcount (some v) recvbuf recvcount t s w = succeeds (
      request_in u.rank node
        (new_cookie u.rank recvbuf t (mul32 recvcount u.size) recvcount u.rank tag_cc u.size) s
        (copy_own (sendbuf == in_place) kernel u.rank sendbuf v sendcount 0 recvbuf t recvcount
          (mul32 u.rank recvcount) w))

  -- A later process writes its elements into the first one's buffer, the request `c`.
  unfoldable pub give_own : ℕ → ℕ → ℕ → Option Iovec → ℕ → ℕ → Iovec → World → Option (ℕ × World)
  give_own c sendbuf sendcount none recvbuf recvcount t w =
      if sendbuf == in_place
      then write_to_owner kernel u.rank c recvbuf t recvcount (mul32 (w.cookie c).count u.rank)
          (mul32 recvcount u.rank) w
      else none
  give_own c sendbuf sendcount (some v) recvbuf recvcount t w =
      if sendbuf == in_place
      then write_to_owner kernel u.rank c recvbuf t recvcount (mul32 (w.cookie c).count u.rank)
          (mul32 recvcount u.rank) w
      else write_to_owner kernel u.rank c sendbuf v sendcount (mul32 (w.cookie c).count u.rank) 0 w

  -- The last process reads all elements from the first one's buffer, and writes them to the others
  -- that wait, whatever the result of the reading is.
  unfoldable pub spread : ℕ → List ℕ → ℕ → ℕ → Iovec → World → Option (ℕ × World)
  unfolding hand_out
  spread c rest recvbuf recvcount t w =
      let all = mul32 recvcount u.size in
      elim (read_from_owner kernel u.rank c recvbuf t all all 0 0
        (move_to_pending (w.cookie c).owner c w)) [
          | none ↦ none
          | some (_, w') ↦
              hand_out kernel u (λ d. write_to_owner kernel u.rank d recvbuf t all 0 0) rest w'
        ]

  -- A later process after it has given its elements; an error leaves the slot locked.
  unfoldable pub allgather_given :
      ℕ → ℕ → List ℕ → ℕ → ℕ → Iovec → Slot → Option (ℕ × World) → Joined
  unfolding spread request_in
  allgather_given node c rest recvbuf recvcount t s none = crashes s
  allgather_given node c rest recvbuf recvcount t s (some (ret, w)) =
      if not (ret == mpi_success)
      then record { reply = some (record { ret = ret; request = none; world = w }); slot = s }
      else (if not (s.joined == u.size)
          then succeeds (
              request_in u.rank node
                (new_cookie u.rank recvbuf t (mul32 recvcount u.size) recvcount u.rank tag_cc 1) s
                w)
          else record {
            reply =
                finishes c (spread c rest recvbuf recvcount t (set_cookie w c (join (w.cookie c))));
            slot = unlock (record s { box = [] });
          })

  -- `collect::allgather_request`. The box of a slot where others have joined is not empty.
  unfoldable pub allgather_request :
      ℕ → ℕ → ℕ → Option Iovec → ℕ → ℕ → Iovec → Slot → World → Joined
  unfolding allgather_first give_own allgather_given
  allgather_request node sendbuf sendcount sendtype recvbuf recvcount t s w =
      if s.joined == 1
      then allgather_first node sendbuf sendcount sendtype recvbuf recvcount t s w
      else elim s.box [
        | [] ↦ crashes s
        | c ∷ rest ↦
            allgather_given node c rest recvbuf recvcount t s
              (give_own c sendbuf sendcount sendtype recvbuf recvcount t w)
      ]

  -- The checks of `MPI_Iallgather` after those for `umpi` and the receive type.
  unfoldable pub iallgather_refuses : ℕ → ℕ → Option Iovec → ℕ → ℕ → Iovec → Comm → Bool
  iallgather_refuses sendbuf sendcount none recvbuf recvcount t comm =
      (sendbuf == 0 && not (sendcount == 0))
      || not (sendbuf == in_place)
      || (recvbuf == 0 && not (recvcount == 0))
      || not (is_world comm)
  iallgather_refuses sendbuf sendcount (some v) recvbuf recvcount t comm =
      (sendbuf == 0 && not (sendcount == 0))
      || (recvbuf == 0 && not (recvcount == 0))
      || (not (sendbuf == in_place) && other_bytes sendcount v recvcount t)
      || not (is_world comm)

-- `MPI_Iallgather`, with `n` slots.
unfoldable pub mpi_iallgather :
    ℕ
    → Kernel
    → ℕ
    → Option Umpi
    → ℕ
    → ℕ
    → ℕ
    → Option Iovec
    → ℕ
    → ℕ
    → Option Iovec
    → Comm
    → Slots
    → World
    → Outcome
unfolding allgather_request iallgather_refuses
mpi_iallgather in_place kernel n none node sendbuf sendcount sendtype recvbuf recvcount recvtype
      comm s w =
    goes_on (refuse w, s)
mpi_iallgather in_place kernel n (some u) node sendbuf sendcount sendtype recvbuf recvcount none
      comm s w =
    goes_on (refuse w, s)
mpi_iallgather in_place kernel n (some u) node sendbuf sendcount sendtype recvbuf recvcount (some t)
      comm s w =
    if iallgather_refuses in_place kernel u sendbuf sendcount sendtype recvbuf recvcount t comm
    then goes_on (refuse w, s)
    else in_slot n
        (allgather_request in_place kernel u node sendbuf sendcount sendtype recvbuf recvcount t) s
        w
