-- ===== src/Calls/Blocking.antt =====
-- umpi.cc, `MPI_Recv`, `MPI_Ssend` and `MPI_Send`: a request call, and `MPI_Wait` for its request.
use umpi.Base.{
  ℕ, ◌≡◌, ap, ◌∙◌, true, false, Option, none, some, arith, ◌==◌, if◌then◌else◌, update_self,
}
use umpi.Iovec.{Iovec}
use umpi.World.{new_cookie, World, send_match, mpi_success}
use umpi.Transfer.{Kernel}
use umpi.Mailbox.{take_first, send_request, send_posted, create_request}
use umpi.Calls.{
  Umpi, Comm, Status, Answer, answer, mpi_irecv, mpi_issend, issend_refuses, Progress, asleep,
  returned, mpi_wait, wait_begin, wait_round,
}

-- After the request call: its error, or the wait.
unfoldable pub then_wait : Option Umpi → Option Status → Option Answer → Option Progress
then_wait u status none = none
then_wait u status (some a) =
    if a.ret == mpi_success
    then some (mpi_wait u a.request status a.world)
    else some (returned a.ret none status a.world)

pub wait_sleeps :
    (u : Umpi) (c : ℕ) (status : Option Status) (w : World)
    → (w.cookie c).owner ≡ u.rank
    → (w.cookie c).busy ≡ 1
    → mpi_wait (some u) (some c) status w ≡ asleep (wait_begin u.rank c w)
unfolding mpi_wait wait_round wait_begin
wait_sleeps u c status w mine busy = ground arith

module _ (kernel : Kernel) where
  -- `MPI_Recv`, up to its first sleep.
  unfoldable pub mpi_recv :
      Option Umpi
      → ℕ
      → ℕ
      → ℕ
      → Option Iovec
      → ℕ
      → ℕ
      → Comm
      → Option Status
      → World
      → Option Progress
  unfolding then_wait
  mpi_recv u node buf count datatype source tag comm status w =
      then_wait u status (mpi_irecv kernel u node buf count datatype source tag comm true w)

  -- `MPI_Ssend`, and `MPI_Send`, which calls it.
  unfoldable pub mpi_ssend :
      Option Umpi → ℕ → ℕ → ℕ → Option Iovec → ℕ → ℕ → Comm → World → Option Progress
  unfolding then_wait
  mpi_ssend u node buf count datatype dest tag comm w =
      then_wait u none (mpi_issend kernel u node buf count datatype dest tag comm true w)

  -- `MPI_Ssend` and `MPI_Send` are synchronous: where the arguments pass the checks and no receive that
  -- fits waits at the destination, the call sleeps, whatever the size of the message.
  pub ssend_sleeps :
      (u : Umpi) (node buf count : ℕ) (v : Iovec) (dest tag : ℕ) (comm : Comm) (w : World)
      → issend_refuses u.size buf count dest tag comm true ≡ false
      → take_first (λ c. send_match (w.cookie c) u.rank tag) (w.process dest).outbox ≡ none
      → (w' : World) × (mpi_ssend (some u) node buf count (some v) dest tag comm w
          ≡ some (asleep w'))
  unfolding mpi_ssend mpi_issend send_request send_posted then_wait new_cookie
  ssend_sleeps u node buf count v dest tag comm w ok nobody =
      let made = create_request node (w.process dest).free (w.process dest).inbox in
      let w1 = (send_posted kernel u.rank dest node buf count v tag w).world in
      let new : w1.cookie made.cookie ≡ new_cookie u.rank buf v count count u.rank tag 1 =
        update_self w.cookie made.cookie (new_cookie u.rank buf v count count u.rank tag 1) in
      let sent : mpi_issend kernel (some u) node buf count (some v) dest tag comm true w
          ≡ answer (some (send_posted kernel u.rank dest node buf count v tag w)) =
        rw ok (ground (arith, nobody)) in
      (
        wait_begin u.rank made.cookie w1,
        ap (then_wait (some u) none) sent
            ∙ ap some
                (wait_sleeps u made.cookie none w1 (ap (λ k. k.owner) new) (ap (λ k. k.busy) new)),
      )
