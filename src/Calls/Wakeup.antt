-- ===== src/Calls/Wakeup.antt =====
-- Sleeping and waking: `process::wait`, `process::notify_done` and the two kinds of `wait_any`.
use umpi.Base.{ℕ, ◌+◌, ◌≡◌, Option, none, some, arith}
use umpi.World.{World, notify_done, waiting_for_any_cookie}
use umpi.Calls.{
  Umpi, Status, asleep, returned, wait_begin, wait_end, wait_round, mpi_wait, conclude, get_status,
}
use umpi.Mailbox.{leave}

-- `MPI_Wait` on a request of this process with one side to come goes to sleep. When the other side
-- then finishes the request, with whatever result, its call of `notify_done` signals this process
-- once, and the next round of the loop returns.
pub wait_wakes :
    (u : Umpi) (c err : ℕ) (status : Option Status) (w : World)
    → (w.cookie c).owner ≡ u.rank
    → (w.cookie c).busy ≡ 1
    → let w1 = wait_begin u.rank c w in
      let w2 = (notify_done u.rank c err w1).1 in
      (ret : ℕ) × (s : Option Status) × (w3 : World) × (mpi_wait (some u) (some c) status w
        ≡ asleep w1)
      × ((w2.process u.rank).signals ≡ (w.process u.rank).signals + 1)
      × (wait_round u c status w2 ≡ returned ret none s w3)
unfolding mpi_wait wait_begin notify_done wait_round conclude wait_end
wait_wakes u c err status w mine busy =
    let w2 = (notify_done u.rank c err (wait_begin u.rank c w)).1 in
    let w3 = wait_end u.rank w2 in
    let result = get_status status (w3.cookie c) in
    (result.1, result.0, leave u.trigger c w3, ground arith, ground arith, ground arith)

-- A process that sleeps in `process::wait_any` for one of several requests is not signalled when a
-- request is finished: `notify_done` leaves it, and every other process, as it was.
pub notify_done_any :
    (r s c err : ℕ) (w : World)
    → (w.process r).waiting_for ≡ waiting_for_any_cookie
    → (notify_done r c err w).1.process s ≡ w.process s
unfolding notify_done
notify_done_any r s c err w any = ground arith
