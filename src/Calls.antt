-- ===== src/Calls.antt =====
-- umpi.cc, the point-to-point calls of the MPI interface: their argument checks, waiting, testing
-- and probing. A pointer that is tested for null is an Option, a Bool (is it there?) where only the
-- test matters, or an address that may be 0. `none` as a result is a division by zero.
pub mod Wakeup
pub mod Any
pub mod Waitany
pub mod Probe
pub mod Waitall
pub mod Blocking
use umpi.Base.{
  ℕ, ◌/◌, Bool, true, false, not, ◌&&◌, ◌||◌, Option, none, some, List, [], ◌∷◌, lt32, mul64,
  sext32, sext16, u32, ltb, ◌==◌, if◌then◌else◌, suc, zero, ◌+◌, ◌-◌, add32, sub32, get_or, set,
  length,
}
use umpi.Iovec.{Iovec, len}
use umpi.World.{
  Cookie, Process, World, set_process, not_waiting, waiting_for_cookie, waiting_for_any_cookie,
  mpi_success, mpi_fail, mpi_any_source, mpi_any_tag,
}
use umpi.Transfer.{Kernel}
use umpi.Mailbox.{Reply, recv_request, send_request, leave, find_any}

-- `struct umpi`, as far as these calls read it, and UMPI_OUTSTANDING_REQUESTS_PER_PROCESS.
pub record Umpi : Type 0 where
  pub size : ℕ
  pub rank : ℕ
  pub trigger : ℕ

pub data Comm : Type 0 where
  comm_null comm_world comm_self : Comm

abbrev pub is_world : Comm → Bool
is_world comm_world = true
is_world _ = false

-- `MPI_Status`
pub record Status : Type 0 where
  pub source : ℕ
  pub tag : ℕ
  pub error : ℕ
  pub len : ℕ

-- A call returns; `request` is what it stored in `*request`, if it stored something.
pub record Answer : Type 0 where
  pub ret : ℕ
  pub request : Option ℕ
  pub world : World

abbrev pub refuse : World → Option Answer
refuse w = some (record { ret = mpi_fail; request = none; world = w })

abbrev pub answer : Option Reply → Option Answer
answer none = none
answer (some r) = some (record { ret = r.ret; request = some r.request; world = r.world })

-- The checks of `MPI_Irecv` after those for null pointers; `n` is `umpi->size`.
unfoldable pub irecv_refuses : ℕ → ℕ → ℕ → ℕ → ℕ → Comm → Bool → Bool
irecv_refuses n buf count source tag comm request =
    (buf == 0 && not (count == 0))
    || lt32 source mpi_any_source
    || not (lt32 source n)
    || lt32 tag mpi_any_tag
    || not (is_world comm)
    || not request

-- The checks of `MPI_Issend`.
unfoldable pub issend_refuses : ℕ → ℕ → ℕ → ℕ → ℕ → Comm → Bool → Bool
issend_refuses n buf count dest tag comm request =
    (buf == 0 && not (count == 0))
    || lt32 dest 0
    || not (lt32 dest n)
    || lt32 tag 0
    || not (is_world comm)
    || not request

module _ (kernel : Kernel) where
  -- `MPI_Irecv`
  unfoldable pub mpi_irecv :
      Option Umpi → ℕ → ℕ → ℕ → Option Iovec → ℕ → ℕ → Comm → Bool → World → Option Answer
  mpi_irecv none node buf count datatype source tag comm request w = refuse w
  mpi_irecv (some u) node buf count none source tag comm request w = refuse w
  mpi_irecv (some u) node buf count (some v) source tag comm request w =
      if irecv_refuses u.size buf count source tag comm request
      then refuse w
      else answer (recv_request kernel u.rank node buf count v source tag w)

  -- `MPI_Issend`, and `MPI_Isend`, which calls it.
  unfoldable pub mpi_issend :
      Option Umpi → ℕ → ℕ → ℕ → Option Iovec → ℕ → ℕ → Comm → Bool → World → Option Answer
  mpi_issend none node buf count datatype dest tag comm request w = refuse w
  mpi_issend (some u) node buf count none dest tag comm request w = refuse w
  mpi_issend (some u) node buf count (some v) dest tag comm request w =
      if issend_refuses u.size buf count dest tag comm request
      then refuse w
      else answer (send_request kernel u.rank dest node buf count v tag w)

-- `get_status`: the status, if there is one to fill, and the error of the request.
unfoldable pub get_status : Option Status → Cookie → Option Status × ℕ
get_status none k = (none, sext16 k.err)
get_status (some s) k = (
  some (record s {
    source = sext16 k.src;
    tag = sext16 k.tag;
    len = mul64 (sext32 k.count) (umpi.Iovec.len k.iovec);
  }),
  sext16 k.err,
)

-- `empty_status`
unfoldable pub empty_status : Option Status → Option Status × ℕ
empty_status none = (none, mpi_success)
empty_status (some s) = (
  some (record { source = mpi_any_source; tag = mpi_any_tag; error = mpi_success; len = 0 }),
  mpi_success,
)

-- How a call that may block goes on: it sleeps in `cond_.wait`, or it returns.
pub data Progress : Type 0 where
  asleep : World → Progress
  returned : ℕ → Option ℕ → Option Status → World → Progress

-- `process::wait` up to its loop.
unfoldable pub wait_begin : ℕ → ℕ → World → World
wait_begin r c w =
    set_process w r (record (w.process r) { waiting = some c; waiting_for = waiting_for_cookie })

-- After the loop of `process::wait`.
unfoldable pub wait_end : ℕ → World → World
wait_end r w = set_process w r (record (w.process r) { waiting = none; waiting_for = not_waiting })

-- `get_status` and `leave`, the end of each waiting call, for the request `c`.
unfoldable pub conclude : ℕ → ℕ → Option Status → World → Progress
unfolding get_status
conclude trigger c status w =
    let (s, err) = get_status status (w.cookie c) in returned err none s (leave trigger c w)

-- One round of the loop of `process::wait`, at its start and after each wake-up.
unfoldable pub wait_round : Umpi → ℕ → Option Status → World → Progress
unfolding wait_end conclude
wait_round u c status w =
    if (w.cookie c).busy == 0 then conclude u.trigger c status (wait_end u.rank w) else asleep w

-- `MPI_Wait` up to the first sleep. `request` is `*request`, and null afterwards.
unfoldable pub mpi_wait : Option Umpi → Option ℕ → Option Status → World → Progress
unfolding wait_begin wait_round conclude empty_status
mpi_wait none request status w = returned mpi_fail request status w
mpi_wait (some u) none status w = let (s, ret) = empty_status status in returned ret none s w
mpi_wait (some u) (some c) status w =
    if (w.cookie c).owner == u.rank
    then wait_round u c status (wait_begin u.rank c w)
    else conclude u.trigger c status w

-- What `MPI_Test` leaves: its result, `*flag` if it was written, `*request` and the status.
pub record Tested : Type 0 where
  pub ret : ℕ
  pub flag : Option Bool
  pub request : Option ℕ
  pub status : Option Status
  pub world : World

-- `MPI_Test`
unfoldable pub mpi_test : Option Umpi → Option ℕ → Bool → Option Status → World → Tested
unfolding get_status empty_status
mpi_test none request flag status w = record {
  ret = mpi_fail;
  flag = none;
  request = request;
  status = status;
  world = w;
}
mpi_test (some u) request false status w = record {
  ret = mpi_fail;
  flag = none;
  request = request;
  status = status;
  world = w;
}
mpi_test (some u) none true status w =
    let (s, ret) = empty_status status in
    record { ret = ret; flag = none; request = none; status = s; world = w }
mpi_test (some u) (some c) true status w =
    let (s, err) = get_status status (w.cookie c) in
    if (w.cookie c).busy == 0
    then record {
      ret = err;
      flag = some true;
      request = none;
      status = s;
      world = leave u.trigger c w;
    }
    else record {
      ret = mpi_success;
      flag = some false;
      request = some c;
      status = status;
      world = w;
    }

-- `MPI_Get_count`; `none` is a division by zero.
unfoldable pub mpi_get_count : Option Umpi → Option Status → Option Iovec → Option (ℕ × Option ℕ)
mpi_get_count none status datatype = some (mpi_fail, none)
mpi_get_count (some u) none datatype = some (mpi_fail, none)
mpi_get_count (some u) (some s) none = some (mpi_fail, none)
mpi_get_count (some u) (some s) (some v) =
    if umpi.Iovec.len v == 0
    then none
    else some (mpi_success, some (u32 (s.len / umpi.Iovec.len v)))
