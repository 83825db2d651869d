-- ===== src/Calls/Probe.antt =====
-- umpi.cc, `MPI_Probe`, `MPI_Iprobe` and the `wait_any` that waits for a message. A sleeping
-- call keeps its iterator: the request at which it stands.
pub mod Resume
pub mod Announce
use umpi.Base.{
  ℕ, Bool, true, false, not, ◌||◌, Option, none, some, List, [], ◌∷◌, lt32, ◌==◌, if◌then◌else◌,
}
use umpi.World.{
  World, WaitingFor, recv_match, set_process, not_waiting, waiting_for_incoming, mpi_success,
  mpi_fail, mpi_any_source, mpi_any_tag,
}
use umpi.Mailbox.{find_any}
use umpi.Calls.{Umpi, Comm, is_world, Status, get_status}

-- The checks of `MPI_Probe` and `MPI_Iprobe` on source, tag and communicator; `n` is `umpi->size`.
unfoldable pub probe_refuses : ℕ → ℕ → ℕ → Comm → Bool
probe_refuses n source tag comm =
    lt32 source mpi_any_source || not (lt32 source n) || lt32 tag mpi_any_tag || not (is_world comm)

-- What `MPI_Iprobe` leaves: its result, `*flag` if it was written, and the status.
pub record Iprobed : Type 0 where
  pub ret : ℕ
  pub flag : Option Bool
  pub status : Option Status

abbrev pub iprobe_refused : Option Status → Iprobed
iprobe_refused status = record { ret = mpi_fail; flag = none; status = status }

-- After `find_any`.
unfoldable pub announce : Option Status → World → Option ℕ → Iprobed
announce status w none = record { ret = mpi_success; flag = some false; status = status }
announce status w (some c) =
    let (s, err) = get_status status (w.cookie c) in
    record { ret = err; flag = some true; status = s }

-- `MPI_Iprobe`; the Bool is whether there is a place for `*flag`.
unfoldable pub mpi_iprobe : Option Umpi → ℕ → ℕ → Comm → Bool → Option Status → World → Iprobed
unfolding announce probe_refuses
mpi_iprobe none source tag comm flag status w = iprobe_refused status
mpi_iprobe (some u) source tag comm flag none w = iprobe_refused none
mpi_iprobe (some u) source tag comm flag (some s) w =
    if probe_refuses u.size source tag comm || not flag
    then iprobe_refused (some s)
    else announce (some s) w (find_any u.rank source tag w)

-- Where the loops of `process::wait_any` stand: before an empty inbox, at the last request of the
-- inbox, which does not match, or at one that matches.
pub data Place : Type 0 where
  before_first : Place
  at_last : ℕ → Place
  at_match : ℕ → Place

-- The outer loop, with the iterator at a request and those after it in the inbox.
unfoldable pub walk : (ℕ → Bool) → ℕ → List ℕ → Place
walk p c [] = if p c then at_match c else at_last c
walk p c (d ∷ ds) = let rest = walk p d ds in if p c then at_match c else rest

-- The loops from the start, up to the first sleep.
unfoldable pub walk_from_start : (ℕ → Bool) → List ℕ → Place
unfolding walk
walk_from_start p [] = before_first
walk_from_start p (c ∷ cs) = walk p c cs

-- The requests behind `c` in the inbox.
unfoldable pub after : ℕ → List ℕ → List ℕ
after c [] = []
after c (d ∷ ds) = let rest = after c ds in if d == c then ds else rest

-- The inner loop when it is woken at the request `c`: it sleeps again while `c` is the last one, and
-- the iterator goes on to the next one otherwise.
unfoldable pub step_on : (ℕ → Bool) → ℕ → List ℕ → Place
unfolding walk
step_on p c [] = at_last c
step_on p c (d ∷ ds) = walk p d ds

-- The loops after a wake-up, with the inbox there is then.
unfoldable pub resume : (ℕ → Bool) → Place → List ℕ → Place
unfolding walk_from_start step_on after
resume p before_first box = walk_from_start p box
resume p (at_last c) box = step_on p c (after c box)
resume p (at_match c) box = at_match c

-- How `MPI_Probe` goes on: it sleeps at a place, or it returns.
pub data Probed : Type 0 where
  asleep_at : Place → World → Probed
  told : ℕ → Option Status → World → Probed

abbrev pub wait_for : ℕ → WaitingFor → World → World
wait_for r state w = set_process w r (record (w.process r) { waiting_for = state })

-- The end of `wait_any` and of `MPI_Probe` for a place.
unfoldable pub probe_at : Umpi → Option Status → World → Place → Probed
probe_at u status w before_first = asleep_at before_first w
probe_at u status w (at_last c) = asleep_at (at_last c) w
probe_at u status w (at_match c) =
    let (s, err) = get_status status (w.cookie c) in told err s (wait_for u.rank not_waiting w)

-- One wake-up of `wait_any(source, tag)`.
unfoldable pub probe_round : Umpi → ℕ → ℕ → Option Status → Place → World → Probed
unfolding probe_at resume
probe_round u source tag status place w =
    probe_at u status w
      (resume (λ c. recv_match (w.cookie c) source tag) place (w.process u.rank).inbox)

-- `MPI_Probe` up to its first sleep.
unfoldable pub mpi_probe : Option Umpi → ℕ → ℕ → Comm → Option Status → World → Probed
unfolding probe_round
mpi_probe none source tag comm status w = told mpi_fail status w
mpi_probe (some u) source tag comm none w = told mpi_fail none w
mpi_probe (some u) source tag comm (some s) w =
    if probe_refuses u.size source tag comm
    then told mpi_fail (some s) w
    else probe_round u source tag (some s) before_first (wait_for u.rank waiting_for_incoming w)
