-- ===== src/Tests/Starting.antt =====
-- The properties of the start of the library at samples.
use umpi.Base.{
  ℕ, ◌⊎◌, ◌+◌, ◌*◌, ◌/◌, ◌≤◌, ◌≡◌, refl, Bool, true, false, none, some, [], ◌∷◌, arith, leb, update,
}
use umpi.World.{mpi_success, mpi_fail}
use umpi.Launcher.{Sizes, calc_mmap_len, find_rank}
use umpi.Launcher.Length.{needed}
use umpi.Environment.{mpi_initialized}
use umpi.Startup.{
  Answers, Shared, new_shared, node_size, new_process, init, new_mutex, new_condition_variable,
  new_barrier, new_mutexes,
}
use umpi.Startup.Room.{new_shared_lem}
use umpi.Startup.Places.{new_shared-apart}
use umpi.Startup.Calling.{System, Local, mpi_init, mpi_finalize, returns}
use umpi.Startup.Starting.{
  Runs, umpi_of, left_by, mpi_init_launched, mpi_init_fails, mpi_init_alone,
}
use umpi.Startup.Group.{Group, Reach, launched, next, initialises, passes}
use umpi.Startup.Group.Meeting.{Reach-meets}
use umpi.Tests.Samples.{silent}

abbrev good : Answers
good = record { attr_init = true; setpshared = true; init = true }

abbrev system : Bool → System
system env = record {
  gethostname = some (104 ∷ []);
  umpi_mmap = env;
  size = 4;
  rank = 2;
  opened = true;
  mmap = some 8192;
  closed = true;
  pid = 71;
  format = λ host pid. host;
  sync = λ i. good;
  mutex = good;
  cond = good;
}

abbrev sizes : Sizes
sizes = record {
  shared = 6000;
  process = 200;
  cookie = 56;
  cookie_pointer = 8;
  reserve = 1024 * 1024;
  page = 4096;
}

abbrev begun : Local
begun = record {
  self = none;
  world = silent;
  shared = none;
  waits = 0;
  mmap_addr = 0;
  mmap_len = 0;
  outstanding = 0;
  mappings = [];
}

new_shared_lem_example :
    (s : Shared) × (new_shared sizes
        (λ i. good)
        4
        (8192 + 6000)
        (8192 + calc_mmap_len sizes 4)
        (λ a. 0)
      ≡ some s)
    × (s.barrier ≡ 4)
    × (node_size sizes * (2 * 4) * 4 ≤ s.pool.space)
unfolding needed calc_mmap_len new_barrier new_mutexes
new_shared_lem_example =
    new_shared_lem sizes (λ i. good) 4 8192 (λ a. 0) (omega arith) (omega arith) (omega arith)
      (omega arith) refl (omega arith) (omega arith) refl

mpi_init_launched_example :
    (l' : Local) × (mpi_init (system true) sizes begun ≡ returns mpi_success l')
    × Runs (system true) 4 2 begun l'
    × (l'.waits ≡ 0 + 1)
    × (mpi_initialized (umpi_of l') ≡ true)
    × (mpi_init (system false) sizes l' ≡ returns mpi_fail l')
    × ((mpi_finalize true l').0 ≡ mpi_success)
    × ((mpi_finalize true l').1.waits ≡ 0 + 2)
    × (mpi_initialized (umpi_of (mpi_finalize true l').1) ≡ false)
unfolding new_mutex new_condition_variable
mpi_init_launched_example =
    mpi_init_launched sizes (system true) (system false) begun (104 ∷ []) 8192 true refl refl refl
      refl refl refl refl

-- `close` fails, and the mapping stays.
abbrev unclosed : System
unclosed = record (system true) { closed = false }

mpi_init_fails_example :
    (mpi_init unclosed sizes begun ≡ returns mpi_fail (left_by sizes unclosed begun))
    × ((left_by sizes unclosed begun).self ≡ none)
    × ((left_by sizes unclosed begun).world ≡ silent)
    × ((left_by sizes unclosed begun).shared ≡ none)
    × ((left_by sizes unclosed begun).waits ≡ 0)
mpi_init_fails_example = mpi_init_fails sizes unclosed begun refl

mpi_init_alone_example :
    (l' : Local) × (s : Shared) × (mpi_init (system false) sizes begun ≡ returns mpi_success l')
    × Runs (system false) 1 0 begun l'
    × (l'.waits ≡ 0 + 2)
    × (l'.shared ≡ some s)
    × (s.barrier ≡ 1)
    × (2 * node_size sizes ≤ s.pool.space)
    × (l'.mappings ≡ (8192, calc_mmap_len sizes 1) ∷ [])
unfolding needed calc_mmap_len new_barrier new_mutexes new_mutex new_condition_variable
mpi_init_alone_example =
    mpi_init_alone sizes (system false) begun (104 ∷ []) 8192 refl refl refl refl refl refl refl
      (omega arith) (omega arith) refl (omega arith) (omega arith)

-- Two processes, of which the first has returned from MPI_Init.
abbrev ids : ℕ → ℕ
ids r = 100 + r

abbrev open_door : ℕ → ℕ → Bool
open_door i total = leb ((i / 2 + 1) * 2) total

abbrev both_in : Group
both_in = record {
  entered = update (update (λ r. 0) 0 1) 1 1;
  left = update (λ r. 0) 0 1;
  last = update (update (λ r. 0) 0 0) 1 1;
  total = 2;
  world = record silent {
    process = update (update silent.process 0 (new_process 100)) 1 (new_process 101);
  };
}

one_left : Reach 2 ids open_door both_in
unfolding new_process init new_mutex new_condition_variable
one_left =
    next
      (next
        (next (launched (λ r. 0) silent) (
          initialises 0 good good
            (record silent { process = update silent.process 0 (new_process 100) }) (omega arith)
            refl refl refl))
        (initialises 1 good good both_in.world (omega arith) refl refl refl))
      (passes 0 (omega arith) (omega arith) refl refl)

Reach-meets_example :
    (both_in.left 0 ≤ both_in.entered 1)
    × ((both_in.world.process 1).pid ≡ ids 1)
    × (find_rank (λ j. (both_in.world.process j).pid) 2 0 (ids 1) ≡ some 1)
Reach-meets_example =
    Reach-meets 2 ids open_door both_in 0 1 (λ i total k open_ low. ground (arith, open_, low))
      (λ i j _ _ e. omega (arith, e)) one_left (omega arith) (omega arith) (omega arith)

-- The object for four processes.
there :
    (s : Shared) × (new_shared sizes
        (λ i. good)
        4
        (8192 + 6000)
        (8192 + calc_mmap_len sizes 4)
        (λ a. 0)
      ≡ some s)
unfolding needed calc_mmap_len new_barrier new_mutexes
there =
    let (s, made, _, _) =
      new_shared_lem sizes (λ i. good) 4 8192 (λ a. 0) (omega arith) (omega arith) (omega arith)
        (omega arith) refl (omega arith) (omega arith) refl in
    (s, made)

new_shared-apart_example :
    (8192 + 6000 ≤ there.0.procs)
    × (there.0.procs + 4 * 200 ≤ 8192 + calc_mmap_len sizes 4)
    × (8192 + 6000 ≤ there.0.displs 2)
    × (there.0.displs 2 + 4 * 4 ≤ 8192 + calc_mmap_len sizes 4)
    × ((there.0.procs + 4 * 200 ≤ there.0.displs 2) ⊎ (there.0.displs 2 + 4 * 4 ≤ there.0.procs))
    × ((there.0.displs 2 + 4 * 4 ≤ there.0.displs 5)
        ⊎ (there.0.displs 5 + 4 * 4 ≤ there.0.displs 2))
unfolding calc_mmap_len
new_shared-apart_example =
    new_shared-apart sizes (λ i. good) 4 (8192 + 6000) (8192 + calc_mmap_len sizes 4) (λ a. 0)
      there.0 2 5 (omega arith) (omega arith) (omega arith) (omega arith) (omega arith)
      (omega arith) there.1 (omega arith) (omega arith) (λ e. omega (arith, e))
