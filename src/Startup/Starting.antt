-- ===== src/Startup/Starting.antt =====
-- The life of a process of the library: MPI_Init, the calls on the environment, MPI_Finalize.
use umpi.Base.{
  ℕ, ◌+◌, ◌*◌, ◌<◌, ◌≤◌, ◌^◌, ◌≡◌, refl, ap, ◌∙◌, ◌≢◌, Bool, true, false, not, ◌&&◌, ◌||◌, Option,
  none, some, ◌∷◌, List, length, arith, update, update_self, update_other, if◌then◌else◌,
}
use umpi.World.{World, mpi_success, mpi_fail}
use umpi.Calls.{Umpi, comm_world}
use umpi.Environment.{mpi_initialized, mpi_comm_rank, mpi_comm_size}
use umpi.Mapping.{Sizes, calc_mmap_len, requests_for, len_for}
use umpi.Launcher.Length.{needed}
use umpi.Startup.{
  Shared, Answers, new_shared, new_mutex, new_condition_variable, new_process, init, new_barrier,
  new_mutexes, slot_count, node_size,
}
use umpi.Startup.Calling.{
  Local, System, Init, ended, returns, cut, named, new_umpi, as_result, with_mmap, with_mapping,
  map_shared, map_failed, cleared, twice, artificial, mpi_init, mpi_finalize,
}
use umpi.Startup.Room.{new_shared_lem, megabyte}

-- The object behind the pointer `umpi`, as the other calls read it.
abbrev pub umpi_of : Local → Option Umpi
umpi_of l = elim l.self [ none ↦ none | some s ↦ some s.umpi ]

abbrev is_some {ℓ} : {A : Type ℓ} → Option A → Bool
is_some none = false
is_some (some _) = true

-- The process runs: it has an object, of a size and a rank, its own mailbox is new, and the others'
-- are as before.
pub record Runs (sys : System) (size rank : ℕ) (l l' : Local) : Type 0 where
  pub size_ : mpi_comm_size (umpi_of l') comm_world true ≡ some size
  pub rank_ : mpi_comm_rank (umpi_of l') comm_world true ≡ some rank
  pub mailbox : l'.world.process rank ≡ new_process sys.pid
  pub others : (r : ℕ) → r ≢ rank → l'.world.process r ≡ l.world.process r
  pub cookies : l'.world.cookie ≡ l.world.cookie
  pub memory : l'.world.memory ≡ l.world.memory

pub init-ready :
    (mutex cond : Answers) (rank pid : ℕ) (w : World)
    → (new_mutex mutex && new_condition_variable cond) ≡ true
    → init mutex cond rank pid w
      ≡ some (record w { process = update w.process rank (new_process pid) })
unfolding init
init-ready mutex cond rank pid w ready = rw ready refl

-- The process after the constructor.
abbrev constructed : System → ℕ → ℕ → List ℕ → Local → Local
constructed sys size rank host l = record l {
  self = some (record {
    umpi = record { size = size; rank = rank; trigger = l.outstanding };
    name = cut (sys.format host (update l.world.process rank (new_process sys.pid) rank).pid);
    name_len =
        length (sys.format host (update l.world.process rank (new_process sys.pid) rank).pid);
  });
  world = record l.world { process = update l.world.process rank (new_process sys.pid) };
  waits = l.waits + 1;
}

new_umpi-ready :
    (sys : System) (size rank : ℕ) (host : List ℕ) (l : Local)
    → (new_mutex sys.mutex && new_condition_variable sys.cond) ≡ true
    → new_umpi sys size rank host l ≡ some (constructed sys size rank host l)
unfolding new_umpi named
new_umpi-ready sys size rank host l ready =
    ap (named sys size rank host l) (init-ready sys.mutex sys.cond rank sys.pid l.world ready)

constructed-Runs :
    (sys : System) (size rank : ℕ) (host : List ℕ) (l : Local)
    → Runs sys size rank l (constructed sys size rank host l)
unfolding mpi_comm_size mpi_comm_rank
constructed-Runs sys size rank host l = record {
  size_ = refl;
  rank_ = refl;
  mailbox = update_self l.world.process rank (new_process sys.pid);
  others = λ r ne. update_other l.world.process rank r (new_process sys.pid) ne;
  cookies = refl;
  memory = refl;
}

-- In a process of the launcher, where each call of the system succeeds and pthreads answer, MPI_Init
-- succeeds: the size and the rank are those of the environment, the process's own mailbox is new and
-- the others' are untouched, and the process has waited for the barrier once. A second MPI_Init is
-- refused and changes nothing. After MPI_Finalize, which waits once more and succeeds if `munmap`
-- does, the library counts as not initialised.
pub mpi_init_launched :
    (k : Sizes) (sys sys' : System) (l : Local) (host : List ℕ) (addr : ℕ) (munmap : Bool)
    → sys.umpi_mmap ≡ true
    → l.self ≡ none
    → sys.gethostname ≡ some host
    → sys.opened ≡ true
    → sys.mmap ≡ some addr
    → sys.closed ≡ true
    → (new_mutex sys.mutex && new_condition_variable sys.cond) ≡ true
    → (l' : Local) × (mpi_init sys k l ≡ returns mpi_success l')
      × Runs sys sys.size sys.rank l l'
      × (l'.waits ≡ l.waits + 1)
      × (mpi_initialized (umpi_of l') ≡ true)
      × (mpi_init sys' k l' ≡ returns mpi_fail l')
      × ((mpi_finalize munmap l').0 ≡ (if munmap then mpi_success else mpi_fail))
      × ((mpi_finalize munmap l').1.waits ≡ l.waits + 2)
      × (mpi_initialized (umpi_of (mpi_finalize munmap l').1) ≡ false)
unfolding mpi_init with_mmap with_mapping map_shared as_result mpi_finalize mpi_initialized
mpi_init_launched k sys sys' l host addr munmap env fresh host_is opened mapped closed ready =
    let l1 = map_shared sys k sys.size (some addr) l in
    let runs = constructed-Runs sys sys.size sys.rank host l1 in
    (
      constructed sys sys.size sys.rank host l1,
      rw (fresh, host_is, env, opened, mapped, closed)
          (ap (as_result sys) (new_umpi-ready sys sys.size sys.rank host l1 ready)),
      record {
        size_ = runs.size_;
        rank_ = runs.rank_;
        mailbox = runs.mailbox;
        others = runs.others;
        cookies = refl;
        memory = refl;
      },
      refl,
      refl,
      refl,
      refl,
      omega arith,
      refl,
    )

-- What a failing MPI_Init leaves of a process: the process itself, if it fails before `mmap` is called;
-- otherwise the length and the answer of `mmap` are stored, and a mapping that was made stays.
abbrev pub left_by : Sizes → System → Local → Local
left_by k sys l =
    if is_some l.self || not (is_some sys.gethostname) || (sys.umpi_mmap && not sys.opened)
    then l
    else let size = if sys.umpi_mmap then sys.size else 1 in
      let requests = requests_for l.outstanding size in
      record l {
        mmap_addr = elim sys.mmap [ none ↦ map_failed | some a ↦ a ];
        mmap_len = len_for k requests size;
        outstanding = requests;
        mappings = elim sys.mmap [
          | none ↦ l.mappings
          | some a ↦ (a, len_for k requests size) ∷ l.mappings
        ];
      }

-- Where a call of the system fails that MPI_Init needs (`gethostname` or `mmap`, and in a process of
-- the launcher `open` or `close`), or where the library is initialised already, MPI_Init returns
-- MPI_FAIL, and the object behind `umpi`, the shared memory and the count of waits are as before. If
-- the library is initialised, or `gethostname` or `open` fails, everything is as before. Otherwise
-- `mmap_len`, `mmap_addr` and UMPI_OUTSTANDING_REQUESTS_PER_PROCESS are set: where `mmap` fails,
-- `mmap_addr` is MAP_FAILED and there is no new mapping; where `close` fails, the new mapping is left.
pub mpi_init_fails :
    (k : Sizes) (sys : System) (l : Local)
    → (is_some l.self
        || not (is_some sys.gethostname)
        || not (is_some sys.mmap)
        || (sys.umpi_mmap && (not sys.opened || not sys.closed)))
      ≡ true
    → (mpi_init sys k l ≡ returns mpi_fail (left_by k sys l))
      × ((left_by k sys l).self ≡ l.self)
      × ((left_by k sys l).world ≡ l.world)
      × ((left_by k sys l).shared ≡ l.shared)
      × ((left_by k sys l).waits ≡ l.waits)
unfolding mpi_init with_mmap with_mapping artificial cleared map_shared
mpi_init_fails k sys l h =
    (ground (arith, h), ground arith, ground arith, ground arith, ground arith)

-- Without the launcher, where `gethostname` and `mmap` succeed and pthreads answer, MPI_Init succeeds
-- as rank 0 of one process, over a new object of `struct shared` whose barrier is for one process, and
-- with space in the pool for its two request nodes. It waits for the barrier twice, and the mapping of
-- `calc_mmap_len` bytes is the new one. It is supposed that UMPI_OUTSTANDING_REQUESTS_PER_PROCESS is
-- 0, as it is in a new process, and that the mapping lies below 2 ^ 63.
pub mpi_init_alone :
    (k : Sizes) (sys : System) (l : Local) (host : List ℕ) (addr : ℕ)
    → sys.umpi_mmap ≡ false
    → l.self ≡ none
    → l.outstanding ≡ 0
    → sys.gethostname ≡ some host
    → sys.mmap ≡ some addr
    → (new_mutex sys.mutex && new_condition_variable sys.cond) ≡ true
    → (new_barrier (sys.sync 0) && new_mutexes sys.sync (2 + slot_count) 1) ≡ true
    → 0 < k.page
    → 0 < k.process
    → k.reserve ≡ megabyte
    → needed k 1 + k.page < 2 ^ 63
    → addr + calc_mmap_len k 1 < 2 ^ 63
    → (l' : Local) × (s : Shared) × (mpi_init sys k l ≡ returns mpi_success l')
      × Runs sys 1 0 l l'
      × (l'.waits ≡ l.waits + 2)
      × (l'.shared ≡ some s)
      × (s.barrier ≡ 1)
      × (2 * node_size k ≤ s.pool.space)
      × (l'.mappings ≡ (addr, calc_mmap_len k 1) ∷ l.mappings)
unfolding mpi_init artificial cleared map_shared twice as_result calc_mmap_len
mpi_init_alone k sys l host addr env fresh first host_is mapped ready sync page process reserve room
      low =
    let (s, made, count, space) =
      new_shared_lem k sys.sync 1 addr (λ b. 0) (omega arith) (omega arith) page process reserve
        room low sync in
    let l0 = map_shared sys k 1 (some addr) l in
    let l1 = constructed sys 1 0 host (record l0 { shared = some s }) in
    let runs = constructed-Runs sys 1 0 host l1 in
    (
      constructed sys 1 0 host l1,
      s,
      rw (fresh, host_is, env, mapped)
          (ap
              (λ n. twice sys host l0 (
                new_shared k sys.sync 1 (addr + k.shared) (addr + len_for k (requests_for n 1) 1)
                  (λ b. 0)))
              first
            ∙ ap (twice sys host l0) made
            ∙ ap
                (λ x. elim x as (λ _. Init) [
                  | none ↦ ended
                  | some l' ↦ as_result sys (new_umpi sys 1 0 host l')
                ])
                (new_umpi-ready sys 1 0 host (record l0 { shared = some s }) ready)
            ∙ ap (as_result sys) (new_umpi-ready sys 1 0 host l1 ready)),
      record {
        size_ = runs.size_;
        rank_ = runs.rank_;
        mailbox = runs.mailbox;
        others =
            λ r ne. runs.others r ne ∙ update_other l.world.process 0 r (new_process sys.pid) ne;
        cookies = refl;
        memory = refl;
      },
      omega arith,
      refl,
      count,
      omega (arith, space),
      ap (λ n. (addr, len_for k (requests_for n 1) 1) ∷ l.mappings) first,
    )
