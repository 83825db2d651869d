-- ===== src/Startup/Calling.antt =====
-- umpi.cc, `struct umpi`, MPI_Init and MPI_Finalize, and the other calls on the environment: what they
-- do in one process. A wait for the barrier is counted here; who waits for whom is in Startup/Group.
use umpi.Base.{
  [], ◌∷◌, ◌-◌, ◌^◌, ◌==◌, ℕ, ◌+◌, Bool, not, ◌&&◌, ◌||◌, Option, none, some, List, take, get_or,
  length, ltb, if◌then◌else◌,
}
use umpi.World.{World, mpi_success, mpi_fail}
use umpi.Calls.{Umpi, Comm, is_world}
use umpi.Mapping.{Sizes, requests_for, len_for}
use umpi.Startup.{Shared, Answers, new_shared, init}

-- MPI_MAX_PROCESSOR_NAME
abbrev pub max_processor_name : ℕ
max_processor_name = 256

-- `struct umpi`: besides what the other calls read, `processor_name` and its length.
pub record Self : Type 0 where
  pub umpi : Umpi
  pub name : ℕ → ℕ
  pub name_len : ℕ

-- A process: the pointer `umpi`, the shared memory, the object that it has constructed in it, if it
-- has, how often it has called `barrier.wait()`; `mmap_addr`, `mmap_len` and
-- UMPI_OUTSTANDING_REQUESTS_PER_PROCESS; and the mappings that it has, as addresses and lengths.
pub record Local : Type 0 where
  pub self : Option Self
  pub world : World
  pub shared : Option Shared
  pub waits : ℕ
  pub mmap_addr : ℕ
  pub mmap_len : ℕ
  pub outstanding : ℕ
  pub mappings : List (ℕ × ℕ)

-- What the system answers: the host's name, whether UMPI_MMAP is set, `atoi` of UMPI_SIZE and
-- UMPI_RANK, whether `open` and `close` succeed, the address of the mapping if `mmap` succeeds, the
-- process id, the text of `snprintf` for a host and an id, and pthreads for the objects of `struct
-- shared` and of `class process`.
pub record System : Type 0 where
  pub gethostname : Option (List ℕ)
  pub umpi_mmap : Bool
  pub size : ℕ
  pub rank : ℕ
  pub opened : Bool
  pub mmap : Option ℕ
  pub closed : Bool
  pub pid : ℕ
  pub format : List ℕ → ℕ → List ℕ
  pub sync : ℕ → Answers
  pub mutex : Answers
  pub cond : Answers

-- MAP_FAILED
abbrev pub map_failed : ℕ
map_failed = 2 ^ 64 - 1

-- `MPI_Init` returns, or the process ends in it.
pub data Init : Type 0 where
  ended : Init
  returns : ℕ → Local → Init

-- What `snprintf` leaves in `processor_name`: as much of a text as fits, and zero.
unfoldable pub cut : List ℕ → ℕ → ℕ
cut text i = get_or (take (255) text) i 0

module _ (sys : System) where
  -- The end of the constructor, after `shared::init`.
  unfoldable pub named : ℕ → ℕ → List ℕ → Local → Option World → Option Local
  unfolding cut
  named size rank host l none = none
  named size rank host l (some w) =
      let text = sys.format host (w.process rank).pid in
      some (record l {
        self = some (record {
          umpi = record { size = size; rank = rank; trigger = l.outstanding };
          name = cut text;
          name_len = length text;
        });
        world = w;
        waits = l.waits + 1;
      })

  -- `umpi(size, rank, host)`, up to what its call of `barrier.wait()` waits for.
  unfoldable pub new_umpi : ℕ → ℕ → List ℕ → Local → Option Local
  unfolding named init
  new_umpi size rank host l = named size rank host l (init sys.mutex sys.cond rank sys.pid l.world)

  unfoldable pub as_result : Option Local → Init
  as_result none = ended
  as_result (some l) = returns mpi_success l

  -- The mapping: `calc_mmap_len`, and then `mmap`, of which the address is given if it succeeds.
  unfoldable pub map_shared : Sizes → ℕ → Option ℕ → Local → Local
  unfolding requests_for len_for
  map_shared k size addr l =
      let requests = requests_for l.outstanding size in
      let len = len_for k requests size in
      record l {
        mmap_addr = elim addr [ none ↦ map_failed | some a ↦ a ];
        mmap_len = len;
        outstanding = requests;
        mappings = elim addr [ none ↦ l.mappings | some a ↦ (a, len) ∷ l.mappings ];
      }

  -- After `mmap` with UMPI_MMAP.
  unfoldable pub with_mapping : List ℕ → Option ℕ → Local → Init
  unfolding as_result new_umpi
  with_mapping host none l = returns mpi_fail l
  with_mapping host (some a) l =
      if not sys.closed then returns mpi_fail l else as_result (new_umpi sys.size sys.rank host l)

  -- With UMPI_MMAP.
  unfoldable pub with_mmap : Sizes → List ℕ → Local → Init
  unfolding with_mapping map_shared
  with_mmap k host l =
      if not sys.opened
      then returns mpi_fail l
      else with_mapping host sys.mmap (map_shared k sys.size sys.mmap l)

  -- Without UMPI_MMAP, from the object on: `struct umpi` is made twice.
  unfoldable pub twice : List ℕ → Local → Option Shared → Init
  unfolding as_result new_umpi
  twice host l none = ended
  twice host l (some s) = elim (new_umpi 1 0 host (record l { shared = some s })) [
    | none ↦ ended
    | some l' ↦ as_result (new_umpi 1 0 host l')
  ]

  -- Without UMPI_MMAP, after `mmap`.
  unfoldable pub cleared : Sizes → List ℕ → Option ℕ → Local → Init
  unfolding twice new_shared
  cleared k host none l = returns mpi_fail l
  cleared k host (some a) l =
      twice host l (new_shared k sys.sync 1 (a + k.shared) (a + l.mmap_len) (λ b. 0))

  unfoldable pub artificial : Sizes → List ℕ → Local → Init
  unfolding cleared map_shared
  artificial k host l = cleared k host sys.mmap (map_shared k 1 sys.mmap l)

  -- `MPI_Init`
  unfoldable pub mpi_init : Sizes → Local → Init
  unfolding with_mmap artificial
  mpi_init k l = elim l.self [
    | some _ ↦ returns mpi_fail l
    | none ↦ elim sys.gethostname [
      | none ↦ returns mpi_fail l
      | some host ↦ if sys.umpi_mmap then with_mmap k host l else artificial k host l
    ]
  ]

-- What `munmap` leaves of the mappings.
unfoldable pub without_mapping : ℕ → ℕ → List (ℕ × ℕ) → List (ℕ × ℕ)
without_mapping addr len [] = []
without_mapping addr len (m ∷ ms) =
    let rest = without_mapping addr len ms in if m.0 == addr && m.1 == len then ms else m ∷ rest

-- `MPI_Finalize`, with the destructor of `struct umpi`; the Bool is whether `munmap` succeeds.
unfoldable pub mpi_finalize : Bool → Local → ℕ × Local
unfolding without_mapping
mpi_finalize munmap l = elim l.self [
  | none ↦ (mpi_fail, l)
  | some _ ↦ (
    if munmap then mpi_success else mpi_fail,
    record l {
      self = none;
      waits = l.waits + 1;
      mappings = if munmap then without_mapping l.mmap_addr l.mmap_len l.mappings else l.mappings;
    },
  )
]

-- `MPI_Barrier`
unfoldable pub mpi_barrier : Comm → Local → ℕ × Local
mpi_barrier comm l = elim l.self [
  | none ↦ (mpi_fail, l)
  | some _ ↦
      if not (is_world comm) then (mpi_fail, l) else (mpi_success, record l { waits = l.waits + 1 })
]

-- `MPI_Abort`: the exit status where the process ends, and none where the call returns MPI_FAIL.
unfoldable pub mpi_abort : Comm → ℕ → Option ℕ
mpi_abort comm errorcode = if not (is_world comm) then none else some errorcode

-- `MPI_Get_address`: what it returns, and `*address`.
unfoldable pub mpi_get_address : ℕ → ℕ × ℕ
mpi_get_address location = (mpi_success, location)

-- `MPI_Get_processor_name`: on success `*resultlen` and the bytes at `name`, which were `old`; the two
-- Bools are whether there are places for them.
unfoldable pub mpi_get_processor_name : Option Self → Bool → Bool → (ℕ → ℕ) → Option (ℕ × (ℕ → ℕ))
mpi_get_processor_name none name resultlen old = none
mpi_get_processor_name (some s) name resultlen old =
    if not name || not resultlen
    then none
    else some (s.name_len, λ i. if ltb i (s.name_len + 1) then s.name i else old i)
