-- ===== src/Startup.antt =====
-- umpi.hh, the constructors of `struct shared`, `class process` and `class collect` with the predefined
-- descriptions of datatypes; ipc.hh, the objects of pthreads; and umpi.cc, `shared::init`.
pub mod Room
pub mod Layout
pub mod Places
pub mod Calling
pub mod Starting
pub mod Group
use umpi.Base.{
  ℕ, zero, suc, ◌+◌, ◌*◌, Bool, true, false, not, ◌&&◌, Option, none, some, List, [], ◌∷◌, ltb,
  if◌then◌else◌, update, sext32,
}
use umpi.Iovec.{Iovec, entry}
use umpi.World.{World, Process, not_waiting, set_process}
use umpi.Pool.{Pool, new_pool, Allocation, null, block, no_memory, allocate}
use umpi.Collect.{Slot}
use umpi.Mapping.{Sizes}
use umpi.Datatype.{Handle, IovecPointer, shared}

-- What pthreads answer when an object is made: whether the attribute, its sharing between processes
-- and the object itself are set up.
pub record Answers : Type 0 where
  pub attr_init : Bool
  pub setpshared : Bool
  pub init : Bool

-- The constructors of ipc.hh; false where they end the process.
unfoldable pub new_mutex : Answers → Bool
new_mutex a = if not a.attr_init then false else if not a.setpshared then false else a.init

unfoldable pub new_condition_variable : Answers → Bool
new_condition_variable a =
    if not a.attr_init then false else if not a.setpshared then false else a.init

unfoldable pub new_barrier : Answers → Bool
new_barrier a = if not a.attr_init then false else if not a.setpshared then false else a.init

-- `n` mutexes in a row, of which the first is the object `i`.
unfoldable pub new_mutexes : (ℕ → Answers) → ℕ → ℕ → Bool
unfolding new_mutex
new_mutexes sync zero i = true
new_mutexes sync (suc n) i = let rest = new_mutexes sync n (i + 1) in new_mutex (sync i) && rest

-- `process()`
unfoldable pub new_process : ℕ → Process
new_process pid = record {
  pid = pid;
  free = [];
  inbox = [];
  outbox = [];
  pending = [];
  waiting = none;
  waiting_for = not_waiting;
  signals = 0;
}

-- `collect()`; the numbers at `displs_` are what lies there. The mapping is cleared before the objects
-- are made in it.
unfoldable pub new_collect : (ℕ → ℕ) → Slot
new_collect displs = record { ticket = 0; joined = 0; box = []; displs = displs; locked = false }

-- The predefined datatypes.
pub data Predefined : Type 0 where
  packed byte char unsigned_char short unsigned_short int unsigned : Predefined
  long unsigned_long float double long_double : Predefined

-- `umpi_id` of each.
unfoldable pub umpi_id : Predefined → ℕ
umpi_id packed = 2
umpi_id byte = 3
umpi_id char = 4
umpi_id unsigned_char = 5
umpi_id short = 6
umpi_id unsigned_short = 7
umpi_id int = 8
umpi_id unsigned = 9
umpi_id long = 10
umpi_id unsigned_long = 11
umpi_id float = 12
umpi_id double = 13
umpi_id long_double = 14

-- The length of one; `sizeof` gives the sizes of the C types.
abbrev pub size_of : (Predefined → ℕ) → Predefined → ℕ
size_of sizeof packed = 1
size_of sizeof byte = 1
size_of sizeof t = sizeof t

-- `umpi_iovec(id, len)`
abbrev pub new_iovec : ℕ → ℕ → Iovec
new_iovec id len = entry id len ∷ []

-- `iovec_packed_` to `iovec_long_double_` of `struct shared`.
unfoldable pub predefined : (Predefined → ℕ) → Predefined → Iovec
unfolding umpi_id
predefined sizeof t = new_iovec (umpi_id t) (size_of sizeof t)

-- `struct shared`: the count of its barrier, `size_`, the pool, the addresses of `procs` and of `displs_`
-- of each slot, and the slots.
pub record Shared : Type 0 where
  pub barrier : ℕ
  pub size : ℕ
  pub pool : Pool
  pub procs : ℕ
  pub displs : ℕ → ℕ
  pub slots : ℕ → Slot

-- An allocator's answer: the address and the pool; none where the process ends.
unfoldable pub taken : Pool → Allocation → Option (ℕ × Pool)
taken p null = some (0, p)
taken p (block a q) = some (a, q)
taken p no_memory = none

-- The loop of the constructor from the slot `i` on, with `n` slots to go: `size` ints for each.
unfoldable pub take_displs : ℕ → ℕ → ℕ → ℕ → (ℕ → ℕ) → Pool → Option ((ℕ → ℕ) × Pool)
unfolding taken allocate
take_displs node size zero i displs p = some (displs, p)
take_displs node size (suc n) i displs p = elim (taken p (allocate node 4 size p)) [
  | none ↦ none
  | some r ↦ take_displs node size n (i + 1) (update displs i r.0) r.1
]

-- `sizeof(cookie) + 2 * sizeof(cookie_pointer)`: a node of a list of requests.
abbrev pub node_size : Sizes → ℕ
node_size k = k.cookie + 2 * k.cookie_pointer

-- UMPI_OUTSTANDING_COLLECTIVE_OPERATIONS
abbrev pub slot_count : ℕ
slot_count = 16

-- The object, whose processes are at `procs`, once the loop is done.
unfoldable pub object : ℕ → ℕ → Option ((ℕ → ℕ) × Pool) → Option Shared
unfolding new_collect
object size procs none = none
object size procs (some d) = some (record {
  barrier = size;
  size = size;
  pool = d.1;
  procs = procs;
  displs = d.0;
  slots = λ i. new_collect (λ j. 0);
})

-- The allocations of the constructor: `n` processes, and then `n` ints for each slot.
unfoldable pub with_displs : Sizes → ℕ → ℕ → ℕ × Pool → Option Shared
unfolding take_displs object
with_displs k size n r = object size r.0 (take_displs (node_size k) n slot_count 0 (λ i. 0) r.1)

unfoldable pub with_procs : Sizes → ℕ → ℕ → Pool → Option Shared
unfolding taken allocate with_displs
with_procs k size n p = elim (taken p (allocate (node_size k) k.process n p)) [
  | none ↦ none
  | some r ↦ with_displs k size n r
]

-- `shared(size, begin, end)`; none where the process ends. The objects of pthreads are the barrier,
-- the mutexes of `struct shared` and of the pool, and those of the slots.
unfoldable pub new_shared : Sizes → (ℕ → Answers) → ℕ → ℕ → ℕ → (ℕ → ℕ) → Option Shared
unfolding new_barrier new_mutexes new_pool with_procs
new_shared k sync size begin end memory =
    if not (new_barrier (sync 0) && new_mutexes sync (2 + slot_count) 1)
    then none
    else with_procs k size (sext32 size) (new_pool begin end memory)

-- `shared::init`, of the process with the id `pid`, with its mutex and its condition variable; none
-- where the process ends.
unfoldable pub init : Answers → Answers → ℕ → ℕ → World → Option World
unfolding new_mutex new_condition_variable new_process
init mutex cond rank pid w =
    if not (new_mutex mutex && new_condition_variable cond)
    then none
    else some (set_process w rank (new_process pid))

-- The handle of a predefined datatype, before and after `shared::init`; `at` is where the members of
-- `struct shared` lie in the shared memory.
abbrev pub uninstalled : Handle
uninstalled = some (record { iovec = IovecPointer.null })

unfoldable pub installed : (Predefined → ℕ) → (Predefined → ℕ) → Predefined → Handle
unfolding predefined
installed sizeof at t = some (record { iovec = shared (at t) (predefined sizeof t) })
