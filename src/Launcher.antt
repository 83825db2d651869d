-- ===== src/Launcher.antt =====
-- mpiexec.cc: the launcher, and the functions of umpi.hh that it calls. What the system calls answer is
-- the argument `System`, and what the launcher does with the shared file and the processes is a list
-- of effects.
pub mod Files
pub mod Length
pub mod Started
use umpi.Base.{
  ℕ, zero, suc, ◌+◌, ◌-◌, ◌*◌, ◌/◌, ◌^◌, Bool, true, false, not, ◌&&◌, ◌||◌, Option, none, some,
  List, [], ◌∷◌, ltb, lt32, leb, u32, u64, sext32, ◌==◌, if◌then◌else◌, length, get_elem?,
}
use umpi.Wrapper.{codes, same_text}
use umpi.Startup.{Shared, Answers, new_shared}
pub use umpi.Mapping.{Sizes}
unfoldable pub use umpi.Mapping.{calc_mmap_len}

-- What `fork` answers, and in the parent the new process's id.
pub data Fork : Type 0 where
  fork_fails : Fork
  in_parent : ℕ → Fork
  in_child : Fork

-- What `wait` reports of a process, or a SIGTERM or SIGINT that comes meanwhile.
pub data Event : Type 0 where
  exited : (pid status : ℕ) → Event
  killed : (pid number : ℕ) → Event
  other_change : (pid : ℕ) → Event
  interrupted : Event

-- Whether the calls succeed, the address of the mapping, and what pthreads answer for the objects of
-- `struct shared`; `munmap` and `remove` are called once at most in a run. `events` is what `wait` reports until it has nothing more to report.
pub record System : Type 0 where
  pub mkstemp : Bool
  pub setenv_mmap : Bool
  pub setenv_size : Bool
  pub ftruncate : Bool
  pub mmap : Option ℕ
  pub close : Bool
  pub sync : ℕ → Answers
  pub munmap : Bool
  pub remove : Bool
  pub fork : ℕ → Fork
  pub setenv_rank : Bool
  pub events : List Event

-- `unmaps` and `removes` are calls that succeed or fail; `executes` is the `execvp` of a child, which returns only where it fails.
pub data Effect : Type 0 where
  creates : Effect
  resizes : ℕ → Effect
  maps : Effect
  constructs : Effect
  unmaps : Bool → Effect
  removes : Bool → Effect
  starts : ℕ → Effect
  executes : ℕ → Effect
  kills_all : Effect

-- What `main` returns, or `exit` is called with, and the effects before, in their order.
pub record Run : Type 0 where
  pub ret : ℕ
  pub effects : List Effect

unfoldable pub first : Effect → Run → Run
first e r = record r { effects = e ∷ r.effects }

abbrev pub ends_with : ℕ → List Effect → Run
ends_with ret effects = record { ret = ret; effects = effects }

-- `munmap` and `remove`, the end of a run; a failure is only reported.
abbrev pub taken_down : System → List Effect
taken_down sys = unmaps sys.munmap ∷ removes sys.remove ∷ []

-- `cleanup`
abbrev pub cleanup : System → Run
cleanup sys = ends_with 1 (kills_all ∷ taken_down sys)

-- The loop over the processes that end.
unfoldable pub supervise : System → List Event → Run
supervise sys [] = ends_with 0 (taken_down sys)
supervise sys (exited pid status ∷ events) =
    let rest = supervise sys events in if status == 0 then rest else cleanup sys
supervise sys (killed pid number ∷ events) = cleanup sys
supervise sys (other_change pid ∷ events) = supervise sys events
supervise sys (interrupted ∷ events) = cleanup sys

-- The child of a rank, up to `execvp`, which fails.
abbrev pub child : System → ℕ → Run
child sys rank =
    if not sys.setenv_rank then ends_with 1 (taken_down sys) else ends_with 1 (executes rank ∷ [])

-- The loop that starts the processes, for `n` ranks from `rank` on, after the `fork` for the first.
unfoldable pub started : System → ℕ → Run → Fork → Run
unfolding first
started sys rank next fork_fails = ends_with 1 (taken_down sys)
started sys rank next (in_parent pid) = first (starts rank) next
started sys rank next in_child = child sys rank

unfoldable pub start_all : System → ℕ → ℕ → Run
unfolding started supervise
start_all sys zero rank = supervise sys sys.events
start_all sys (suc n) rank = started sys rank (start_all sys n (rank + 1)) (sys.fork rank)

-- From the constructor of `struct shared` on, which ends the process by `exit(1)` or gives an object.
unfoldable pub with_object : System → ℕ → Option Shared → Run
unfolding start_all first
with_object sys size none = ends_with 1 []
with_object sys size (some s) = first constructs (start_all sys size 0)

-- The object in a mapping of `len` bytes, cleared by `memset`, at `addr`.
abbrev pub object_at : Sizes → System → ℕ → ℕ → ℕ → Option Shared
object_at k sys size len addr = new_shared k sys.sync size (addr + k.shared) (addr + len) (λ a. 0)

-- `main` from `mmap` on.
unfoldable pub mapped_at : Sizes → System → ℕ → ℕ → Option ℕ → Run
unfolding with_object new_shared first
mapped_at k sys size len none = ends_with 1 (removes sys.remove ∷ [])
mapped_at k sys size len (some addr) = first maps (
    if not sys.close
    then ends_with 1 (taken_down sys)
    else with_object sys size (object_at k sys size len addr))

-- `main` after the checks of its arguments, for `size` processes and a mapping of `len` bytes.
unfoldable pub launch : Sizes → System → ℕ → ℕ → Run
unfolding mapped_at first
launch k sys size len =
    if not sys.mkstemp
    then ends_with 1 []
    else first creates (
        if not sys.setenv_mmap || not sys.setenv_size || not sys.ftruncate
        then ends_with 1 (removes sys.remove ∷ [])
        else first (resizes len) (mapped_at k sys size len sys.mmap))

-- `argc < 4 || strcmp(argv[1], "-np")`
unfoldable pub bad_usage : List (List ℕ) → Bool
bad_usage (program ∷ option ∷ size ∷ command ∷ rest) = not (same_text option (codes "-np"))
bad_usage _ = true

abbrev pub size_argument : List (List ℕ) → List ℕ
size_argument (program ∷ option ∷ size ∷ rest) = size
size_argument _ = []

-- `main`, where `atoi` is the C library's.
unfoldable pub main : (atoi : List ℕ → ℕ) → Sizes → System → List (List ℕ) → Run
unfolding bad_usage launch calc_mmap_len
main atoi k sys args =
    let size = atoi (size_argument args) in
    if bad_usage args || not (lt32 0 size) || lt32 10000 size
    then ends_with 1 []
    else launch k sys size (calc_mmap_len k size)

-- `shared::find_rank`: the first process with the id; `none` is -1.
unfoldable pub find_rank : (ℕ → ℕ) → ℕ → ℕ → ℕ → Option ℕ
find_rank pids zero i pid = none
find_rank pids (suc n) i pid =
    let rest = find_rank pids n (i + 1) pid in if pids i == pid then some i else rest
