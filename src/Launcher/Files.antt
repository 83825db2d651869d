-- ===== src/Launcher/Files.antt =====
-- The launcher's file and the processes that it starts.
use umpi.Base.{
  ℕ, zero, suc, ◌+◌, ◌≡◌, ◌≢◌, refl, Bool, true, false, not, ◌||◌, ◌&&◌, inl, inr, Option, none,
  some, List, [], ◌∷◌, arith, Bool-cases, if◌then◌else◌, lt32,
}
use umpi.Startup.{Shared}
use umpi.Launcher.{
  Fork, fork_fails, in_parent, in_child, Event, exited, killed, other_change, interrupted, System,
  Effect, creates, removes, Run, first, supervise, started, start_all, with_object, object_at,
  mapped_at, launch, main, Sizes, calc_mmap_len, bad_usage, size_argument,
}

-- The shared file after some effects: it is there, it was removed, or there never was one. A `remove`
-- that fails leaves it; none comes after one that succeeds.
pub data File : Type 0 where
  absent there gone removed_twice : File

abbrev pub file_after : File → List Effect → File
file_after f [] = f
file_after absent (creates ∷ es) = file_after there es
file_after there (removes true ∷ es) = file_after gone es
file_after there (removes false ∷ es) = file_after there es
file_after gone (creates ∷ es) = file_after there es
file_after gone (removes b ∷ es) = file_after removed_twice es
file_after absent (removes b ∷ es) = file_after removed_twice es
file_after f (_ ∷ es) = file_after f es

-- In the launching process no `fork` answers as in a child.
abbrev pub IsParent : System → Type 0
IsParent sys = (rank : ℕ) → sys.fork rank ≢ in_child

-- What one call of `remove` makes of the file.
abbrev pub removed : Bool → File
removed b = if b then gone else there

taken_down-removed :
    (sys : System) → file_after there (removes sys.remove ∷ []) ≡ removed sys.remove
taken_down-removed sys = go sys.remove
  where
    go : (b : Bool) → file_after there (removes b ∷ []) ≡ removed b
    go true = refl
    go false = refl

supervise-removed :
    (sys : System) (events : List Event)
    → file_after there (supervise sys events).effects ≡ removed sys.remove
unfolding supervise
supervise-removed sys [] = taken_down-removed sys
supervise-removed sys (exited pid status ∷ events) =
    ground (arith, supervise-removed sys events, taken_down-removed sys)
supervise-removed sys (killed pid number ∷ events) = taken_down-removed sys
supervise-removed sys (other_change pid ∷ events) = supervise-removed sys events
supervise-removed sys (interrupted ∷ events) = taken_down-removed sys

started-removed :
    (sys : System) (rank : ℕ) (next : Run) (f : Fork)
    → f ≢ in_child
    → file_after there next.effects ≡ removed sys.remove
    → file_after there (started sys rank next f).effects ≡ removed sys.remove
unfolding started first
started-removed sys rank next fork_fails parent h = taken_down-removed sys
started-removed sys rank next (in_parent pid) parent h = h
started-removed sys rank next in_child parent h = absurd (parent refl)

start_all-removed :
    (sys : System) (n rank : ℕ)
    → IsParent sys
    → file_after there (start_all sys n rank).effects ≡ removed sys.remove
unfolding start_all
start_all-removed sys zero rank parent = supervise-removed sys sys.events
start_all-removed sys (suc n) rank parent =
    started-removed sys rank (start_all sys n (rank + 1)) (sys.fork rank) (parent rank)
      (start_all-removed sys n (rank + 1) parent)

-- The constructor of `struct shared` in the launcher's mapping ends the process, if there is a mapping.
abbrev pub fails_at : Sizes → System → ℕ → ℕ → Option ℕ → Bool
fails_at k sys size len none = false
fails_at k sys size len (some addr) = elim (object_at k sys size len addr) [
  | none ↦ sys.close
  | some _ ↦ false
]

mapped_at-file :
    (k : Sizes) (sys : System) (size len : ℕ) (addr : Option ℕ)
    → IsParent sys
    → file_after there (mapped_at k sys size len addr).effects
      ≡ (if fails_at k sys size len addr then there else removed sys.remove)
unfolding mapped_at first with_object
mapped_at-file k sys size len none parent = taken_down-removed sys
mapped_at-file k sys size len (some addr) parent = elim (Bool-cases sys.close) [
  | inr bad ↦ rw bad (go_closed (object_at k sys size len addr))
  | inl good ↦ rw good (go (object_at k sys size len addr))
]
  where
    go_closed :
        (o : Option Shared)
        → file_after there (removes sys.remove ∷ []) ≡ (
            if elim o as (λ _. Bool) [ none ↦ false | some _ ↦ false ]
            then there
            else removed sys.remove)
    go_closed none = taken_down-removed sys
    go_closed (some s) = taken_down-removed sys

    go :
        (o : Option Shared)
        → file_after there (with_object sys size o).effects ≡ (
            if elim o as (λ _. Bool) [ none ↦ true | some _ ↦ false ]
            then there
            else removed sys.remove)
    go none = refl
    go (some s) = start_all-removed sys size 0 parent

-- The launcher comes to its constructor of `struct shared`, and it ends the process.
abbrev pub object_fails : Sizes → System → ℕ → Bool
object_fails k sys size =
    sys.setenv_mmap
    && sys.setenv_size
    && sys.ftruncate
    && fails_at k sys size (calc_mmap_len k size) sys.mmap

launch-file :
    (k : Sizes) (sys : System) (size : ℕ)
    → IsParent sys
    → sys.mkstemp ≡ true
    → file_after absent (launch k sys size (calc_mmap_len k size)).effects
      ≡ (if object_fails k sys size then there else removed sys.remove)
unfolding launch first
launch-file k sys size parent made = ground (
  arith,
  made,
  taken_down-removed sys,
  mapped_at-file k sys size (calc_mmap_len k size) sys.mmap parent,
)

launch-absent :
    (k : Sizes) (sys : System) (size : ℕ)
    → sys.mkstemp ≡ false
    → file_after absent (launch k sys size (calc_mmap_len k size)).effects ≡ absent
unfolding launch
launch-absent k sys size failed = rw failed refl

-- What the launcher's process leaves of the shared file, where `fork` never answers in it as in a child,
-- whichever of its other system calls fail and however the processes end: no file is ever made where
-- the arguments are refused or `mkstemp` fails; else it is still there where the constructor of
-- `struct shared` ends the process; and else `remove` is called, and the file is gone where that
-- succeeds and there where it fails, and no second `remove` follows one that succeeds.
pub main-file :
    (atoi : List ℕ → ℕ) (k : Sizes) (sys : System) (args : List (List ℕ))
    → IsParent sys
    → let size = atoi (size_argument args) in
      file_after absent (main atoi k sys args).effects ≡ (
        if bad_usage args || not (lt32 0 size) || lt32 10000 size
        then absent
        else if not sys.mkstemp
        then absent
        else if object_fails k sys size
        then there
        else if sys.remove
        then gone
        else there)
unfolding main
main-file atoi k sys args parent =
    let size = atoi (size_argument args) in
    elim (Bool-cases (bad_usage args || not (lt32 0 size) || lt32 10000 size)) [
      | inl bad ↦ rw bad refl
      | inr good ↦ rw good (elim (Bool-cases sys.mkstemp) [
        | inl made ↦ ground (arith, made, launch-file k sys size parent made)
        | inr failed ↦ ground (arith, failed, launch-absent k sys size failed)
      ])
    ]
