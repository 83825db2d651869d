-- ===== src/Tests/Programs.antt =====
-- The properties of offset pointers, the launcher and the compiler wrapper at samples.
use umpi.Base.{
  ℕ, ◌==◌, ◌≡◌, ◌+◌, refl, arith, some, true, List, [], ◌∷◌, if◌then◌else◌, ap, not, ◌||◌, lt32,
}
use umpi.Offset.{from_pointer, to_pointer, is_set}
use umpi.Offset.Mappings.{to_pointer-from_pointer}
use umpi.Wrapper.{codes, flag_of, flag_showme}
use umpi.Wrapper.Showme.{printed, main-showme}
use umpi.Launcher.{
  System, Sizes, Fork, in_parent, fork_fails, launch, exited, creates, resizes, maps, unmaps,
  removes, starts, constructs, calc_mmap_len, bad_usage, size_argument,
}
use umpi.Launcher.Length.{needed}
use umpi.Startup.{new_barrier, new_mutexes}
use umpi.Startup.Room.{new_shared_lem}
use umpi.Launcher.Files.{file_after, absent, gone, there, object_fails, main-file}
use umpi.Launcher.Started.{all_started, has_object, launch-fork_fails}

to_pointer-from_pointer_example :
    (to_pointer 8192 (from_pointer 4096 (4096 + 100)) ≡ 8192 + 100)
    × (is_set (from_pointer 4096 (4096 + 100)) ≡ true)
to_pointer-from_pointer_example =
    to_pointer-from_pointer 4096 8192 100 (omega arith) (omega arith) (omega arith) (omega arith)

abbrev path : List ℕ
path = codes "/opt/bin/mpicc"

main-showme_example :
    umpi.Wrapper.main (some path) (codes "mpicc" ∷ flag_showme ∷ codes "a.c" ∷ [])
    ≡ printed (umpi.Wrapper.main (some path) (codes "mpicc" ∷ codes "a.c" ∷ []))
unfolding flag_of
main-showme_example =
    main-showme (some path) (codes "mpicc" ∷ []) (codes "a.c" ∷ []) (refl, tt) (refl, tt)

-- The second process cannot be started.
abbrev one_fork : System
one_fork = record {
  mkstemp = true;
  setenv_mmap = true;
  setenv_size = true;
  ftruncate = true;
  mmap = some 8192;
  close = true;
  sync = λ i. record { attr_init = true; setpshared = true; init = true };
  munmap = true;
  remove = true;
  fork = λ rank. if rank == 0 then in_parent 500 else fork_fails;
  setenv_rank = true;
  events = [];
}

abbrev sizes : Sizes
sizes = record {
  shared = 40000;
  process = 300;
  cookie = 64;
  cookie_pointer = 8;
  reserve = 1048576;
  page = 4096;
}

launch-fork_fails_example : launch sizes one_fork 4 (calc_mmap_len sizes 4) ≡ record {
  ret = 1;
  effects =
      creates
      ∷ resizes (calc_mmap_len sizes 4)
      ∷ maps
      ∷ constructs
      ∷ starts 0
      ∷ unmaps true
      ∷ removes true
      ∷ [];
}
unfolding all_started calc_mmap_len new_barrier new_mutexes needed
launch-fork_fails_example =
    let (s, made, _, _) =
      new_shared_lem sizes one_fork.sync 4 8192 (λ a. 0) (omega arith) (omega arith) (omega arith)
        (omega arith) refl (omega arith) (omega arith) refl in
    launch-fork_fails sizes one_fork 1 4 (calc_mmap_len sizes 4) (ap has_object made) (omega arith)
      refl refl

abbrev arguments : List (List ℕ)
arguments = codes "mpiexec" ∷ codes "-np" ∷ codes "4" ∷ codes "a.out" ∷ []

main-file_example :
    file_after absent (umpi.Launcher.main (λ text. 4) sizes one_fork arguments).effects ≡ (
      if bad_usage arguments || not (lt32 0 4) || lt32 10000 4
      then absent
      else if not one_fork.mkstemp
      then absent
      else if object_fails sizes one_fork 4
      then there
      else if one_fork.remove
      then gone
      else there)
main-file_example = main-file (λ text. 4) sizes one_fork arguments (λ rank e. ground (arith, e))
