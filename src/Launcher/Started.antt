-- ===== src/Launcher/Started.antt =====
-- How many processes the launcher starts, and what becomes of them.
use umpi.Base.{
  ℕ, zero, suc, ◌+◌, ◌≡◌, ◌<◌, refl, ap, sym, ◌∙◌, Bool, true, false, ◌&&◌, List, [], ◌∷◌, ◌++◌,
  arith, Option, none, some,
}
use umpi.Startup.{Shared}
use umpi.Launcher.{
  Fork, fork_fails, in_parent, in_child, System, Effect, creates, resizes, maps, constructs, starts,
  Run, first, started, start_all, taken_down, with_object, object_at, mapped_at, launch, Sizes,
  ends_with,
}

abbrev pub is_parent : Fork → Bool
is_parent (in_parent pid) = true
is_parent _ = false

-- Each of the `n` ranks from `rank` on was started by the launcher.
unfoldable pub all_started : System → ℕ → ℕ → Bool
all_started sys zero rank = true
all_started sys (suc n) rank = is_parent (sys.fork rank) && all_started sys n (rank + 1)

abbrev pub has_object : Option Shared → Bool
has_object none = false
has_object (some _) = true

abbrev pub is_mapped : Sizes → System → ℕ → ℕ → Option ℕ → Bool
is_mapped k sys size len none = false
is_mapped k sys size len (some addr) = sys.close && has_object (object_at k sys size len addr)

-- All goes well up to the first `fork`.
abbrev pub prepared : Sizes → System → ℕ → ℕ → Bool
prepared k sys size len =
    sys.mkstemp
    && sys.setenv_mmap
    && sys.setenv_size
    && sys.ftruncate
    && is_mapped k sys size len sys.mmap

abbrev pub starts_from : ℕ → ℕ → List Effect
starts_from zero rank = []
starts_from (suc n) rank = starts rank ∷ starts_from n (rank + 1)

started-parent :
    (sys : System) (rank : ℕ) (next : Run) (f : Fork)
    → is_parent f ≡ true
    → started sys rank next f ≡ first (starts rank) next
unfolding started
started-parent sys rank next (in_parent pid) e = refl
started-parent sys rank next fork_fails e = absurd (ground (arith, e))
started-parent sys rank next in_child e = absurd (ground (arith, e))

start_all-stops :
    (sys : System) (before n rank : ℕ)
    → before < n
    → all_started sys before rank ≡ true
    → sys.fork (rank + before) ≡ fork_fails
    → start_all sys n rank ≡ ends_with 1 (starts_from before rank ++ taken_down sys)
unfolding start_all all_started started first
start_all-stops sys before zero rank lt ok fails = absurd (omega arith)
start_all-stops sys zero (suc n) rank lt ok fails =
    let here : rank + 0 ≡ rank = omega arith in
    ap (started sys rank (start_all sys n (rank + 1))) (sym (ap sys.fork here) ∙ fails)
start_all-stops sys (suc before) (suc n) rank lt ok fails =
    let one : rank + suc before ≡ rank + 1 + before = omega arith in
    started-parent sys rank (start_all sys n (rank + 1)) (sys.fork rank) (ground (arith, ok))
    ∙ ap (first (starts rank)) (
        start_all-stops sys before n (rank + 1) (omega arith) (ground (arith, ok))
          (sym (ap sys.fork one) ∙ fails))

mapped_at-object :
    (k : Sizes) (sys : System) (size len : ℕ) (addr : Option ℕ)
    → is_mapped k sys size len addr ≡ true
    → mapped_at k sys size len addr ≡ first maps (first constructs (start_all sys size 0))
unfolding mapped_at with_object first
mapped_at-object k sys size len none ready = absurd (ground (arith, ready))
mapped_at-object k sys size len (some addr) ready =
    let open_ : sys.close ≡ true = ground (arith, ready) in
    rw open_ (go (object_at k sys size len addr) (ground (arith, ready)))
  where
    go :
        (o : Option Shared)
        → has_object o ≡ true
        → first maps (with_object sys size o) ≡ first maps (first constructs (start_all sys size 0))
    go none h = absurd (ground (arith, h))
    go (some s) h = refl

-- Where all calls before succeed, the constructor of `struct shared` returns, and the `fork` for a rank
-- fails, the launcher calls `munmap` and `remove` and returns 1, and these are all its effects after
-- the starts of the ranks before: it kills none of those processes.
pub launch-fork_fails :
    (k : Sizes) (sys : System) (before size len : ℕ)
    → prepared k sys size len ≡ true
    → before < size
    → all_started sys before 0 ≡ true
    → sys.fork before ≡ fork_fails
    → launch k sys size len ≡ record {
      ret = 1;
      effects =
          creates ∷ resizes len ∷ maps ∷ constructs ∷ (starts_from before 0 ++ taken_down sys);
    }
unfolding launch first
launch-fork_fails k sys before size len ready lt ok fails =
    let rest = start_all-stops sys before size 0 lt ok (ap sys.fork (omega arith) ∙ fails) in
    let up = mapped_at-object k sys size len sys.mmap (ground (arith, ready)) in
    ground (arith, ready, up, rest)
