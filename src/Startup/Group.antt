-- ===== src/Startup/Group.antt =====
-- The processes of a group at the barrier of the shared memory: MPI_Init, MPI_Barrier and MPI_Finalize
-- in many processes, in any order.
pub mod Entering
pub mod Meeting
use umpi.Base.{
  ℕ, zero, suc, ◌+◌, ◌*◌, ◌<◌, ◌≤◌, ◌≡◌, refl, ap, sym, subst, ◌∙◌, ◌≢◌, ◌⊎◌, inl, inr, Bool, true,
  false, Option, none, some, arith, update, update_self, update_other, ℕ_discrete, dec_lt, ◌==◌,
  tally, not, ◌&&◌, Bool-cases, tally_full, tally_none, tally_one_more, if◌then◌else◌,
}
use umpi.World.{World, Process}
use umpi.Startup.{Answers, init, new_mutex, new_condition_variable, new_process}
use umpi.Startup.Starting.{init-ready}

-- `entered` and `left` count the calls of `barrier.wait()` of each process that have begun and
-- ended, `last` is the number of its last call among the `total` calls of all.
pub record Group : Type 0 where
  pub entered : ℕ → ℕ
  pub left : ℕ → ℕ
  pub last : ℕ → ℕ
  pub total : ℕ
  pub world : World

-- A process calls `barrier.wait()`.
abbrev pub begin_wait : ℕ → Group → Group
begin_wait r s = record s {
  entered = update s.entered r (s.entered r + 1);
  last = update s.last r s.total;
  total = s.total + 1;
}

-- The call returns.
abbrev pub end_wait : ℕ → Group → Group
end_wait r s = record s { left = update s.left r (s.left r + 1) }

-- The ranks are those below `n`. `lets i total` is whether the barrier lets the call number `i` return
-- when `total` calls have been made.
module _ (n : ℕ) (pids : ℕ → ℕ) (lets : ℕ → ℕ → Bool) where
  -- A process in MPI_Init makes its mailbox and waits; one that is between calls waits in MPI_Barrier or
  -- MPI_Finalize; one that waits returns if the barrier lets it; and one that has returned from
  -- MPI_Init works on what is shared, where `pid_` of a process is constant.
  pub data Step (s t : Group) : Type 0 where
    initialises :
        (r : ℕ) (mutex cond : Answers) (w : World)
        → r < n
        → s.entered r ≡ 0
        → init mutex cond r (pids r) s.world ≡ some w
        → t ≡ begin_wait r (record s { world = w })
        → Step s t
    waits :
        (r : ℕ) → r < n → 0 < s.entered r → s.left r ≡ s.entered r → t ≡ begin_wait r s → Step s t
    passes :
        (r : ℕ)
        → r < n
        → s.left r < s.entered r
        → lets (s.last r) s.total ≡ true
        → t ≡ end_wait r s
        → Step s t
    works :
        (r : ℕ) (w : World)
        → r < n
        → 0 < s.left r
        → ((q : ℕ) → (w.process q).pid ≡ (s.world.process q).pid)
        → t ≡ record s { world = w }
        → Step s t

  -- From a world that a launcher has made.
  pub data Reach : Group → Type 0 where
    launched :
        (last : ℕ → ℕ) (w : World)
        → Reach (record { entered = λ r. 0; left = λ r. 0; last = last; total = 0; world = w })
    next : {s t : Group} → Reach s → Step s t → Reach t

  -- `full` rounds of the barrier are complete, and `extra` processes wait in the next one.
  pub record Rounds (s : Group) : Type 0 where
    pub full : ℕ
    pub extra : ℕ
    pub all : s.total ≡ full * n + extra
    pub short : extra < n
    pub low : (r : ℕ) → r < n → full ≤ s.entered r
    pub high : (r : ℕ) → r < n → s.entered r ≤ full + 1
    pub waiting : tally (λ r. s.entered r == suc full) n ≡ extra
    pub behind : (r : ℕ) → r < n → s.left r ≤ full
    pub late : (r e : ℕ) → r < n → s.entered r ≡ suc e → (e * n ≤ s.last r) × (s.last r < e * n + n)
    pub made : (r : ℕ) → r < n → 0 < s.entered r → (s.world.process r).pid ≡ pids r
