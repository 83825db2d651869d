-- ===== src/Startup/Group/Meeting.antt =====
-- The rounds of the barrier in every history of a group, and what a process finds after MPI_Init.
use umpi.Base.{
  ℕ, zero, suc, ◌+◌, ◌*◌, ◌<◌, ◌≤◌, ◌≡◌, refl, sym, ◌∙◌, ◌≢◌, inl, inr, Bool, true, some, arith,
  update, update_other, ℕ_discrete, ◌==◌, ◌&&◌, Bool-cases, tally_none,
}
use umpi.World.{World}
use umpi.Startup.{Answers, init, new_mutex, new_condition_variable, new_process}
use umpi.Startup.Group.{
  Group, Step, initialises, waits, passes, works, Reach, launched, next, Rounds,
}
use umpi.Startup.Group.Entering.{update_cases, enter-Rounds}
use umpi.Launcher.{find_rank}

-- `shared::init` makes the process's own mailbox and leaves the others.
init_makes :
    (mutex cond : Answers) (r pid : ℕ) (w0 w : World)
    → init mutex cond r pid w0 ≡ some w
    → update w0.process r (new_process pid) ≡ w.process
unfolding init
init_makes mutex cond r pid w0 w e =
    elim (Bool-cases (new_mutex mutex && new_condition_variable cond)) [
      | inl f ↦ ground (arith, e, f)
      | inr f ↦ absurd (ground (arith, e, f))
    ]

module _ (n : ℕ) (pids : ℕ → ℕ) (lets : ℕ → ℕ → Bool)
    (documented : (i total k : ℕ) → lets i total ≡ true → k * n ≤ i → k * n + n ≤ total) where
  Step-Rounds : {s t : Group} → Step n pids lets s t → Rounds n pids lets s → Rounds n pids lets t
  unfolding new_process
  Step-Rounds {s} {t} (initialises r mutex cond w mine first made same) k = rw same (
      enter-Rounds s k r mine (omega (arith, first, k.low r mine)) w λ q low some_q.
        rw (sym (init_makes mutex cond r (pids r) s.world w made))
          (elim (update_cases s.world.process r (new_process (pids r)) q) [
            | inl (e, u) ↦ rw (u, e) refl
            | inr (ne, u) ↦
                rw u
                  (k.made q low (rw (sym (update_other s.entered r q (s.entered r + 1) ne)) some_q))
          ]))
  Step-Rounds {s} {t} (waits r mine some_r between same) k = rw same (
      enter-Rounds s k r mine (omega (arith, between, k.low r mine, k.behind r mine)) s.world
        λ q low some_q. elim (update_cases s.entered r (s.entered r + 1) q) [
          | inl (e, u) ↦ k.made q low (rw e some_r)
          | inr (ne, u) ↦ k.made q low (rw (sym u) some_q)
        ])
  Step-Rounds {s} {t} (passes r mine inside let_through same) k = rw same (record {
    full = k.full;
    extra = k.extra;
    all = k.all;
    short = k.short;
    low = k.low;
    high = k.high;
    waiting = k.waiting;
    behind = λ q low. elim (update_cases s.left r (s.left r + 1) q) [
      | inl (e, u) ↦ rw u (elim (ℕ_discrete (s.entered r) (suc k.full)) [
        | no ne ↦ omega (arith, ne, inside, k.high r mine)
        | yes last ↦ absurd (
            omega (
              arith,
              documented (s.last r) s.total k.full let_through (k.late r k.full mine last).0,
              k.all,
              k.short,
            ))
      ])
      | inr (ne, u) ↦ rw u (k.behind q low)
    ];
    late = k.late;
    made = k.made;
  })
  Step-Rounds {s} {t} (works r w mine runs kept same) k = rw same (record {
    full = k.full;
    extra = k.extra;
    all = k.all;
    short = k.short;
    low = k.low;
    high = k.high;
    waiting = k.waiting;
    behind = k.behind;
    late = k.late;
    made = λ q low some_q. kept q ∙ k.made q low some_q;
  })

  pub Reach-Rounds : {s : Group} → 0 < n → Reach n pids lets s → Rounds n pids lets s
  Reach-Rounds some_n (launched last w) = record {
    full = 0;
    extra = 0;
    all = omega arith;
    short = some_n;
    low = λ r low. omega arith;
    high = λ r low. omega arith;
    waiting = tally_none (λ i. 0 == 1) n λ i low. refl;
    behind = λ r low. omega arith;
    late = λ r e low h. absurd (omega (arith, h));
    made = λ r low e. absurd (omega (arith, e));
  }
  Reach-Rounds some_n (next h st) = Step-Rounds st (Reach-Rounds some_n h)

-- The search finds the first process with the id.
find_rank_lem :
    (pids : ℕ → ℕ) (m i q pid : ℕ)
    → i ≤ q
    → q < i + m
    → pids q ≡ pid
    → ((j : ℕ) → j < q → pids j ≢ pid)
    → find_rank pids m i pid ≡ some q
unfolding find_rank
find_rank_lem pids zero i q pid low high here first = absurd (omega (arith, low, high))
find_rank_lem pids (suc m) i q pid low high here first = elim (ℕ_discrete i q) [
  | yes e ↦ rw e (ground (arith, here))
  | no ne ↦
      let other = first i (omega (arith, low, ne)) in
      let rest =
        find_rank_lem pids m (i + 1) q pid (omega (arith, low, ne)) (omega (arith, high)) here
          first in
      ground (arith, other, rest)
]

-- `n` processes start, with distinct ids, and call MPI_Init, MPI_Barrier and MPI_Finalize in any order
-- of their steps. Of the barrier it is assumed that a call of `wait` which follows `k` full rounds of
-- `n` calls does not return before another `n` calls. Then in each state that can come, once a process
-- has returned from MPI_Init: it has returned from no more waits than each process has begun, the
-- mailbox of each process is made, and `shared::find_rank` finds each by its id.
pub Reach-meets :
    (n : ℕ) (pids : ℕ → ℕ) (lets : ℕ → ℕ → Bool) (s : Group) (r q : ℕ)
    → ((i total k : ℕ) → lets i total ≡ true → k * n ≤ i → k * n + n ≤ total)
    → ((i j : ℕ) → i < n → j < n → pids i ≡ pids j → i ≡ j)
    → Reach n pids lets s
    → r < n
    → q < n
    → 0 < s.left r
    → (s.left r ≤ s.entered q)
      × ((s.world.process q).pid ≡ pids q)
      × (find_rank (λ j. (s.world.process j).pid) n 0 (pids q) ≡ some q)
Reach-meets n pids lets s r q documented distinct h mine yours returned =
    let k = Reach-Rounds n pids lets documented (omega (arith, mine)) h in
    let all : (j : ℕ) → j < n → (s.world.process j).pid ≡ pids j =
      λ j low. k.made j low (omega (arith, returned, k.behind r mine, k.low j low)) in
    (
      omega (arith, k.behind r mine, k.low q yours),
      all q yours,
      find_rank_lem (λ j. (s.world.process j).pid) n 0 q (pids q) (omega arith)
          (omega (arith, yours)) (all q yours)
          λ j less same. omega (
            arith,
            less,
            distinct j q (omega (arith, less, yours)) yours
                (sym (all j (omega (arith, less, yours))) ∙ same),
          ),
    )
