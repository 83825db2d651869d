-- ===== src/Calls/Waitall.antt =====
-- umpi.cc, `MPI_Waitall`.
use umpi.Base.{
  ℕ, ◌≡◌, refl, ap, ◌∙◌, inl, inr, Option, none, some, List, [], ◌∷◌, map, arith, All, Bool-cases,
  sext16, ◌==◌, if◌then◌else◌,
}
use umpi.World.{World, mpi_success}
use umpi.Mailbox.{leave, finalize}
use umpi.Calls.{
  Umpi, Status, Progress, asleep, returned, mpi_wait, wait_begin, wait_round, wait_end, conclude,
  get_status, empty_status,
}

-- MPI_ERR_IN_STATUS
abbrev pub mpi_err_in_status : ℕ
mpi_err_in_status = 2

-- How `MPI_Waitall` goes on: it sleeps for the first of the requests that are left, or it returns.
-- The statuses that it has written come with it.
pub data AllProgress : Type 0 where
  asleep_in : List (Option ℕ) → List Status → World → AllProgress
  returned_all : ℕ → List Status → World → AllProgress

-- The loop without statuses, after the wait for one request; `cs` are the requests from it on.
unfoldable pub after_wait : List (Option ℕ) → (World → AllProgress) → Progress → AllProgress
after_wait cs next (asleep w) = asleep_in cs [] w
after_wait cs next (returned err request status w) =
    if err == mpi_success then next w else returned_all err [] w

unfoldable pub waitall : Option Umpi → List (Option ℕ) → World → AllProgress
unfolding after_wait
waitall u [] w = returned_all mpi_success [] w
waitall u (c ∷ cs) w = after_wait (c ∷ cs) (λ w'. waitall u cs w') (mpi_wait u c none w)

unfoldable pub wrote : Status → AllProgress → AllProgress
wrote s (asleep_in cs ss w) = asleep_in cs (s ∷ ss) w
wrote s (returned_all ret ss w) = returned_all ret (s ∷ ss) w

-- The loop with statuses, after the wait for one request.
unfoldable pub after_wait_with : List (Option ℕ) → (World → AllProgress) → Progress → AllProgress
unfolding wrote
after_wait_with cs next (asleep w) = asleep_in cs [] w
after_wait_with cs next (returned err request none w) =
    if err == mpi_success then next w else returned_all mpi_err_in_status [] w
after_wait_with cs next (returned err request (some s) w) =
    let t = record s { error = err } in
    if err == mpi_success then wrote t (next w) else returned_all mpi_err_in_status (t ∷ []) w

-- `MPI_Waitall` with statuses, those of `array_of_statuses` beside their requests.
unfoldable pub waitall_with : Option Umpi → List (Option ℕ × Status) → World → AllProgress
unfolding after_wait_with
waitall_with u [] w = returned_all mpi_success [] w
waitall_with u ((c, s) ∷ cs) w =
    after_wait_with (map (λ x. x.0) ((c, s) ∷ cs)) (λ w'. waitall_with u cs w')
      (mpi_wait u c (some s) w)

-- The error of the first request that has one.
abbrev pub first_error : World → List (Option ℕ) → ℕ
first_error w [] = mpi_success
first_error w (none ∷ cs) = first_error w cs
first_error w (some c ∷ cs) =
    let rest = first_error w cs in
    let err = sext16 (w.cookie c).err in if err == mpi_success then rest else err

-- What the end of a request keeps of all requests.
abbrev Keeps : World → World → Type 0
Keeps w w' =
    (d : ℕ) → ((w'.cookie d).busy ≡ (w.cookie d).busy) × ((w'.cookie d).err ≡ (w.cookie d).err)

leave-Keeps : (trigger c r : ℕ) (w : World) → Keeps w (leave trigger c w)
unfolding leave finalize
leave-Keeps trigger c r w d = (ground arith, ground arith)

-- A request with no side to come: `MPI_Wait` returns its error at once.
wait_done :
    (u : Umpi) (c : ℕ) (w : World)
    → (w.cookie c).busy ≡ 0
    → (w' : World) × (mpi_wait (some u) (some c) none w
        ≡ returned (sext16 (w.cookie c).err) none none w')
      × Keeps w w'
unfolding mpi_wait wait_round wait_begin wait_end conclude get_status leave finalize
wait_done u c w idle = elim (Bool-cases ((w.cookie c).owner == u.rank)) [
  | inl mine ↦
      let w1 = wait_end u.rank (wait_begin u.rank c w) in
      (leave u.trigger c w1, ground arith, leave-Keeps u.trigger c u.rank w1)
  | inr other ↦ (leave u.trigger c w, ground arith, leave-Keeps u.trigger c u.rank w)
]

abbrev IsIdle : World → Option ℕ → Type 0
IsIdle w none = Unit
IsIdle w (some c) = (w.cookie c).busy ≡ 0

IsIdle-Keeps :
    (w w' : World) (cs : List (Option ℕ)) → Keeps w w' → All (IsIdle w) cs → All (IsIdle w') cs
IsIdle-Keeps w w' [] k h = tt
IsIdle-Keeps w w' (none ∷ cs) k (p, h) = (tt, IsIdle-Keeps w w' cs k h)
IsIdle-Keeps w w' (some c ∷ cs) k (p, h) = ((k c).0 ∙ p, IsIdle-Keeps w w' cs k h)

first_error-Keeps :
    (w w' : World) (cs : List (Option ℕ)) → Keeps w w' → first_error w' cs ≡ first_error w cs
first_error-Keeps w w' [] k = refl
first_error-Keeps w w' (none ∷ cs) k = first_error-Keeps w w' cs k
first_error-Keeps w w' (some c ∷ cs) k = ground (arith, (k c).1, first_error-Keeps w w' cs k)

wait_null :
    (u : Umpi) (w : World) → mpi_wait (some u) none none w ≡ returned mpi_success none none w
unfolding mpi_wait empty_status
wait_null u w = refl

-- Where all sides of all requests have come, `MPI_Waitall` without statuses returns at once, with the
-- error of the first request that failed, or MPI_SUCCESS where none failed. Null requests count for
-- nothing.
pub waitall_lem :
    (u : Umpi) (cs : List (Option ℕ)) (w : World)
    → All (IsIdle w) cs
    → (w' : World) × (waitall (some u) cs w ≡ returned_all (first_error w cs) [] w')
unfolding waitall after_wait
waitall_lem u [] w idle = (w, refl)
waitall_lem u (none ∷ cs) w (p, idle) =
    let (w', e) = waitall_lem u cs w idle in
    (w', ap (after_wait (none ∷ cs) (λ x. waitall (some u) cs x)) (wait_null u w) ∙ e)
waitall_lem u (some c ∷ cs) w (p, idle) =
    let (w1, done, keeps) = wait_done u c w p in
    let (w', e) = waitall_lem u cs w1 (IsIdle-Keeps w w1 cs keeps idle) in
    let first = ap (after_wait (some c ∷ cs) (λ x. waitall (some u) cs x)) done in
    elim (Bool-cases (sext16 (w.cookie c).err == mpi_success)) [
      | inl fine ↦ (
        w',
        first ∙ rw fine (e ∙ ap (λ x. returned_all x [] w') (first_error-Keeps w w1 cs keeps)),
      )
      | inr failed ↦ (w1, first ∙ rw failed refl)
    ]
