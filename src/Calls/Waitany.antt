-- ===== src/Calls/Waitany.antt =====
-- umpi.cc, `MPI_Waitany` with its sleep. The choice of the index is that of the module Any.
use umpi.Base.{
  ℕ, zero, suc, ◌+◌, ◌-◌, ◌≡◌, ap, ap₂, ◌∙◌, refl, true, min, ◌==◌, arith, Option, none, some, List,
  [], ◌∷◌, length, drop, take, get_or, set,
}
use umpi.World.{World, set_process, waiting_for_any_cookie, not_waiting, mpi_fail, WaitingFor}
use umpi.Mailbox.{leave}
use umpi.Calls.{Umpi, Status, get_status, empty_status}
use umpi.Calls.Any.{
  first_done, Scan, foreign, range, scan, nulls, scan-nulls, drop-nulls, length-nulls,
}

-- What `*index` is afterwards: as before, MPI_UNDEFINED, or an index.
pub data Index : Type 0 where
  untouched : Index
  undefined_index : Index
  at : ℕ → Index

-- How `MPI_Waitany` goes on: it sleeps in `wait_any` for the requests from `begin` up to `end`, it
-- takes the status of a null request, which is undefined, or it returns.
pub data AnyProgress : Type 0 where
  asleep_any : (begin end : ℕ) → World → AnyProgress
  null_request : AnyProgress
  returned_any : ℕ → Index → List (Option ℕ) → Option Status → World → AnyProgress

abbrev pub wait_state : ℕ → WaitingFor → World → World
wait_state r state w = set_process w r (record (w.process r) { waiting_for = state })

-- The end of the call, for the request at the index.
unfoldable pub finish_any :
    Umpi → List (Option ℕ) → Option Status → ℕ → World → Option ℕ → AnyProgress
unfolding get_status
finish_any u requests status i w none = null_request
finish_any u requests status i w (some c) =
    let (s, err) = get_status status (w.cookie c) in
    returned_any err (at i) (set requests i none) s (leave u.trigger c w)

-- After a round of the loop of `wait_any`, which gives an index or sleeps.
unfoldable pub after_round :
    Umpi → List (Option ℕ) → Option Status → ℕ → ℕ → World → Option ℕ → AnyProgress
unfolding finish_any
after_round u requests status begin end w none = asleep_any begin end w
after_round u requests status begin end w (some i) =
    finish_any u requests status i (wait_state u.rank not_waiting w) (get_or requests i none)

-- One round of the loop of `wait_any`, at its start and after each wake-up.
unfoldable pub any_round : Umpi → List (Option ℕ) → Option Status → ℕ → ℕ → World → AnyProgress
unfolding after_round first_done
any_round u requests status begin end w =
    after_round u requests status begin end w
      (first_done w 0 (take (end - begin) (drop begin requests)))

-- After the scan of the requests.
unfoldable pub after_scan : Umpi → List (Option ℕ) → Option Status → World → Scan → AnyProgress
unfolding finish_any any_round empty_status
after_scan u requests status w (foreign i) =
    finish_any u requests status i w (get_or requests i none)
after_scan u requests status w (range begin zero) =
    let (s, ret) = empty_status status in returned_any ret undefined_index requests s w
after_scan u requests status w (range begin (suc end)) =
    any_round u requests status begin (suc end) (wait_state u.rank waiting_for_any_cookie w)

-- `MPI_Waitany` up to its first sleep, where there is a place for the index.
unfoldable pub mpi_waitany : Option Umpi → List (Option ℕ) → Option Status → World → AnyProgress
unfolding after_scan scan
mpi_waitany none requests status w = returned_any mpi_fail untouched requests status w
mpi_waitany (some u) requests status w =
    after_scan u requests status w (scan w u.rank 0 (length requests) 0 requests)

-- Where null requests, one at least, stand before a request of the process that is done,
-- `MPI_Waitany` takes the status of a null request, and not of the one that is done.
pub mpi_waitany_null :
    (u : Umpi) (w : World) (k c : ℕ) (status : Option Status)
    → (w.cookie c).owner ≡ u.rank
    → (w.cookie c).busy ≡ 0
    → mpi_waitany (some u) (nulls (suc k) (some c ∷ [])) status w ≡ null_request
unfolding mpi_waitany any_round first_done after_scan after_round finish_any
mpi_waitany_null u w k c status own idle =
    let requests = nulls (suc k) (some c ∷ []) in
    let w1 = wait_state u.rank waiting_for_any_cookie w in
    let begins : min (length requests) (0 + suc k) ≡ suc k =
      omega (arith, length-nulls (suc k) (some c ∷ [])) in
    let ends : 0 + suc k ≡ suc k = omega arith in
    let found : scan w u.rank 0 (length requests) 0 requests ≡ range (suc k) (suc (suc k)) =
      scan-nulls w u.rank 0 (length requests) 0 (suc k) c own ∙ ap₂ range begins (ap suc ends) in
    let done : ((w.cookie c).busy == 0) ≡ true = ground (arith, idle) in
    let one : suc (suc k) - suc k ≡ suc zero = omega arith in
    let first : first_done w1 0 (some c ∷ []) ≡ some 0 = rw done refl in
    ap (after_scan u requests status w) found
    ∙ ap (after_round u requests status (suc k) (suc (suc k)) w1)
        (ap₂ (λ m cs. first_done w1 0 (take m cs)) one (drop-nulls k (some c ∷ [])) ∙ first)
