-- ===== src/Collect/Allgatherv.antt =====
-- umpi.cc, MPI_Allgatherv: a loop of MPI_Barrier, MPI_Igatherv and MPI_Wait, as a program of calls
-- that goes on with what each call returns.
use umpi.Base.{
  ℕ, zero, suc, ◌+◌, ◌≡◌, refl, ap, ◌∙◌, Bool, Option, none, some, List, [], ◌∷◌, arith, length,
  get_or, ◌<◌, ◌≢◌, ◌==◌, if◌then◌else◌, Bool-cases, inl, inr,
}
use umpi.World.{mpi_success}
use umpi.Calls.{Umpi}

-- What a process gives to MPI_Igatherv: its arguments, or its own block of `recvbuf`.
pub data Sends : Type 0 where
  as_given own_block : Sends

pub data Program : Type 0 where
  returns : ℕ → Program
  barrier : (ℕ → Program) → Program
  igatherv : (root : ℕ) → Sends → (ℕ → Program) → Program
  wait : (ℕ → Program) → Program

abbrev pub unless_error : Program → ℕ → Program
unless_error next ret = if ret == mpi_success then next else returns ret

-- One turn of the loop, with `rest` for the turns after it.
unfoldable pub turn_of : Bool → ℕ → ℕ → Program → Program
turn_of in_place rank root rest =
    let waits = wait (unless_error rest) in
    if root == rank
    then igatherv root as_given (unless_error (barrier (unless_error waits)))
    else barrier
        λ ignored. igatherv root (if in_place then own_block else as_given) (unless_error waits)

-- The loop from `root` on, with `n` turns to go.
unfoldable pub turns : Bool → ℕ → ℕ → ℕ → Program
unfolding turn_of
turns in_place rank zero root = returns mpi_success
turns in_place rank (suc n) root =
    let rest = turns in_place rank n (root + 1) in turn_of in_place rank root rest

-- `MPI_Allgatherv`; `in_place` is whether `sendbuf` is MPI_IN_PLACE. None is undefined: it reads
-- `umpi->size` without a test for the null pointer.
unfoldable pub mpi_allgatherv : Option Umpi → Bool → Option Program
unfolding turns
mpi_allgatherv none in_place = none
mpi_allgatherv (some u) in_place = some (turns in_place u.rank u.size 0)

-- A gather of a run: its root, and how many barriers the process has called before.
pub record Gathered : Type 0 where
  pub root : ℕ
  pub barriers : ℕ

-- What a run in which each call succeeds does: its gathers, the barriers that it calls in all, its
-- waits, and what it returns. The numbers are those before it.
pub record Run : Type 0 where
  pub gathers : List Gathered
  pub barriers : ℕ
  pub waits : ℕ
  pub ret : ℕ

unfoldable pub run : Program → ℕ → ℕ → Run
run (returns ret) b w = record { gathers = []; barriers = b; waits = w; ret = ret }
run (barrier next) b w = run (next mpi_success) (b + 1) w
run (igatherv root sends next) b w =
    let rest = run (next mpi_success) b w in
    record rest { gathers = record { root = root; barriers = b } ∷ rest.gathers }
run (wait next) b w = run (next mpi_success) b (w + 1)

-- The gathers with the roots from `k` on, `n` of them: of a process that calls barriers before those of
-- others, and after its own.
abbrev pub in_order : ℕ → ℕ → ℕ → List Gathered
in_order rank zero k = []
in_order rank (suc n) k =
    record { root = k; barriers = if k == rank then k else k + 1 } ∷ in_order rank n (k + 1)

turns_lem :
    (in_place : Bool) (rank n k w : ℕ)
    → run (turns in_place rank n k) k w
      ≡ record { gathers = in_order rank n k; barriers = k + n; waits = w + n; ret = mpi_success }
unfolding run turns turn_of
turns_lem in_place rank zero k w = ground arith
turns_lem in_place rank (suc n) k w =
    let rest = turns_lem in_place rank n (k + 1) (w + 1) in
    elim (Bool-cases (k == rank)) [
      | inl e ↦ rw e (rw rest (ground arith))
      | inr e ↦ rw (e, rest) (ground arith)
    ]

in_order_at :
    (rank n k j : ℕ) (d : Gathered)
    → j < n
    → get_or (in_order rank n k) j d
      ≡ record { root = k + j; barriers = if k + j == rank then k + j else k + j + 1 }
in_order_at rank zero k j d low = absurd (omega (arith, low))
in_order_at rank (suc n) k zero d low = ground arith
in_order_at rank (suc n) k (suc j) d low =
    in_order_at rank n (k + 1) j d (omega (arith, low)) ∙ ground arith

length-in_order : (rank n k : ℕ) → length (in_order rank n k) ≡ n
length-in_order rank zero k = refl
length-in_order rank (suc n) k = ap suc (length-in_order rank n (k + 1))

-- A run with `n` gathers, barriers and waits, that succeeds.
abbrev pub Completes : ℕ → Run → Type 0
Completes n r = (length r.gathers ≡ n) × (r.barriers ≡ n) × (r.waits ≡ n) × (r.ret ≡ mpi_success)

turns-Completes : (in_place : Bool) (rank n : ℕ) → Completes n (run (turns in_place rank n 0) 0 0)
turns-Completes in_place rank n =
    rw (turns_lem in_place rank n 0 0) (length-in_order rank n 0, omega arith, omega arith, refl)

-- MPI_Allgatherv of two processes of a group, in runs where each call succeeds: the root of the gather
-- number `root` makes this gather after `root` barriers and has its next barrier to come; the other
-- process makes it after one barrier more. Both make one gather, one barrier and one wait for each process, and return MPI_SUCCESS.
pub allgatherv_order :
    (u : Umpi) (in_place in_place' : Bool) (root : ℕ) (none_such : Gathered)
    → root < u.size
    → root ≢ u.rank
    → let v : Umpi = record u { rank = root } in
      (p : Program) × (q : Program) × (mpi_allgatherv (some u) in_place ≡ some p)
      × (mpi_allgatherv (some v) in_place' ≡ some q)
      × (get_or (run p 0 0).gathers root none_such ≡ record { root = root; barriers = root + 1 })
      × (get_or (run q 0 0).gathers root none_such ≡ record { root = root; barriers = root })
      × Completes u.size (run p 0 0)
      × Completes u.size (run q 0 0)
unfolding mpi_allgatherv
allgatherv_order u in_place in_place' root none_such low other =
    let mine = turns_lem in_place u.rank u.size 0 0 in
    let yours = turns_lem in_place' root u.size 0 0 in
    let here = in_order_at u.rank u.size 0 root none_such low in
    let there = in_order_at root u.size 0 root none_such low in
    (
      turns in_place u.rank u.size 0,
      turns in_place' root u.size 0,
      refl,
      refl,
      ap (λ r. get_or r.gathers root none_such) mine ∙ here ∙ ground (arith, other),
      ap (λ r. get_or r.gathers root none_such) yours ∙ there ∙ ground arith,
      turns-Completes in_place u.rank u.size,
      turns-Completes in_place' root u.size,
    )
