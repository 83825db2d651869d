-- ===== src/Collect/Counting.antt =====
-- How a root's request counts the processes that are still to come, in every interleaving of the calls
-- of MPI_Bcast, MPI_Gather and MPI_Scatter that find it in the box: what a call does under the lock of
-- the slot, and its transfer after the unlock, are two steps.
use umpi.Base.{
  ℕ, suc, ◌+◌, ◌≤◌, ◌<◌, ◌^◌, ◌≡◌, sym, subst, ap, ◌∙◌, true, false, ◌&&◌, ◌∷◌, List, arith, not,
  Bool-cases, inl, inr, ◌==◌, Option, none, some, dec16, ltb, update_self, Bool, if◌then◌else◌,
}
use umpi.Iovec.{Iovec, len}
use umpi.World.{World, set_cookie, notify_done, mpi_fail, join}
use umpi.Transfer.{
  Kernel, write_to_owner, read_from_owner, complete, bytes_of, counted, too_long, write_call,
  read_count, bad_read, read_call,
}
use umpi.Mailbox.{move_to_pending}
use umpi.Calls.{Umpi}
use umpi.Collect.{Slot, found_locked}

-- A transfer, however it ends, is one side of the request `c` that has come.
abbrev pub OneLess : ℕ → World → World → Type 0
OneLess c w w' = (w'.cookie c).busy ≡ dec16 (w.cookie c).busy

notify_done-OneLess : (r c err : ℕ) (w : World) → OneLess c w (notify_done r c err w).1
unfolding notify_done
notify_done-OneLess r c err w = ground arith

abbrev world_or : World → Option (ℕ × World) → World
world_or w none = w
world_or w (some r) = r.1

-- What a transfer does that may be undefined, and otherwise ends at once or after the system call.
OneLess-branches :
    (c : ℕ) (w : World) (refused undefined : Bool) (x y r : ℕ × World)
    → OneLess c w x.1
    → OneLess c w y.1
    → (if refused then some x else (if undefined then none else some y)) ≡ some r
    → OneLess c w r.1
OneLess-branches c w true undefined x y r less less' e =
    ap (λ o. ((world_or w o).cookie c).busy) (sym e) ∙ less
OneLess-branches c w false true x y r less less' e = absurd (ground (arith, e))
OneLess-branches c w false false x y r less less' e =
    ap (λ o. ((world_or w o).cookie c).busy) (sym e) ∙ less'

module _ (kernel : Kernel) (me : ℕ) where
  complete-OneLess :
      (c total : ℕ) (r : ℕ × (ℕ → ℕ → ℕ)) (w : World)
      → OneLess c w (complete kernel me c total r w).1
  unfolding complete
  complete-OneLess c total (n, m) w =
      notify_done-OneLess (w.cookie c).owner c _ (record w { memory = m })

  write_to_owner-OneLess :
      (c buf : ℕ) (v : Iovec) (n seek skip : ℕ) (w : World) (r : ℕ × World)
      → write_to_owner kernel me c buf v n seek skip w ≡ some r
      → OneLess c w r.1
  unfolding write_to_owner
  write_to_owner-OneLess c buf v n seek skip w r e =
      let k = w.cookie c in
      let total = bytes_of n v in
      let k1 = record k { count = counted k total } in
      let w1 = set_cookie w c k1 in
      let call = write_call kernel me c buf v n seek skip w in
      let done = notify_done-OneLess k.owner c mpi_fail w in
      let all =
        complete-OneLess c total call w1 ∙ ap (λ x. dec16 x.busy) (update_self w.cookie c k1) in
      OneLess-branches c w (too_long k total seek)
        (not (ltb (bytes_of k.count k.iovec) total) && len k.iovec == 0)
        (notify_done k.owner c mpi_fail w) (complete kernel me c total call w1) r done all e

  read_from_owner-OneLess :
      (c buf : ℕ) (v : Iovec) (size n seek skip : ℕ) (w : World) (r : ℕ × World)
      → read_from_owner kernel me c buf v size n seek skip w ≡ some r
      → OneLess c w r.1
  unfolding read_from_owner
  read_from_owner-OneLess c buf v size n seek skip w r e =
      let k = w.cookie c in
      let n' = read_count k v n skip in
      let total = bytes_of n' v in
      let x = notify_done k.owner c mpi_fail w in
      let y = complete kernel me c total (read_call kernel me c buf v n' seek skip w) w in
      elim (Bool-cases (n == 0 && len v == 0)) [
        | inl bad ↦ absurd (ground (arith, e, bad))
        | inr good ↦
            OneLess-branches c w (bad_read k v size total seek skip) false x y r
              (notify_done-OneLess k.owner c mpi_fail w)
              (complete-OneLess c total (read_call kernel me c buf v n' seek skip w) w)
              (subst
                (λ q.
                  (if q
                    then none
                    else (if bad_read k v size total seek skip then some x else some y))
                  ≡ some r)
                good e)
      ]

-- The slot, the processes' memory and requests, and how many calls are between their unlock and the
-- end of their transfer.
pub record Moment : Type 0 where
  pub slot : Slot
  pub world : World
  pub begun : ℕ

-- What the processes of a group of `u.size` do to the request `c`. A process that has not joined takes
-- the slot by `get_current_slot`, which adds one to `joined_`, finds `c` first in the box, joins it and
-- unlocks; and a process that has done so reads or writes, and its transfer comes to its end.
pub data Step (kernel : Kernel) (u : Umpi) (c : ℕ) : Moment → Moment → Type 0 where
  joins :
      (s : Slot) (w : World) (begun : ℕ) (box : List ℕ) (p : Slot × World)
      → s.box ≡ c ∷ box
      → s.joined < u.size
      → found_locked kernel u c box (record s { joined = s.joined + 1; locked = true }) w ≡ p
      → Step kernel u c
          (record { slot = s; world = w; begun = begun })
          (record { slot = p.0; world = p.1; begun = suc begun })
  reads :
      (s : Slot) (w : World) (begun me buf : ℕ) (v : Iovec) (size n seek skip : ℕ) (r : ℕ × World)
      → read_from_owner kernel me c buf v size n seek skip w ≡ some r
      → Step kernel u c
          (record { slot = s; world = w; begun = suc begun })
          (record { slot = s; world = r.1; begun = begun })
  writes :
      (s : Slot) (w : World) (begun me buf : ℕ) (v : Iovec) (n seek skip : ℕ) (r : ℕ × World)
      → write_to_owner kernel me c buf v n seek skip w ≡ some r
      → Step kernel u c
          (record { slot = s; world = w; begun = suc begun })
          (record { slot = s; world = r.1; begun = begun })

-- The histories of a request from a moment on.
pub data Reach (kernel : Kernel) (u : Umpi) (c : ℕ) (start : Moment) : Moment → Type 0 where
  here : Reach kernel u c start start
  next :
      {m m' : Moment} → Reach kernel u c start m → Step kernel u c m m' → Reach kernel u c start m'

-- The sides still to come, and the processes that have joined.
pub record Counts (u : Umpi) (c : ℕ) (m : Moment) : Type 0 where
  pub sum : (m.world.cookie c).busy + m.slot.joined ≡ u.size + m.begun
  pub few : m.slot.joined ≤ u.size
  pub in_between : m.begun ≤ m.slot.joined

found_locked-kept :
    (kernel : Kernel) (u : Umpi) (c : ℕ) (box : List ℕ) (s : Slot) (w : World)
    → let p = found_locked kernel u c box s w in
      ((p.1.cookie c).busy ≡ (w.cookie c).busy) × (p.0.joined ≡ s.joined)
unfolding found_locked join move_to_pending
found_locked-kept kernel u c box s w = ground arith

one_ends :
    (u : Umpi) (c begun : ℕ) (s : Slot) (w w' : World)
    → u.size < 2 ^ 15
    → OneLess c w w'
    → Counts u c (record { slot = s; world = w; begun = suc begun })
    → Counts u c (record { slot = s; world = w'; begun = begun })
one_ends u c begun s w w' small less k = record {
  sum = omega (arith, small, less, k.sum, k.few, k.in_between);
  few = k.few;
  in_between = omega (arith, k.in_between);
}

Step-Counts :
    {kernel : Kernel} (u : Umpi) (c : ℕ) {m m' : Moment}
    → u.size < 2 ^ 15
    → Step kernel u c m m'
    → Counts u c m
    → Counts u c m'
Step-Counts {kernel} u c small (joins s w begun box p front room e) k =
    let s1 : Slot = record s { joined = s.joined + 1; locked = true } in
    let (busy, joins_) = found_locked-kept kernel u c box s1 w in
    let same = ap (λ q. (q.1.cookie c).busy) (sym e) ∙ busy in
    let joined = ap (λ q. q.0.joined) (sym e) ∙ joins_ in
    record {
      sum = omega (arith, same, joined, k.sum);
      few = omega (arith, joined, room);
      in_between = omega (arith, joined, k.in_between);
    }
Step-Counts {kernel} u c small (reads s w begun me buf v size n seek skip r e) k =
    one_ends u c begun s w r.1 small
      (read_from_owner-OneLess kernel me c buf v size n seek skip w r e) k
Step-Counts {kernel} u c small (writes s w begun me buf v n seek skip r e) k =
    one_ends u c begun s w r.1 small (write_to_owner-OneLess kernel me c buf v n seek skip w r e) k

Reach-Counts :
    {kernel : Kernel} (u : Umpi) (c : ℕ) {start m : Moment}
    → u.size < 2 ^ 15
    → Counts u c start
    → Reach kernel u c start m
    → Counts u c m
Reach-Counts u c small k here = k
Reach-Counts u c small k (next reach step) =
    Step-Counts u c small step (Reach-Counts u c small k reach)

-- The root of a broadcast, a gather or a scatter has posted its request `c`, whose `busy_` and the
-- processes that have joined make up all; no call is under way. After any history in
-- which each of the others joins under the lock of the slot, and reads or writes later, in any order
-- with what the others do: `busy_` and those that have joined make up the processes and the calls that
-- have joined and not yet ended. So `busy_` is 0 just when all have joined and every transfer has
-- ended. There are fewer processes than 2 ^ 15.
pub Reach-counted :
    (kernel : Kernel) (u : Umpi) (c : ℕ) (start m : Moment)
    → u.size < 2 ^ 15
    → (start.world.cookie c).busy + start.slot.joined ≡ u.size
    → start.slot.joined ≤ u.size
    → start.begun ≡ 0
    → Reach kernel u c start m
    → ((m.world.cookie c).busy + m.slot.joined ≡ u.size + m.begun)
      × (((m.world.cookie c).busy == 0) ≡ (m.slot.joined == u.size && m.begun == 0))
Reach-counted kernel u c start m small posted few idle reach =
    let k =
      Reach-Counts u c small
        (record { sum = omega (arith, posted, idle); few = few; in_between = omega (arith, idle) })
        reach in
    (k.sum, ground (arith, k.sum, k.few, k.in_between))
