-- ===== src/Mailbox/Boxes/Touches.antt =====
-- What a transfer and its end change: no list of any mailbox, and no use count.
use umpi.Base.{
  ℕ, ◌<◌, ◌≡◌, refl, ap, subst, true, false, not, ◌&&◌, ◌==◌, if◌then◌else◌, ◌∙◌, ◌≢◌, Bool, none,
  some, arith, occurs, ltb,
}
use umpi.Iovec.{Iovec, len}
use umpi.World.{World, set_cookie, notify_done, mpi_fail}
use umpi.Transfer.{
  Kernel, write_to_owner, read_from_owner, complete, bytes_of, counted, too_long, write_call,
  read_count, bad_read, read_call,
}
use umpi.Mailbox.Boxes.{posted, held, Inv}

-- A change of the cookie `c` that leaves its users alone, of signals and of memory.
pub record Touches (c : ℕ) (w w' : World) : Type 0 where
  pub free : (r : ℕ) → (w'.process r).free ≡ (w.process r).free
  pub inbox : (r : ℕ) → (w'.process r).inbox ≡ (w.process r).inbox
  pub outbox : (r : ℕ) → (w'.process r).outbox ≡ (w.process r).outbox
  pub pending : (r : ℕ) → (w'.process r).pending ≡ (w.process r).pending
  pub used : (d : ℕ) → (w'.cookie d).used ≡ (w.cookie d).used
  pub busy : (d : ℕ) → d ≢ c → (w'.cookie d).busy ≡ (w.cookie d).busy
  pub src : (d : ℕ) → (w'.cookie d).src ≡ (w.cookie d).src
  pub tag : (d : ℕ) → (w'.cookie d).tag ≡ (w.cookie d).tag

Touches-trans : {c : ℕ} {u v w : World} → Touches c u v → Touches c v w → Touches c u w
Touches-trans s t = record {
  free = λ r. t.free r ∙ s.free r;
  inbox = λ r. t.inbox r ∙ s.inbox r;
  outbox = λ r. t.outbox r ∙ s.outbox r;
  pending = λ r. t.pending r ∙ s.pending r;
  used = λ d. t.used d ∙ s.used d;
  busy = λ d ne. t.busy d ne ∙ s.busy d ne;
  src = λ d. t.src d ∙ s.src d;
  tag = λ d. t.tag d ∙ s.tag d;
}

pub notify_done-Touches : (r c err : ℕ) (w : World) → Touches c w (notify_done r c err w).1
unfolding notify_done
notify_done-Touches r c err w = record {
  free = λ s. ground arith;
  inbox = λ s. ground arith;
  outbox = λ s. ground arith;
  pending = λ s. ground arith;
  used = λ d. ground arith;
  busy = λ d ne. ground arith;
  src = λ d. ground arith;
  tag = λ d. ground arith;
}

count-Touches :
    (c n : ℕ) (w : World) → Touches c w (set_cookie w c (record (w.cookie c) { count = n }))
count-Touches c n w = record {
  free = λ s. refl;
  inbox = λ s. refl;
  outbox = λ s. refl;
  pending = λ s. refl;
  used = λ d. ground arith;
  busy = λ d ne. ground arith;
  src = λ d. ground arith;
  tag = λ d. ground arith;
}

-- The results of the two transfers, by the tests that they make.
pub if_write :
    (P : World → Type 0) (b b' : Bool) (x y : ℕ × World)
    → P x.1
    → P y.1
    → {ret : ℕ} {w' : World}
    → (if b then some x else (if b' then none else some y)) ≡ some (ret, w')
    → P w'
if_write P true b' x y p q e = subst P (ground arith) p
if_write P false true x y p q e = absurd (ground arith)
if_write P false false x y p q e = subst P (ground arith) q

pub if_read :
    (P : World → Type 0) (b b' : Bool) (x y : ℕ × World)
    → P x.1
    → P y.1
    → {ret : ℕ} {w' : World}
    → (if b then none else (if b' then some x else some y)) ≡ some (ret, w')
    → P w'
if_read P true b' x y p q e = absurd (ground arith)
if_read P false true x y p q e = subst P (ground arith) p
if_read P false false x y p q e = subst P (ground arith) q

module _ (kernel : Kernel) (me : ℕ) where
  complete-Touches :
      (c total : ℕ) (r : ℕ × (ℕ → ℕ → ℕ)) (w : World)
      → Touches c w (complete kernel me c total r w).1
  unfolding complete
  complete-Touches c total (n, m) w =
      let t = notify_done-Touches (w.cookie c).owner c _ (record w { memory = m }) in
      record {
        free = t.free;
        inbox = t.inbox;
        outbox = t.outbox;
        pending = t.pending;
        used = t.used;
        busy = t.busy;
        src = t.src;
        tag = t.tag;
      }

  pub write_to_owner-Touches :
      (c buf : ℕ) (v : Iovec) (n seek skip : ℕ) (w : World) {ret : ℕ} {w' : World}
      → write_to_owner kernel me c buf v n seek skip w ≡ some (ret, w')
      → Touches c w w'
  unfolding write_to_owner
  write_to_owner-Touches c buf v n seek skip w e =
      let k = w.cookie c in
      let total = bytes_of n v in
      let w1 = set_cookie w c (record k { count = counted k total }) in
      let call = write_call kernel me c buf v n seek skip w in
      if_write (Touches c w) (too_long k total seek)
        (not (ltb (bytes_of k.count k.iovec) total) && len k.iovec == 0)
        (notify_done k.owner c mpi_fail w) (complete kernel me c total call w1)
        (notify_done-Touches k.owner c mpi_fail w)
        (Touches-trans (count-Touches c (counted k total) w) (complete-Touches c total call w1)) e

  pub read_from_owner-Touches :
      (c buf : ℕ) (v : Iovec) (size n seek skip : ℕ) (w : World) {ret : ℕ} {w' : World}
      → read_from_owner kernel me c buf v size n seek skip w ≡ some (ret, w')
      → Touches c w w'
  unfolding read_from_owner
  read_from_owner-Touches c buf v size n seek skip w e =
      let k = w.cookie c in
      let n' = read_count k v n skip in
      let total = bytes_of n' v in
      let call = read_call kernel me c buf v n' seek skip w in
      if_read (Touches c w) (n == 0 && len v == 0) (bad_read k v size total seek skip)
        (notify_done k.owner c mpi_fail w) (complete kernel me c total call w)
        (notify_done-Touches k.owner c mpi_fail w) (complete-Touches c total call w) e

module _ {c : ℕ} {w w' : World} (t : Touches c w w') where
  same_posted : (d r : ℕ) → posted d (w'.process r) ≡ posted d (w.process r)
  same_posted d r = omega (arith, ap (occurs d) (t.inbox r), ap (occurs d) (t.outbox r))

  same_held : (d r : ℕ) → held d (w'.process r) ≡ held d (w.process r)
  same_held d r =
      omega (arith, same_posted d r, ap (occurs d) (t.free r), ap (occurs d) (t.pending r))

  -- Such a change of a cookie that waits in no box keeps the invariant.
  pub Touches-Inv : ((r : ℕ) → posted c (w.process r) ≡ 0) → Inv w → Inv w'
  Touches-Inv claimed inv = record {
    once = λ r d. omega (arith, same_held d r, inv.once r d);
    apart = λ r s d hr hs.
        inv.apart r s d (omega (arith, same_held d r)) (omega (arith, same_held d s));
    fresh = λ r d h.
        let before : 0 < posted d (w.process r) = omega (arith, same_posted d r) in
        let (used, busy) = inv.fresh r d before in
        (t.used d ∙ used, t.busy d (λ e. absurd (omega (arith, claimed r, rw e at before))) ∙ busy);
    idle = λ r d h. t.used d ∙ inv.idle r d (omega (arith, ap (occurs d) (t.free r)));
  }
