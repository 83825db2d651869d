-- ===== src/Mailbox/Sweep.antt =====
-- `process::finalize`: what it reclaims and what it keeps.
use umpi.Base.{
  ℕ, ◌+◌, ◌/◌, ◌≤◌, ◌<◌, ◌≡◌, refl, sym, ap, fun_ext, ◌∙◌, ◌≢◌, List, [], ◌∷◌, arith, length,
  length-take, occurs, occurs-take, dec16, ◌==◌, if◌then◌else◌,
}
use umpi.World.{Cookie, Process, World, update, update_self, update_other}
use umpi.Mailbox.{sweep, trim, finalize, leave}

-- The cookies that somebody uses, in their order.
unfoldable pub in_use : (ℕ → ℕ) → List ℕ → List ℕ
in_use used [] = []
in_use used (c ∷ cs) = if used c == 0 then in_use used cs else c ∷ in_use used cs

pub sweep-pending :
    (used : ℕ → ℕ) (cs free : List ℕ) → (sweep used cs free).pending ≡ in_use used cs
unfolding sweep in_use
sweep-pending used [] free = refl
sweep-pending used (c ∷ cs) free =
    ground (arith, sweep-pending used cs (c ∷ free), sweep-pending used cs free)

-- No node is lost or made up.
pub occurs-sweep :
    (used : ℕ → ℕ) (a : ℕ) (cs free : List ℕ)
    → occurs a (sweep used cs free).pending + occurs a (sweep used cs free).free
      ≡ occurs a cs + occurs a free
unfolding sweep
occurs-sweep used a [] free = omega arith
occurs-sweep used a (c ∷ cs) free =
    ground (arith, occurs-sweep used a cs (c ∷ free), occurs-sweep used a cs free)

pub length-sweep :
    (used : ℕ → ℕ) (cs free : List ℕ)
    → length (sweep used cs free).pending + length (sweep used cs free).free
      ≡ length cs + length free
unfolding sweep
length-sweep used [] free = omega arith
length-sweep used (c ∷ cs) free =
    ground (arith, length-sweep used cs (c ∷ free), length-sweep used cs free)

pub occurs-in_use :
    (used : ℕ → ℕ) (a : ℕ) (cs : List ℕ) → 0 < occurs a (in_use used cs) → used a ≢ 0
unfolding in_use
occurs-in_use used a [] h = absurd (omega arith)
occurs-in_use used a (c ∷ cs) h = ground (arith, occurs-in_use used a cs)

pub occurs-freed :
    (used : ℕ → ℕ) (a : ℕ) (cs free : List ℕ)
    → 0 < occurs a (sweep used cs free).free
    → occurs a free ≡ 0
    → used a ≡ 0
unfolding sweep
occurs-freed used a [] free h n = absurd (omega arith)
occurs-freed used a (c ∷ cs) free h n =
    ground (arith, occurs-freed used a cs (c ∷ free), occurs-freed used a cs free)

pub length-trim : (trigger : ℕ) (free : List ℕ) → length (trim trigger free) ≤ trigger
unfolding trim
length-trim trigger free = ground (arith, length-take (trigger / 2) free)

trim_of_le : (trigger : ℕ) (free : List ℕ) → length free ≤ trigger → trim trigger free ≡ free
unfolding trim
trim_of_le trigger free h = ground arith

occurs-trim : (a trigger : ℕ) (free : List ℕ) → occurs a (trim trigger free) ≤ occurs a free
unfolding trim
occurs-trim a trigger free = ground (arith, occurs-take a (trigger / 2) free)

-- `used_--` of the cookie `c`.
abbrev pub used_after : ℕ → World → ℕ → ℕ
used_after c w d = if c == d then dec16 (w.cookie c).used else (w.cookie d).used

-- What `finalize` of the process `r` for the request `c` leaves.
pub record Reclaims (trigger r c : ℕ) (w w' : World) : Type 0 where
  pub kept : (w'.process r).pending ≡ in_use (used_after c w) (w.process r).pending
  pub bounded : length (w'.process r).free ≤ trigger
  pub conserved :
      (a : ℕ)
      → length (w.process r).pending + length (w.process r).free ≤ trigger
      → occurs a (w'.process r).pending + occurs a (w'.process r).free
        ≡ occurs a (w.process r).pending + occurs a (w.process r).free
  pub no_new :
      (a : ℕ)
      → occurs a (w'.process r).pending + occurs a (w'.process r).free
        ≤ occurs a (w.process r).pending + occurs a (w.process r).free
  pub same_inbox : (w'.process r).inbox ≡ (w.process r).inbox
  pub same_outbox : (w'.process r).outbox ≡ (w.process r).outbox
  pub freed :
      (d : ℕ)
      → 0 < occurs d (w'.process r).free
      → occurs d (w.process r).free ≡ 0
      → used_after c w d ≡ 0
  pub others : (s : ℕ) → s ≢ r → w'.process s ≡ w.process s

-- The used counts that the sweep reads.
used_at :
    (c : ℕ) (w : World) (k : Cookie)
    → k.used ≡ dec16 (w.cookie c).used
    → (d : ℕ) → (update w.cookie c k d).used ≡ used_after c w d
used_at c w k e d = ground arith

-- `finalize` of the process `r` keeps, in their order, exactly the pending cookies that somebody
-- still uses, and a node that becomes free has no user; it leaves at most `trigger` free nodes; the
-- nodes of the two lists are the same ones as before, as often, if together they are at most
-- `trigger`, and no new ones in any case; the two boxes of the process and all other processes are
-- as they were.
pub finalize-Reclaims :
    (trigger r c : ℕ) (w : World) → Reclaims trigger r c w (finalize trigger r c w)
unfolding finalize
finalize-Reclaims trigger r c w =
    let k = record (w.cookie c) { used = dec16 (w.cookie c).used } in
    let used = λ (d : ℕ). (update w.cookie c k d).used in
    let p = w.process r in
    let same : used ≡ used_after c w = fun_ext (used_at c w k refl) in
    let swept = sweep used p.pending p.free in
    let mine : (finalize trigger r c w).process r
        ≡ record p { pending = swept.pending; free = trim trigger swept.free } =
      update_self w.process r _ in
    let short = λ (h : length p.pending + length p.free ≤ trigger).
      trim_of_le trigger swept.free (omega (arith, length-sweep used p.pending p.free)) in
    record {
      kept =
          ap (λ q. q.pending) mine
          ∙ sweep-pending used p.pending p.free
          ∙ ap (λ f. in_use f p.pending) same;
      bounded =
          omega (arith, ap (λ (q : Process). length q.free) mine, length-trim trigger swept.free);
      conserved = λ a h. omega (
        arith,
        ap (λ (q : Process). occurs a q.pending + occurs a q.free) mine,
        ap (λ (l : List ℕ). occurs a l) (short h),
        occurs-sweep used a p.pending p.free,
      );
      no_new = λ a. omega (
        arith,
        ap (λ (q : Process). occurs a q.pending + occurs a q.free) mine,
        occurs-trim a trigger swept.free,
        occurs-sweep used a p.pending p.free,
      );
      same_inbox = ap (λ q. q.inbox) mine;
      same_outbox = ap (λ q. q.outbox) mine;
      freed = λ d now before.
          ap (λ f. f d) (sym same)
          ∙ occurs-freed used d p.pending p.free
              (omega (
                arith,
                ap (λ (q : Process). occurs d q.free) mine,
                occurs-trim d trigger swept.free,
              ))
              before;
      others = λ s ne. update_other w.process r s _ ne;
    }

-- When the last user leaves a cookie that lies in the pending list of a process which is not its
-- owner, the cookie has no user any more, but that process, its pending list and its free nodes
-- included, stays as it was.
pub leave_elsewhere :
    (trigger c r : ℕ) (w : World)
    → (w.cookie c).owner ≢ r
    → (w.cookie c).used ≡ 1
    → (((leave trigger c w).cookie c).used ≡ 0) × ((leave trigger c w).process r ≡ w.process r)
unfolding leave finalize
leave_elsewhere trigger c r w other last =
    (ground arith, (finalize-Reclaims trigger (w.cookie c).owner c w).others r (λ e. other (sym e)))

pub finalize-used :
    (trigger r c d : ℕ) (w : World)
    → (((finalize trigger r c w).cookie d).used ≡ used_after c w d)
      × (((finalize trigger r c w).cookie d).busy ≡ (w.cookie d).busy)
unfolding finalize
finalize-used trigger r c d w = (ground arith, ground arith)
