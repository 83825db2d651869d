-- ===== src/Mailbox/Boxes/Finalize.antt =====
-- Leaving a finished request keeps the invariant of the mailboxes, and so does every history of
-- sends, receives and leaves.
use umpi.Base.{ℕ, ◌≤◌, ◌<◌, ◌≡◌, sym, ap, ◌∙◌, ◌≢◌, some, [], arith, occurs, ℕ_discrete}
use umpi.Iovec.{Iovec}
use umpi.World.{Process, World}
use umpi.Transfer.{Kernel}
use umpi.Mailbox.{Reply, recv_request, send_request, finalize, leave}
use umpi.Mailbox.Sweep.{Reclaims, finalize-Reclaims, finalize-used, used_after}
use umpi.Mailbox.Boxes.{posted, held, Inv}
use umpi.Mailbox.Boxes.Requests.{recv_request-Inv, send_request-Inv}

used_other : (c d : ℕ) (w : World) → d ≢ c → used_after c w d ≡ (w.cookie d).used
used_other c d w ne = ground arith

module _ (trigger r c : ℕ) {w : World} (inv : Inv w) where
  abbrev after : World
  after = finalize trigger r c w

  reclaims : Reclaims trigger r c w after
  reclaims = finalize-Reclaims trigger r c w

  held-le : (s d : ℕ) → held d (after.process s) ≤ held d (w.process s)
  held-le s d = elim (ℕ_discrete s r) [
    | yes e ↦ rw e (
        omega (
          arith,
          reclaims.no_new d,
          ap (occurs d) reclaims.same_inbox,
          ap (occurs d) reclaims.same_outbox,
        ))
    | no ne ↦ omega (arith, ap (held d) (reclaims.others s ne))
  ]

  same_posted : (s d : ℕ) → posted d (after.process s) ≡ posted d (w.process s)
  same_posted s d = elim (ℕ_discrete s r) [
    | yes e ↦
        rw e (omega (arith, ap (occurs d) reclaims.same_inbox, ap (occurs d) reclaims.same_outbox))
    | no ne ↦ ap (posted d) (reclaims.others s ne)
  ]

  module _ (done : (w.cookie c).busy ≡ 0) (in_use : (w.cookie c).used ≢ 0) where
    after-fresh :
        (s d : ℕ)
        → 0 < posted d (after.process s)
        → ((after.cookie d).used ≡ 1) × ((after.cookie d).busy ≡ 1)
    after-fresh s d h =
        let now = finalize-used trigger r c d w in
        let (used, busy) = inv.fresh s d (omega (arith, same_posted s d)) in
        let other : d ≢ c = λ e. absurd (omega (arith, ap (λ x. (w.cookie x).busy) e)) in
        (now.0 ∙ used_other c d w other ∙ used, now.1 ∙ busy)

    free-idle : (s d : ℕ) → 0 < occurs d (w.process s).free → (after.cookie d).used ≡ 0
    free-idle s d h =
        let before = inv.idle s d h in
        let other : d ≢ c = λ e. in_use (ap (λ x. (w.cookie x).used) (sym e) ∙ before) in
        (finalize-used trigger r c d w).0 ∙ used_other c d w other ∙ before

    after-idle : (s d : ℕ) → 0 < occurs d (after.process s).free → (after.cookie d).used ≡ 0
    after-idle s d h = elim (ℕ_discrete (occurs d (w.process s).free) 0) [
      | no some_before ↦ free-idle s d (omega arith)
      | yes none_before ↦ elim (ℕ_discrete s r) [
        | yes e ↦
            (finalize-used trigger r c d w).0 ∙ reclaims.freed d (rw e at h) (rw e at none_before)
        | no ne ↦
            absurd (omega (arith, ap (λ (q : Process). occurs d q.free) (reclaims.others s ne)))
      ]
    ]

    -- `finalize` keeps the invariant for a request that is done and in use.
    pub finalize-Inv : Inv after
    finalize-Inv = record {
      once = λ s d. omega (arith, held-le s d, inv.once s d);
      apart =
          λ s t d hs ht. inv.apart s t d (omega (arith, held-le s d)) (omega (arith, held-le t d));
      fresh = after-fresh;
      idle = after-idle;
    }

-- A step of a history: some process sends, receives, or leaves a request that is done.
pub data Step (kernel : Kernel) (w : World) : World → Type 0 where
  sends :
      (me dest node buf count : ℕ) (v : Iovec) (tag : ℕ) (rep : Reply)
      → ((s : ℕ) → held node (w.process s) ≡ 0)
      → send_request kernel me dest node buf count v tag w ≡ some rep
      → Step kernel w rep.world
  receives :
      (me node buf count : ℕ) (v : Iovec) (source tag : ℕ) (rep : Reply)
      → ((s : ℕ) → held node (w.process s) ≡ 0)
      → recv_request kernel me node buf count v source tag w ≡ some rep
      → Step kernel w rep.world
  leaves :
      (trigger c : ℕ)
      → (w.cookie c).busy ≡ 0
      → (w.cookie c).used ≢ 0
      → Step kernel w (leave trigger c w)

pub data Reach (kernel : Kernel) (w : World) : World → Type 0 where
  start : Reach kernel w w
  later : {u v : World} → Reach kernel w u → Step kernel u v → Reach kernel w v

-- A process list with no node in it.
pub record IsEmpty (p : Process) : Type 0 where
  pub no_free : p.free ≡ []
  pub no_inbox : p.inbox ≡ []
  pub no_outbox : p.outbox ≡ []
  pub no_pending : p.pending ≡ []

held-IsEmpty : {p : Process} (d : ℕ) → IsEmpty p → held d p ≡ 0
held-IsEmpty d e = omega (
  arith,
  ap (occurs d) e.no_free,
  ap (occurs d) e.no_inbox,
  ap (occurs d) e.no_outbox,
  ap (occurs d) e.no_pending,
)

pub empty-Inv : {w : World} → ((r : ℕ) → IsEmpty (w.process r)) → Inv w
empty-Inv e = record {
  once = λ r c. omega (arith, held-IsEmpty c (e r));
  apart = λ r s c h _. absurd (omega (arith, held-IsEmpty c (e r)));
  fresh = λ r c h. absurd (omega (arith, held-IsEmpty c (e r)));
  idle = λ r c h. absurd (omega (arith, held-IsEmpty c (e r)));
}

pub Step-Inv : {kernel : Kernel} {w w' : World} → Step kernel w w' → Inv w → Inv w'
unfolding leave
Step-Inv {kernel} {w} (sends me dest node buf count v tag rep unknown e) inv =
    send_request-Inv kernel me dest node buf count v tag w {rep = rep} inv unknown e
Step-Inv {kernel} {w} (receives me node buf count v source tag rep unknown e) inv =
    recv_request-Inv kernel me node buf count v source tag w {rep = rep} inv unknown e
Step-Inv {w} (leaves trigger c done in_use) inv =
    finalize-Inv trigger (w.cookie c).owner c inv done in_use

-- In every history of point-to-point messages that starts with empty mailboxes, with any kernel: a
-- node lies in at most one list of one process, once; the requests in the boxes have one user and are
-- not done; the free nodes have no user. Such a history has the request calls of sends and receives,
-- whose new nodes are in no list, and `leave` for requests that are done and still in use. Collective
-- operations, which use the same lists, and what they destroy on an error are not among its steps.
pub Reach-Inv :
    {kernel : Kernel} {w w' : World}
    → ((r : ℕ) → IsEmpty (w.process r))
    → Reach kernel w w'
    → Inv w'
Reach-Inv e start = empty-Inv e
Reach-Inv e (later r st) = Step-Inv st (Reach-Inv e r)
