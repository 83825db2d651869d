-- ===== src/Collect/Arriving.antt =====
-- A process that comes to a broadcast after the root: its call up to the transfer.
use umpi.Base.{
  ℕ, ◌+◌, ◌≡◌, refl, ap, ◌∙◌, true, false, List, ◌∷◌, arith, ◌==◌, if◌then◌else◌, Bool-cases, inl,
  inr, sext16,
}
use umpi.Iovec.{Iovec}
use umpi.World.{World, update_self, set_cookie, join}
use umpi.Transfer.{Kernel, read_from_owner}
use umpi.Transfer.Reading.{Kept}
use umpi.Mailbox.{move_to_pending}
use umpi.Collect.{
  Slot, Joined, bcast_request, join_root, join_box, root_found, found_locked, finishes,
}

-- A process that calls MPI_Bcast: its rank, the node for a new request, and its buffer.
pub record Leaf : Type 0 where
  pub rank : ℕ
  pub node : ℕ
  pub buf : ℕ

pub Kept-trans : {c : ℕ} {w w1 w2 : World} → Kept c w w1 → Kept c w1 w2 → Kept c w w2
Kept-trans a b = record {
  owner = b.owner ∙ a.owner;
  buf = b.buf ∙ a.buf;
  iovec = b.iovec ∙ a.iovec;
  size = b.size ∙ a.size;
  src = b.src ∙ a.src;
  pids = λ r. b.pids r ∙ a.pids r;
}

join-Kept : (c : ℕ) (w : World) → Kept c w (set_cookie w c (join (w.cookie c)))
unfolding join
join-Kept c w =
    let same = update_self w.cookie c (join (w.cookie c)) in
    record {
      owner = ap (λ k. k.owner) same;
      buf = ap (λ k. k.buf) same;
      iovec = ap (λ k. k.iovec) same;
      size = ap (λ k. k.size) same;
      src = ap (λ k. k.src) same;
      pids = λ r. refl;
    }

move-Kept : (r c : ℕ) (w : World) → Kept c w (move_to_pending r c w)
unfolding move_to_pending
move-Kept r c w = record {
  owner = refl;
  buf = refl;
  iovec = refl;
  size = refl;
  src = refl;
  pids = λ q. ground arith;
}

module _ (kernel : Kernel) (size trigger : ℕ) (count : ℕ) (v : Iovec) (root : ℕ) where
  -- The call of a process, once it has joined and locked the slot.
  abbrev pub call : Leaf → Slot → World → Joined
  call l s w =
      bcast_request kernel (record { size = size; rank = l.rank; trigger = trigger }) l.node l.buf
        count v root (record s { joined = s.joined + 1; locked = true }) w

  -- The world from which the transfer of the call starts.
  abbrev pub arrived : ℕ → Slot → World → World
  arrived c s w =
      let w1 = set_cookie w c (join (w.cookie c)) in
      if s.joined + 1 == size then move_to_pending (w.cookie c).owner c w1 else w1

  pub arrived-Kept :
      (c : ℕ) (s : Slot) (w : World)
      → Kept c w (arrived c s w) × ((arrived c s w).memory ≡ w.memory)
  unfolding move_to_pending
  arrived-Kept c s w =
      let w1 = set_cookie w c (join (w.cookie c)) in
      elim (Bool-cases (s.joined + 1 == size)) [
        | inl e ↦ rw e (Kept-trans (join-Kept c w) (move-Kept (w.cookie c).owner c w1), refl)
        | inr e ↦ rw e (join-Kept c w, refl)
      ]

  -- A call that finds the root's request.
  pub call_lem :
      (l : Leaf) (c : ℕ) (box : List ℕ) (s : Slot) (w : World)
      → s.box ≡ c ∷ box
      → sext16 (w.cookie c).src ≡ root
      → ((call l s w).reply
          ≡ finishes c (read_from_owner kernel l.rank c l.buf v count count 0 0 (arrived c s w)))
        × ((call l s w).slot.joined ≡ s.joined + 1)
        × ((s.joined + 1 == size) ≡ false → (call l s w).slot.box ≡ c ∷ box)
  unfolding bcast_request join_root join_box root_found found_locked
  call_lem l c box s w front is_root =
      let here : (sext16 (w.cookie c).src == root) ≡ true = ground (arith, is_root) in
      rw (front, here)
        (elim (Bool-cases (s.joined + 1 == size)) [
          | inl e ↦ rw e (refl, refl, λ f. absurd (ground (arith, f)))
          | inr e ↦ rw e (refl, refl, λ f. refl)
        ])
