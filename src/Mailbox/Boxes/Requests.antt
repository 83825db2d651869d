-- ===== src/Mailbox/Boxes/Requests.antt =====
-- The critical sections of the point-to-point calls keep the invariant of the mailboxes.
use umpi.Base.{
  ℕ, ◌≡◌, refl, ap, subst, inl, inr, Bool, some, List, [], ◌∷◌, arith, occurs, occurs-append,
  Option-cases, u16,
}
use umpi.Iovec.{Iovec}
use umpi.World.{World, new_cookie, join, recv_match, send_match}
use umpi.Transfer.{Kernel}
use umpi.Mailbox.{
  Reply, create_request, take_first, recv_found, recv_posted, recv_request, send_found, send_posted,
  send_request,
}
use umpi.Mailbox.Matching.{First, take_first-some}
use umpi.Mailbox.Boxes.{held, Inv, Moves-Inv}
use umpi.Mailbox.Boxes.Touches.{Touches-Inv, write_to_owner-Touches, read_from_owner-Touches}
use umpi.Mailbox.Boxes.Nodes.{
  First-occurs, occurs_cons, claim-Moves, created-Moves, created-box, replies-some, unposted,
}

module _ (kernel : Kernel) (me : ℕ) where
  recv_posted-Inv :
      (node buf count : ℕ) (v : Iovec) (source tag : ℕ) {w : World}
      → Inv w
      → ((s : ℕ) → held node (w.process s) ≡ 0)
      → Inv (recv_posted kernel me node buf count v source tag w).world
  unfolding recv_posted new_cookie
  recv_posted-Inv node buf count v source tag {w} inv unknown =
      let p = w.process me in
      let made = create_request node p.free p.outbox in
      Moves-Inv
        (created-Moves inv me node p.outbox (new_cookie me buf v count count source tag 1) p.free
          refl unknown refl
          (λ d. omega (
            arith,
            ap (occurs d) (created-box node p.free p.outbox),
            occurs-append d p.outbox (made.cookie ∷ []),
          ))
          refl (refl, refl))
        inv

  send_posted-Inv :
      (dest node buf count : ℕ) (v : Iovec) (tag : ℕ) {w : World}
      → Inv w
      → ((s : ℕ) → held node (w.process s) ≡ 0)
      → Inv (send_posted kernel me dest node buf count v tag w).world
  unfolding send_posted new_cookie
  send_posted-Inv dest node buf count v tag {w} inv unknown =
      let p = w.process dest in
      let made = create_request node p.free p.inbox in
      Moves-Inv
        (created-Moves inv dest node p.inbox (new_cookie me buf v count count me tag 1) p.free refl
          unknown refl
          (λ d. omega (
            arith,
            ap (occurs d) (created-box node p.free p.inbox),
            occurs-append d p.inbox (made.cookie ∷ []),
          ))
          refl (refl, refl))
        inv

  recv_found-Inv :
      (c : ℕ) (ds : List ℕ) (buf count : ℕ) (v : Iovec) (q : ℕ → Bool) {w : World} {rep : Reply}
      → Inv w
      → First q (w.process me).inbox c ds
      → recv_found kernel me c ds buf count v w ≡ some rep
      → Inv rep.world
  unfolding recv_found
  recv_found-Inv c ds buf count v q {w} {rep} inv f e =
      let p = record (w.process me) { inbox = ds; pending = c ∷ (w.process me).pending } in
      let (m, gone) =
        claim-Moves inv me {c = c} {p = p} (join (w.cookie c))
          (λ d. omega (arith, First-occurs f d, occurs_cons d c (w.process me).pending))
          (λ d. omega (arith, First-occurs f d)) refl in
      Touches-Inv (read_from_owner-Touches kernel me c buf v count 0 0 0 _ (replies-some c _ e))
        (unposted m gone) (Moves-Inv m inv)

  send_found-Inv :
      (dest c : ℕ) (ds : List ℕ) (buf count : ℕ) (v : Iovec) (tag : ℕ) (q : ℕ → Bool) {w : World}
      {rep : Reply}
      → Inv w
      → First q (w.process dest).outbox c ds
      → send_found kernel me dest c ds buf count v tag w ≡ some rep
      → Inv rep.world
  unfolding send_found
  send_found-Inv dest c ds buf count v tag q {w} {rep} inv f e =
      let p = record (w.process dest) { outbox = ds; pending = c ∷ (w.process dest).pending } in
      let (m, gone) =
        claim-Moves inv dest {c = c} {p = p}
          (join (record (w.cookie c) { src = u16 me; tag = u16 tag }))
          (λ d. omega (arith, First-occurs f d, occurs_cons d c (w.process dest).pending))
          (λ d. omega (arith, First-occurs f d)) refl in
      Touches-Inv (write_to_owner-Touches kernel me c buf v count 0 0 _ (replies-some c _ e))
        (unposted m gone) (Moves-Inv m inv)

  -- `process::recv_request` keeps the invariant of the mailboxes, if the address that the allocator
  -- would give for a new node is in no list.
  pub recv_request-Inv :
      (node buf count : ℕ) (v : Iovec) (source tag : ℕ) (w : World) {rep : Reply}
      → Inv w
      → ((s : ℕ) → held node (w.process s) ≡ 0)
      → recv_request kernel me node buf count v source tag w ≡ some rep
      → Inv rep.world
  unfolding recv_request
  recv_request-Inv node buf count v source tag w {rep} inv unknown e =
      let q = λ (c : ℕ). recv_match (w.cookie c) source tag in
      elim (Option-cases (take_first q (w.process me).inbox)) [
        | inl missing ↦
            subst Inv (ground (arith, missing))
              (recv_posted-Inv node buf count v source tag inv unknown)
        | inr ((c, ds), hit) ↦
            recv_found-Inv c ds buf count v q {rep = rep} inv (take_first-some q _ hit)
              (ground (arith, hit))
      ]

  -- `process::send_request` keeps it too.
  pub send_request-Inv :
      (dest node buf count : ℕ) (v : Iovec) (tag : ℕ) (w : World) {rep : Reply}
      → Inv w
      → ((s : ℕ) → held node (w.process s) ≡ 0)
      → send_request kernel me dest node buf count v tag w ≡ some rep
      → Inv rep.world
  unfolding send_request
  send_request-Inv dest node buf count v tag w {rep} inv unknown e =
      let q = λ (c : ℕ). send_match (w.cookie c) me tag in
      elim (Option-cases (take_first q (w.process dest).outbox)) [
        | inl missing ↦
            subst Inv (ground (arith, missing))
              (send_posted-Inv dest node buf count v tag inv unknown)
        | inr ((c, ds), hit) ↦
            send_found-Inv dest c ds buf count v tag q {rep = rep} inv (take_first-some q _ hit)
              (ground (arith, hit))
      ]
