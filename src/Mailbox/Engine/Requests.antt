-- ===== src/Mailbox/Engine/Requests.antt =====
-- The request calls do to the boxes what the engine does to its queues.
use umpi.Base.{
  ℕ, ◌+◌, ◌<◌, ◌^◌, ◌≡◌, refl, sym, ap, ap₂, ◌∙◌, inl, inr, Bool, none, some, List, map, arith,
  Option-cases, u16, update, if◌then◌else◌,
}
use umpi.Iovec.{Iovec}
use umpi.World.{Process, World, new_cookie, join, recv_match, send_match, for_incoming, update_self}
use umpi.Transfer.{Kernel}
use umpi.Mailbox.{
  Reply, create_request, take_first, recv_found, recv_posted, recv_request, send_found, send_posted,
  send_request,
}
use umpi.Mailbox.Matching.{First, take_first-some, IsShort, sext16-u16}
use umpi.Mailbox.Boxes.{held, Inv}
use umpi.Mailbox.Boxes.Touches.{write_to_owner-Touches, read_from_owner-Touches}
use umpi.Mailbox.Boxes.Nodes.{replies-some, created-box}
use umpi.Mailbox.Engine.{
  envelope, takes, receive, received, arrive, arrived, envelope_of, view, Engine-ext,
}
use umpi.Mailbox.Engine.Queues.{
  map_rest, remove_first-map, created-unposted, claimed-inbox, claimed-outbox, queue_kept,
  queue_longer, moved,
}

pub takes-recv_match :
    (w : World) (source tag c : ℕ)
    → takes (envelope_of w c) (envelope source tag) ≡ recv_match (w.cookie c) source tag
unfolding takes envelope_of recv_match
takes-recv_match w source tag c = refl

takes-send_match :
    (w : World) (source tag c : ℕ)
    → tag < 2 ^ 15
    → takes (envelope source tag) (envelope_of w c) ≡ send_match (w.cookie c) source tag
unfolding takes envelope_of send_match
takes-send_match w source tag c small = ground arith

new-envelope :
    (w : World) (r c : ℕ) (p : Process) (owner buf : ℕ) (v : Iovec) (size count source tag num : ℕ)
    → IsShort source
    → IsShort tag
    → envelope_of (moved w r c (new_cookie owner buf v size count source tag num) p) c
      ≡ envelope source tag
unfolding envelope_of new_cookie
new-envelope w r c p owner buf v size count source tag num short short' =
    rw (update_self w.cookie c (new_cookie owner buf v size count source tag num))
      (ap₂ envelope (sext16-u16 source short) (sext16-u16 tag short'))

module _ (kernel : Kernel) (me : ℕ) where
  recv_posted-view :
      (node buf count : ℕ) (v : Iovec) (source tag : ℕ) {w : World}
      → Inv w
      → ((s : ℕ) → held node (w.process s) ≡ 0)
      → IsShort source
      → IsShort tag
      → view (recv_posted kernel me node buf count v source tag w).world
        ≡ received me (envelope source tag) (view w) none
  unfolding recv_posted received view
  recv_posted-view node buf count v source tag {w} inv unknown short short' =
      let p0 = w.process me in
      let made = create_request node p0.free p0.outbox in
      let k = new_cookie me buf v count count source tag 1 in
      let p = record p0 { free = made.free; outbox = made.box } in
      let new = created-unposted me node p0.free p0.outbox inv refl unknown in
      Engine-ext (queue_kept w me made.cookie k p new (λ x. x.inbox) (λ x. omega arith) refl) (
        queue_longer w me made.cookie k p new (λ x. x.outbox) (envelope source tag)
          (λ x. omega arith) (created-box node p0.free p0.outbox)
          (new-envelope w me made.cookie p me buf v count count source tag 1 short short'))

  recv_found-view :
      (c : ℕ) (ds : List ℕ) (buf count : ℕ) (v : Iovec) (q : ℕ → Bool) {w : World} {rep : Reply}
      → Inv w
      → First q (w.process me).inbox c ds
      → recv_found kernel me c ds buf count v w ≡ some rep
      → view rep.world
        ≡ record (view w) { messages = update (view w).messages me (map (envelope_of w) ds) }
  unfolding recv_found
  recv_found-view c ds buf count v q {w} {rep} inv f e =
      claimed-inbox inv me c (join (w.cookie c)) rep.world q ds f
        (read_from_owner-Touches kernel me c buf v count 0 0 0 _ (replies-some c _ e))

  -- `recv_request` does what the engine does for a receive, whatever becomes of the bytes.
  pub recv_request-view :
      (node buf count : ℕ) (v : Iovec) (source tag : ℕ) (w : World) {rep : Reply}
      → Inv w
      → ((s : ℕ) → held node (w.process s) ≡ 0)
      → IsShort source
      → IsShort tag
      → recv_request kernel me node buf count v source tag w ≡ some rep
      → view rep.world ≡ receive me (envelope source tag) (view w)
  unfolding recv_request receive received view
  recv_request-view node buf count v source tag w {rep} inv unknown short short' e =
      let q = λ (c : ℕ). recv_match (w.cookie c) source tag in
      let inbox = (w.process me).inbox in
      let search =
        remove_first-map (envelope_of w) (λ m. takes m (envelope source tag)) q inbox
          (takes-recv_match w source tag) in
      elim (Option-cases (take_first q inbox)) [
        | inl missing ↦
            let here : rep ≡ recv_posted kernel me node buf count v source tag w =
              ground (arith, missing) in
            ap (λ x. view x.world) here
            ∙ recv_posted-view node buf count v source tag inv unknown short short'
            ∙ ap (received me (envelope source tag) (view w))
                (sym (search ∙ ap (map_rest (envelope_of w)) missing))
        | inr ((c, ds), hit) ↦
            let run : recv_found kernel me c ds buf count v w ≡ some rep = ground (arith, hit) in
            recv_found-view c ds buf count v q {rep = rep} inv (take_first-some q _ hit) run
            ∙ ap (received me (envelope source tag) (view w))
                (sym (search ∙ ap (map_rest (envelope_of w)) hit))
      ]

  send_posted-view :
      (dest node buf count : ℕ) (v : Iovec) (tag : ℕ) {w : World}
      → Inv w
      → ((s : ℕ) → held node (w.process s) ≡ 0)
      → IsShort me
      → IsShort tag
      → view (send_posted kernel me dest node buf count v tag w).world
        ≡ arrived dest (envelope me tag) (view w) none
  unfolding send_posted arrived view
  send_posted-view dest node buf count v tag {w} inv unknown short short' =
      let p0 = w.process dest in
      let made = create_request node p0.free p0.inbox in
      let k = new_cookie me buf v count count me tag 1 in
      let p = record p0 {
        free = made.free;
        inbox = made.box;
        signals = if for_incoming p0.waiting_for then p0.signals + 1 else p0.signals;
      } in
      let new = created-unposted dest node p0.free p0.inbox inv refl unknown in
      Engine-ext
        (queue_longer w dest made.cookie k p new (λ x. x.inbox) (envelope me tag) (λ x. omega arith)
          (created-box node p0.free p0.inbox)
          (new-envelope w dest made.cookie p me buf v count count me tag 1 short short'))
        (queue_kept w dest made.cookie k p new (λ x. x.outbox) (λ x. omega arith) refl)

  send_found-view :
      (dest c : ℕ) (ds : List ℕ) (buf count : ℕ) (v : Iovec) (tag : ℕ) (q : ℕ → Bool) {w : World}
      {rep : Reply}
      → Inv w
      → First q (w.process dest).outbox c ds
      → send_found kernel me dest c ds buf count v tag w ≡ some rep
      → view rep.world
        ≡ record (view w) { receives = update (view w).receives dest (map (envelope_of w) ds) }
  unfolding send_found
  send_found-view dest c ds buf count v tag q {w} {rep} inv f e =
      claimed-outbox inv dest c (join (record (w.cookie c) { src = u16 me; tag = u16 tag }))
        rep.world q ds f (write_to_owner-Touches kernel me c buf v count 0 0 _ (replies-some c _ e))

  -- `send_request` does what the engine does for a message, whatever becomes of the bytes.
  pub send_request-view :
      (dest node buf count : ℕ) (v : Iovec) (tag : ℕ) (w : World) {rep : Reply}
      → Inv w
      → ((s : ℕ) → held node (w.process s) ≡ 0)
      → me < 2 ^ 15
      → tag < 2 ^ 15
      → send_request kernel me dest node buf count v tag w ≡ some rep
      → view rep.world ≡ arrive dest (envelope me tag) (view w)
  unfolding send_request arrive arrived view
  send_request-view dest node buf count v tag w {rep} inv unknown short short' e =
      let q = λ (c : ℕ). send_match (w.cookie c) me tag in
      let outbox = (w.process dest).outbox in
      let search =
        remove_first-map (envelope_of w) (takes (envelope me tag)) q outbox
          (λ c. takes-send_match w me tag c short') in
      elim (Option-cases (take_first q outbox)) [
        | inl missing ↦
            let here : rep ≡ send_posted kernel me dest node buf count v tag w =
              ground (arith, missing) in
            ap (λ x. view x.world) here
            ∙ send_posted-view dest node buf count v tag inv unknown (inl short) (inl short')
            ∙ ap (arrived dest (envelope me tag) (view w))
                (sym (search ∙ ap (map_rest (envelope_of w)) missing))
        | inr ((c, ds), hit) ↦
            let run : send_found kernel me dest c ds buf count v tag w ≡ some rep =
              ground (arith, hit) in
            send_found-view dest c ds buf count v tag q {rep = rep} inv (take_first-some q _ hit)
              run
            ∙ ap (arrived dest (envelope me tag) (view w))
                (sym (search ∙ ap (map_rest (envelope_of w)) hit))
      ]
