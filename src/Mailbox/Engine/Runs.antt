-- ===== src/Mailbox/Engine/Runs.antt =====
-- Histories of sends, receives and leaves as runs of the engine.
use umpi.Base.{
  ℕ, ◌<◌, ◌^◌, ◌≡◌, refl, ap, ap₂, ◌∙◌, ◌≢◌, some, List, [], ◌∷◌, map, arith, ℕ_discrete, fun_ext,
}
use umpi.Iovec.{Iovec}
use umpi.World.{World}
use umpi.Transfer.{Kernel}
use umpi.Mailbox.{Reply, recv_request, send_request, leave, finalize}
use umpi.Mailbox.Matching.{IsShort}
use umpi.Mailbox.Sweep.{finalize-Reclaims}
use umpi.Mailbox.Boxes.{held, Inv}
use umpi.Mailbox.Boxes.Finalize.{Step-Inv, Step.sends, Step.receives, Step.leaves}
use umpi.Mailbox.Engine.{envelope, Engine, receive, arrive, envelope_of, view, Engine-ext}
use umpi.Mailbox.Engine.Requests.{recv_request-view, send_request-view}

-- A call of the process `me`, as far as the engine sees it.
pub data Call : Type 0 where
  send : (me dest tag : ℕ) → Call
  recv : (me source tag : ℕ) → Call
  done : Call

-- The engine after some calls, the last one first.
unfoldable pub play : List Call → Engine → Engine
play [] e = e
play (send me dest tag ∷ cs) e = arrive dest (envelope me tag) (play cs e)
play (recv me source tag ∷ cs) e = receive me (envelope source tag) (play cs e)
play (done ∷ cs) e = play cs e

-- The world after some calls, the last one first. Ranks and tags fit 16 bits.
pub data Run (kernel : Kernel) (w : World) : List Call → World → Type 0 where
  start : Run kernel w [] w
  sent :
      (cs : List Call) (u : World) (me dest node buf count : ℕ) (v : Iovec) (tag : ℕ) (rep : Reply)
      → Run kernel w cs u
      → me < 2 ^ 15
      → tag < 2 ^ 15
      → ((s : ℕ) → held node (u.process s) ≡ 0)
      → send_request kernel me dest node buf count v tag u ≡ some rep
      → Run kernel w (send me dest tag ∷ cs) rep.world
  asked :
      (cs : List Call) (u : World) (me node buf count : ℕ) (v : Iovec) (source tag : ℕ)
      (rep : Reply)
      → Run kernel w cs u
      → IsShort source
      → IsShort tag
      → ((s : ℕ) → held node (u.process s) ≡ 0)
      → recv_request kernel me node buf count v source tag u ≡ some rep
      → Run kernel w (recv me source tag ∷ cs) rep.world
  left :
      (cs : List Call) (u : World) (trigger c : ℕ)
      → Run kernel w cs u
      → (u.cookie c).busy ≡ 0
      → (u.cookie c).used ≢ 0
      → Run kernel w (done ∷ cs) (leave trigger c u)

module _ {kernel : Kernel} {w : World} where
  Run-Inv : {cs : List Call} {w' : World} → Run kernel w cs w' → Inv w → Inv w'
  Run-Inv start inv = inv
  Run-Inv (sent cs u me dest node buf count v tag rep r _ _ unknown e) inv =
      Step-Inv (sends me dest node buf count v tag rep unknown e) (Run-Inv r inv)
  Run-Inv (asked cs u me node buf count v source tag rep r _ _ unknown e) inv =
      Step-Inv (receives me node buf count v source tag rep unknown e) (Run-Inv r inv)
  Run-Inv (left cs u trigger c r idle in_use) inv =
      Step-Inv {kernel = kernel} (leaves trigger c idle in_use) (Run-Inv r inv)

envelopes : (trigger r c : ℕ) (w : World) → envelope_of (finalize trigger r c w) ≡ envelope_of w
unfolding envelope_of finalize
envelopes trigger r c w = fun_ext λ d. ground arith

-- `leave` is none of the engine's business.
leave-view : (trigger c : ℕ) (w : World) → view (leave trigger c w) ≡ view w
unfolding view leave
leave-view trigger c w =
    let r = (w.cookie c).owner in
    let after = finalize trigger r c w in
    let done_with = finalize-Reclaims trigger r c w in
    let same = envelopes trigger r c w in
    let in_box : (s : ℕ) → (after.process s).inbox ≡ (w.process s).inbox = λ s.
      elim (ℕ_discrete s r) [
        | yes e ↦ rw e done_with.same_inbox
        | no ne ↦ ap (λ p. p.inbox) (done_with.others s ne)
      ] in
    let out_box : (s : ℕ) → (after.process s).outbox ≡ (w.process s).outbox = λ s.
      elim (ℕ_discrete s r) [
        | yes e ↦ rw e done_with.same_outbox
        | no ne ↦ ap (λ p. p.outbox) (done_with.others s ne)
      ] in
    Engine-ext (λ s. ap₂ map same (in_box s)) (λ s. ap₂ map same (out_box s))

pub Run-view :
    {kernel : Kernel} {w : World} {cs : List Call} {w' : World}
    → Inv w
    → Run kernel w cs w'
    → view w' ≡ play cs (view w)
unfolding play
Run-view inv start = refl
Run-view {kernel} inv (sent cs u me dest node buf count v tag rep r small small' unknown e) =
    send_request-view kernel me dest node buf count v tag u {rep = rep} (Run-Inv r inv) unknown
      small small' e
    ∙ ap (arrive dest (envelope me tag)) (Run-view inv r)
Run-view {kernel} inv (asked cs u me node buf count v source tag rep r short short' unknown e) =
    recv_request-view kernel me node buf count v source tag u {rep = rep} (Run-Inv r inv) unknown
      short short' e
    ∙ ap (receive me (envelope source tag)) (Run-view inv r)
Run-view inv (left cs u trigger c r idle in_use) = leave-view trigger c u ∙ Run-view inv r
