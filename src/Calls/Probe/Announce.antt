-- ===== src/Calls/Probe/Announce.antt =====
-- What `MPI_Iprobe` tells about the messages that wait.
use umpi.Base.{
  ℕ, ◌≡◌, refl, ap, sym, ◌∙◌, inl, inr, Bool, true, false, Option, none, some, List, [], ◌∷◌, map,
  arith, Option-cases, if◌then◌else◌,
}
use umpi.World.{World, recv_match}
use umpi.Mailbox.{take_first, find_any}
use umpi.Mailbox.Engine.{Envelope, envelope, takes, envelope_of, view}
use umpi.Mailbox.Engine.Requests.{takes-recv_match}
use umpi.Calls.{Umpi, Comm, Status, get_status}
use umpi.Calls.Probe.{probe_refuses, announce, mpi_iprobe}

-- The oldest of some messages that a receive takes.
unfoldable pub oldest : Envelope → List Envelope → Option Envelope
oldest q [] = none
oldest q (m ∷ ms) = let rest = oldest q ms in if takes m q then some m else rest

-- What the status and the flag of a call say: no message, or the envelope of one. `none` where the
-- call does not say.
unfoldable pub told_of : Option Bool → Option Status → Option (Option Envelope)
told_of (some false) s = some none
told_of (some true) (some s) = some (some (envelope s.source s.tag))
told_of _ _ = none

abbrev pub found_in : (ℕ → Envelope) → Option (ℕ × List ℕ) → Option Envelope
found_in f none = none
found_in f (some (c, ds)) = some (f c)

oldest-map :
    (f : ℕ → Envelope) (q : Envelope) (p : ℕ → Bool) (cs : List ℕ)
    → ((c : ℕ) → takes (f c) q ≡ p c)
    → oldest q (map f cs) ≡ found_in f (take_first p cs)
unfolding oldest take_first
oldest-map f q p [] same = refl
oldest-map f q p (c ∷ cs) same = elim (Option-cases (take_first p cs)) [
  | inl e ↦ ground (arith, oldest-map f q p cs same, same c, e)
  | inr ((d, ds), e) ↦ ground (arith, oldest-map f q p cs same, same c, e)
]

announce_lem :
    (s : Status) (w : World) (o : Option (ℕ × List ℕ))
    → let r = announce (some s) w (elim o [ none ↦ none | some (c, _) ↦ some c ]) in
      told_of r.flag r.status ≡ some (found_in (envelope_of w) o)
unfolding announce get_status told_of envelope_of
announce_lem s w none = refl
announce_lem s w (some (c, ds)) = refl

-- Where the checks of source, tag and communicator pass and there are places for the flag and the
-- status, `MPI_Iprobe` tells of the oldest message that waits for the process and that a receive with
-- the same arguments takes: the flag is set and the status has the message's source and tag; and it
-- tells that there is none where there is none.
pub iprobe_lem :
    (u : Umpi) (source tag : ℕ) (comm : Comm) (s : Status) (w : World)
    → probe_refuses u.size source tag comm ≡ false
    → let r = mpi_iprobe (some u) source tag comm true (some s) w in
      told_of r.flag r.status ≡ some (oldest (envelope source tag) ((view w).messages u.rank))
unfolding mpi_iprobe find_any view
iprobe_lem u source tag comm s w ok =
    let p = λ (c : ℕ). recv_match (w.cookie c) source tag in
    rw ok (
      announce_lem s w (take_first p (w.process u.rank).inbox)
      ∙ ap some (
          sym (
            oldest-map (envelope_of w) (envelope source tag) p (w.process u.rank).inbox
              (takes-recv_match w source tag))))
