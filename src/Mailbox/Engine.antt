-- ===== src/Mailbox/Engine.antt =====
-- What the mailboxes promise, without cookies, buffers and bytes: each process has a queue of
-- messages that wait and a queue of receives that wait.
pub mod Queues
pub mod Requests
pub mod Runs
pub mod Pairs
use umpi.Base.{
  ℕ, ◌≡◌, ap₂, fun_ext, Bool, not, ◌&&◌, ◌||◌, Option, none, some, List, [], ◌∷◌, ◌++◌, map, sext16,
  neg32, ◌==◌, if◌then◌else◌, update,
}
use umpi.World.{World, mpi_any_source, mpi_any_tag}

-- Who sends and with which tag, or which of them a receive asks for.
pub record Envelope : Type 0 where
  pub source : ℕ
  pub tag : ℕ

abbrev pub envelope : ℕ → ℕ → Envelope
envelope s t = record { source = s; tag = t }

-- A receive `q` takes a message `m`. MPI_ANY_TAG takes only tags that are not negative.
unfoldable pub takes : Envelope → Envelope → Bool
takes m q =
    (m.tag == q.tag || (q.tag == mpi_any_tag && not (neg32 m.tag)))
    && (m.source == q.source || q.source == mpi_any_source)

-- The queues of all processes, the oldest entry first.
pub record Engine : Type 0 where
  pub messages : ℕ → List Envelope
  pub receives : ℕ → List Envelope

-- A list without the first entry that passes, if there is one.
pub remove_first : (Envelope → Bool) → List Envelope → Option (List Envelope)
remove_first p [] = none
remove_first p (x ∷ xs) =
    let rest = remove_first p xs in
    if p x then some xs else elim rest [ none ↦ none | some ys ↦ some (x ∷ ys) ]

pub received : ℕ → Envelope → Engine → Option (List Envelope) → Engine
received r q e none = record e { receives = update e.receives r (e.receives r ++ q ∷ []) }
received r q e (some rest) = record e { messages = update e.messages r rest }

-- The process `r` asks for a message: the oldest that the receive takes leaves its queue, or the
-- receive waits behind the others.
pub receive : ℕ → Envelope → Engine → Engine
unfolding received remove_first
receive r q e = received r q e (remove_first (λ m. takes m q) (e.messages r))

pub arrived : ℕ → Envelope → Engine → Option (List Envelope) → Engine
arrived r m e none = record e { messages = update e.messages r (e.messages r ++ m ∷ []) }
arrived r m e (some rest) = record e { receives = update e.receives r rest }

-- A message comes to the process `r`: the oldest receive that takes it leaves its queue, or the
-- message waits behind the others.
pub arrive : ℕ → Envelope → Engine → Engine
unfolding arrived remove_first
arrive r m e = arrived r m e (remove_first (takes m) (e.receives r))

-- The envelope that a cookie carries, and the queues that the boxes of a world stand for.
unfoldable pub envelope_of : World → ℕ → Envelope
envelope_of w c = envelope (sext16 (w.cookie c).src) (sext16 (w.cookie c).tag)

unfoldable pub view : World → Engine
view w = record {
  messages = λ r. map (envelope_of w) (w.process r).inbox;
  receives = λ r. map (envelope_of w) (w.process r).outbox;
}

pub Engine-ext :
    {e f : Engine}
    → ((r : ℕ) → e.messages r ≡ f.messages r)
    → ((r : ℕ) → e.receives r ≡ f.receives r)
    → e ≡ f
Engine-ext h k = ap₂ (λ m q. record { messages = m; receives = q }) (fun_ext h) (fun_ext k)
