-- ===== src/Mailbox/Engine/Pairs.antt =====
-- No message and receive that fit wait for one another.
use umpi.Base.{
  ℕ, ◌≡◌, refl, sym, inl, inr, subst, Bool, false, Option, none, some, List, [], ◌∷◌, ◌++◌, arith,
  All, Bool-cases, Option-cases, ℕ_discrete, update_self, update_other,
}
use umpi.World.{World}
use umpi.Transfer.{Kernel}
use umpi.Mailbox.Boxes.Finalize.{IsEmpty, empty-Inv}
use umpi.Mailbox.Engine.{
  Envelope, envelope, takes, Engine, remove_first, receive, received, arrive, arrived, view,
}
use umpi.Mailbox.Engine.Runs.{Call, Run, Run-view, play, send, recv, done}

All-mono :
    {P Q : Envelope → Type 0}
    → ((x : Envelope) → P x → Q x)
    → (xs : List Envelope) → All P xs
    → All Q xs
All-mono f [] h = tt
All-mono f (x ∷ xs) (p, h) = (f x p, All-mono f xs h)

All-both :
    {P Q R : Envelope → Type 0}
    → ((x : Envelope) → P x → Q x → R x)
    → (xs : List Envelope) → All P xs
    → All Q xs
    → All R xs
All-both f [] h k = tt
All-both f (x ∷ xs) (p, h) (q, k) = (f x p q, All-both f xs h k)

All-append :
    (P : Envelope → Type 0) (xs ys : List Envelope) → All P xs → All P ys → All P (xs ++ ys)
All-append P [] ys h k = k
All-append P (x ∷ xs) ys (p, h) k = (p, All-append P xs ys h k)

module _ (p : Envelope → Bool) where
  -- If nothing is found, nothing passes; and what is left was there before.
  remove_first-none : (xs : List Envelope) → remove_first p xs ≡ none → All (λ x. p x ≡ false) xs
  unfolding remove_first
  remove_first-none [] e = tt
  remove_first-none (x ∷ xs) e = (ground (arith, e), remove_first-none xs (ground (arith, e)))

  remove_first-All :
      (P : Envelope → Type 0) (xs : List Envelope) {ys : List Envelope}
      → All P xs
      → remove_first p xs ≡ some ys
      → All P ys
  unfolding remove_first
  remove_first-All P [] h e = absurd (ground (arith, e))
  remove_first-All P (x ∷ xs) {ys} (q, h) e = elim (Bool-cases (p x)) [
    | inl hit ↦ subst (All P) (ground (arith, e, hit)) h
    | inr miss ↦ elim (Option-cases (remove_first p xs)) [
      | inl lost ↦ absurd (ground (arith, e, miss, lost))
      | inr (rest, found) ↦
          let same : x ∷ rest ≡ ys = ground (arith, e, miss, found) in
          subst (All P) same (q, remove_first-All P xs h found)
    ]
  ]

-- No message of the first queue is taken by a receive of the second.
abbrev pub Apart : List Envelope → List Envelope → Type 0
Apart ms qs = All (λ m. All (λ q. takes m q ≡ false) qs) ms

-- In no process a message and a receive wait that fit.
pub NoPair : Engine → Type 0
NoPair e = (r : ℕ) → Apart (e.messages r) (e.receives r)

module _ (r : ℕ) (e : Engine) (h : NoPair e) where
  received-NoPair :
      (q : Envelope) (o : Option (List Envelope))
      → remove_first (λ m. takes m q) (e.messages r) ≡ o
      → NoPair (received r q e o)
  unfolding NoPair received
  received-NoPair q none missing s = elim (ℕ_discrete s r) [
    | no ne ↦ rw (update_other e.receives r s (e.receives r ++ q ∷ []) ne) (h s)
    | yes same ↦ rw same (
        rw (update_self e.receives r (e.receives r ++ q ∷ [])) (
          All-both
            (λ m apart untaken.
              All-append (λ x. takes m x ≡ false) (e.receives r) (q ∷ []) apart (untaken, tt))
            (e.messages r) (h r) (remove_first-none (λ m. takes m q) (e.messages r) missing)))
  ]
  received-NoPair q (some rest) found s = elim (ℕ_discrete s r) [
    | no ne ↦ rw (update_other e.messages r s rest ne) (h s)
    | yes same ↦ rw same (
        rw (update_self e.messages r rest) (
          remove_first-All (λ m. takes m q) (λ m. All (λ x. takes m x ≡ false) (e.receives r))
            (e.messages r) (h r) found))
  ]

  arrived-NoPair :
      (m : Envelope) (o : Option (List Envelope))
      → remove_first (takes m) (e.receives r) ≡ o
      → NoPair (arrived r m e o)
  unfolding NoPair arrived
  arrived-NoPair m none missing s = elim (ℕ_discrete s r) [
    | no ne ↦ rw (update_other e.messages r s (e.messages r ++ m ∷ []) ne) (h s)
    | yes same ↦ rw same (
        rw (update_self e.messages r (e.messages r ++ m ∷ [])) (
          All-append (λ x. All (λ q. takes x q ≡ false) (e.receives r)) (e.messages r) (m ∷ [])
            (h r) (remove_first-none (takes m) (e.receives r) missing, tt)))
  ]
  arrived-NoPair m (some rest) found s = elim (ℕ_discrete s r) [
    | no ne ↦ rw (update_other e.receives r s rest ne) (h s)
    | yes same ↦ rw same (
        rw (update_self e.receives r rest) (
          All-mono
            (λ x apart.
              remove_first-All (takes m) (λ q. takes x q ≡ false) (e.receives r) apart found)
            (e.messages r) (h r)))
  ]

play-NoPair : (cs : List Call) (e : Engine) → NoPair e → NoPair (play cs e)
unfolding play receive arrive
play-NoPair [] e h = h
play-NoPair (send me dest tag ∷ cs) e h =
    arrived-NoPair dest (play cs e) (play-NoPair cs e h) (envelope me tag) _ refl
play-NoPair (recv me source tag ∷ cs) e h =
    received-NoPair me (play cs e) (play-NoPair cs e h) (envelope source tag) _ refl
play-NoPair (done ∷ cs) e h = play-NoPair cs e h

empty-NoPair : (w : World) → ((r : ℕ) → IsEmpty (w.process r)) → NoPair (view w)
unfolding NoPair view
empty-NoPair w e r = rw (e r).no_inbox tt

-- In every history of sends, receives and leaves that starts with empty mailboxes, with ranks and tags
-- that fit 16 bits and with any kernel, no process ever has, at the same time, a message in its
-- inbox and a receive in its outbox that takes it.
pub Run-NoPair :
    {kernel : Kernel} {w : World} {cs : List Call} {w' : World}
    → ((r : ℕ) → IsEmpty (w.process r))
    → Run kernel w cs w'
    → NoPair (view w')
Run-NoPair {w} {cs} e run =
    subst NoPair (sym (Run-view (empty-Inv e) run)) (play-NoPair cs (view w) (empty-NoPair w e))
