-- ===== src/Mailbox/Engine/Queues.antt =====
-- The queues that boxes stand for, when a request leaves a box or enters one.
use umpi.Base.{
  ℕ, ◌≤◌, ◌<◌, ◌≡◌, refl, sym, ap, ap₂, ◌∙◌, ◌≢◌, inl, inr, Bool, Option, none, some, List, [], ◌∷◌,
  ◌++◌, map, arith, occurs, Option-cases, ℕ_discrete, sext16, update, fun_ext,
}
use umpi.World.{Cookie, Process, World, set_cookie, set_process, update_self, update_other}
use umpi.Mailbox.{create_request, take_first}
use umpi.Mailbox.Matching.{First}
use umpi.Mailbox.Boxes.{posted, held, Inv}
use umpi.Mailbox.Boxes.Touches.{Touches}
use umpi.Mailbox.Boxes.Nodes.{
  claim-Moves, First-occurs, occurs_cons, unposted, elsewhere, occurs_self,
}
use umpi.Mailbox.Engine.{Envelope, envelope, remove_first, envelope_of, view, Engine-ext}

abbrev pub map_rest : (ℕ → Envelope) → Option (ℕ × List ℕ) → Option (List Envelope)
map_rest f none = none
map_rest f (some (c, ds)) = some (map f ds)

-- The search of a box is that of the queue it stands for.
pub remove_first-map :
    (f : ℕ → Envelope) (p : Envelope → Bool) (q : ℕ → Bool) (cs : List ℕ)
    → ((c : ℕ) → p (f c) ≡ q c)
    → remove_first p (map f cs) ≡ map_rest f (take_first q cs)
unfolding remove_first take_first
remove_first-map f p q [] same = refl
remove_first-map f p q (c ∷ cs) same = elim (Option-cases (take_first q cs)) [
  | inl e ↦ ground (arith, remove_first-map f p q cs same, same c, e)
  | inr ((d, ds), e) ↦ ground (arith, remove_first-map f p q cs same, same c, e)
]

-- Two worlds in which the cookies of a list have the same envelopes.
map_same :
    (f g : ℕ → Envelope) (cs : List ℕ)
    → ((d : ℕ) → 0 < occurs d cs → f d ≡ g d)
    → map f cs ≡ map g cs
map_same f g [] h = refl
map_same f g (c ∷ cs) h =
    ap₂ ◌∷◌ (h c (omega (arith, occurs_self c cs)))
      (map_same f g cs (λ d some_d. h d (omega (arith, occurs_cons d c cs))))

-- Where only the envelope of `c` changes, and `c` waits in no box, the boxes of `x` stand for the
-- same queues in both worlds.
module _ (w w' : World) (c : ℕ) (same : (d : ℕ) → d ≢ c → envelope_of w' d ≡ envelope_of w d)
    (cs : List ℕ) (out : occurs c cs ≡ 0) where
  pub same_queue : map (envelope_of w') cs ≡ map (envelope_of w) cs
  same_queue =
      map_same (envelope_of w') (envelope_of w) cs λ d h. same d λ e. omega (arith, out, rw e at h)

-- A change of one cookie and of one process.
module _ (w : World) (r c : ℕ) (k : Cookie) (p : Process) where
  abbrev pub moved : World
  moved = set_process (set_cookie w c k) r p

  moved-envelope : (d : ℕ) → d ≢ c → envelope_of moved d ≡ envelope_of w d
  unfolding envelope_of
  moved-envelope d ne = rw (update_other w.cookie c d k ne) refl

  -- A transfer follows, and `c` waits in no box afterwards.
  module _ (w' : World) (t : Touches c moved w')
      (out : (s : ℕ) → posted c (moved.process s) ≡ 0) where
    after-envelope : (d : ℕ) → d ≢ c → envelope_of w' d ≡ envelope_of w d
    unfolding envelope_of
    after-envelope d ne =
        ap₂ (λ x y. envelope (sext16 x) (sext16 y)) (t.src d) (t.tag d) ∙ moved-envelope d ne

    pub after-messages :
        (s : ℕ) → (view w').messages s ≡ map (envelope_of w) (moved.process s).inbox
    unfolding view
    after-messages s =
        ap (map (envelope_of w')) (t.inbox s)
        ∙ same_queue w w' c after-envelope (moved.process s).inbox (omega (arith, out s))

    pub after-receives :
        (s : ℕ) → (view w').receives s ≡ map (envelope_of w) (moved.process s).outbox
    unfolding view
    after-receives s =
        ap (map (envelope_of w')) (t.outbox s)
        ∙ same_queue w w' c after-envelope (moved.process s).outbox (omega (arith, out s))

-- The lists of the changed process, and of the others.
module _ (w : World) (r c : ℕ) (k : Cookie) (p : Process) where
  boxes_moved :
      (f : ℕ → Envelope) (box : Process → List ℕ) (s : ℕ)
      → map f (box ((set_process (set_cookie w c k) r p).process s))
        ≡ update (λ x. map f (box (w.process x))) r (map f (box p)) s
  boxes_moved f box s = elim (ℕ_discrete s r) [
    | yes e ↦ rw e (
        ap (λ x. map f (box x)) (update_self w.process r p)
        ∙ sym (update_self (λ x. map f (box (w.process x))) r (map f (box p))))
    | no ne ↦
        ap (λ x. map f (box x)) (update_other w.process r s p ne)
        ∙ sym (update_other (λ x. map f (box (w.process x))) r s (map f (box p)) ne)
  ]

-- An update by the value that is there.
update_same :
    (f : ℕ → List Envelope) (r : ℕ) (v : List Envelope) (s : ℕ) → v ≡ f r → update f r v s ≡ f s
update_same f r v s e = elim (ℕ_discrete s r) [
  | yes same ↦ rw same (update_self f r v ∙ e)
  | no ne ↦ update_other f r s v ne
]

map-append : (f : ℕ → Envelope) (xs ys : List ℕ) → map f (xs ++ ys) ≡ map f xs ++ map f ys
map-append f [] ys = refl
map-append f (x ∷ xs) ys = ap (◌∷◌ (f x)) (map-append f xs ys)

-- The node for a new request waits in no box yet.
pub created-unposted :
    {w : World} (r node : ℕ) (free box : List ℕ)
    → Inv w
    → (w.process r).free ≡ free
    → ((s : ℕ) → held node (w.process s) ≡ 0)
    → (s : ℕ) → posted (create_request node free box).cookie (w.process s) ≡ 0
unfolding create_request
created-unposted r node [] box inv e unknown s = omega (arith, unknown s)
created-unposted {w} r node (c ∷ free) box inv e unknown s =
    let known = ap (occurs c) e ∙ occurs_self c free in
    elim (ℕ_discrete s r) [
      | yes same ↦ rw same (omega (arith, inv.once r c, known))
      | no ne ↦ omega (arith, elsewhere inv r c s (omega (arith, known)) ne)
    ]

-- A request that leaves its box.
module _ {w : World} (inv : Inv w) (r c : ℕ) (k : Cookie) (w' : World) where
  pub claimed-inbox :
      (q : ℕ → Bool) (ds : List ℕ)
      → First q (w.process r).inbox c ds
      → let p = record (w.process r) { inbox = ds; pending = c ∷ (w.process r).pending } in
        Touches c (moved w r c k p) w'
        → view w'
          ≡ record (view w) { messages = update (view w).messages r (map (envelope_of w) ds) }
  unfolding view
  claimed-inbox q ds f t =
      let p = record (w.process r) { inbox = ds; pending = c ∷ (w.process r).pending } in
      let (m, gone) =
        claim-Moves inv r {c = c} {p = p} k
          (λ d. omega (arith, First-occurs f d, occurs_cons d c (w.process r).pending))
          (λ d. omega (arith, First-occurs f d)) refl in
      let out = unposted m gone in
      Engine-ext
        (λ s.
          after-messages w r c k p w' t out s
          ∙ boxes_moved w r c k p (envelope_of w) (λ x. x.inbox) s)
        (λ s.
          after-receives w r c k p w' t out s
          ∙ boxes_moved w r c k p (envelope_of w) (λ x. x.outbox) s
          ∙ update_same (λ x. map (envelope_of w) (w.process x).outbox) r _ s refl)

  pub claimed-outbox :
      (q : ℕ → Bool) (ds : List ℕ)
      → First q (w.process r).outbox c ds
      → let p = record (w.process r) { outbox = ds; pending = c ∷ (w.process r).pending } in
        Touches c (moved w r c k p) w'
        → view w'
          ≡ record (view w) { receives = update (view w).receives r (map (envelope_of w) ds) }
  unfolding view
  claimed-outbox q ds f t =
      let p = record (w.process r) { outbox = ds; pending = c ∷ (w.process r).pending } in
      let (m, gone) =
        claim-Moves inv r {c = c} {p = p} k
          (λ d. omega (arith, First-occurs f d, occurs_cons d c (w.process r).pending))
          (λ d. omega (arith, First-occurs f d)) refl in
      let out = unposted m gone in
      Engine-ext
        (λ s.
          after-messages w r c k p w' t out s
          ∙ boxes_moved w r c k p (envelope_of w) (λ x. x.inbox) s
          ∙ update_same (λ x. map (envelope_of w) (w.process x).inbox) r _ s refl)
        (λ s.
          after-receives w r c k p w' t out s
          ∙ boxes_moved w r c k p (envelope_of w) (λ x. x.outbox) s)

-- A new request in a box.
module _ (w : World) (r c : ℕ) (k : Cookie) (p : Process)
    (new : (s : ℕ) → posted c (w.process s) ≡ 0) where
  pub queue_kept :
      (box : Process → List ℕ)
      → ((x : Process) → occurs c (box x) ≤ posted c x)
      → box p ≡ box (w.process r)
      → (s : ℕ)
      → map (envelope_of (moved w r c k p)) (box ((moved w r c k p).process s))
        ≡ map (envelope_of w) (box (w.process s))
  queue_kept box le same s =
      boxes_moved w r c k p (envelope_of (moved w r c k p)) box s
      ∙ update_same (λ x. map (envelope_of (moved w r c k p)) (box (w.process x))) r _ s
          (ap (map (envelope_of (moved w r c k p))) same)
      ∙ same_queue w (moved w r c k p) c (moved-envelope w r c k p) (box (w.process s))
          (omega (arith, new s, le (w.process s)))

  pub queue_longer :
      (box : Process → List ℕ) (m : Envelope)
      → ((x : Process) → occurs c (box x) ≤ posted c x)
      → box p ≡ box (w.process r) ++ c ∷ []
      → envelope_of (moved w r c k p) c ≡ m
      → (s : ℕ)
      → map (envelope_of (moved w r c k p)) (box ((moved w r c k p).process s))
        ≡ update
            (λ x. map (envelope_of w) (box (w.process x)))
            r
            (map (envelope_of w) (box (w.process r)) ++ m ∷ [])
            s
  queue_longer box m le longer e s =
      let g = envelope_of (moved w r c k p) in
      let old : (x : ℕ) → map g (box (w.process x)) ≡ map (envelope_of w) (box (w.process x)) = λ x.
        same_queue w (moved w r c k p) c (moved-envelope w r c k p) (box (w.process x))
          (omega (arith, new x, le (w.process x))) in
      let grown : map g (box p) ≡ map (envelope_of w) (box (w.process r)) ++ m ∷ [] =
        ap (map g) longer
        ∙ map-append g (box (w.process r)) (c ∷ [])
        ∙ ap₂ (λ x y. x ++ y ∷ []) (old r) e in
      boxes_moved w r c k p g box s ∙ ap₂ (λ x y. update x r y s) (fun_ext old) grown
