-- ===== src/Mailbox/Boxes/Nodes.antt =====
-- How the nodes of the lists move: a request leaves its box, and a node for a new one enters a box.
use umpi.Base.{
  ℕ, ◌+◌, ◌<◌, ◌≡◌, refl, ap, ◌∙◌, ◌≢◌, Bool, Option, none, some, List, [], ◌∷◌, ◌++◌, arith,
  occurs, occurs-append, ℕ_discrete, suc,
}
use umpi.World.{Cookie, Process, World, set_cookie, set_process, update_self, update_other}
use umpi.Mailbox.{Reply, replies, create_request}
use umpi.Mailbox.Matching.{First}
use umpi.Mailbox.Boxes.{posted, held, Inv, Moves}

pub First-occurs :
    {q : ℕ → Bool} {cs ds : List ℕ} {c : ℕ} (f : First q cs c ds) (d : ℕ)
    → occurs d cs ≡ occurs d (c ∷ []) + occurs d ds
First-occurs {c} f d = omega (
  arith,
  ap (occurs d) f.found,
  ap (occurs d) f.rest,
  occurs-append d f.before (c ∷ f.after),
  occurs-append d f.before f.after,
)

pub occurs_self : (c : ℕ) (cs : List ℕ) → occurs c (c ∷ cs) ≡ suc (occurs c cs)
occurs_self c cs = ground arith

pub occurs_cons : (d c : ℕ) (cs : List ℕ) → occurs d (c ∷ cs) ≡ occurs d (c ∷ []) + occurs d cs
occurs_cons d c cs = omega arith

pub occurs_other : (d c : ℕ) (cs : List ℕ) → d ≢ c → occurs d (c ∷ cs) ≡ occurs d cs
occurs_other d c cs ne = ground arith

module _ {w : World} (inv : Inv w) (r : ℕ) where
  -- A node of the process `r` is in no other process.
  pub elsewhere : (c s : ℕ) → 0 < held c (w.process r) → s ≢ r → held c (w.process s) ≡ 0
  elsewhere c s here ne = elim (ℕ_discrete (held c (w.process s)) 0) [
    | yes e ↦ e
    | no some_there ↦ absurd (ne (inv.apart s r c (omega arith) here))
  ]

  -- A node that leaves a box for the pending list.
  module _ {c : ℕ} {p : Process} (k : Cookie) where
    pub claim-Moves :
        ((d : ℕ) → held d p ≡ held d (w.process r))
        → ((d : ℕ) → posted d (w.process r) ≡ occurs d (c ∷ []) + posted d p)
        → p.free ≡ (w.process r).free
        → Moves w r c k p × (posted c p ≡ 0)
    claim-Moves same fewer free =
        let one = inv.once r c in
        let gone : posted c p ≡ 0 = omega (arith, fewer c, occurs_self c []) in
        (
          record {
            rest_held = λ d ne. same d;
            rest_posted = λ d ne. omega (arith, fewer d);
            rest_free = λ d ne. omega (arith, ap (occurs d) free);
            here = omega (arith, same c, fewer c, occurs_self c []);
            nowhere = λ s ne. elsewhere c s (omega (arith, fewer c, occurs_self c [])) ne;
            fresh_here = λ h. absurd (omega arith);
            idle_here =
                λ h. absurd (omega (arith, ap (occurs c) free, fewer c, occurs_self c [], same c));
          },
          gone,
        )

  -- A node for a new request, which goes to a box.
  module _ (node : ℕ) (box : List ℕ) {p : Process} (k : Cookie) where
    pub created-Moves :
        (free : List ℕ)
        → (w.process r).free ≡ free
        → ((s : ℕ) → held node (w.process s) ≡ 0)
        → p.free ≡ (create_request node free box).free
        → ((d : ℕ)
            → posted d p
              ≡ posted d (w.process r) + occurs d ((create_request node free box).cookie ∷ []))
        → p.pending ≡ (w.process r).pending
        → (k.used ≡ 1) × (k.busy ≡ 1)
        → Moves w r (create_request node free box).cookie k p
    unfolding create_request
    created-Moves [] e unknown free more pending new = record {
      rest_held = λ d ne. omega (
        arith,
        more d,
        occurs_other d node [] ne,
        ap (occurs d) free,
        ap (occurs d) pending,
        ap (occurs d) e,
      );
      rest_posted = λ d ne. omega (arith, more d, occurs_other d node [] ne);
      rest_free = λ d ne. omega (arith, ap (occurs d) free);
      here = omega (
        arith,
        more node,
        occurs_self node [],
        ap (occurs node) free,
        ap (occurs node) pending,
        unknown r,
      );
      nowhere = λ s ne. unknown s;
      fresh_here = λ _. new;
      idle_here = λ h. absurd (omega (arith, ap (occurs node) free));
    }
    created-Moves (c ∷ cs) e unknown free more pending new =
        let known = ap (occurs c) e ∙ occurs_self c cs in
        let one = inv.once r c in
        record {
          rest_held = λ d ne. omega (
            arith,
            more d,
            occurs_other d c [] ne,
            ap (occurs d) free,
            ap (occurs d) pending,
            ap (occurs d) e ∙ occurs_other d c cs ne,
          );
          rest_posted = λ d ne. omega (arith, more d, occurs_other d c [] ne);
          rest_free =
              λ d ne. omega (arith, ap (occurs d) free, ap (occurs d) e ∙ occurs_other d c cs ne);
          here = omega (arith, more c, occurs_self c [], ap (occurs c) free, ap (occurs c) pending);
          nowhere = λ s ne. elsewhere c s (omega arith) ne;
          fresh_here = λ _. new;
          idle_here = λ h. absurd (omega (arith, ap (occurs c) free));
        }

pub created-box :
    (node : ℕ) (free box : List ℕ)
    → (create_request node free box).box ≡ box ++ (create_request node free box).cookie ∷ []
unfolding create_request
created-box node [] box = refl
created-box node (c ∷ free) box = refl

pub replies-some :
    (c : ℕ) (o : Option (ℕ × World)) {rep : Reply}
    → replies c o ≡ some rep
    → o ≡ some (rep.ret, rep.world)
replies-some c none e = absurd (ground arith)
replies-some c (some (ret, w)) e = ground arith

-- A claimed node is in no box of any process.
pub unposted :
    {w : World} {r c : ℕ} {k : Cookie} {p : Process}
    → Moves w r c k p
    → posted c p ≡ 0
    → (s : ℕ) → posted c ((set_process (set_cookie w c k) r p).process s) ≡ 0
unposted {w} {r} {c} {k} {p} m gone s = elim (ℕ_discrete s r) [
  | yes e ↦ rw e (rw (update_self w.process r p) gone)
  | no ne ↦ rw (update_other w.process r s p ne) (omega (arith, m.nowhere s ne))
]
