-- ===== src/Calls/Probe/Resume.antt =====
-- A probe that slept finds what a probe from the start finds.
use umpi.Base.{
  ℕ, suc, ◌<◌, ◌≤◌, ◌≡◌, ◌≢◌, refl, ap, subst, sym, ◌∙◌, inl, inr, Bool, false, Option, none, some,
  List, [], ◌∷◌, ◌++◌, arith, All, occurs, Option-cases, ◌==◌,
}
use umpi.Mailbox.{take_first}
use umpi.Mailbox.Boxes.Nodes.{occurs_self, occurs_cons}
use umpi.Calls.Probe.{
  Place, before_first, at_last, at_match, walk, walk_from_start, after, step_on, resume,
}

-- The request that a search finds.
abbrev pub head : Option (ℕ × List ℕ) → Option ℕ
head none = none
head (some (c, _)) = some c

abbrev pub match_of : Place → Option ℕ
match_of before_first = none
match_of (at_last c) = none
match_of (at_match c) = some c

walk-match_of :
    (p : ℕ → Bool) (c : ℕ) (cs : List ℕ) → match_of (walk p c cs) ≡ head (take_first p (c ∷ cs))
unfolding walk take_first
walk-match_of p c [] = ground arith
walk-match_of p c (d ∷ ds) = elim (Option-cases (take_first p (d ∷ ds))) [
  | inl e ↦ ground (arith, walk-match_of p d ds, e)
  | inr ((x, xs), e) ↦ ground (arith, walk-match_of p d ds, e)
]

-- The walk sleeps only at the last request, and none of those it passed matches.
walk-at_last :
    (p : ℕ → Bool) (c e : ℕ) (cs : List ℕ)
    → walk p c cs ≡ at_last e
    → (0 < occurs e (c ∷ cs)) × All (λ d. p d ≡ false) (c ∷ cs)
unfolding walk
walk-at_last p c e [] h =
    let here : c ≡ e = ground (arith, h) in
    let miss : p c ≡ false = ground (arith, h) in
    let self : occurs e (c ∷ []) ≡ suc (occurs e []) =
      subst (λ x. occurs e (x ∷ []) ≡ suc (occurs e [])) (sym here) (occurs_self e []) in
    (omega (arith, self), (miss, tt))
walk-at_last p c e (d ∷ ds) h =
    let stuck : walk p d ds ≡ at_last e = ground (arith, h) in
    let miss : p c ≡ false = ground (arith, h) in
    let rest = walk-at_last p d e ds stuck in (omega (arith, rest.0), (miss, rest.1))

after-walk :
    (p : ℕ → Bool) (c e : ℕ) (cs more : List ℕ)
    → walk p c cs ≡ at_last e
    → occurs e (c ∷ cs) ≤ 1
    → after e ((c ∷ cs) ++ more) ≡ more
unfolding walk after
after-walk p c e [] more h once = let here : c ≡ e = ground (arith, h) in ground (arith, here)
after-walk p c e (d ∷ ds) more h once =
    let stuck : walk p d ds ≡ at_last e = ground (arith, h) in
    let rest = walk-at_last p d e ds stuck in
    let other : c ≢ e = λ same. omega (
      arith,
      rest.0,
      once,
      subst (λ x. occurs e (x ∷ d ∷ ds) ≡ suc (occurs e (d ∷ ds))) (sym same)
          (occurs_self e (d ∷ ds)),
    ) in
    let miss : (c == e) ≡ false = ground (arith, other) in
    rw miss (after-walk p d e ds more stuck (omega (arith, once, occurs_cons e c (d ∷ ds))))

walk-asleep :
    (p : ℕ → Bool) (c : ℕ) (cs : List ℕ)
    → match_of (walk p c cs) ≡ none
    → (e : ℕ) × (walk p c cs ≡ at_last e)
unfolding walk
walk-asleep p c [] h = (c, ground (arith, h))
walk-asleep p c (d ∷ ds) h =
    let (e, stuck) = walk-asleep p d ds (ground (arith, h)) in (e, ground (arith, h, stuck))

-- The loops from the start, or from a request with those behind it.
walk_from_start-match_of :
    (p : ℕ → Bool) (cs : List ℕ) → match_of (walk_from_start p cs) ≡ head (take_first p cs)
unfolding walk_from_start take_first
walk_from_start-match_of p [] = refl
walk_from_start-match_of p (c ∷ cs) = walk-match_of p c cs

step_on-match_of :
    (p : ℕ → Bool) (c : ℕ) (cs : List ℕ) → match_of (step_on p c cs) ≡ head (take_first p cs)
unfolding step_on take_first
step_on-match_of p c [] = refl
step_on-match_of p c (d ∷ ds) = walk-match_of p d ds

All-follow :
    (p q : ℕ → Bool) (cs : List ℕ)
    → All (λ d. q d ≡ p d) cs
    → All (λ d. p d ≡ false) cs
    → All (λ d. q d ≡ false) cs
All-follow p q [] h k = tt
All-follow p q (c ∷ cs) (e, h) (f, k) = (e ∙ f, All-follow p q cs h k)

take_first-append :
    (p : ℕ → Bool) (cs more : List ℕ)
    → All (λ d. p d ≡ false) cs
    → head (take_first p (cs ++ more)) ≡ head (take_first p more)
unfolding take_first
take_first-append p [] more none_matches = refl
take_first-append p (c ∷ cs) more (miss, rest) = elim (Option-cases (take_first p (cs ++ more))) [
  | inl e ↦ ground (arith, take_first-append p cs more rest, e, miss)
  | inr ((x, xs), e) ↦ ground (arith, take_first-append p cs more rest, e, miss)
]

-- A probe of requests that sleeps at `place` with the inbox `old`, and is woken when the inbox has
-- grown at its end by `more`, where no request stands twice in `old` and the ones in `old` match as
-- they did: it comes to the request that a probe of the whole inbox from its start finds, or sleeps
-- where there is none.
pub resume-find_any :
    (p q : ℕ → Bool) (old more : List ℕ)
    → ((c : ℕ) → occurs c old ≤ 1)
    → All (λ c. q c ≡ p c) old
    → match_of (walk_from_start p old) ≡ none
    → match_of (resume q (walk_from_start p old) (old ++ more)) ≡ head (take_first q (old ++ more))
unfolding walk_from_start resume
resume-find_any p q [] more once same asleep = walk_from_start-match_of q more
resume-find_any p q (c ∷ cs) more once same asleep =
    let (e, stuck) = walk-asleep p c cs asleep in
    let passed = (walk-at_last p c e cs stuck).1 in
    ap (λ x. match_of (resume q x ((c ∷ cs) ++ more))) stuck
    ∙ ap (λ xs. match_of (step_on q e xs)) (after-walk p c e cs more stuck (once e))
    ∙ step_on-match_of q e more
    ∙ sym (take_first-append q (c ∷ cs) more (All-follow p q (c ∷ cs) same passed))
