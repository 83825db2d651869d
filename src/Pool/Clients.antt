-- ===== src/Pool/Clients.antt =====
-- What `alloc` and `dealloc` do to the blocks of clients.
use umpi.Base.{
  ℕ, ◌+◌, ◌<◌, ◌^◌, ◌≡◌, refl, sym, ap, subst, ◌∙◌, inl, inr, not, ◌&&◌, List, [], ◌∷◌, arith,
  length, occurs, update, update_self, update_other, ℕ_discrete, ltb, ◌==◌, Bool-cases, dec_lt,
  if◌then◌else◌,
}
use umpi.Pool.{
  Pool, push, alloc, block, Allocation, dealloc, done, null, no_memory, aligned, list, list_size,
}
use umpi.Pool.Stacks.{Stands, push-Stands, pop-Stands}
use umpi.Pool.Blocks.{Inv, Given, pop-Given, begin-Given, same_owned, occurs_cons}

-- What `alloc` may answer.
abbrev pub AllocLem :
    (base limit max_dealloc len : ℕ) (p : Pool) (free live : ℕ → List ℕ) → Allocation → Type 0
AllocLem base limit max_dealloc len p free live null = len ≡ 0
AllocLem base limit max_dealloc len p free live no_memory = p.space < aligned len
AllocLem base limit max_dealloc len p free live (block a p') = Given base limit len a p' free live

-- A stack whose counter is not zero has a top.
top_of :
    (i : ℕ) (p : Pool) (free : ℕ → List ℕ)
    → Stands p free
    → 0 < p.count i
    → (xs : List ℕ) × (free i ≡ p.first i ∷ xs)
top_of i p free st some = go (free i) refl
  where
    go : (xs : List ℕ) → free i ≡ xs → (ys : List ℕ) × (free i ≡ p.first i ∷ ys)
    go [] e = absurd (omega (arith, st.counted i, ap length e))
    go (x ∷ xs) e = (xs, e ∙ ap (λ y. y ∷ xs) (sym (pop-Stands i x xs p free st e).0))

pub alloc_lem :
    (base limit max_dealloc len : ℕ) (p : Pool) (free live : ℕ → List ℕ)
    → Inv base limit p free live
    → len < 2 ^ 63
    → AllocLem base limit max_dealloc len p free live (alloc max_dealloc len p)
unfolding alloc
alloc_lem base limit max_dealloc len p free live inv small = elim (Bool-cases (len == 0)) [
  | inl e ↦ let z : len ≡ 0 = ground (arith, e) in rw e z
  | inr e ↦
      rw e
        (elim (Bool-cases (
          ltb (list (aligned len)) (list_size max_dealloc)
          && not (p.count (list (aligned len)) == 0))) [
            | inl f ↦ rw f (
                let (xs, g) = top_of (list (aligned len)) p free inv.stands (ground (arith, f)) in
                pop-Given inv len (p.first (list (aligned len))) xs (ground (arith, e)) small g)
            | inr f ↦ rw f (elim (Bool-cases (ltb p.space (aligned len))) [
              | inl g ↦ let z : p.space < aligned len = ground (arith, g) in rw g z
              | inr g ↦ rw g (begin-Given inv len (ground (arith, e)) small (ground (arith, g)))
            ])
          ])
]

-- A list without the first of an address.
pub without : ℕ → List ℕ → List ℕ
without a [] = []
without a (b ∷ bs) = if a == b then bs else b ∷ without a bs

occurs-without :
    (a b : ℕ) (xs : List ℕ)
    → 0 < occurs a xs
    → occurs b (without a xs) + occurs b (a ∷ []) ≡ occurs b xs
unfolding without
occurs-without a b [] some = absurd (omega (arith, some))
occurs-without a b (x ∷ xs) some =
    let rest = occurs-without a b xs in
    elim (Bool-cases (a == x)) [
      | inl e ↦ rw e (ground (arith, e))
      | inr e ↦ rw e (ground (arith, e, rest))
    ]

-- A client gives a block that it holds back to a valid pool, with the length that it asked for,
-- which is not 0 and of a size that the pool takes back, and the stack of that size holds less
-- than 2 ^ 63 - 1 blocks: the block is free from now on, no longer the client's, and the pool is
-- valid.
pub dealloc_lem :
    (base limit max_dealloc a len : ℕ) (p : Pool) (free live : ℕ → List ℕ)
    → Inv base limit p free live
    → 0 < len
    → list (aligned len) < list_size max_dealloc
    → 0 < occurs a (live (list (aligned len)))
    → length (free (list (aligned len))) + 1 < 2 ^ 63
    → (p' : Pool) × (dealloc max_dealloc a len p ≡ done p')
      × Inv base limit p'
          (update free (list (aligned len)) (a ∷ free (list (aligned len))))
          (update live (list (aligned len)) (without a (live (list (aligned len)))))
unfolding dealloc push
dealloc_lem base limit max_dealloc a len p free live inv some_len class mine room =
    let i = list (aligned len) in
    (
      push i a p,
      ground (arith, class),
      same_owned inv (push-Stands i a p free inv.stands (out_of_stacks i mine) room) refl refl
          λ j b. elim (ℕ_discrete j i) [
            | yes eq ↦ rw eq (
                rw (update_self free i (a ∷ free i), update_self live i (without a (live i)))
                  (omega (arith, occurs-without a b (live i) mine, occurs_cons b a (free i))))
            | no ne ↦
                rw
                  (
                    update_other free i j (a ∷ free i) ne,
                    update_other live i j (without a (live i)) ne,
                  )
                  refl
          ],
    )
  where
    out_of_stacks : (i : ℕ) → 0 < occurs a (live i) → (j : ℕ) → occurs a (free j) ≡ 0
    out_of_stacks i h j = elim (dec_lt 0 (occurs a (free j))) [
      | no g ↦ omega arith
      | yes g ↦ elim (inv.apart i j a a (omega arith) (omega arith)) [
        | inl same ↦
            absurd (omega (arith, inv.once i a, subst (λ k. 0 < occurs a (free k)) (sym same.1) g))
        | inr (inl l) ↦ absurd (omega (arith, l))
        | inr (inr l) ↦ absurd (omega (arith, l))
      ]
    ]
