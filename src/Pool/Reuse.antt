-- ===== src/Pool/Reuse.antt =====
-- Blocks that are given back are given out again.
use umpi.Base.{
  ℕ, ◌+◌, ◌-◌, ◌^◌, ◌<◌, ◌≡◌, ap, ◌∙◌, arith, true, false, ltb, ◌==◌, update, update_self,
  update_other, add64, ℕ_discrete,
}
use umpi.Pool.{Pool, push, pop, block, done, alloc, dealloc, aligned, list, list_size}

push-pop :
    (i a : ℕ) (p : Pool)
    → p.count i < 2 ^ 64 - 1
    → (j : ℕ)
    → ((pop i (push i a p)).first j ≡ p.first j) × ((pop i (push i a p)).count j ≡ p.count j)
unfolding push pop
push-pop i a p small j = elim (ℕ_discrete j i) [
  | yes e ↦ ground (arith, e)
  | no ne ↦ (
    update_other (update p.first i a) i j _ ne ∙ update_other p.first i j a ne,
    update_other (update p.count i (add64 (p.count i) 1)) i j _ ne
        ∙ update_other p.count i j (add64 (p.count i) 1) ne,
  )
]

-- A block of a client that goes back to the pool is the one that the next request of the same size gets,
-- and afterwards the free lists start and count as before; the sizes are those that the pool takes back,
-- and its counter does not overflow.
pub alloc-dealloc :
    (m a len : ℕ) (p : Pool)
    → 0 < len
    → list (aligned len) < list_size m
    → p.count (list (aligned len)) < 2 ^ 64 - 1
    → (q r : Pool) × (dealloc m a len p ≡ done q)
      × (alloc m len q ≡ block a r)
      × ((j : ℕ) → (r.first j ≡ p.first j) × (r.count j ≡ p.count j))
unfolding alloc dealloc push
alloc-dealloc m a len p some_len fits small =
    let i = list (aligned len) in
    let counted : (push i a p).count i ≡ p.count i + 1 =
      update_self p.count i (add64 (p.count i) 1) ∙ omega arith in
    let top : (push i a p).first i ≡ a = update_self p.first i a in
    let some_free : ((push i a p).count i == 0) ≡ false = ground (arith, counted) in
    let same_class : ltb i (list_size m) ≡ true = ground (arith, fits) in
    let full : (len == 0) ≡ false = ground (arith, some_len) in
    (
      push i a p,
      pop i (push i a p),
      ground (arith, fits, some_len),
      rw (full, same_class, some_free) (ap (λ x. block x (pop i (push i a p))) top),
      push-pop i a p small,
    )
