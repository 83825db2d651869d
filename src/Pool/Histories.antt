-- ===== src/Pool/Histories.antt =====
-- Histories of the pool: any sequence of requests and returns of its clients, from the constructor on.
use umpi.Base.{
  ℕ, suc, ◌+◌, ◌≤◌, ◌<◌, ◌^◌, ◌≡◌, sym, ◌⊎◌, inl, inr, not, ◌&&◌, List, ◌∷◌, arith, occurs, update,
  update_self, update_other, ℕ_discrete, ltb, ◌==◌, Bool-cases, sub64, add64, subst, true,
}
use umpi.Pool.{
  Pool, Allocation, new_pool, push, pop, alloc, block, dealloc, done, aligned, list, list_size,
}
use umpi.Pool.Blocks.{Inv, width}
use umpi.Pool.Clients.{AllocLem, alloc_lem, dealloc_lem, without}
use umpi.Pool.Start.{new_pool-Inv, aligned_start, no_blocks}

-- The pool and the blocks that clients hold, by size class.
pub record Clients : Type 0 where
  pub pool : Pool
  pub live : ℕ → List ℕ

-- A client gets a block, or it gives back one that it holds, with the length that it asked for.
pub data Step (max_dealloc : ℕ) (s t : Clients) : Type 0 where
  gets :
      (len a : ℕ) (p : Pool)
      → len < 2 ^ 63
      → alloc max_dealloc len s.pool ≡ block a p
      → t ≡ record {
        pool = p;
        live = update s.live (list (aligned len)) (a ∷ s.live (list (aligned len)));
      }
      → Step max_dealloc s t
  returns :
      (len a : ℕ) (p : Pool)
      → 0 < len
      → 0 < occurs a (s.live (list (aligned len)))
      → dealloc max_dealloc a len s.pool ≡ done p
      → t ≡ record {
        pool = p;
        live = update s.live (list (aligned len)) (without a (s.live (list (aligned len))));
      }
      → Step max_dealloc s t

-- `n` steps from a pool over the memory from `start` up to `end` on.
pub data History (max_dealloc start end : ℕ) : ℕ → Clients → Type 0 where
  opened :
      (memory : ℕ → ℕ)
      → History max_dealloc start end 0
          (record { pool = new_pool start end memory; live = no_blocks })
  after :
      {n : ℕ} {s t : Clients}
      → History max_dealloc start end n s
      → Step max_dealloc s t
      → History max_dealloc start end (suc n) t

-- After `n` steps the pool is well-formed, and no stack holds more than `n` blocks.
record Kept (start end n : ℕ) (s : Clients) : Type 0 where
  free : ℕ → List ℕ
  inv : Inv (aligned_start start) end s.pool free s.live
  few : (i : ℕ) → s.pool.count i ≤ n

abbrev Few : ℕ → Allocation → Type 0
Few n (block a p) = (i : ℕ) → p.count i ≤ n
Few n _ = Unit

pop_few :
    (n i : ℕ) (p : Pool)
    → n < 2 ^ 63
    → not (p.count i == 0) ≡ true
    → ((j : ℕ) → p.count j ≤ n)
    → (j : ℕ) → (pop i p).count j ≤ n
unfolding pop
pop_few n i p small some few j = elim (ℕ_discrete j i) [
  | yes e ↦ rw (e, update_self p.count i (sub64 (p.count i) 1)) (ground (arith, few i, some))
  | no ne ↦ rw (update_other p.count i j (sub64 (p.count i) 1) ne) (few j)
]

alloc-Few :
    (max_dealloc len n : ℕ) (p : Pool)
    → n < 2 ^ 63
    → ((j : ℕ) → p.count j ≤ n)
    → Few n (alloc max_dealloc len p)
unfolding alloc
alloc-Few max_dealloc len n p small few = elim (Bool-cases (len == 0)) [
  | inl e ↦ rw e tt
  | inr e ↦
      elim (Bool-cases (
        ltb (list (aligned len)) (list_size max_dealloc)
        && not (p.count (list (aligned len)) == 0))) [
          | inl f ↦ rw (e, f) (pop_few n (list (aligned len)) p small (ground (arith, f)) few)
          | inr f ↦ elim (Bool-cases (ltb p.space (aligned len))) [
            | inl g ↦ rw (e, f, g) tt
            | inr g ↦ rw (e, f, g) few
          ]
        ]
]

push_few :
    (n i a : ℕ) (p : Pool)
    → suc n < 2 ^ 63
    → ((j : ℕ) → p.count j ≤ n)
    → (j : ℕ) → (push i a p).count j ≤ suc n
unfolding push
push_few n i a p small few j = elim (ℕ_discrete j i) [
  | yes e ↦ rw (e, update_self p.count i (add64 (p.count i) 1)) (omega (arith, few i))
  | no ne ↦ rw (update_other p.count i j (add64 (p.count i) 1) ne) (omega (arith, few j))
]

-- `dealloc` of a length that is not 0 either pushes the block, or ends the process.
dealloc_done :
    (max_dealloc a len : ℕ) (p q : Pool)
    → 0 < len
    → dealloc max_dealloc a len p ≡ done q
    → (list (aligned len) < list_size max_dealloc) × (push (list (aligned len)) a p ≡ q)
unfolding dealloc
dealloc_done max_dealloc a len p q some e =
    elim (Bool-cases (ltb (list (aligned len)) (list_size max_dealloc))) [
      | inl f ↦ (ground (arith, f), ground (arith, e, f))
      | inr f ↦ absurd (ground (arith, e, f))
    ]

Step-Kept :
    (max_dealloc start end n : ℕ) (s t : Clients)
    → suc n < 2 ^ 63
    → Step max_dealloc s t
    → Kept start end n s
    → Kept start end (suc n) t
Step-Kept max_dealloc start end n s t room (gets len a p small e same) k =
    let g =
      subst (AllocLem (aligned_start start) end max_dealloc len s.pool k.free s.live) e
        (alloc_lem (aligned_start start) end max_dealloc len s.pool k.free s.live k.inv small) in
    let few = subst (Few n) e (alloc-Few max_dealloc len n s.pool (omega arith) k.few) in
    rw same (record { free = g.free_after; inv = g.inv; few = λ i. omega (arith, few i) })
Step-Kept max_dealloc start end n s t room (returns len a p some mine e same) k =
    let (class, pushed) = dealloc_done max_dealloc a len s.pool p some e in
    let (q, f, inv) =
      dealloc_lem (aligned_start start) end max_dealloc a len s.pool k.free s.live k.inv some class
        mine
        (omega (arith, k.inv.stands.counted (list (aligned len)), k.few (list (aligned len)))) in
    let eq = (dealloc_done max_dealloc a len s.pool q some f).1 in
    rw (same, sym pushed)
      (record {
        free = update k.free (list (aligned len)) (a ∷ k.free (list (aligned len)));
        inv = rw eq inv;
        few = push_few n (list (aligned len)) a s.pool room k.few;
      })

history-Kept :
    (max_dealloc start end : ℕ) {n : ℕ} {s : Clients}
    → start + 31 ≤ end
    → end < 2 ^ 63
    → n < 2 ^ 63
    → History max_dealloc start end n s
    → Kept start end n s
history-Kept max_dealloc start end room small short (opened memory) = record {
  free = no_blocks;
  inv = new_pool-Inv start end memory room small;
  few = λ i. omega (arith, (new_pool-Inv start end memory room small).stands.counted i);
}
history-Kept max_dealloc start end room small short (after {n} {s} {t} h st) =
    Step-Kept max_dealloc start end n s t short st
      (history-Kept max_dealloc start end room small (omega arith) h)

-- In every history of less than 2 ^ 63 requests and returns from a new pool on, over the memory from
-- `start` up to `end` of at least 31 bytes: a block is with one client at a time, it lies inside
-- this memory, and two blocks of clients are the same block or do not overlap. Each request is
-- below 2 ^ 63 bytes, and clients give back only what they hold.
pub history_apart :
    (max_dealloc start end n : ℕ) (s : Clients) (i j a b : ℕ)
    → start + 31 ≤ end
    → end < 2 ^ 63
    → n < 2 ^ 63
    → History max_dealloc start end n s
    → 0 < occurs a (s.live i)
    → 0 < occurs b (s.live j)
    → (occurs a (s.live i) ≡ 1)
      × (start ≤ a)
      × (a + width i ≤ end)
      × (((a ≡ b) × (i ≡ j)) ⊎ (a + width i ≤ b) ⊎ (b + width j ≤ a))
history_apart max_dealloc start end n s i j a b room small short h mine yours =
    let k = history-Kept max_dealloc start end room small short h in
    let (low, high) = k.inv.inside i a (omega arith) in
    let below : start ≤ aligned_start start = omega arith in
    (
      omega (arith, k.inv.once i a),
      omega (arith, below, low),
      omega (arith, high, k.inv.room),
      k.inv.apart i j a b (omega arith) (omega arith),
    )
