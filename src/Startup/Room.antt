-- ===== src/Startup/Room.antt =====
-- The mapping has room for all that starts in it, and for the requests that may stand.
use umpi.Base.{
  ℕ, zero, suc, ◌+◌, ◌*◌, ◌≤◌, ◌<◌, ◌^◌, ◌≡◌, refl, ap, ◌∙◌, true, false, not, ◌&&◌, Option, none,
  some, inl, inr, Bool-cases, arith, mul64, sub64, sext32, update, ltb, ◌==◌,
}
use native.Mathlib.Nat.{mul-pos}
use umpi.Pool.{
  Pool, new_pool, Allocation, alloc, allocate, aligned, list, list_size, pop, std_align, align,
}
use umpi.Pool.Sizes.{aligned_lem}
use umpi.Launcher.{Sizes, calc_mmap_len}
use umpi.Launcher.Length.{needed, calc_mmap_len-needed}
use umpi.Startup.{
  Shared, Answers, new_barrier, new_mutexes, taken, take_displs, with_displs, with_procs,
  new_shared, new_collect, object, node_size, slot_count,
}

-- A request of some bytes, for which there is space, gets an address, and the space shrinks by at
-- most the aligned length.
abbrev Room : Pool → ℕ → Allocation → Type 0
Room p len r =
    (a : ℕ) × (q : Pool) × (taken p r ≡ some (a, q))
    × (p.space ≤ q.space + aligned len)
    × (q.space ≤ p.space)

alloc-Room :
    (node len : ℕ) (p : Pool)
    → 0 < len
    → p.space < 2 ^ 63
    → aligned len ≤ p.space
    → Room p len (alloc node len p)
unfolding alloc taken pop
alloc-Room node len p some_len small fits =
    let e : (len == 0) ≡ false = ground (arith, some_len) in
    let g : ltb p.space (aligned len) ≡ false = ground (arith, fits) in
    elim (Bool-cases
      (ltb (list (aligned len)) (list_size node) && not (p.count (list (aligned len)) == 0))) [
        | inl f ↦
            rw (e, f)
              (
                p.first (list (aligned len)),
                pop (list (aligned len)) p,
                refl,
                omega arith,
                omega arith,
              )
        | inr f ↦
            rw (e, f, g)
              (
                p.begin,
                record p { begin = p.begin + aligned len; space = sub64 p.space (aligned len) },
                refl,
                omega (arith, fits, small),
                omega (arith, fits, small),
              )
      ]

pub take_displs-step :
    (node size m i : ℕ) (displs : ℕ → ℕ) (p : Pool) (a : ℕ) (q : Pool)
    → taken p (alloc node (mul64 size 4) p) ≡ some (a, q)
    → take_displs node size (suc m) i displs p
      ≡ take_displs node size m (i + 1) (update displs i a) q
unfolding take_displs allocate
take_displs-step node size m i displs p a q e =
    ap
      (λ x. elim x as (λ _. Option ((ℕ → ℕ) × Pool)) [
        | none ↦ none
        | some r ↦ take_displs node size m (i + 1) (update displs i r.0) r.1
      ])
      e

-- The loop over the slots, for ints of `len` bytes in all.
take_displs_lem :
    (node size m i : ℕ) (displs : ℕ → ℕ) (p : Pool)
    → 0 < mul64 size 4
    → p.space < 2 ^ 63
    → m * aligned (mul64 size 4) ≤ p.space
    → (r : (ℕ → ℕ) × Pool) × (take_displs node size m i displs p ≡ some r)
      × (p.space ≤ r.1.space + m * aligned (mul64 size 4))
unfolding take_displs allocate
take_displs_lem node size zero i displs p some_len small fits = ((displs, p), refl, omega arith)
take_displs_lem node size (suc m) i displs p some_len small fits =
    let len = mul64 size 4 in
    let (a, q, e, left, less) = alloc-Room node len p some_len small (omega (arith, fits)) in
    let (r, f, rest) =
      take_displs_lem node size m (i + 1) (update displs i a) q some_len
        (omega (arith, small, less)) (omega (arith, fits, left)) in
    (r, take_displs-step node size m i displs p a q e ∙ f, omega (arith, rest, left))

-- The constructor of `struct shared` over a pool with the space for the processes and the ints of the
-- slots.
with_procs_lem :
    (k : Sizes) (size n : ℕ) (p : Pool)
    → 0 < n
    → n ≤ 10000
    → 0 < mul64 n k.process
    → mul64 n k.process < 2 ^ 63
    → p.space < 2 ^ 63
    → mul64 n k.process + 16 + 16 * (4 * n + 16) ≤ p.space
    → (s : Shared) × (with_procs k size n p ≡ some s)
      × (s.barrier ≡ size)
      × (p.space ≤ s.pool.space + (mul64 n k.process + 16 + 16 * (4 * n + 16)))
unfolding with_procs with_displs object allocate
with_procs_lem k size n p some_n few some_len short small fits =
    let ints : mul64 n 4 ≡ 4 * n = omega (arith, few) in
    let procs = aligned_lem (mul64 n k.process) some_len short in
    let each = aligned_lem (mul64 n 4) (omega arith) (omega arith) in
    let (a, q, e, left, less) =
      alloc-Room (node_size k) (mul64 n k.process) p some_len small (omega (arith, procs, fits)) in
    let (d, f, rest) =
      take_displs_lem (node_size k) n 16 0 (λ i. 0) q (omega (arith, ints)) (omega (arith, less))
        (omega (arith, each, left, procs, ints, fits)) in
    (
      record {
        barrier = size;
        size = size;
        pool = d.1;
        procs = a;
        displs = d.0;
        slots = λ i. new_collect (λ j. 0);
      },
      ap (λ x. elim x as (λ _. Option Shared) [ none ↦ none | some r ↦ with_displs k size n r ]) e
          ∙ ap (object size a) f,
      refl,
      omega (arith, rest, left, each, procs, ints),
    )

-- UMPI_POOL_RESERVE_LEN
abbrev pub megabyte : ℕ
megabyte = 1024 * 1024

new_pool_space :
    (start end : ℕ) (memory : ℕ → ℕ)
    → start + 31 ≤ end
    → end < 2 ^ 63
    → (end ≤ start + 15 + (new_pool start end memory).space)
      × ((new_pool start end memory).space ≤ end)
unfolding new_pool std_align align
new_pool_space start end memory room small = ground arith

new_shared-ready :
    (k : Sizes) (sync : ℕ → Answers) (n begin end : ℕ) (memory : ℕ → ℕ)
    → n ≤ 10000
    → (new_barrier (sync 0) && new_mutexes sync (2 + slot_count) 1) ≡ true
    → new_shared k sync n begin end memory ≡ with_procs k n n (new_pool begin end memory)
unfolding new_shared
new_shared-ready k sync n begin end memory few ready =
    let one : sext32 n ≡ n = ground (arith, few) in rw (ready, one) refl

-- For a number of processes that the launcher takes, and the reserve of the source, a mapping of the
-- length `calc_mmap_len` at an address below 2 ^ 63 holds all that `struct shared` starts with: where
-- pthreads answer, the constructor returns, the barrier is one of all processes, and the pool has space left for as many request nodes
-- for each process as there are processes, twice.
pub new_shared_lem :
    (k : Sizes) (sync : ℕ → Answers) (n addr : ℕ) (memory : ℕ → ℕ)
    → 0 < n
    → n ≤ 10000
    → 0 < k.page
    → 0 < k.process
    → k.reserve ≡ megabyte
    → needed k n + k.page < 2 ^ 63
    → addr + calc_mmap_len k n < 2 ^ 63
    → (new_barrier (sync 0) && new_mutexes sync (2 + slot_count) 1) ≡ true
    → (s : Shared) × (new_shared k sync n (addr + k.shared) (addr + calc_mmap_len k n) memory
        ≡ some s)
      × (s.barrier ≡ n)
      × (node_size k * (2 * n) * n ≤ s.pool.space)
unfolding needed
new_shared_lem k sync n addr memory some_n few some_page some_process reserve room low ready =
    let (_, enough, _) = calc_mmap_len-needed k n few some_page (omega (arith, room)) in
    let (left, less) =
      new_pool_space (addr + k.shared) (addr + calc_mmap_len k n) memory
        (omega (arith, enough, reserve)) low in
    let some_bytes : 0 < k.process * n = mul-pos some_process some_n in
    let bytes : mul64 n k.process ≡ k.process * n = omega (arith, room) in
    let (s, made, count, rest) =
      with_procs_lem k n n (new_pool (addr + k.shared) (addr + calc_mmap_len k n) memory) some_n few
        (omega (arith, some_bytes, bytes)) (omega (arith, bytes, room)) (omega (arith, less, low))
        (omega (arith, bytes, left, enough, reserve, few)) in
    (
      s,
      new_shared-ready k sync n (addr + k.shared) (addr + calc_mmap_len k n) memory few ready
          ∙ made,
      count,
      omega (arith, rest, bytes, left, enough, reserve, few),
    )
