-- ===== src/Pool/Start.antt =====
-- A new pool.
use umpi.Base.{
  ℕ, ◌+◌, ◌-◌, ◌*◌, ◌/◌, ◌%◌, ◌^◌, ◌≤◌, ◌<◌, ◌≡◌, refl, ap, sub64, arith, false, List, [], ltb,
}
use umpi.Pool.{new_pool, std_align, align}
use umpi.Pool.Blocks.{Inv}

abbrev pub no_blocks : ℕ → List ℕ
no_blocks i = []

abbrev pub aligned_start : ℕ → ℕ
aligned_start start = (start + 15) / 16 * 16

std_align_lem :
    (start end : ℕ)
    → start + 31 ≤ end
    → end < 2 ^ 63
    → std_align 16 start (sub64 end start) ≡ (aligned_start start, end - aligned_start start)
unfolding std_align align
std_align_lem start end room small =
    let here : (start + 15) % 2 ^ 64 ≡ start + 15 = omega arith in
    let low : start ≤ aligned_start start = omega arith in
    let high : aligned_start start ≤ start + 15 = omega arith in
    let gap : sub64 (aligned_start start) start ≡ aligned_start start - start =
      omega (arith, low, high) in
    let all : sub64 end start ≡ end - start = omega arith in
    let fits : ltb (end - start) (16 + (aligned_start start - start)) ≡ false =
      ground (arith, high) in
    let left : end - start - (aligned_start start - start) ≡ end - aligned_start start =
      omega (arith, low, high) in
    rw (here, gap, all) (rw fits (ap (λ x. (aligned_start start, x)) left))

-- A pool that is made over the memory from `start` up to `end`, of at least 31 bytes, starts with no
-- block, free or with a client, and is well-formed from the first address on that is a multiple of 16.
pub new_pool-Inv :
    (start end : ℕ) (memory : ℕ → ℕ)
    → start + 31 ≤ end
    → end < 2 ^ 63
    → Inv (aligned_start start) end (new_pool start end memory) no_blocks no_blocks
unfolding new_pool align
new_pool-Inv start end memory room small =
    let e = std_align_lem start end room small in
    let begins = ap (λ x. x.0) e in
    let spaces = ap (λ x. x.1) e in
    let high : aligned_start start ≤ start + 15 = omega arith in
    record {
      stands = record { linked = λ i. tt; counted = λ i. refl; short = λ i. omega arith };
      once = λ i a. omega arith;
      inside = λ i a h. absurd (omega (arith, h));
      apart = λ i j a b h k. absurd (omega (arith, h));
      start = omega (arith, begins);
      room = omega (arith, begins, spaces, high);
      small = small;
    }
