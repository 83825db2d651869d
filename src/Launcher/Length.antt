-- ===== src/Launcher/Length.antt =====
-- The length of the mapping.
use umpi.Base.{ℕ, ◌+◌, ◌-◌, ◌*◌, ◌/◌, ◌%◌, ◌≤◌, ◌<◌, ◌^◌, ◌≡◌, arith, u32, u64, sext32}
use native.Mathlib.Nat.{div-add-mod', mod-lt, mul-mod_left}
use umpi.Mapping.{Sizes, calc_mmap_len, len_for}

round_up :
    (x p : ℕ)
    → 0 < p
    → x + p < 2 ^ 64
    → let r = u64 (x + (p - 1)) / p * p in (r % p ≡ 0) × (x ≤ r) × (r < x + p)
round_up x p some_p room =
    let y = u64 (x + (p - 1)) in
    let fits : y ≡ x + (p - 1) = omega arith in
    let split = div-add-mod' y p in
    let rest = mod-lt y some_p in
    (mul-mod_left (y / p) p, omega (arith, fits, split, rest), omega (arith, fits, split, rest))

-- What the mapping has to hold for `n` processes: the structures, the reserve of the pool, and as many
-- request nodes for each process as there are processes, twice.
unfoldable pub needed : Sizes → ℕ → ℕ
needed k n =
    k.shared + k.process * n + (k.reserve + (k.cookie + 2 * k.cookie_pointer) * (2 * n) * n)

-- For a number of processes that the launcher takes, where the address space has room for it, the
-- length is a multiple of the page size, at least what is needed, and less than one page more.
pub calc_mmap_len-needed :
    (k : Sizes) (n : ℕ)
    → n ≤ 10000
    → 0 < k.page
    → needed k n + k.page < 2 ^ 64
    → (calc_mmap_len k n % k.page ≡ 0)
      × (needed k n ≤ calc_mmap_len k n)
      × (calc_mmap_len k n < needed k n + k.page)
unfolding needed calc_mmap_len len_for
calc_mmap_len-needed k n small some_page room =
    let one : sext32 n ≡ n = ground (arith, small) in
    let two : sext32 (u32 (2 * n)) ≡ 2 * n = ground (arith, small) in
    rw (one, two) (round_up (needed k n) k.page some_page room)
