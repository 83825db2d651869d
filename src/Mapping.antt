-- ===== src/Mapping.antt =====
-- umpi.hh, `calc_mmap_len`: the length of the shared mapping.
use umpi.Base.{ℕ, ◌+◌, ◌-◌, ◌*◌, ◌/◌, u32, u64, sext32, ◌==◌, if◌then◌else◌}

-- The sizes of the structures, UMPI_POOL_RESERVE_LEN and the page.
pub record Sizes : Type 0 where
  pub shared : ℕ
  pub process : ℕ
  pub cookie : ℕ
  pub cookie_pointer : ℕ
  pub reserve : ℕ
  pub page : ℕ

-- UMPI_OUTSTANDING_REQUESTS_PER_PROCESS after `calc_mmap_len`, by its value before.
unfoldable pub requests_for : ℕ → ℕ → ℕ
requests_for outstanding size = if outstanding == 0 then u32 (2 * size) else outstanding

-- The length that `calc_mmap_len` returns for a number of requests. The page size is a power of two, so
-- the mask of the low bits is a division.
unfoldable pub len_for : Sizes → ℕ → ℕ → ℕ
len_for k requests size =
    let n = sext32 size in
    let header = k.shared + k.process * n in
    let pool = k.reserve + (k.cookie + 2 * k.cookie_pointer) * sext32 requests * n in
    u64 (header + pool + (k.page - 1)) / k.page * k.page

-- `calc_mmap_len` where UMPI_OUTSTANDING_REQUESTS_PER_PROCESS is 0 before.
unfoldable pub calc_mmap_len : Sizes → ℕ → ℕ
unfolding len_for
calc_mmap_len k size = len_for k (u32 (2 * size)) size
