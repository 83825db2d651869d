-- ===== src/Pool/Sizes.antt =====
-- Lengths, aligned lengths and size classes.
use umpi.Base.{ℕ, suc, ◌+◌, ◌*◌, ◌≤◌, ◌<◌, ◌^◌, ◌≡◌, arith}
use umpi.Pool.{aligned, align, list}

-- A request up to 2 ^ 63 bytes is rounded up to the size of its class, which is less than 16 bytes
-- more, or 16.
pub aligned_lem :
    (len : ℕ)
    → 0 < len
    → len < 2 ^ 63
    → (aligned len ≡ 16 * suc (list (aligned len))) × (len ≤ aligned len) × (aligned len < len + 16)
unfolding aligned align list
aligned_lem len some small = ground arith
