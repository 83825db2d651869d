-- ===== src/Offset/Steps.antt =====
-- Differences of pointers.
use umpi.Base.{
  ℕ, ◌-◌, ◌*◌, ◌/◌, ◌%◌, ◌<◌, ◌≤◌, ◌^◌, ◌≡◌, ◌≢◌, ap, ◌∙◌, false, arith, sub64, add64, neg64,
}
use native.Mathlib.Nat.{mul-div_cancel_left, mul-le-mul_left, mul-le-mul_right, div-le_of_le-mul}
use umpi.Offset.{plus, minus, difference}

ahead : (q n : ℕ) → q < 2 ^ 64 → n < 2 ^ 64 → sub64 (add64 q (n % 2 ^ 64)) q ≡ n
ahead q n small fits = omega arith

-- A pointer moved forward by `i` elements is `i` elements away.
pub difference-plus :
    (size q i : ℕ)
    → 0 < size
    → q < 2 ^ 64
    → size * i < 2 ^ 64
    → difference size (plus size q i) q ≡ i
unfolding difference plus
difference-plus size q i some_size small fits =
    ap (λ x. x / size) (ahead q (size * i) small fits) ∙ mul-div_cancel_left i some_size

-- A pointer moved back by some bytes, seen from where it was.
back : (q n : ℕ) → q < 2 ^ 64 → 0 < n → n < 2 ^ 64 → sub64 (sub64 q (n % 2 ^ 64)) q ≡ 2 ^ 64 - n
back q n small some_n fits = omega arith

-- A pointer moved back by `i` elements, one at least, of more than one byte, less than the address
-- space, is not `- i` elements away: the difference is positive.
pub difference-minus :
    (size q i : ℕ)
    → 1 < size
    → 0 < i
    → q < 2 ^ 64
    → size * i < 2 ^ 64
    → (difference size (minus size q i) q ≢ sub64 0 i)
      × (neg64 (difference size (minus size q i) q) ≡ false)
unfolding difference minus
difference-minus size q i wide some_i small fits =
    let one_at_least : size * 1 ≤ size * i = mul-le-mul_left size some_i in
    let two_each : 2 * i ≤ size * i = mul-le-mul_right i wide in
    let d : difference size (minus size q i) q ≡ (2 ^ 64 - size * i) / size =
      ap (λ x. x / size) (back q (size * i) small (omega arith) fits) in
    let room : 2 * (2 ^ 63 - 1) ≤ size * (2 ^ 63 - 1) = mul-le-mul_right (2 ^ 63 - 1) wide in
    let bound : (2 ^ 64 - size * i) / size ≤ 2 ^ 63 - 1 = div-le_of_le-mul size (omega arith) in
    (λ e. omega (arith, e, d, bound), rw d (ground (arith, bound)))
