-- ===== src/Base/Machine.antt =====
-- Machine integers of the x86-64 target, each as its bit pattern: a `size_t` or a `ptrdiff_t` is a
-- number below 2 ^ 64, an `int` one below 2 ^ 32 and an `int16_t` one below 2 ^ 16. Signed
-- overflow wraps, as the compiled code does.
use Prim.Native.Nat.{ℕ, ◌+◌, ◌-◌, ◌*◌, ◌%◌, ◌^◌}
use mathlib.Core.Bool.{Bool}
use umpi.Base.Tests.{ltb, leb, if◌then◌else◌}

abbrev pub u64 : ℕ → ℕ
u64 n = n % 2 ^ 64

abbrev pub u32 : ℕ → ℕ
u32 n = n % 2 ^ 32

abbrev pub u16 : ℕ → ℕ
u16 n = n % 2 ^ 16

-- `a * b` of two `size_t`.
abbrev pub mul64 : ℕ → ℕ → ℕ
mul64 a b = u64 (a * b)

-- `a + b` of two `size_t`.
abbrev pub add64 : ℕ → ℕ → ℕ
add64 a b = u64 (a + b)

-- `a - b` of two `size_t`.
abbrev pub sub64 : ℕ → ℕ → ℕ
sub64 a b = u64 (a + 2 ^ 64 - b)

-- `a + b` and `a - b` of two `int`.
abbrev pub add32 : ℕ → ℕ → ℕ
add32 a b = u32 (a + b)

abbrev pub sub32 : ℕ → ℕ → ℕ
sub32 a b = u32 (a + 2 ^ 32 - b)

-- The test `a < 0` of a `ptrdiff_t` and of an `int`.
abbrev pub neg64 : ℕ → Bool
neg64 a = leb (2 ^ 63) a

abbrev pub neg32 : ℕ → Bool
neg32 a = leb (2 ^ 31) a

-- The test `a < b` of two `ptrdiff_t` and of two `int`.
abbrev pub lt64 : ℕ → ℕ → Bool
lt64 a b = ltb (u64 (a + 2 ^ 63)) (u64 (b + 2 ^ 63))

abbrev pub lt32 : ℕ → ℕ → Bool
lt32 a b = ltb (u32 (a + 2 ^ 31)) (u32 (b + 2 ^ 31))

-- `(size_t) c` of an `int`: the sign is extended.
abbrev pub sext32 : ℕ → ℕ
sext32 c = if ltb c (2 ^ 31) then c else c + (2 ^ 64 - 2 ^ 32)

-- `(int) t` of an `int16_t`.
abbrev pub sext16 : ℕ → ℕ
sext16 t = if ltb t (2 ^ 15) then t else t + (2 ^ 32 - 2 ^ 16)

-- `t--` and `t++` of an `int16_t`.
abbrev pub dec16 : ℕ → ℕ
dec16 t = u16 (t + 2 ^ 16 - 1)

abbrev pub inc16 : ℕ → ℕ
inc16 t = u16 (t + 1)
