-- ===== src/Offset.antt =====
-- based_ptr.hh: pointers into the shared mapping, which lies at another address in each process. A
-- pointer is the offset from the start of the mapping, a `ptrdiff_t`; `base` is that start, `*addr`,
-- in the process that runs. A `void *` is an address, 0 for a null pointer.
pub mod Mappings
pub mod Steps
use umpi.Base.{ℕ, ◌-◌, ◌/◌, ◌^◌, Bool, not, add64, sub64, mul64, lt64, ◌==◌, if◌then◌else◌}

-- `nullptr_`
abbrev pub null_offset : ℕ
null_offset = 2 ^ 63

-- The constructor from a pointer.
unfoldable pub from_pointer : ℕ → ℕ → ℕ
from_pointer base p = if p == 0 then null_offset else sub64 p base

-- `operator bool`
unfoldable pub is_set : ℕ → Bool
is_set q = not (q == null_offset)

-- `operator element_type *`, `operator->`, `operator *` and `operator void *`: the address.
unfoldable pub to_pointer : ℕ → ℕ → ℕ
to_pointer base q = add64 base q

-- `operator<` and the other orders, of which `operator<=` and `operator>=` allow equal offsets.
unfoldable pub less : ℕ → ℕ → Bool
less p q = lt64 p q

unfoldable pub less_or_same : ℕ → ℕ → Bool
less_or_same p q = not (lt64 q p)

-- `operator+` and `operator-` with a number, for elements of `size` bytes; `+=`, `-=`, `++` and `--`
-- do the same to the pointer itself. A `ptrdiff_t` is its bit pattern.
unfoldable pub plus : ℕ → ℕ → ℕ → ℕ
plus size q i = add64 q (mul64 size i)

unfoldable pub minus : ℕ → ℕ → ℕ → ℕ
minus size q i = sub64 q (mul64 size i)

-- `operator-` of two pointers. `sizeof` is a `size_t`, so the division is one of `size_t`.
unfoldable pub difference : ℕ → ℕ → ℕ → ℕ
difference size p q = sub64 p q / size

-- `operator[]`: the address of an element.
unfoldable pub element : ℕ → ℕ → ℕ → ℕ → ℕ
unfolding to_pointer plus
element base size q i = to_pointer base (plus size q i)
