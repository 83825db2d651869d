-- ===== src/Iovec.antt =====
-- umpi.hh, `enum umpi_id` and `struct umpi_iovec`: the run-time description of a datatype, an
-- array of (displacement, length) pairs. A contiguous type is one entry (id, length). A scattered
-- one has the entry (UMPI_ID_SCATTERED, number of segments), the entry (stride, total length),
-- and then a segment to each entry.
pub mod Shape
use umpi.Base.{
  ℕ, ◌-◌, Bool, true, false, not, ◌&&◌, ◌||◌, List, [], ◌∷◌, get_or, take, drop, add64,
  if◌then◌else◌, ◌==◌,
}

-- enum umpi_id
abbrev pub id_contiguous : ℕ
id_contiguous = 0

abbrev pub id_scattered : ℕ
id_scattered = 1

abbrev pub id_packed : ℕ
id_packed = 2

abbrev pub id_byte : ℕ
id_byte = 3

abbrev pub id_char : ℕ
id_char = 4

abbrev pub id_int : ℕ
id_int = 8

abbrev pub id_long_double : ℕ
id_long_double = 14

-- One element of the array: `dis_` and `len_`.
pub record Entry : Type 0 where
  pub dis : ℕ
  pub len : ℕ

abbrev pub entry : ℕ → ℕ → Entry
entry d l = record { dis = d; len = l }

abbrev pub Iovec : Type 0
Iovec = List Entry

-- `this[i]`
abbrev pub at : Iovec → ℕ → Entry
at v i = get_or v i (entry 0 0)

unfoldable pub id : Iovec → ℕ
id v = (at v 0).dis

unfoldable pub is_scattered : Iovec → Bool
unfolding id
is_scattered v = id v == id_scattered

unfoldable pub is_contiguous : Iovec → Bool
unfolding is_scattered
is_contiguous v = not (is_scattered v)

unfoldable pub size : Iovec → ℕ
unfolding is_scattered
size v = if is_scattered v then add64 (at v 0).len 2 else 1

unfoldable pub count : Iovec → ℕ
unfolding is_scattered
count v = if is_scattered v then (at v 0).len else 1

unfoldable pub stride : Iovec → ℕ
unfolding is_contiguous
stride v = if is_contiguous v then (at v 0).len else (at v 1).dis

unfoldable pub len : Iovec → ℕ
unfolding is_contiguous
len v = if is_contiguous v then (at v 0).len else (at v 1).len

unfoldable pub is_derived : Iovec → Bool
unfolding id
is_derived v = id v == id_contiguous || id v == id_scattered

-- `for (auto &e: *iovec)`: the elements from `begin()` to `end()`.
unfoldable pub first : Iovec → ℕ
unfolding is_scattered
first v = if is_scattered v then 2 else 0

unfoldable pub elements : Iovec → List Entry
unfolding size first
elements v = take (size v - first v) (drop (first v) v)

-- `memcmp` of two arrays of entries.
unfoldable pub same_bytes : Iovec → Iovec → Bool
same_bytes [] [] = true
same_bytes [] (_ ∷ _) = false
same_bytes (_ ∷ _) [] = false
same_bytes (a ∷ v) (b ∷ w) = a.dis == b.dis && a.len == b.len && same_bytes v w

-- `operator==`
unfoldable pub same : Iovec → Iovec → Bool
unfolding size same_bytes
same v w = size v == size w && same_bytes (take (size v) v) (take (size w) w)
