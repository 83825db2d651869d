-- ===== src/Iovec/Shape.antt =====
-- The arrays that `struct umpi_iovec` stands for, and what its accessors give on them.
use umpi.Base.{
  ℕ, ◌+◌, ◌-◌, ◌%◌, ◌≤◌, ◌<◌, ◌^◌, ◌≡◌, refl, sym, ap, ◌∙◌, ◌≢◌, ◌↔◌, true, List, [], ◌∷◌, arith,
  length, take,
}
use umpi.Iovec.{
  Iovec, Entry, entry, id_scattered, size, count, stride, len, elements, same, same_bytes,
}

abbrev pub sum_len : List Entry → ℕ
sum_len [] = 0
sum_len (e ∷ es) = e.len + sum_len es

-- Every segment ends within the stride.
abbrev pub Within : ℕ → List Entry → Type 0
Within n [] = Unit {0}
Within n (e ∷ es) = (e.dis + e.len ≤ n) × Within n es

-- An array that describes a type: one entry, or as many segments as the first entry says, with the
-- sum of their lengths in the second, and inside the stride. The numbers fit their words.
pub data IsIovec : Iovec → Type 0 where
  contiguous : (i n : ℕ) → i ≢ id_scattered → n < 2 ^ 63 → IsIovec (entry i n ∷ [])
  scattered :
      (extent : ℕ) (es : List Entry)
      → length es < 2 ^ 59
      → extent < 2 ^ 63
      → sum_len es < 2 ^ 63
      → Within extent es
      → IsIovec (entry id_scattered (length es) ∷ entry extent (sum_len es) ∷ es)

pub take_all {ℓ} : {A : Type ℓ} (es : List A) → take (length es) es ≡ es
take_all [] = refl
take_all (e ∷ es) = ap (◌∷◌ e) (take_all es)

pub elements-scattered :
    (x : Entry) (es : List Entry)
    → length es < 2 ^ 59
    → elements (entry id_scattered (length es) ∷ x ∷ es) ≡ es
unfolding elements
elements-scattered x es h =
    let e : (length es + 2) % 2 ^ 64 - 2 ≡ length es = omega arith in rw e (take_all es)

-- `size()` is the length of the array.
pub size-eq-length : {v : Iovec} → IsIovec v → size v ≡ length v
unfolding size
size-eq-length (contiguous i n ne h) = ground arith
size-eq-length (scattered extent es h _ _ _) = omega arith

-- `len()` is the number of bytes in the segments that a range-for goes through.
pub sum_len-elements : {v : Iovec} → IsIovec v → sum_len (elements v) ≡ len v
unfolding elements len
sum_len-elements (contiguous i n ne h) = ground arith
sum_len-elements (scattered extent es h _ _ _) =
    ap sum_len (elements-scattered (entry extent (sum_len es)) es h)

pub length-elements : {v : Iovec} → IsIovec v → length (elements v) ≡ count v
unfolding elements count
length-elements (contiguous i n ne h) = ground arith
length-elements (scattered extent es h _ _ _) =
    ap length (elements-scattered (entry extent (sum_len es)) es h)

pub len-lt : {v : Iovec} → IsIovec v → len v < 2 ^ 63
unfolding len
len-lt (contiguous i n ne h) = ground arith
len-lt (scattered extent es h _ s _) = s

pub same_bytes_iff : (v w : Iovec) → (same_bytes v w ≡ true) ↔ (v ≡ w)
unfolding same_bytes
same_bytes_iff [] [] = (λ _. refl, λ _. refl)
same_bytes_iff [] (b ∷ w) = (λ e. cc, λ e. cc)
same_bytes_iff (a ∷ v) [] = (λ e. cc, λ e. cc)
same_bytes_iff (a ∷ v) (b ∷ w) =
    (λ e. ground (arith, (same_bytes_iff v w).0), λ e. ground (arith, (same_bytes_iff v w).1))

pub take-size : {v : Iovec} → IsIovec v → take (size v) v ≡ v
take-size {v} p = rw (size-eq-length p) (take_all v)

-- On well-formed descriptions `==` is equality.
pub same_iff : {v w : Iovec} → IsIovec v → IsIovec w → (same v w ≡ true) ↔ (v ≡ w)
unfolding same
same_iff {v} {w} p q = (
  λ e.
      let parts : (size v ≡ size w) × (same_bytes (take (size v) v) (take (size w) w) ≡ true) =
        ground arith in
      sym (take-size p) ∙ (same_bytes_iff _ _).0 parts.1 ∙ take-size q,
  λ e. rw e (rw ((same_bytes_iff (take (size w) w) (take (size w) w)).1 refl) (ground arith)),
)

pub stride-lt : {v : Iovec} → IsIovec v → stride v < 2 ^ 63
unfolding stride
stride-lt (contiguous i n ne h) = ground arith
stride-lt (scattered extent es _ h _ _) = h
