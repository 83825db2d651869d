-- ===== src/Datatype/Indexed.antt =====
-- The loops of `MPI_Type_create_hindexed`, `MPI_Type_create_struct` and `MPI_Type_contiguous`
-- against sums and maxima of unbounded numbers.
use umpi.Base.{
  ℕ, zero, suc, ◌+◌, ◌*◌, ◌≤◌, ◌<◌, ◌^◌, ◌≡◌, refl, ap, max, add64, mul64, sext32, List, [], ◌∷◌,
  arith, length,
}
use umpi.Iovec.{Iovec, Entry, entry, id_scattered, elements}
use umpi.Iovec.Shape.{IsIovec, scattered, elements-scattered, sum_len, Within}
use umpi.Datatype.{layout, max64}

mul64_small : (n k : ℕ) → n < 2 ^ 31 → n * k < 2 ^ 63 → mul64 (sext32 n) k ≡ n * k
mul64_small n k h b = ground arith

max64_small : (a b : ℕ) → a < 2 ^ 63 → b < 2 ^ 63 → max64 a b ≡ max a b
max64_small a b h k = ground arith

module _ (lens displs old : ℕ → ℕ) where
  -- The blocks `i`, …, `i + n - 1`: their total length, and the largest end.
  unfoldable pub total : ℕ → ℕ → ℕ
  total zero i = 0
  total (suc n) i = lens i * old i + total n (i + 1)

  unfoldable pub reach : ℕ → ℕ → ℕ
  reach zero i = 0
  reach (suc n) i = max (displs i + lens i * old i) (reach n (i + 1))

  unfoldable pub blocks : ℕ → ℕ → List Entry
  blocks zero i = []
  blocks (suc n) i = entry (displs i) (lens i * old i) ∷ blocks n (i + 1)

  -- The block lengths are not negative, and no block ends beyond what a `ptrdiff_t` holds.
  pub record Fits (n : ℕ) : Type 0 where
    pub lengths : (k : ℕ) → k < n → lens k < 2 ^ 31
    pub ends : (k : ℕ) → k < n → displs k + lens k * old k < 2 ^ 63

  pub layout_lem :
      (m : ℕ) (f : Fits m) (n i : ℕ) (extent sum : ℕ)
      → n + i ≤ m
      → extent < 2 ^ 63
      → sum + total n i < 2 ^ 63
      → layout lens displs old n i extent sum
        ≡ record { extent = max extent (reach n i); sum = sum + total n i; segments = blocks n i }
  unfolding layout total reach blocks
  layout_lem m f zero i extent sum h e s = ground arith
  layout_lem m f (suc n) i extent sum h e s =
      let l = lens i * old i in
      let size : mul64 (sext32 (lens i)) (old i) ≡ l =
        mul64_small (lens i) (old i) (f.lengths i (omega arith)) (omega (arith, f.ends i)) in
      let end : add64 (displs i) l ≡ displs i + l = omega (arith, f.ends i) in
      let top : max64 (displs i + l) extent ≡ max (displs i + l) extent =
        max64_small _ _ (f.ends i (omega arith)) e in
      let all : add64 sum l ≡ sum + l = omega arith in
      let ih =
        layout_lem m f n (i + 1) (max (displs i + l) extent) (sum + l) (omega arith)
          (omega (arith, f.ends i)) (omega arith) in
      rw (size, end, top, all, ih) (ground arith)

  length-blocks : (n i : ℕ) → length (blocks n i) ≡ n
  unfolding blocks
  length-blocks zero i = refl
  length-blocks (suc n) i = ap suc (length-blocks n (i + 1))

  sum_len-blocks : (n i : ℕ) → sum_len (blocks n i) ≡ total n i
  unfolding blocks total
  sum_len-blocks zero i = refl
  sum_len-blocks (suc n) i = ap (◌+◌ (lens i * old i)) (sum_len-blocks n (i + 1))

  blocks-Within : (n i m : ℕ) → reach n i ≤ m → Within m (blocks n i)
  unfolding blocks reach
  blocks-Within zero i m h = tt
  blocks-Within (suc n) i m h = (omega arith, blocks-Within n (i + 1) m (omega arith))

  reach-lt : (m : ℕ) (f : Fits m) (n i : ℕ) → n + i ≤ m → reach n i < 2 ^ 63
  unfolding reach
  reach-lt m f zero i h = omega arith
  reach-lt m f (suc n) i h = omega (arith, f.ends i, reach-lt m f n (i + 1))

  -- What the loops leave in the array is a description of the blocks.
  unfoldable pub array : ℕ → Iovec
  array n = entry id_scattered n ∷ entry (reach n 0) (total n 0) ∷ blocks n 0

  pub array-IsIovec : (n : ℕ) → Fits n → n < 2 ^ 31 → total n 0 < 2 ^ 63 → IsIovec (array n)
  unfolding array
  array-IsIovec n f h s =
      rw (length-blocks n 0, sum_len-blocks n 0) at
        (scattered (reach n 0) (blocks n 0) (omega (arith, length-blocks n 0))
          (reach-lt n f n 0 (omega arith)) (omega (arith, sum_len-blocks n 0))
          (blocks-Within n 0 (reach n 0) (omega arith)))

  pub elements-array : (n : ℕ) → n < 2 ^ 31 → elements (array n) ≡ blocks n 0
  unfolding array
  elements-array n h = rw (length-blocks n 0) at (
      elements-scattered (entry (reach n 0) (total n 0)) (blocks n 0)
        (omega (arith, length-blocks n 0)))
