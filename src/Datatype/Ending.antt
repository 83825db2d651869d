-- ===== src/Datatype/Ending.antt =====
-- The copying loop of `MPI_Type_contiguous` ends.
use umpi.Base.{ℕ, zero, suc, ◌+◌, ◌<◌, ◌^◌, ◌≡◌, refl, arith, add64, dec_lt, List}
use umpi.Iovec.{Entry}
use umpi.Datatype.{copies}

copies_same :
    (es : List Entry) (f g i k n : ℕ)
    → 0 < k
    → n + k < 2 ^ 64
    → n < i + f
    → n < i + g
    → i < n + k
    → copies f i n k es ≡ copies g i n k es
unfolding copies
copies_same es zero zero i k n p b hf hg h = refl
copies_same es zero (suc g) i k n p b hf hg h = ground arith
copies_same es (suc f) zero i k n p b hf hg h = ground arith
copies_same es (suc f) (suc g) i k n p b hf hg h = elim (dec_lt i n) [
  | yes lt ↦
      let next : add64 i k ≡ i + k = omega arith in
      let ih = copies_same es f g (i + k) k n p b (omega arith) (omega arith) (omega arith) in
      rw (next, ih) refl
  | no out ↦ ground arith
]

-- The copying loop of `MPI_Type_contiguous` over a type with one segment at least, where the index does
-- not overflow, ends within `newcount + 1` rounds: any fuel from there on copies the same segments.
pub copies_end :
    (es : List Entry) (fuel newcount oldcount : ℕ)
    → 0 < oldcount
    → newcount + oldcount < 2 ^ 64
    → newcount < fuel
    → copies fuel 0 newcount oldcount es ≡ copies (suc newcount) 0 newcount oldcount es
copies_end es fuel newcount oldcount p b h =
    copies_same es fuel (suc newcount) 0 oldcount newcount p b (omega arith) (omega arith)
      (omega arith)
