-- ===== src/Transfer/Segments.antt =====
-- The arrays of segments: how many entries they have, how many bytes, and where these lie.
use umpi.Base.{
  ℕ, zero, suc, ◌+◌, ◌-◌, ◌*◌, ◌≤◌, ◌<◌, ◌^◌, ◌≡◌, refl, ap, true, false, List, [], ◌∷◌, ◌++◌,
  arith, length, length-append, add32, Bool-cases, inl, inr,
}
use umpi.Iovec.{Iovec, Entry, entry, is_scattered, count, stride, len, elements}
use umpi.Iovec.Shape.{
  IsIovec, contiguous, scattered, sum_len, Within, elements-scattered, length-elements,
  sum_len-elements,
}
use umpi.Transfer.{Segment, row, rows, place, iov, iov_count, loop_rounds}

abbrev pub sum_bytes : List Segment → ℕ
sum_bytes [] = 0
sum_bytes (s ∷ ss) = s.bytes + sum_bytes ss

-- Every segment lies in the addresses from `lo` up to `hi`.
abbrev pub Inside : ℕ → ℕ → List Segment → Type 0
Inside lo hi [] = Unit {0}
Inside lo hi (s ∷ ss) = (lo ≤ s.base) × (s.base + s.bytes ≤ hi) × Inside lo hi ss

sum_bytes-append : (xs ys : List Segment) → sum_bytes (xs ++ ys) ≡ sum_bytes xs + sum_bytes ys
sum_bytes-append [] ys = omega arith
sum_bytes-append (x ∷ xs) ys = omega (arith, sum_bytes-append xs ys)

Inside-append :
    (lo hi : ℕ) (xs ys : List Segment) → Inside lo hi xs → Inside lo hi ys → Inside lo hi (xs ++ ys)
Inside-append lo hi [] ys p q = q
Inside-append lo hi (x ∷ xs) ys p q = (p.0, p.1, Inside-append lo hi xs ys p.2 q)

Inside-mono :
    (lo hi lo' hi' : ℕ) (xs : List Segment)
    → lo' ≤ lo
    → hi ≤ hi'
    → Inside lo hi xs
    → Inside lo' hi' xs
Inside-mono lo hi lo' hi' [] l h p = tt
Inside-mono lo hi lo' hi' (x ∷ xs) l h p =
    (omega arith, omega arith, Inside-mono lo hi lo' hi' xs l h p.2)

length-row : (base : ℕ) (es : List Entry) → length (row base es) ≡ length es
unfolding row
length-row base [] = refl
length-row base (e ∷ es) = ap suc (length-row base es)

sum_bytes-row : (base : ℕ) (es : List Entry) → sum_bytes (row base es) ≡ sum_len es
unfolding row
sum_bytes-row base [] = refl
sum_bytes-row base (e ∷ es) = ap (◌+◌ e.len) (sum_bytes-row base es)

row-Inside :
    (base n : ℕ) (es : List Entry)
    → base + n < 2 ^ 64
    → Within n es
    → Inside base (base + n) (row base es)
unfolding row
row-Inside base n [] h w = tt
row-Inside base n (e ∷ es) h w = (omega arith, omega arith, row-Inside base n es h w.1)

length-rows : (base : ℕ) (v : Iovec) (n j : ℕ) → length (rows base v n j) ≡ n * length (elements v)
unfolding rows
length-rows base v zero j = omega arith
length-rows base v (suc n) j = omega (
  arith,
  length-append (row (place base j (stride v)) (elements v)) (rows base v n (add32 j 1)),
  length-row (place base j (stride v)) (elements v),
  length-rows base v n (add32 j 1),
)

sum_bytes-rows :
    (base : ℕ) (v : Iovec) (n j : ℕ) → sum_bytes (rows base v n j) ≡ n * sum_len (elements v)
unfolding rows
sum_bytes-rows base v zero j = omega arith
sum_bytes-rows base v (suc n) j = omega (
  arith,
  sum_bytes-append (row (place base j (stride v)) (elements v)) (rows base v n (add32 j 1)),
  sum_bytes-row (place base j (stride v)) (elements v),
  sum_bytes-rows base v n (add32 j 1),
)

-- Without wrap-around element `j` starts at `base + j * s`.
pub place_lem : (base j s : ℕ) → j < 2 ^ 31 → base + j * s < 2 ^ 63 → place base j s ≡ base + j * s
place_lem base j s small fits = ground arith

split : (first last s : ℕ) → first ≤ last → (last - first) * s + first * s ≡ last * s
split first last s h =
    let whole : last - first + first ≡ last = omega arith in
    omega (arith, ap (λ (t : ℕ). t * s) whole)

step_le : (j last s : ℕ) → j + 1 ≤ last → j * s + s ≤ last * s
step_le j last s h = grind arith

rows-Inside :
    (base : ℕ) (v : Iovec) (n j last : ℕ)
    → Within (stride v) (elements v)
    → n + j ≡ last
    → last < 2 ^ 31
    → base + last * stride v < 2 ^ 63
    → Inside (base + j * stride v) (base + last * stride v) (rows base v n j)
unfolding rows
rows-Inside base v zero j last w e small fits = tt
rows-Inside base v (suc n) j last w e small fits =
    let s = stride v in
    let below : j * s + s ≤ last * s = step_le j last s (omega arith) in
    let here : place base j s ≡ base + j * s = place_lem base j s (omega arith) (omega arith) in
    let next : add32 j 1 ≡ j + 1 = omega arith in
    let later = rows-Inside base v n (j + 1) last w (omega arith) small fits in
    let first = row-Inside (base + j * s) s (elements v) (omega arith) w in
    rw (here, next)
      (Inside-append _ _ (row (base + j * s) (elements v)) (rows base v n (j + 1))
        (Inside-mono _ _ _ _ (row (base + j * s) (elements v)) (omega arith) (omega arith) first)
        (Inside-mono _ _ _ _ (rows base v n (j + 1)) (omega arith) (omega arith) later))

loop_rounds_lem :
    (first last : ℕ) → first ≤ last → last < 2 ^ 31 → loop_rounds first last ≡ last - first
loop_rounds_lem first last h small = ground arith

-- The accessors agree with the segments, in both shapes of a type.
elements-Within : {v : Iovec} → IsIovec v → is_scattered v ≡ true → Within (stride v) (elements v)
unfolding stride
elements-Within (contiguous i n ne h) e = absurd (ground arith)
elements-Within (scattered extent es short h s w) e =
    rw (elements-scattered (entry extent (sum_len es)) es short) w

stride-eq-len : {v : Iovec} → IsIovec v → is_scattered v ≡ false → stride v ≡ len v
unfolding stride len
stride-eq-len p e = ground arith

-- For a well-formed type and elements `first` up to `last`, the array has as many entries as the
-- code allocates for `last - first` elements, if that number fits its word.
pub length-iov :
    (base first last bytes : ℕ) {v : Iovec}
    → IsIovec v
    → first ≤ last
    → last < 2 ^ 31
    → (last - first) * count v < 2 ^ 64
    → length (iov base v first last bytes) ≡ iov_count v (last - first)
unfolding iov iov_count
length-iov base first last bytes {v} p h small few = ground (
  arith,
  loop_rounds_lem first last h small,
  length-rows base v (last - first) first,
  length-elements p,
  ap (λ (k : ℕ). (last - first) * k) (length-elements p),
)

-- For a well-formed type and elements `first` up to `last`, the segments of the array have, together,
-- exactly the bytes of these elements.
pub sum_bytes-iov :
    (base first last : ℕ) {v : Iovec}
    → IsIovec v
    → first ≤ last
    → last < 2 ^ 31
    → sum_bytes (iov base v first last ((last - first) * len v)) ≡ (last - first) * len v
unfolding iov
sum_bytes-iov base first last {v} p h small = ground (
  arith,
  loop_rounds_lem first last h small,
  sum_bytes-rows base v (last - first) first,
  ap (λ (k : ℕ). (last - first) * k) (sum_len-elements p),
)

-- For a well-formed type, if the buffer of `last` elements ends below 2 ^ 63, every segment of the array
-- for elements `first` up to `last` lies between the start of element `first` and the end of the
-- last one.
pub iov-Inside :
    (base first last : ℕ) {v : Iovec}
    → IsIovec v
    → first ≤ last
    → last < 2 ^ 31
    → base + last * stride v < 2 ^ 63
    → Inside
        (base + first * stride v)
        (base + last * stride v)
        (iov base v first last ((last - first) * len v))
unfolding iov
iov-Inside base first last {v} p h small fits = elim (Bool-cases (is_scattered v)) [
  | inl e ↦
      rw (e, loop_rounds_lem first last h small)
        (rows-Inside base v (last - first) first last (elements-Within p e) (omega arith) small
          fits)
  | inr e ↦
      let same : stride v ≡ len v = stride-eq-len p e in
      let all : base + last * len v < 2 ^ 63 = rw same at fits in
      let parts = split first last (len v) h in
      rw (e, same, place_lem base first (len v) (omega arith) (omega arith))
        (omega arith, omega arith, tt)
]
