-- ===== src/Datatype/Repeated.antt =====
-- `MPI_Type_contiguous` over a scattered type.
use umpi.Base.{
  ℕ, zero, suc, ◌+◌, ◌*◌, ◌≤◌, ◌<◌, ◌^◌, ◌≡◌, refl, ap, ◌∙◌, ◌≢◌, true, false, some, List, [], ◌∷◌,
  ◌++◌, arith, length, length-append, add64, mul64, sext32, ltb, sym,
}
use umpi.Iovec.{
  Iovec, Entry, entry, id_contiguous, id_scattered, is_scattered, is_contiguous, count, stride, len,
  elements,
}
use umpi.Iovec.Shape.{IsIovec, contiguous, scattered, sum_len, Within, elements-scattered}
use umpi.Datatype.{Handle, made, new_type, iovec_of, type_contiguous, contiguous_iovec, copies}

-- `n` times the same segments.
unfoldable pub repeat : ℕ → List Entry → List Entry
repeat zero es = []
repeat (suc n) es = es ++ repeat n es

copies_lem :
    (es : List Entry) (m fuel i k n : ℕ)
    → i + m * k ≡ n
    → n + k < 2 ^ 64
    → 0 < k
    → m < fuel
    → copies fuel i n k es ≡ repeat m es
unfolding copies repeat
copies_lem es m zero i k n e b p h = absurd (omega arith)
copies_lem es zero (suc fuel) i k n e b p h = ground arith
copies_lem es (suc m) (suc fuel) i k n e b p h =
    let here : ltb i n ≡ true = ground arith in
    let next : add64 i k ≡ i + k = omega arith in
    let ih = copies_lem es m fuel (i + k) k n (omega arith) b p (omega arith) in
    rw (next, here, ih) refl

repeat-nil : (m : ℕ) → repeat m [] ≡ []
unfolding repeat
repeat-nil zero = refl
repeat-nil (suc m) = repeat-nil m

length-repeat : (m : ℕ) (es : List Entry) → length (repeat m es) ≡ m * length es
unfolding repeat
length-repeat zero es = omega arith
length-repeat (suc m) es = omega (arith, length-append es (repeat m es), length-repeat m es)

sum_len-append : (es fs : List Entry) → sum_len (es ++ fs) ≡ sum_len es + sum_len fs
sum_len-append [] fs = omega arith
sum_len-append (e ∷ es) fs = omega (arith, sum_len-append es fs)

sum_len-repeat : (m : ℕ) (es : List Entry) → sum_len (repeat m es) ≡ m * sum_len es
unfolding repeat
sum_len-repeat zero es = omega arith
sum_len-repeat (suc m) es = omega (arith, sum_len-append es (repeat m es), sum_len-repeat m es)

Within-mono : (n m : ℕ) (es : List Entry) → n ≤ m → Within n es → Within m es
Within-mono n m [] h w = tt
Within-mono n m (e ∷ es) h w = (omega arith, Within-mono n m es h w.1)

Within-append : (n : ℕ) (es fs : List Entry) → Within n es → Within n fs → Within n (es ++ fs)
Within-append n [] fs v w = w
Within-append n (e ∷ es) fs v w = (v.0, Within-append n es fs v.1 w)

Within-repeat : (n m : ℕ) (es : List Entry) → Within n es → Within n (repeat m es)
unfolding repeat
Within-repeat n zero es w = tt
Within-repeat n (suc m) es w = Within-append n es (repeat m es) w (Within-repeat n m es w)

-- `m` copies in an array `m` times as wide.
repeat-Within : (n m : ℕ) (es : List Entry) → Within n es → Within (m * n) (repeat m es)
unfolding repeat
repeat-Within n zero es w = tt
repeat-Within n (suc m) es w =
    Within-mono n (suc m * n) (repeat (suc m) es) (grind arith) (Within-repeat n (suc m) es w)

copies-scattered :
    (m : ℕ) (es : List Entry)
    → m * length es < 2 ^ 59
    → length es < 2 ^ 59
    → copies (suc (m * length es)) 0 (m * length es) (length es) es ≡ repeat m es
unfolding copies
copies-scattered m [] b h = ground (arith, repeat-nil m)
copies-scattered m (e ∷ es) b h =
    copies_lem (e ∷ es) m (suc (m * length (e ∷ es))) 0 (length (e ∷ es)) (m * length (e ∷ es))
      (omega arith) (omega arith) (omega arith) (grind arith)

-- What `MPI_Type_contiguous` over `n` elements of the type `v` makes.
pub record Repeats (n : ℕ) (v w : Iovec) : Type 0 where
  pub shape : IsIovec w
  pub bytes : len w ≡ n * len v
  pub extent : stride w ≡ n * stride v
  pub parts : is_scattered v ≡ true → elements w ≡ repeat n (elements v)

mul_sext : (n k : ℕ) → n < 2 ^ 31 → n * k < 2 ^ 63 → mul64 (sext32 n) k ≡ n * k
mul_sext n k h b = ground arith

scattered_array : ℕ → ℕ → List Entry → Iovec
scattered_array n extent es =
    entry id_scattered (n * length es) ∷ entry (n * extent) (n * sum_len es) ∷ repeat n es

scattered_array-IsIovec :
    (n extent : ℕ) (es : List Entry)
    → n * length es < 2 ^ 59
    → n * extent < 2 ^ 63
    → n * sum_len es < 2 ^ 63
    → Within extent es
    → IsIovec (scattered_array n extent es)
unfolding scattered_array
scattered_array-IsIovec n extent es few small fits w =
    rw (length-repeat n es, sum_len-repeat n es) at
      (scattered (n * extent) (repeat n es) (omega (arith, length-repeat n es)) small
        (omega (arith, sum_len-repeat n es)) (repeat-Within extent n es w))

contiguous_iovec-scattered :
    (limit n extent : ℕ) (es : List Entry)
    → n < 2 ^ 31
    → length es < 2 ^ 59
    → n * length es < 2 ^ 59
    → n * length es + 2 ≤ limit
    → n * extent < 2 ^ 63
    → n * sum_len es < 2 ^ 63
    → contiguous_iovec limit n (entry id_scattered (length es) ∷ entry extent (sum_len es) ∷ es)
      ≡ made (new_type (scattered_array n extent es))
unfolding contiguous_iovec scattered_array count len stride
contiguous_iovec-scattered limit n extent es small short few room wide fits =
    rw
      (
        elements-scattered (entry extent (sum_len es)) es short,
        mul_sext n (length es) small (omega arith),
        mul_sext n extent small wide,
        mul_sext n (sum_len es) small fits,
        copies-scattered n es few short,
      )
      (ground arith)

scattered_array-len : (n k : ℕ) (es : List Entry) → len (scattered_array n k es) ≡ n * sum_len es
unfolding scattered_array len
scattered_array-len n k es = refl

scattered_array-stride : (n k : ℕ) (es : List Entry) → stride (scattered_array n k es) ≡ n * k
unfolding scattered_array stride
scattered_array-stride n k es = refl

scattered_array-elements :
    (n k : ℕ) (es : List Entry)
    → n * length es < 2 ^ 59
    → elements (scattered_array n k es) ≡ repeat n es
unfolding scattered_array
scattered_array-elements n k es h = rw (length-repeat n es) at (
    elements-scattered (entry (n * k) (n * sum_len es)) (repeat n es)
      (omega (arith, length-repeat n es)))

-- The accessors on an array of one entry.
record Single (i k : ℕ) : Type 0 where
  len_eq : len (entry i k ∷ []) ≡ k
  stride_eq : stride (entry i k ∷ []) ≡ k
  count_eq : count (entry i k ∷ []) ≡ 1
  flat : is_scattered (entry i k ∷ []) ≡ false

single : (i k : ℕ) → i ≢ id_scattered → Single i k
unfolding len stride count
single i k ne = ground arith

contiguous_iovec-single :
    (limit n i k : ℕ)
    → i ≢ id_scattered
    → n < 2 ^ 31
    → n * k < 2 ^ 63
    → 1 ≤ limit
    → contiguous_iovec limit n (entry i k ∷ []) ≡ made (new_type (entry id_contiguous (n * k) ∷ []))
unfolding contiguous_iovec is_contiguous
contiguous_iovec-single limit n i k ne small fits room =
    ground (arith, mul_sext n k small fits, (single i k ne).len_eq)

-- If the counts and lengths of the result fit their words, `MPI_Type_contiguous` makes a well-formed
-- datatype of `n` times the length and the stride; over a scattered type its segments are those of
-- the old type, `n` times in a row.
pub type_contiguous_lem :
    (limit n : ℕ) (oldtype : Handle) {v : Iovec}
    → IsIovec v
    → iovec_of oldtype ≡ some v
    → n < 2 ^ 31
    → n * count v < 2 ^ 59
    → n * count v + 2 ≤ limit
    → n * stride v < 2 ^ 63
    → n * len v < 2 ^ 63
    → (w : Iovec) × (type_contiguous limit true n oldtype true ≡ made (new_type w)) × Repeats n v w
unfolding type_contiguous count stride len
type_contiguous_lem limit n oldtype (contiguous i k ne h) known small few room wide fits =
    let flat = single i k ne in
    let few' : n * k < 2 ^ 63 = rw flat.len_eq at fits in
    let room' : n * 1 + 2 ≤ limit = rw flat.count_eq at room in
    (
      entry id_contiguous (n * k) ∷ [],
      ground (arith, known, contiguous_iovec-single limit n i k ne small few' (omega arith)),
      record {
        shape = contiguous id_contiguous (n * k) (λ e. absurd (omega arith)) few';
        bytes = ap (◌*◌ n) (sym flat.len_eq);
        extent = ap (◌*◌ n) (sym flat.stride_eq);
        parts = λ e. absurd (ground (arith, flat.flat));
      },
    )
type_contiguous_lem limit n oldtype (scattered extent es short h s w) known small few room wide
      fits =
    (
      scattered_array n extent es,
      ground (
        arith,
        known,
        contiguous_iovec-scattered limit n extent es small short few room wide fits,
      ),
      record {
        shape = scattered_array-IsIovec n extent es few wide fits w;
        bytes = scattered_array-len n extent es;
        extent = scattered_array-stride n extent es;
        parts = λ _.
            scattered_array-elements n extent es few
            ∙ ap (repeat n) (sym (elements-scattered (entry extent (sum_len es)) es short));
      },
    )

-- The segments of `n` elements side by side, as MPI defines the type: the i-th copy is displaced by
-- i strides.
unfoldable pub shift : ℕ → List Entry → List Entry
shift off [] = []
shift off (e ∷ es) = entry (e.dis + off) e.len ∷ shift off es

unfoldable pub side_by_side : ℕ → ℕ → ℕ → List Entry → List Entry
unfolding shift
side_by_side zero extent off es = []
side_by_side (suc n) extent off es = shift off es ++ side_by_side n extent (off + extent) es

abbrev sum_dis : List Entry → ℕ
sum_dis [] = 0
sum_dis (e ∷ es) = e.dis + sum_dis es

sum_dis-append : (es fs : List Entry) → sum_dis (es ++ fs) ≡ sum_dis es + sum_dis fs
sum_dis-append [] fs = omega arith
sum_dis-append (e ∷ es) fs = omega (arith, sum_dis-append es fs)

sum_dis-repeat : (n : ℕ) (es : List Entry) → sum_dis (repeat n es) ≡ n * sum_dis es
unfolding repeat
sum_dis-repeat zero es = omega arith
sum_dis-repeat (suc n) es = omega (arith, sum_dis-append es (repeat n es), sum_dis-repeat n es)

sum_dis-shift : (off : ℕ) (es : List Entry) → sum_dis (shift off es) ≡ sum_dis es + length es * off
unfolding shift
sum_dis-shift off [] = omega arith
sum_dis-shift off (e ∷ es) = omega (arith, sum_dis-shift off es)

sum_dis-side_by_side :
    (n extent off : ℕ) (es : List Entry)
    → n * sum_dis es + n * (length es * off) ≤ sum_dis (side_by_side n extent off es)
unfolding side_by_side
sum_dis-side_by_side zero extent off es = omega arith
sum_dis-side_by_side (suc n) extent off es = omega (
  arith,
  sum_dis-append (shift off es) (side_by_side n extent (off + extent) es),
  sum_dis-shift off es,
  sum_dis-side_by_side n extent (off + extent) es,
)

repeat-ne-side_by_side :
    (n extent : ℕ) (es : List Entry)
    → 2 ≤ n
    → 0 < extent
    → 0 < length es
    → repeat n es ≢ side_by_side n extent 0 es
unfolding side_by_side
repeat-ne-side_by_side zero extent es two wide some_es e = absurd (omega arith)
repeat-ne-side_by_side (suc n) extent es two wide some_es e =
    let gap : 1 ≤ n * (length es * extent) = grind arith in
    absurd (
      omega (
        arith,
        ap sum_dis e,
        sum_dis-repeat (suc n) es,
        sum_dis-append (shift 0 es) (side_by_side n extent (0 + extent) es),
        sum_dis-shift 0 es,
        sum_dis-side_by_side n extent (0 + extent) es,
      ))

-- Over a scattered type with a segment and a stride, two or more elements by `MPI_Type_contiguous`
-- are not laid side by side: every copy has the displacements of the first one.
pub type_contiguous_not_displaced :
    (limit n : ℕ) (oldtype : Handle) {v : Iovec}
    → IsIovec v
    → iovec_of oldtype ≡ some v
    → is_scattered v ≡ true
    → n < 2 ^ 31
    → n * count v < 2 ^ 59
    → n * count v + 2 ≤ limit
    → n * stride v < 2 ^ 63
    → n * len v < 2 ^ 63
    → 2 ≤ n
    → 0 < stride v
    → 0 < length (elements v)
    → (w : Iovec) × (type_contiguous limit true n oldtype true ≡ made (new_type w))
      × (elements w ≢ side_by_side n (stride v) 0 (elements v))
type_contiguous_not_displaced limit n oldtype {v} p known s small few room wide fits two gap
      some_es =
    let (w, made_w, r) = type_contiguous_lem limit n oldtype p known small few room wide fits in
    (
      w,
      made_w,
      λ e. repeat-ne-side_by_side n (stride v) (elements v) two gap some_es (sym (r.parts s) ∙ e),
    )
