-- ===== src/Datatype/Resized.antt =====
-- `MPI_Type_create_resized`.
use umpi.Base.{
  ℕ, suc, add64, ◌≤◌, ◌<◌, ◌^◌, ◌≡◌, refl, sym, ◌∙◌, true, false, some, List, [], ◌∷◌, arith,
  length, lt64,
}
use native.Mathlib.Nat.{add-zero}
use umpi.Iovec.{Iovec, Entry, entry, id_scattered, is_scattered, size, stride, len, elements}
use umpi.Iovec.Shape.{
  IsIovec, contiguous, scattered, sum_len, Within, elements-scattered, take_all, stride-lt,
}
use umpi.Datatype.{Handle, made, new_type, iovec_of, type_create_resized, resized_iovec}

-- What `MPI_Type_create_resized` makes of `v`.
pub record Resizes (extent : ℕ) (v w : Iovec) : Type 0 where
  pub shape : IsIovec w
  pub bytes : len w ≡ len v
  pub extended : stride w ≡ extent
  pub parts : (is_scattered v ≡ true) → elements w ≡ elements v
  pub part : (is_scattered v ≡ false) → elements w ≡ entry 0 (len v) ∷ []

Within-mono : (n m : ℕ) (es : List Entry) → n ≤ m → Within n es → Within m es
Within-mono n m [] h w = tt
Within-mono n m (e ∷ es) h w = (omega arith, Within-mono n m es h w.1)

not_below_lem : (a b : ℕ) → a < 2 ^ 63 → b < 2 ^ 63 → a ≤ b → lt64 b a ≡ false
not_below_lem a b h k l = ground arith

resized_iovec_lem :
    (limit extent : ℕ) {v : Iovec}
    → IsIovec v
    → extent < 2 ^ 63
    → stride v ≤ extent
    → 3 ≤ limit
    → size v ≤ limit
    → (w : Iovec) × (resized_iovec limit extent v ≡ made (new_type w)) × Resizes extent v w
unfolding resized_iovec size len stride
resized_iovec_lem limit extent (contiguous i k ne h) small wide three room =
    let flat : is_scattered (entry i k ∷ []) ≡ false = ground arith in
    let shut : k ≤ extent = ground arith in
    let same_len : len (entry i k ∷ []) ≡ k = ground arith in
    (
      entry id_scattered 1 ∷ entry extent k ∷ entry 0 k ∷ [],
      ground arith,
      record {
        shape =
            rw (add-zero k) at
              (scattered extent (entry 0 k ∷ []) (omega arith) small (omega arith) (omega arith));
        bytes = sym same_len;
        extended = refl;
        parts = λ e. cc;
        part =
            λ _. rw same_len (elements-scattered (entry extent k) (entry 0 k ∷ []) (omega arith));
      },
    )
resized_iovec_lem limit extent (scattered old es short h s w) small wide three room =
    let two_more : add64 (length es) 2 ≡ suc (suc (length es)) = omega arith in
    (
      entry id_scattered (length es) ∷ entry extent (sum_len es) ∷ es,
      rw (two_more, take_all es) (ground arith),
      record {
        shape = scattered extent es short small s (Within-mono old extent es wide w);
        bytes = refl;
        extended = refl;
        parts = λ _.
            elements-scattered (entry extent (sum_len es)) es short
            ∙ sym (elements-scattered (entry old (sum_len es)) es short);
        part = λ e. cc;
      },
    )

-- With a zero lower bound and an extent that is not below the stride, `MPI_Type_create_resized`
-- makes a well-formed datatype with that stride, the old length and the old segments (for a
-- contiguous type, one segment of its length).
pub type_create_resized_lem :
    (limit extent : ℕ) (oldtype : Handle) {v : Iovec}
    → IsIovec v
    → iovec_of oldtype ≡ some v
    → extent < 2 ^ 63
    → stride v ≤ extent
    → 3 ≤ limit
    → size v ≤ limit
    → (w : Iovec) × (type_create_resized limit true oldtype 0 extent true ≡ made (new_type w))
      × Resizes extent v w
unfolding type_create_resized
type_create_resized_lem limit extent oldtype {v} p known small wide three room =
    let (w, made_w, r) = resized_iovec_lem limit extent p small wide three room in
    let not_below : lt64 extent (stride v) ≡ false =
      not_below_lem (stride v) extent (stride-lt p) small wide in
    (w, ground (arith, known, made_w), r)
