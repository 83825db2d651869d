-- ===== src/Datatype/Derived.antt =====
-- What the constructors of derived datatypes build, and when they refuse.
use umpi.Base.{
  ℕ, ◌+◌, ◌≤◌, ◌<◌, ◌^◌, ◌≡◌, refl, ◌≢◌, ◌⊎◌, inl, inr, Bool, true, false, some, arith, leb,
}
use umpi.Iovec.{Iovec, is_scattered, stride, len, elements}
use umpi.Iovec.Shape.{IsIovec}
use umpi.Datatype.{
  Handle, fail, made, new_type, iovec_of, type_len, never, scattered_type, scattered_iovec,
  type_create_hindexed, type_create_struct, layout,
}
use umpi.Datatype.Indexed.{
  Fits, total, reach, blocks, array, array-IsIovec, elements-array, layout_lem,
}
use umpi.Datatype.Checks.{
  Sound, bad_block-false, bad_block-true, struct_check-false, struct_check-true,
}

-- A new datatype that describes the blocks `n` of lengths `lens` at `displs`, in units `old`.
pub record Describes (lens displs old : ℕ → ℕ) (n : ℕ) (v : Iovec) : Type 0 where
  pub shape : IsIovec v
  pub bytes : len v ≡ total lens displs old n 0
  pub extent : stride v ≡ reach lens displs old n 0
  pub parts : elements v ≡ blocks lens displs old n 0

module _ (lens displs old : ℕ → ℕ) where
  array-Describes :
      (n : ℕ)
      → Fits lens displs old n
      → n < 2 ^ 31
      → total lens displs old n 0 < 2 ^ 63
      → Describes lens displs old n (array lens displs old n)
  unfolding array len stride
  array-Describes n f h s = record {
    shape = array-IsIovec lens displs old n f h s;
    bytes = refl;
    extent = refl;
    parts = elements-array lens displs old n h;
  }

  scattered_iovec_lem :
      (limit n : ℕ)
      → Fits lens displs old n
      → n + 2 < 2 ^ 31
      → n + 2 ≤ limit
      → total lens displs old n 0 < 2 ^ 63
      → scattered_iovec limit n (layout lens displs old n 0 0 0)
        ≡ made (new_type (array lens displs old n))
  unfolding scattered_iovec array
  scattered_iovec_lem limit n f h l s =
      rw (layout_lem lens displs old n f n 0 0 0 (omega arith) (omega arith) (omega arith))
        (ground arith)

  ends-Sound :
      (n : ℕ)
      → Fits lens displs old n
      → ((k : ℕ) → k < n → lens k ≢ 0)
      → (k : ℕ) → k < n
      → Sound lens displs k
  ends-Sound n f filled k h = record { filled = filled k h; ahead = omega (arith, f.ends k) }

-- With block lengths from 1 up, and ends, a sum and a number of blocks that fit their words,
-- `MPI_Type_create_hindexed` over a contiguous type makes a well-formed datatype whose segments
-- are the given blocks, whose length is their total and whose stride is the largest end of one.
pub type_create_hindexed_lem :
    (lens displs : ℕ → ℕ) (limit n : ℕ) (oldtype : Handle) (v : Iovec)
    → iovec_of oldtype ≡ some v
    → is_scattered v ≡ false
    → n ≢ 0
    → n + 2 < 2 ^ 31
    → n + 2 ≤ limit
    → Fits lens displs (λ _. len v) n
    → ((k : ℕ) → k < n → lens k ≢ 0)
    → total lens displs (λ _. len v) n 0 < 2 ^ 63
    → (w : Iovec) × (type_create_hindexed limit true n (some lens) (some displs) oldtype true
        ≡ made (new_type w))
      × Describes lens displs (λ _. len v) n w
unfolding type_create_hindexed
type_create_hindexed_lem lens displs limit n oldtype v known flat some_n few room f filled fits =
    let old = λ (k : ℕ). len v in
    let check =
      bad_block-false lens displs n never (ends-Sound lens displs old n f filled) (λ _. refl) n 0
        (omega arith) in
    let rounds_n : leb (2 ^ 31) n ≡ false = ground arith in
    (
      array lens displs old n,
      ground (arith, known, check, scattered_iovec_lem lens displs old limit n f few room fits),
      array-Describes lens displs old n f (omega arith) fits,
    )

-- With block lengths from 1 up, and ends, a sum and a number of blocks that fit their words,
-- `MPI_Type_create_struct` over contiguous types, one to each block, makes a well-formed datatype
-- whose segments are the given blocks, whose length is their total and whose stride is the largest
-- end of one.
pub type_create_struct_lem :
    (lens displs : ℕ → ℕ) (limit n : ℕ) (types : ℕ → Handle)
    → ((k : ℕ) → k < n → (v : Iovec) × (iovec_of (types k) ≡ some v) × (is_scattered v ≡ false))
    → n ≢ 0
    → n + 2 < 2 ^ 31
    → n + 2 ≤ limit
    → Fits lens displs (λ k. type_len (types k)) n
    → ((k : ℕ) → k < n → lens k ≢ 0)
    → total lens displs (λ k. type_len (types k)) n 0 < 2 ^ 63
    → (w : Iovec) × (type_create_struct limit true n (some lens) (some displs) (some types) true
        ≡ made (new_type w))
      × Describes lens displs (λ k. type_len (types k)) n w
unfolding type_create_struct
type_create_struct_lem lens displs limit n types flat some_n few room f filled fits =
    let old = λ (k : ℕ). type_len (types k) in
    let check =
      struct_check-false lens displs types n (ends-Sound lens displs old n f filled) flat n 0
        (omega arith) in
    let rounds_n : leb (2 ^ 31) n ≡ false = ground arith in
    (
      array lens displs old n,
      ground (arith, check, scattered_iovec_lem lens displs old limit n f few room fits),
      array-Describes lens displs old n f (omega arith) fits,
    )

-- `MPI_Type_create_hindexed` and `MPI_Type_create_struct` return MPI_FAIL if one of their blocks is empty or has a negative
-- displacement, whatever the other arguments are; for `MPI_Type_create_struct` if no type is null.
pub block_refused :
    (lens displs : ℕ → ℕ) (limit n k : ℕ) (up newtype : Bool) (oldtype : Handle)
    (types : ℕ → Handle)
    → n < 2 ^ 31
    → k < n
    → (lens k ≡ 0) ⊎ (2 ^ 63 ≤ displs k)
    → ((j : ℕ) → j < n → (v : Iovec) × (iovec_of (types j) ≡ some v))
    → (type_create_hindexed limit up n (some lens) (some displs) oldtype newtype ≡ fail)
      × (type_create_struct limit up n (some lens) (some displs) (some types) newtype ≡ fail)
unfolding type_create_hindexed type_create_struct
block_refused lens displs limit n k up newtype oldtype types small inside bad known =
    let rounds_n : leb (2 ^ 31) n ≡ false = ground arith in
    let check = bad_block-true lens displs never k bad n 0 (omega arith) (omega arith) in
    let broken : (lens k ≡ 0) ⊎ (2 ^ 63 ≤ displs k) ⊎ (scattered_type (types k) ≡ true) = elim bad [
      | inl e ↦ inl e
      | inr e ↦ inr (inl e)
    ] in
    let check' =
      struct_check-true lens displs types n k known broken n 0 (omega arith) (omega arith)
        (omega arith) in
    (ground (arith, check), ground (arith, check'))
