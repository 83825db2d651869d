-- ===== src/Datatype/Checks.antt =====
-- The checking loops of `MPI_Type_create_hindexed` and `MPI_Type_create_struct`.
use umpi.Base.{
  ℕ, zero, suc, ◌+◌, ◌≤◌, ◌<◌, ◌^◌, ◌≡◌, refl, ◌⊎◌, ◌≢◌, Bool, true, false, some, arith, ℕ_discrete,
}
use umpi.Datatype.{Handle, bad_block, struct_check, scattered_type, iovec_of}
use umpi.Iovec.{Iovec, is_scattered}

module _ (lens displs : ℕ → ℕ) where
  -- A block that both checking loops accept.
  pub record Sound (k : ℕ) : Type 0 where
    pub filled : lens k ≢ 0
    pub ahead : displs k < 2 ^ 63

  pub bad_block-false :
      (n : ℕ) (refused : ℕ → Bool)
      → ((k : ℕ) → k < n → Sound k)
      → ((k : ℕ) → refused k ≡ false)
      → (m i : ℕ) → m + i ≤ n
      → bad_block lens displs refused m i ≡ false
  unfolding bad_block
  bad_block-false n refused s r zero i h = refl
  bad_block-false n refused s r (suc m) i h =
      let here = s i (omega arith) in
      let rest = bad_block-false n refused s r m (i + 1) (omega arith) in
      ground (arith, here, r i, rest)

  pub bad_block-true :
      (refused : ℕ → Bool) (k : ℕ)
      → (lens k ≡ 0) ⊎ (2 ^ 63 ≤ displs k)
      → (m i : ℕ) → i ≤ k
      → k < m + i
      → bad_block lens displs refused m i ≡ true
  unfolding bad_block
  bad_block-true refused k b zero i h l = absurd (omega arith)
  bad_block-true refused k b (suc m) i h l = elim (ℕ_discrete i k) [
    | yes e ↦ rw e (ground arith)
    | no ne ↦ ground (arith, bad_block-true refused k b m (i + 1) (omega arith) (omega arith))
  ]

  pub struct_check-false :
      (types : ℕ → Handle) (n : ℕ)
      → ((k : ℕ) → k < n → Sound k)
      → ((k : ℕ) → k < n → (v : Iovec) × (iovec_of (types k) ≡ some v) × (is_scattered v ≡ false))
      → (m i : ℕ) → m + i ≤ n
      → struct_check lens displs types m i ≡ some false
  unfolding struct_check
  struct_check-false types n s t zero i h = refl
  struct_check-false types n s t (suc m) i h =
      let here = s i (omega arith) in
      let (v, known, flat) = t i (omega arith) in
      let rest = struct_check-false types n s t m (i + 1) (omega arith) in
      ground (arith, here, known, flat, rest)

  -- A block that is empty, lies before the start or has a scattered type is found, provided that
  -- the loop meets no null type on its way.
  pub struct_check-true :
      (types : ℕ → Handle) (n k : ℕ)
      → ((j : ℕ) → j < n → (v : Iovec) × (iovec_of (types j) ≡ some v))
      → (lens k ≡ 0) ⊎ (2 ^ 63 ≤ displs k) ⊎ (scattered_type (types k) ≡ true)
      → (m i : ℕ) → i ≤ k
      → k < m + i
      → m + i ≤ n
      → struct_check lens displs types m i ≡ some true
  unfolding struct_check
  struct_check-true types n k t b zero i h l e = absurd (omega arith)
  struct_check-true types n k t b (suc m) i h l e = elim (ℕ_discrete i k) [
    | yes same ↦ let (v, known) = t k (omega arith) in rw same (ground (arith, known))
    | no ne ↦
        let (v, known) = t i (omega arith) in
        ground (
          arith,
          known,
          struct_check-true types n k t b m (i + 1) (omega arith) (omega arith) (omega arith),
        )
  ]
