-- ===== src/Reduce.antt =====
-- funcs.hh: the predefined reductions. An array is the function from indices to values.
use umpi.Base.{
  Bool, List, [], ◌∷◌, get_or, Option, none, some, not, ◌||◌, ℕ, zero, suc, ◌+◌, ◌≡◌, arith, ltb,
  leb, neg32, update, update_self, update_other, if◌then◌else◌, ℕ_discrete, ◌∙◌,
}

-- The rounds that are left of the loop of `apply`, from `i` on, for an operation `op`.
unfoldable pub apply_loop {ℓ} : {A : Type ℓ} → (A → A → A) → ℕ → ℕ → (ℕ → A) → (ℕ → A) → ℕ → A
apply_loop op zero i invec inoutvec = inoutvec
apply_loop op (suc n) i invec inoutvec =
    apply_loop op n (i + 1) invec (update inoutvec i (op (invec i) (inoutvec i)))

-- `umpi_generic_op::apply` on two arrays that do not overlap; `*len` is an `int`.
unfoldable pub apply {ℓ} : {A : Type ℓ} → (A → A → A) → ℕ → (ℕ → A) → (ℕ → A) → ℕ → A
unfolding apply_loop
apply op len invec inoutvec = apply_loop op (if neg32 len then 0 else len) 0 invec inoutvec

apply_loop_lem {ℓ} :
    {A : Type ℓ} (op : A → A → A) (n i : ℕ) (invec inoutvec : ℕ → A) (j : ℕ)
    → apply_loop op n i invec inoutvec j ≡ (
        if leb i j
        then (if ltb j (i + n) then op (invec j) (inoutvec j) else inoutvec j)
        else inoutvec j)
unfolding apply_loop
apply_loop_lem op zero i invec inoutvec j = ground arith
apply_loop_lem op (suc n) i invec inoutvec j =
    apply_loop_lem op n (i + 1) invec (update inoutvec i (op (invec i) (inoutvec i))) j
    ∙ elim (ℕ_discrete j i) [
      | yes e ↦ rw e (rw (update_self inoutvec i (op (invec i) (inoutvec i))) (ground arith))
      | no ne ↦ rw (update_other inoutvec i j (op (invec i) (inoutvec i)) ne) (ground (arith, ne))
    ]

-- A reduction of arrays that do not overlap combines the elements below the length, each once, and
-- leaves the others; with a negative length it leaves all.
pub apply_lem {ℓ} :
    {A : Type ℓ} (op : A → A → A) (len : ℕ) (invec inoutvec : ℕ → A) (j : ℕ)
    → apply op len invec inoutvec j ≡ (
        if neg32 len
        then inoutvec j
        else (if ltb j len then op (invec j) (inoutvec j) else inoutvec j))
unfolding apply
apply_lem op len invec inoutvec j =
    apply_loop_lem op (if neg32 len then 0 else len) 0 invec inoutvec j ∙ ground arith

-- The types of elements that the predefined operations know.
pub data Element : Type 0 where
  char_element unsigned_char_element short_element unsigned_short_element : Element
  int_element unsigned_element long_element unsigned_long_element : Element
  float_element double_element long_double_element : Element

-- What the switch of `umpi_generic_op::function` comes to: it ends the process, it applies the
-- operation to elements of a type, or it does nothing.
pub data Dispatch : Type 0 where
  ends_process : Dispatch
  applies : Element → Dispatch
  does_nothing : Dispatch

-- The cases, in the order of `umpi_id`: contiguous, scattered, packed and byte are invalid.
abbrev pub cases : List Dispatch
cases =
    ends_process
    ∷ ends_process
    ∷ ends_process
    ∷ ends_process
    ∷ applies char_element
    ∷ applies unsigned_char_element
    ∷ applies short_element
    ∷ applies unsigned_short_element
    ∷ applies int_element
    ∷ applies unsigned_element
    ∷ applies long_element
    ∷ applies unsigned_long_element
    ∷ applies float_element
    ∷ applies double_element
    ∷ applies long_double_element
    ∷ []

unfoldable pub dispatch : ℕ → Dispatch
dispatch id = get_or cases id does_nothing

-- `umpi_max` and `umpi_min`, for the order `<` of the elements.
unfoldable pub umpi_max {ℓ} : {A : Type ℓ} → (A → A → Bool) → A → A → A
umpi_max lt a b = if lt a b then b else a

unfoldable pub umpi_min {ℓ} : {A : Type ℓ} → (A → A → Bool) → A → A → A
umpi_min lt a b = if lt b a then b else a

-- The values of each type of elements are a parameter, with the operation on them. An array is read
-- as one of elements of the type that the switch finds.
module _ (Value : Element → Type 0) (op : (e : Element) → Value e → Value e → Value e) where
  pub data Reduction : Type 0 where
    process_ends : Reduction
    unchanged : Reduction
    array : (e : Element) → (ℕ → Value e) → Reduction

  unfoldable pub reduce_as :
      ℕ → ((e : Element) → ℕ → Value e) → ((e : Element) → ℕ → Value e) → Dispatch → Reduction
  unfolding apply
  reduce_as len invec inoutvec ends_process = process_ends
  reduce_as len invec inoutvec (applies e) = array e (apply (op e) len (invec e) (inoutvec e))
  reduce_as len invec inoutvec does_nothing = unchanged

  -- `umpi_generic_op::function`, for a datatype with the id `id`.
  unfoldable pub generic_op :
      ℕ → ℕ → ((e : Element) → ℕ → Value e) → ((e : Element) → ℕ → Value e) → Reduction
  unfolding reduce_as dispatch
  generic_op id len invec inoutvec = reduce_as len invec inoutvec (dispatch id)

-- `MPI_Op_create` of a user's function: the operation that it makes, or none for MPI_FAIL.
unfoldable pub mpi_op_create {ℓ} : {A : Type ℓ} → Bool → Option A → Bool → Option A
mpi_op_create initialized none commute = none
mpi_op_create initialized (some f) commute = if not initialized || not commute then none else some f

-- `MPI_Op_free`: it always succeeds, and `*op` is then null. The handle is not asked what it stands for.
unfoldable pub mpi_op_free {ℓ} : {A : Type ℓ} → Option A → Option A
mpi_op_free op = none
