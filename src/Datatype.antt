-- ===== src/Datatype.antt =====
-- umpi.cc, the constructors of derived datatypes, and `struct umpi_datatype` of umpi.hh.
pub mod Indexed
pub mod Checks
pub mod Derived
pub mod Repeated
pub mod Ending
pub mod Resized
pub mod Commit
pub mod Freeing
use umpi.Base.{
  ℕ, zero, suc, ◌+◌, Bool, true, false, not, ◌||◌, Option, none, some, List, [], ◌∷◌, ◌++◌, add64,
  mul64, add32, neg32, neg64, lt64, sext32, ltb, ◌==◌, if◌then◌else◌, take,
}
use umpi.Iovec.{
  Iovec, Entry, entry, id_contiguous, id_scattered, is_contiguous, is_scattered, size, count,
  stride, len, elements,
}

-- `iovec_pointer`: null, an array of this process (from `new`), or an array at an offset of the
-- shared memory. The test `committed()` is whether the address lies in the shared memory.
pub data IovecPointer : Type 0 where
  null : IovecPointer
  local : Iovec → IovecPointer
  shared : ℕ → Iovec → IovecPointer

-- struct umpi_datatype
pub record Datatype : Type 0 where
  pub iovec : IovecPointer

-- `MPI_Datatype` is a pointer to it.
abbrev pub Handle : Type 0
Handle = Option Datatype

abbrev pub pointee : IovecPointer → Option Iovec
pointee null = none
pointee (local v) = some v
pointee (shared _ v) = some v

-- `datatype->iovec_`, if neither pointer is null.
abbrev pub iovec_of : Handle → Option Iovec
iovec_of none = none
iovec_of (some t) = pointee t.iovec

abbrev pub committed : IovecPointer → Bool
committed null = false
committed (local _) = false
committed (shared _ _) = true

-- How a constructor ends: it returns MPI_FAIL, it stores a new datatype and returns MPI_SUCCESS,
-- or the process ends inside it (`new` fails, or it goes through a null pointer).
pub data Outcome : Type 0 where
  fail : Outcome
  made : Datatype → Outcome
  crash : Outcome

abbrev pub new_type : Iovec → Datatype
new_type v = record { iovec = local v }

-- `new umpi_iovec[n]`, filled with `v`: `limit` is the largest array that the allocator gives.
abbrev pub new_array : ℕ → ℕ → Iovec → Outcome
new_array limit n v = if ltb limit n then crash else made (new_type v)

-- The copying loop of `MPI_Type_contiguous`, from index `i`. Fuel: `i` grows in each round.
pub copies : ℕ → ℕ → ℕ → ℕ → List Entry → List Entry
copies zero i newcount oldcount es = []
copies (suc fuel) i newcount oldcount es =
    let rest = copies fuel (add64 i oldcount) newcount oldcount es in
    if ltb i newcount then es ++ rest else []

pub contiguous_iovec : ℕ → ℕ → Iovec → Outcome
unfolding copies
contiguous_iovec limit n v =
    if is_contiguous v
    then new_array limit 1 (entry id_contiguous (mul64 (sext32 n) (len v)) ∷ [])
    else (let newcount = mul64 (sext32 n) (count v) in
        new_array limit (add64 newcount 2) (
          entry id_scattered newcount
          ∷ entry (mul64 (sext32 n) (stride v)) (mul64 (sext32 n) (len v))
          ∷ copies (suc newcount) 0 newcount (count v) (elements v)))

-- `MPI_Type_contiguous`. `up` is `umpi != nullptr`, `newtype` is `newtype != nullptr`.
pub type_contiguous : ℕ → Bool → ℕ → Handle → Bool → Outcome
type_contiguous limit up n oldtype newtype = elim (iovec_of oldtype) [
  | none ↦ fail
  | some v ↦ if not up || not newtype then fail else contiguous_iovec limit n v
]

-- `std::max` of two `ptrdiff_t`.
abbrev pub max64 : ℕ → ℕ → ℕ
max64 a b = if lt64 a b then b else a

-- The rounds of `for (int i = 0; i < count; i++)`.
abbrev pub rounds : ℕ → ℕ
rounds n = if neg32 n then 0 else n

pub record Layout : Type 0 where
  pub extent : ℕ
  pub sum : ℕ
  pub segments : List Entry

-- The checking loop: is a block of the `n` from `i` on refused?
pub bad_block : (ℕ → ℕ) → (ℕ → ℕ) → (ℕ → Bool) → ℕ → ℕ → Bool
bad_block lens displs refused zero i = false
bad_block lens displs refused (suc n) i =
    lens i == 0 || neg64 (displs i) || refused i || bad_block lens displs refused n (i + 1)

-- The filling loop over `n` elements from block `i` on; `old i` is the length of the block's type.
pub layout : (ℕ → ℕ) → (ℕ → ℕ) → (ℕ → ℕ) → ℕ → ℕ → ℕ → ℕ → Layout
layout lens displs old zero i stride sum = record { extent = stride; sum = sum; segments = [] }
layout lens displs old (suc n) i stride sum =
    let l = mul64 (sext32 (lens i)) (old i) in
    let rest = layout lens displs old n (i + 1) (max64 (add64 (displs i) l) stride) (add64 sum l) in
    record rest { segments = entry (displs i) l ∷ rest.segments }

-- The new array of `hindexed` and `struct`. With a negative count the array is too short for its
-- first two entries, or `new` fails.
pub scattered_iovec : ℕ → ℕ → Layout → Outcome
scattered_iovec limit n l =
    if neg32 n
    then crash
    else new_array limit (sext32 (add32 n 2))
        (entry id_scattered n ∷ entry l.extent l.sum ∷ l.segments)

abbrev pub never : ℕ → Bool
never _ = false

-- `MPI_Type_create_hindexed`; an array is a function of its index.
pub type_create_hindexed : ℕ → Bool → ℕ → Option (ℕ → ℕ) → Option (ℕ → ℕ) → Handle → Bool → Outcome
type_create_hindexed limit up n none displs oldtype newtype = fail
type_create_hindexed limit up n (some lens) none oldtype newtype = fail
type_create_hindexed limit up n (some lens) (some displs) oldtype newtype =
    elim (iovec_of oldtype) [
      | none ↦ fail
      | some v ↦
          if not up
            || n == 0
            || is_scattered v
            || not newtype
            || bad_block lens displs never (rounds n) 0
          then fail
          else scattered_iovec limit n (layout lens displs (λ _. len v) (rounds n) 0 0 0)
    ]

abbrev pub scattered_type : Handle → Bool
scattered_type t = elim (iovec_of t) [ none ↦ false | some v ↦ is_scattered v ]

abbrev pub type_len : Handle → ℕ
type_len t = elim (iovec_of t) [ none ↦ 0 | some v ↦ len v ]

abbrev is_null : Handle → Bool
is_null t = elim (iovec_of t) [ none ↦ true | some _ ↦ false ]

-- The checking loop of `struct` goes through each type's pointers, until it refuses a block.
pub struct_check : (ℕ → ℕ) → (ℕ → ℕ) → (ℕ → Handle) → ℕ → ℕ → Option Bool
struct_check lens displs types zero i = some false
struct_check lens displs types (suc n) i =
    let rest = struct_check lens displs types n (i + 1) in
    if lens i == 0 || neg64 (displs i)
    then some true
    else if is_null (types i)
    then none
    else if scattered_type (types i)
    then some true
    else rest

-- `MPI_Type_create_struct`
pub type_create_struct :
    ℕ → Bool → ℕ → Option (ℕ → ℕ) → Option (ℕ → ℕ) → Option (ℕ → Handle) → Bool → Outcome
type_create_struct limit up n none displs types newtype = fail
type_create_struct limit up n (some lens) none types newtype = fail
type_create_struct limit up n (some lens) (some displs) none newtype = fail
type_create_struct limit up n (some lens) (some displs) (some types) newtype =
    if not up || n == 0 || not newtype
    then fail
    else elim (struct_check lens displs types (rounds n) 0) [
      | none ↦ crash
      | some true ↦ fail
      | some false ↦
          scattered_iovec limit n (layout lens displs (λ i. type_len (types i)) (rounds n) 0 0 0)
    ]

-- `iovec[1].dis_ = extent`
unfoldable pub with_stride : ℕ → Iovec → Iovec
with_stride extent [] = []
with_stride extent (a ∷ []) = a ∷ []
with_stride extent (a ∷ b ∷ es) = a ∷ entry extent b.len ∷ es

-- The new array of `MPI_Type_create_resized`: the old one with another stride.
pub resized_iovec : ℕ → ℕ → Iovec → Outcome
unfolding with_stride
resized_iovec limit extent v =
    if is_contiguous v
    then new_array limit 3 (entry id_scattered 1 ∷ entry extent (len v) ∷ entry 0 (len v) ∷ [])
    else new_array limit (size v) (with_stride extent (take (size v) v))

-- `MPI_Type_create_resized`
pub type_create_resized : ℕ → Bool → Handle → ℕ → ℕ → Bool → Outcome
type_create_resized limit up oldtype lb extent newtype = elim (iovec_of oldtype) [
  | none ↦ fail
  | some v ↦
      if not up || not (lb == 0) || lt64 extent (stride v) || not newtype
      then fail
      else resized_iovec limit extent v
]
