-- ===== src/Tests/Types.antt =====
-- The properties of datatypes, transfers, packing and reductions at sample types.
use umpi.Base.{
  suc, ℕ, ◌+◌, ◌-◌, ◌*◌, ◌==◌, some, true, [], ◌∷◌, ◌≡◌, ◌≢◌, refl, ◌<◌, arith, if◌then◌else◌,
}
use umpi.Iovec.{entry, Iovec, is_scattered, len, stride, count, size}
use umpi.World.{mpi_success}
use umpi.Calls.{comm_world}
use umpi.Datatype.{
  Handle, local, made, new_type, type_create_hindexed, type_create_struct, type_contiguous,
  type_create_resized, type_len,
}
use umpi.Datatype.{copies}
use umpi.Datatype.Ending.{copies_end}
use umpi.Datatype.Indexed.{Fits, total}
use umpi.Datatype.Derived.{Describes, type_create_hindexed_lem, type_create_struct_lem}
use umpi.Datatype.Repeated.{Repeats, type_contiguous_lem}
use umpi.Datatype.Resized.{Resizes, type_create_resized_lem}
use umpi.Transfer.{iov}
use umpi.Transfer.Segments.{Inside, iov-Inside}
use umpi.Pack.{mpi_pack, mpi_unpack, mpi_pack_size}
use umpi.Pack.Trip
use umpi.Pack.Trip.{pack-unpack, pack-outside}
use umpi.Transfer.{bytes_of, place}
use umpi.Transfer.Delivery.{load}
use umpi.Transfer.Copy.{umpi_copy, umpi_copy-load}
use umpi.Tests.Samples.{copying, silent, ints, ints-IsIovec, two_parts, two_parts-IsIovec}

abbrev int_type : Handle
int_type = some (record { iovec = local ints })

abbrev parts_type : Handle
parts_type = some (record { iovec = local two_parts })

-- Two blocks of one and two elements, at 0 and 8.
abbrev lens : ℕ → ℕ
lens k = if k == 0 then 1 else 2

abbrev displs : ℕ → ℕ
displs k = k * 8

lens_some : (k : ℕ) → k < 2 → lens k ≢ 0
lens_some k h e = ground (arith, e)

hindexed-Fits : Fits lens displs (λ _. len ints) 2
unfolding len
hindexed-Fits = record { lengths = λ k h. ground (arith, h); ends = λ k h. ground (arith, h) }

struct-Fits : Fits lens displs (λ k. type_len int_type) 2
unfolding len
struct-Fits = record { lengths = λ k h. ground (arith, h); ends = λ k h. ground (arith, h) }

type_create_hindexed_lem_example :
    (w : Iovec) × (type_create_hindexed 100 true 2 (some lens) (some displs) int_type true
      ≡ made (new_type w))
    × Describes lens displs (λ _. len ints) 2 w
unfolding is_scattered len total
type_create_hindexed_lem_example =
    type_create_hindexed_lem lens displs 100 2 int_type ints refl refl (λ e. omega (arith, e))
      (omega arith) (omega arith) hindexed-Fits lens_some (omega arith)

type_create_struct_lem_example :
    (w : Iovec) × (type_create_struct 100 true 2
        (some lens)
        (some displs)
        (some (λ k. int_type))
        true
      ≡ made (new_type w))
    × Describes lens displs (λ k. type_len int_type) 2 w
unfolding is_scattered len total
type_create_struct_lem_example =
    type_create_struct_lem lens displs 100 2 (λ k. int_type) (λ k h. (ints, refl, refl))
      (λ e. omega (arith, e)) (omega arith) (omega arith) struct-Fits lens_some (omega arith)

type_contiguous_lem_example :
    (w : Iovec) × (type_contiguous 100 true 3 parts_type true ≡ made (new_type w))
    × Repeats 3 two_parts w
unfolding count stride len
type_contiguous_lem_example =
    type_contiguous_lem 100 3 parts_type two_parts-IsIovec refl (omega arith) (omega arith)
      (omega arith) (omega arith) (omega arith)

type_create_resized_lem_example :
    (w : Iovec) × (type_create_resized 100 true int_type 0 16 true ≡ made (new_type w))
    × Resizes 16 ints w
unfolding stride size
type_create_resized_lem_example =
    type_create_resized_lem 100 16 int_type ints-IsIovec refl (omega arith) (omega arith)
      (omega arith) (omega arith)

iov-Inside_example :
    Inside
      (1000 + 2 * stride two_parts)
      (1000 + 5 * stride two_parts)
      (iov 1000 two_parts 2 5 ((5 - 2) * len two_parts))
unfolding stride
iov-Inside_example = iov-Inside 1000 2 5 two_parts-IsIovec (omega arith) (omega arith) (omega arith)

pack-Fits : umpi.Pack.Trip.Fits ints 100 3 500 40 8
unfolding is_scattered len
pack-Fits = record {
  plain = refl;
  room = omega arith;
  short = omega arith;
  few = omega arith;
  source = omega arith;
  target = omega arith;
  address = omega arith;
}

pack-unpack_example :
    let packed = mpi_pack true 100 3 (some ints) 500 40 (some 8) comm_world (λ a. a) in
    let back = mpi_unpack true 500 40 (some 8) 200 3 (some ints) comm_world packed.memory in
    (packed.ret ≡ mpi_success)
    × (back.ret ≡ mpi_success)
    × (packed.position ≡ some (8 + 3 * len ints))
    × (back.position ≡ packed.position)
    × (mpi_pack_size true 3 (some ints) comm_world true ≡ some (3 * len ints))
    × ((i : ℕ) → i < 3 * len ints → back.memory (200 + i) ≡ 100 + i)
pack-unpack_example = pack-unpack ints 100 3 500 40 8 200 (λ a. a) pack-Fits (omega arith)

umpi_copy-load_example :
    let r = umpi_copy copying 0 100 ints 3 1 200 ints 5 0 silent in
    (r.0 ≡ bytes_of 3 ints)
    × (load r.1.memory 1000 (place 200 0 (len ints)) (bytes_of 3 ints)
        ≡ load silent.memory 1000 (place 100 1 (len ints)) (bytes_of 3 ints))
unfolding is_scattered len
umpi_copy-load_example =
    umpi_copy-load copying 0 100 ints 3 1 200 ints 5 0 silent refl refl (omega arith)

copies_end_example :
    copies 20 0 6 2 (entry 0 4 ∷ entry 8 4 ∷ []) ≡ copies (suc 6) 0 6 2 (entry 0 4 ∷ entry 8 4 ∷ [])
copies_end_example =
    copies_end (entry 0 4 ∷ entry 8 4 ∷ []) 20 6 2 (omega arith) (omega arith) (omega arith)
