-- ===== src/Pack.antt =====
-- umpi.cc, `MPI_Pack`, `MPI_Unpack` and `MPI_Pack_size`. Buffers are base addresses in the memory
-- of the caller; a null address is 0.
pub mod Trip
use umpi.Base.{
  ℕ, ◌+◌, ◌-◌, Bool, true, false, not, ◌&&◌, ◌||◌, Option, none, some, add32, add64, mul64, sext32,
  lt32, u32, ltb, leb, ◌==◌, if◌then◌else◌,
}
use umpi.Iovec.{Iovec, len, is_scattered}
use umpi.World.{mpi_success, mpi_fail}
use umpi.Calls.{Comm, is_world}

-- `memcpy(dst, src, n)`
abbrev pub memcpy : ℕ → ℕ → ℕ → (ℕ → ℕ) → ℕ → ℕ
memcpy dst src n m a = if leb dst a && ltb a (dst + n) then m (src + (a - dst)) else m a

-- The `int` that holds `count * datatype->len()`.
abbrev pub packed_len : ℕ → Iovec → ℕ
packed_len n v = u32 (mul64 (sext32 n) (len v))

-- What a call returns, and `*position` and the memory afterwards.
pub record Packed : Type 0 where
  pub ret : ℕ
  pub position : Option ℕ
  pub memory : ℕ → ℕ

abbrev pub unpacked : Option ℕ → (ℕ → ℕ) → Packed
unpacked pos m = record { ret = mpi_fail; position = pos; memory = m }

-- `MPI_Pack`; `initialized` is whether there is a `umpi`.
unfoldable pub mpi_pack : Bool → ℕ → ℕ → Option Iovec → ℕ → ℕ → Option ℕ → Comm → (ℕ → ℕ) → Packed
mpi_pack initialized inbuf incount none outbuf outsize pos comm m = unpacked pos m
mpi_pack initialized inbuf incount (some v) outbuf outsize none comm m = unpacked none m
mpi_pack initialized inbuf incount (some v) outbuf outsize (some p) comm m =
    let n = packed_len incount v in
    if not initialized
      || (inbuf == 0 && not (incount == 0))
      || is_scattered v
      || (outbuf == 0 && not (outsize == 0))
      || not (is_world comm)
    then unpacked (some p) m
    else (if lt32 outsize (add32 n p) then unpacked (some p) m else record {
      ret = mpi_success;
      position = some (add32 p n);
      memory = memcpy (add64 outbuf (sext32 p)) inbuf (sext32 n) m;
    })

-- `MPI_Unpack`
unfoldable pub mpi_unpack : Bool → ℕ → ℕ → Option ℕ → ℕ → ℕ → Option Iovec → Comm → (ℕ → ℕ) → Packed
mpi_unpack initialized inbuf insize none outbuf outcount datatype comm m = unpacked none m
mpi_unpack initialized inbuf insize (some p) outbuf outcount none comm m = unpacked (some p) m
mpi_unpack initialized inbuf insize (some p) outbuf outcount (some v) comm m =
    let n = packed_len outcount v in
    if not initialized
      || (inbuf == 0 && not (insize == 0))
      || (outbuf == 0 && not (outcount == 0))
      || is_scattered v
      || not (is_world comm)
    then unpacked (some p) m
    else (if lt32 insize (add32 n p) then unpacked (some p) m else record {
      ret = mpi_success;
      position = some (add32 p n);
      memory = memcpy outbuf (add64 inbuf (sext32 p)) (sext32 n) m;
    })

-- `MPI_Pack_size`; `size` is whether there is a place for the result, which is `none` on failure.
unfoldable pub mpi_pack_size : Bool → ℕ → Option Iovec → Comm → Bool → Option ℕ
mpi_pack_size initialized incount none comm size = none
mpi_pack_size initialized incount (some v) comm size =
    if not initialized || is_scattered v || not (is_world comm) || not size
    then none
    else some (packed_len incount v)
