-- ===== src/Pack/Trip.antt =====
-- Packing and unpacking give the elements back.
use umpi.Base.{
  ℕ, ◌+◌, ◌-◌, ◌*◌, ◌≤◌, ◌<◌, ◌^◌, ◌≡◌, refl, sym, ap, ◌∙◌, ◌⊎◌, inl, inr, true, false, ◌&&◌, some,
  arith, add32, add64, sext32, lt32, ltb, leb, ◌==◌,
}
use umpi.Iovec.{Iovec, len, is_scattered}
use umpi.World.{mpi_success}
use umpi.Calls.{comm_world}
use umpi.Pack.{mpi_pack, mpi_unpack, mpi_pack_size, memcpy, packed_len}

-- A memcpy moves the bytes.
memcpy_inside : (dst src n i : ℕ) (m : ℕ → ℕ) → i < n → memcpy dst src n m (dst + i) ≡ m (src + i)
memcpy_inside dst src n i m h =
    let e : src + (dst + i - dst) ≡ src + i = omega arith in
    let t : (leb dst (dst + i) && ltb (dst + i) (dst + n)) ≡ true = ground (arith, h) in
    rw t (ap m e)

memcpy_outside :
    (dst src n a : ℕ) (m : ℕ → ℕ) → (a < dst) ⊎ (dst + n ≤ a) → memcpy dst src n m a ≡ m a
memcpy_outside dst src n a m h =
    let t : (leb dst a && ltb a (dst + n)) ≡ false = ground (arith, h) in rw t refl

-- What the arguments of a call of `MPI_Pack` must be: `n` elements of `l` bytes fit at position `p`.
pub record Fits (v : Iovec) (inbuf n outbuf outsize p : ℕ) : Type 0 where
  pub plain : is_scattered v ≡ false
  pub room : n * len v + p ≤ outsize
  pub short : outsize < 2 ^ 31
  pub few : n < 2 ^ 31
  pub source : 0 < inbuf
  pub target : 0 < outbuf
  pub address : outbuf + outsize < 2 ^ 63

packed_len_lem :
    (n p outsize : ℕ) (v : Iovec)
    → n < 2 ^ 31
    → n * len v + p ≤ outsize
    → outsize < 2 ^ 31
    → packed_len n v ≡ n * len v
packed_len_lem n p outsize v few room short =
    let wide : sext32 n ≡ n = ground (arith, few) in rw wide (omega arith)

pub pack_lem :
    (v : Iovec) (inbuf n outbuf outsize p : ℕ) (m : ℕ → ℕ)
    → Fits v inbuf n outbuf outsize p
    → mpi_pack true inbuf n (some v) outbuf outsize (some p) comm_world m ≡ record {
      ret = mpi_success;
      position = some (p + n * len v);
      memory = memcpy (outbuf + p) inbuf (n * len v) m;
    }
unfolding mpi_pack
pack_lem v inbuf n outbuf outsize p m f =
    let e : packed_len n v ≡ n * len v = packed_len_lem n p outsize v f.few f.room f.short in
    let a : (inbuf == 0) ≡ false = ground (arith, f.source) in
    let b : (outbuf == 0) ≡ false = ground (arith, f.target) in
    let c : lt32 outsize (add32 (n * len v) p) ≡ false = ground (arith, f.room, f.short) in
    let d : add64 outbuf (sext32 p) ≡ outbuf + p = ground (arith, f.room, f.address) in
    let g : sext32 (n * len v) ≡ n * len v = ground (arith, f.room, f.short) in
    let h : add32 p (n * len v) ≡ p + n * len v = ground (arith, f.room, f.short) in
    rw (e, a, b, f.plain, c, d, g, h) refl

-- What the arguments of a call of `MPI_Unpack` must be.
pub record Holds (v : Iovec) (inbuf insize p outbuf n : ℕ) : Type 0 where
  pub plain : is_scattered v ≡ false
  pub room : n * len v + p ≤ insize
  pub short : insize < 2 ^ 31
  pub few : n < 2 ^ 31
  pub source : 0 < inbuf
  pub target : 0 < outbuf
  pub address : inbuf + insize < 2 ^ 63

pub unpack_lem :
    (v : Iovec) (inbuf insize p outbuf n : ℕ) (m : ℕ → ℕ)
    → Holds v inbuf insize p outbuf n
    → mpi_unpack true inbuf insize (some p) outbuf n (some v) comm_world m ≡ record {
      ret = mpi_success;
      position = some (p + n * len v);
      memory = memcpy outbuf (inbuf + p) (n * len v) m;
    }
unfolding mpi_unpack
unpack_lem v inbuf insize p outbuf n m f =
    let e : packed_len n v ≡ n * len v = packed_len_lem n p insize v f.few f.room f.short in
    let a : (inbuf == 0) ≡ false = ground (arith, f.source) in
    let b : (outbuf == 0) ≡ false = ground (arith, f.target) in
    let c : lt32 insize (add32 (n * len v) p) ≡ false = ground (arith, f.room, f.short) in
    let d : add64 inbuf (sext32 p) ≡ inbuf + p = ground (arith, f.room, f.address) in
    let g : sext32 (n * len v) ≡ n * len v = ground (arith, f.room, f.short) in
    let h : add32 p (n * len v) ≡ p + n * len v = ground (arith, f.room, f.short) in
    rw (e, a, b, f.plain, c, d, g, h) refl

-- `n` elements that `MPI_Pack` packed into a buffer at a position, `MPI_Unpack` of that position
-- gives back byte by byte, and both end at the position behind the elements, which is further by
-- what `MPI_Pack_size` says. The elements are contiguous and fit, no pointer is null, and the
-- sizes are in range of their types.
pub pack-unpack :
    (v : Iovec) (inbuf n buf bytes p outbuf : ℕ) (m : ℕ → ℕ)
    → Fits v inbuf n buf bytes p
    → 0 < outbuf
    → let packed = mpi_pack true inbuf n (some v) buf bytes (some p) comm_world m in
      let back = mpi_unpack true buf bytes (some p) outbuf n (some v) comm_world packed.memory in
      (packed.ret ≡ mpi_success)
      × (back.ret ≡ mpi_success)
      × (packed.position ≡ some (p + n * len v))
      × (back.position ≡ packed.position)
      × (mpi_pack_size true n (some v) comm_world true ≡ some (n * len v))
      × ((i : ℕ) → i < n * len v → back.memory (outbuf + i) ≡ m (inbuf + i))
unfolding mpi_pack_size
pack-unpack v inbuf n buf bytes p outbuf m f out =
    let packed = mpi_pack true inbuf n (some v) buf bytes (some p) comm_world m in
    let e = pack_lem v inbuf n buf bytes p m f in
    let g = unpack_lem v buf bytes p outbuf n packed.memory (record {
      plain = f.plain;
      room = f.room;
      short = f.short;
      few = f.few;
      source = f.target;
      target = out;
      address = f.address;
    }) in
    (
      ap (λ k. k.ret) e,
      ap (λ k. k.ret) g,
      ap (λ k. k.position) e,
      ap (λ k. k.position) g ∙ sym (ap (λ k. k.position) e),
      rw (f.plain, packed_len_lem n p bytes v f.few f.room f.short) refl,
      λ i h.
          ap (λ k. k.memory (outbuf + i)) g
          ∙ memcpy_inside outbuf (buf + p) (n * len v) i packed.memory h
          ∙ ap (λ k. k.memory (buf + p + i)) e
          ∙ memcpy_inside (buf + p) inbuf (n * len v) i m h,
    )

-- A call of `MPI_Pack` of contiguous elements that fit into the buffer at the position changes no byte
-- outside the buffer.
pub pack-outside :
    (v : Iovec) (inbuf n buf bytes p a : ℕ) (m : ℕ → ℕ)
    → Fits v inbuf n buf bytes p
    → (a < buf) ⊎ (buf + bytes ≤ a)
    → (mpi_pack true inbuf n (some v) buf bytes (some p) comm_world m).memory a ≡ m a
pack-outside v inbuf n buf bytes p a m f h =
    ap (λ k. k.memory a) (pack_lem v inbuf n buf bytes p m f)
    ∙ memcpy_outside (buf + p) inbuf (n * len v) a m
        (elim h [ inl l ↦ inl (omega arith) | inr r ↦ inr (omega (arith, r, f.room)) ])
