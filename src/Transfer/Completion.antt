-- ===== src/Transfer/Completion.antt =====
-- Both transfers step by step, where the buffers are contiguous and have room.
use umpi.Base.{
  ℕ, ◌*◌, ◌/◌, ◌≤◌, ◌<◌, ◌^◌, ◌≡◌, refl, false, some, arith, u32, sext32, mul64, sub32, ltb, ◌==◌,
}
use native.Mathlib.Nat.{mul-div_cancel}
use umpi.Iovec.{Iovec, is_scattered, len}
use umpi.World.{Cookie, World, Memory, set_cookie, mpi_success, notify_done}
use umpi.Transfer.{
  Kernel, bytes_of, read_count, bad_read, read_call, read_from_owner, write_call, write_to_owner,
  too_long, counted, complete,
}

-- `n` elements of `v` and the buffer of the waiting request `k`, of the same contiguous element
-- length, with all sizes within their words.
pub record Fits (k : Cookie) (v : Iovec) (n buf : ℕ) : Type 0 where
  pub flat : is_scattered v ≡ false
  pub flat_owner : is_scattered k.iovec ≡ false
  pub same_len : len k.iovec ≡ len v
  pub some_len : 0 < len v
  pub few : n < 2 ^ 31
  pub few_owner : k.size < 2 ^ 31
  pub small : n * len v < 2 ^ 63
  pub small_owner : k.size * len v < 2 ^ 63
  pub address : buf < 2 ^ 64
  pub address_owner : k.buf < 2 ^ 64

pub bytes_of_lem : (n : ℕ) (v : Iovec) → n < 2 ^ 31 → n * len v < 2 ^ 63 → bytes_of n v ≡ n * len v
bytes_of_lem n v few small = ground arith

pub quotient : (n k : ℕ) → 0 < k → n < 2 ^ 31 → u32 (n * k / k) ≡ n
quotient n k pos few = rw (mul-div_cancel n pos) (omega arith)

pub read_count_lem :
    (k : Cookie) (v : Iovec) (n buf : ℕ) → Fits k v n buf → read_count k v 0 0 ≡ k.size
read_count_lem k v n buf f =
    let whole : sub32 k.size 0 ≡ k.size = omega (arith, f.few_owner) in
    let total : mul64 (sext32 k.size) (len k.iovec) ≡ k.size * len v =
      rw f.same_len (bytes_of_lem k.size v f.few_owner f.small_owner) in
    rw (whole, total) (quotient k.size (len v) f.some_len f.few_owner)

mul_mono : (n m k : ℕ) → n ≤ m → n * k ≤ m * k
mul_mono n m k h = grind arith

-- The bytes of `n` elements in the owner's words.
pub owner_bytes :
    (k : Cookie) (v : Iovec) (n buf : ℕ) → Fits k v n buf → bytes_of k.size k.iovec ≡ k.size * len v
owner_bytes k v n buf f = rw f.same_len (bytes_of_lem k.size v f.few_owner f.small_owner)

pub bad_read_lem :
    (k : Cookie) (v : Iovec) (n buf : ℕ)
    → Fits k v n buf
    → k.size ≤ n
    → bad_read k v n (bytes_of k.size v) 0 0 ≡ false
bad_read_lem k v n buf f le =
    let owner = owner_bytes k v n buf f in
    let mine = bytes_of_lem n v f.few f.small in
    let part = bytes_of_lem k.size v f.few_owner f.small_owner in
    let more = mul_mono k.size n (len v) le in
    rw (owner, mine, part) (ground (arith, f.small, f.small_owner, more))

pub read_from_owner_lem :
    (kernel : Kernel) (me c buf : ℕ) (v : Iovec) (n : ℕ) (w : World)
    → Fits (w.cookie c) v n buf
    → (w.cookie c).size ≤ n
    → read_from_owner kernel me c buf v n 0 0 0 w
      ≡ some (
          complete kernel me c
            (bytes_of (w.cookie c).size v)
            (read_call kernel me c buf v (w.cookie c).size 0 0 w)
            w)
unfolding read_from_owner
read_from_owner_lem kernel me c buf v n w f le =
    let k = w.cookie c in
    let nonzero : (len v == 0) ≡ false = ground (arith, f.some_len) in
    rw (nonzero, read_count_lem k v n buf f, bad_read_lem k v n buf f le) refl

pub too_long_lem :
    (k : Cookie) (v : Iovec) (n buf : ℕ)
    → Fits k v n buf
    → n ≤ k.size
    → too_long k (bytes_of n v) 0 ≡ false
too_long_lem k v n buf f le =
    let owner = owner_bytes k v n buf f in
    let mine = bytes_of_lem n v f.few f.small in
    let more = mul_mono n k.size (len v) le in
    rw (owner, mine) (ground (arith, f.small, f.small_owner, more))

pub counted_lem :
    (k : Cookie) (v : Iovec) (n buf : ℕ)
    → Fits k v n buf
    → n ≤ k.size
    → k.count ≡ k.size
    → (counted k (bytes_of n v) ≡ n) × (ltb (bytes_of k.count k.iovec) (bytes_of n v) ≡ false)
counted_lem k v n buf f le e =
    let owner : bytes_of k.count k.iovec ≡ k.size * len v = rw e (owner_bytes k v n buf f) in
    let mine = bytes_of_lem n v f.few f.small in
    let more = mul_mono n k.size (len v) le in
    let below : ltb (k.size * len v) (n * len v) ≡ false = ground (arith, more) in
    (
      rw (owner, mine, below, f.same_len) (quotient n (len v) f.some_len f.few),
      rw (owner, mine) below,
    )

pub write_to_owner_lem :
    (kernel : Kernel) (me c buf : ℕ) (v : Iovec) (n : ℕ) (w : World)
    → Fits (w.cookie c) v n buf
    → n ≤ (w.cookie c).size
    → (w.cookie c).count ≡ (w.cookie c).size
    → write_to_owner kernel me c buf v n 0 0 w
      ≡ some (
          complete kernel me c
            (bytes_of n v)
            (write_call kernel me c buf v n 0 0 w)
            (set_cookie w c (record (w.cookie c) { count = n })))
unfolding write_to_owner
write_to_owner_lem kernel me c buf v n w f le e =
    let k = w.cookie c in
    let (exact, enough) = counted_lem k v n buf f le e in
    let some_owner : (len k.iovec == 0) ≡ false = rw f.same_len (ground (arith, f.some_len)) in
    rw (too_long_lem k v n buf f le, some_owner, exact) (ground (arith, some_owner))

-- The end of a transfer that moved all bytes: the request is done without an error.
pub record Completed (c : ℕ) (w : World) (m : Memory) (o : ℕ × World) : Type 0 where
  pub ret : o.0 ≡ mpi_success
  pub memory : o.1.memory ≡ m
  pub err : (o.1.cookie c).err ≡ 0
  pub busy : (o.1.cookie c).busy ≡ 0
  pub used : (o.1.cookie c).used ≡ (w.cookie c).used
  pub src : (o.1.cookie c).src ≡ (w.cookie c).src
  pub tag : (o.1.cookie c).tag ≡ (w.cookie c).tag
  pub count : (o.1.cookie c).count ≡ (w.cookie c).count

pub complete_lem :
    (kernel : Kernel) (me c total : ℕ) (r : ℕ × Memory) (w : World)
    → r.0 ≡ total
    → (w.cookie c).err ≡ 0
    → (w.cookie c).busy ≡ 1
    → Completed c w r.1 (complete kernel me c total r w)
unfolding complete notify_done
complete_lem kernel me c total (n, m) w all clean one = record {
  ret = ground arith;
  memory = ground arith;
  err = ground arith;
  busy = ground arith;
  used = ground arith;
  src = ground arith;
  tag = ground arith;
  count = ground arith;
}
