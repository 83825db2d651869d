-- ===== src/Transfer.antt =====
-- umpi.cc, how buffers are described to the kernel and bytes are moved: `umpi_copy`,
-- `cookie::write_to_owner` and `cookie::read_from_owner`. Buffers are base addresses.
pub mod Segments
pub mod Delivery
pub mod Completion
pub mod Reading
pub mod Copy
use umpi.Base.{
  ℕ, zero, suc, ◌+◌, ◌*◌, ◌/◌, ◌≡◌, Bool, ◌&&◌, ◌||◌, not, Option, none, some, List, [], ◌∷◌, ◌++◌,
  u32, add64, mul64, add32, sub32, lt32, sext32, ltb, ◌==◌, if◌then◌else◌,
}
use umpi.Iovec.{Iovec, Entry, is_scattered, is_contiguous, count, stride, len, elements}
use umpi.World.{Cookie, World, Process, Memory, set_cookie, notify_done, mpi_success, mpi_fail}

-- `struct iovec` of the kernel: base address and length.
pub record Segment : Type 0 where
  pub base : ℕ
  pub bytes : ℕ

abbrev pub segment : ℕ → ℕ → Segment
segment b n = record { base = b; bytes = n }

-- The inner loop: the segments of one element of the type, at `base`.
unfoldable pub row : ℕ → List Entry → List Segment
row base [] = []
row base (e ∷ es) = segment (add64 base e.dis) e.len ∷ row base es

-- `base + j * stride` for an `int` j.
abbrev pub place : ℕ → ℕ → ℕ → ℕ
place base j s = add64 base (mul64 (sext32 j) s)

-- The outer loop, `n` rounds from `j` on.
unfoldable pub rows : ℕ → Iovec → ℕ → ℕ → List Segment
unfolding row
rows base v zero j = []
rows base v (suc n) j = row (place base j (stride v)) (elements v) ++ rows base v n (add32 j 1)

-- The rounds of `for (int j = first; j < last; j++)`.
abbrev pub loop_rounds : ℕ → ℕ → ℕ
loop_rounds first last = if lt32 first last then sub32 last first else 0

-- The array that describes the elements from `first` up to `last` of a buffer; `bytes` is what a
-- contiguous type transfers.
unfoldable pub iov : ℕ → Iovec → ℕ → ℕ → ℕ → List Segment
unfolding rows
iov base v first last bytes =
    if is_scattered v
    then rows base v (loop_rounds first last) first
    else segment (place base first (len v)) bytes ∷ []

-- The number of entries that the code allocates for it, over `n` elements.
unfoldable pub iov_count : Iovec → ℕ → ℕ
iov_count v n = if is_scattered v then mul64 (count v) (sext32 n) else 1

-- `count * iovec->len()`
abbrev pub bytes_of : ℕ → Iovec → ℕ
bytes_of n v = mul64 (sext32 n) (len v)

-- `process_vm_writev` and `process_vm_readv`: caller's pid, other pid, local and remote array. They
-- give the number of bytes moved (a `ssize_t`) and the memory afterwards.
pub record Kernel : Type 0 where
  pub writev : ℕ → ℕ → List Segment → List Segment → Memory → ℕ × Memory
  pub readv : ℕ → ℕ → List Segment → List Segment → Memory → ℕ × Memory

-- `count_` after `write_to_owner` has tested it against the bytes to come.
abbrev pub counted : Cookie → ℕ → ℕ
counted k total =
    if ltb (bytes_of k.count k.iovec) total then k.count else u32 (total / len k.iovec)

-- Its test for more bytes than the owner's buffer has room for.
abbrev pub too_long : Cookie → ℕ → ℕ → Bool
too_long k total seek = ltb (bytes_of k.size k.iovec) (add64 (bytes_of seek k.iovec) total)

-- The number of elements that `read_from_owner` reads: all that there are, where none is given.
abbrev pub read_count : Cookie → Iovec → ℕ → ℕ → ℕ
read_count k v n skip =
    if n == 0 then u32 (mul64 (sext32 (sub32 k.size skip)) (len k.iovec) / len v) else n

-- Its test: the owner has not so many bytes, or the reader has no room for them.
abbrev pub bad_read : Cookie → Iovec → ℕ → ℕ → ℕ → ℕ → Bool
bad_read k v size total seek skip =
    ltb (bytes_of k.size k.iovec) (add64 (bytes_of skip k.iovec) total)
    || ltb (bytes_of size v) (add64 (bytes_of seek v) total)

module _ (kernel : Kernel) (me : ℕ) where
  -- The last lines of both transfers: the result of the system call becomes that of the request.
  unfoldable pub complete : ℕ → ℕ → ℕ × Memory → World → ℕ × World
  complete c total (moved, m) w =
      notify_done (w.cookie c).owner c (if total == moved then mpi_success else mpi_fail)
        (record w { memory = m })

  -- Its system call: from `n` elements behind `skip` to the owner's elements from `seek` on.
  abbrev pub write_call : ℕ → ℕ → Iovec → ℕ → ℕ → ℕ → World → ℕ × Memory
  write_call c buf v n seek skip w =
      let k = w.cookie c in
      kernel.writev (w.process me).pid (w.process k.owner).pid
        (iov buf v skip (add32 skip n) (bytes_of n v))
        (iov k.buf k.iovec seek k.size (bytes_of n v)) w.memory

  -- `cookie::write_to_owner`, called by the process `me`. `none` is a division by zero.
  unfoldable pub write_to_owner : ℕ → ℕ → Iovec → ℕ → ℕ → ℕ → World → Option (ℕ × World)
  write_to_owner c buf v n seek skip w =
      let k = w.cookie c in
      let total = bytes_of n v in
      if too_long k total seek
      then some (notify_done k.owner c mpi_fail w)
      else (if not (ltb (bytes_of k.count k.iovec) total) && len k.iovec == 0
          then none
          else some (
              complete c total (write_call c buf v n seek skip w)
                (set_cookie w c (record k { count = counted k total }))))

  -- Its system call, for `n` elements.
  abbrev pub read_call : ℕ → ℕ → Iovec → ℕ → ℕ → ℕ → World → ℕ × Memory
  read_call c buf v n seek skip w =
      let k = w.cookie c in
      kernel.readv (w.process me).pid (w.process k.owner).pid
        (iov buf v seek (add32 seek n) (bytes_of n v))
        (iov k.buf k.iovec skip k.size (bytes_of n v)) w.memory

  -- `cookie::read_from_owner`
  unfoldable pub read_from_owner : ℕ → ℕ → Iovec → ℕ → ℕ → ℕ → ℕ → World → Option (ℕ × World)
  read_from_owner c buf v size n seek skip w =
      let k = w.cookie c in
      let n' = read_count k v n skip in
      if n == 0 && len v == 0
      then none
      else (if bad_read k v size (bytes_of n' v) seek skip
          then some (notify_done k.owner c mpi_fail w)
          else some (complete c (bytes_of n' v) (read_call c buf v n' seek skip w) w))
