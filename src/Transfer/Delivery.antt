-- ===== src/Transfer/Delivery.antt =====
-- What the system calls promise, and what a transfer between contiguous buffers does to memory.
use umpi.Base.{
  ℕ, zero, suc, ◌+◌, ◌≤◌, ◌<◌, ◌^◌, ◌≡◌, refl, sym, ap, ap₂, ◌∙◌, false, List, [], ◌∷◌, ◌++◌, arith,
  length, take, drop, add32,
}
use mathlib.Core.List.{append-nil}
use umpi.Iovec.{Iovec, is_scattered, len}
use umpi.World.{World, Memory, update}
use umpi.Transfer.{Kernel, Segment, segment, iov, place, bytes_of, read_call, write_call}
use umpi.Transfer.Segments.{sum_bytes}

-- `n` bytes of the process `pid` from `a` on, and bytes written there.
unfoldable pub load : Memory → ℕ → ℕ → ℕ → List ℕ
load m pid a zero = []
load m pid a (suc n) = m pid a ∷ load m pid (a + 1) n

unfoldable pub store : Memory → ℕ → ℕ → List ℕ → Memory
store m pid a [] = m
store m pid a (b ∷ bs) = store (update m pid (update (m pid) a b)) pid (a + 1) bs

-- The bytes of an array of segments, in its order, and bytes spread over one.
unfoldable pub gather : Memory → ℕ → List Segment → List ℕ
unfolding load
gather m pid [] = []
gather m pid (s ∷ ss) = load m pid s.base s.bytes ++ gather m pid ss

unfoldable pub scatter : Memory → ℕ → List Segment → List ℕ → Memory
unfolding store
scatter m pid [] bs = m
scatter m pid (s ∷ ss) bs = scatter (store m pid s.base (take s.bytes bs)) pid ss (drop s.bytes bs)

-- The documented behaviour of the system calls: one that reports all bytes of the local array has
-- copied them, in the order of both arrays, and nothing else.
pub record Copies (kernel : Kernel) : Type 0 where
  pub writes :
      (me pid : ℕ) (l r : List Segment) (m : Memory)
      → (kernel.writev me pid l r m).0 ≡ sum_bytes l
      → (kernel.writev me pid l r m).1 ≡ scatter m pid r (gather m me l)
  pub reads :
      (me pid : ℕ) (l r : List Segment) (m : Memory)
      → (kernel.readv me pid l r m).0 ≡ sum_bytes l
      → (kernel.readv me pid l r m).1 ≡ scatter m me l (gather m pid r)

-- A kernel that does every transfer for which the other side has room: all pages are mapped and no
-- array is longer than it takes.
pub record Reliable (kernel : Kernel) : Type 0 where
  pub copies : Copies kernel
  pub writes_all :
      (me pid : ℕ) (l r : List Segment) (m : Memory)
      → sum_bytes l ≤ sum_bytes r
      → (kernel.writev me pid l r m).0 ≡ sum_bytes l
  pub reads_all :
      (me pid : ℕ) (l r : List Segment) (m : Memory)
      → sum_bytes l ≤ sum_bytes r
      → (kernel.readv me pid l r m).0 ≡ sum_bytes l

store_below : (bs : List ℕ) (m : Memory) (pid a b : ℕ) → b < a → store m pid a bs pid b ≡ m pid b
unfolding store
store_below [] m pid a b h = refl
store_below (x ∷ bs) m pid a b h =
    store_below bs (update m pid (update (m pid) a x)) pid (a + 1) b (omega arith) ∙ ground arith

pub length-load : (m : Memory) (pid a n : ℕ) → length (load m pid a n) ≡ n
unfolding load
length-load m pid a zero = refl
length-load m pid a (suc n) = ap suc (length-load m pid (a + 1) n)

-- What was written is read back.
pub load-store :
    (bs : List ℕ) (m : Memory) (pid a : ℕ) → load (store m pid a bs) pid a (length bs) ≡ bs
unfolding load store
load-store [] m pid a = refl
load-store (x ∷ bs) m pid a =
    let first : store m pid a (x ∷ bs) pid a ≡ x =
      store_below bs (update m pid (update (m pid) a x)) pid (a + 1) a (omega arith)
      ∙ ground arith in
    rw first (ap (◌∷◌ x) (load-store bs (update m pid (update (m pid) a x)) pid (a + 1)))

take-load : (m : Memory) (pid a n : ℕ) → take n (load m pid a n) ≡ load m pid a n
unfolding load
take-load m pid a zero = refl
take-load m pid a (suc n) = ap (◌∷◌ (m pid a)) (take-load m pid (a + 1) n)

-- Between two single segments of one length.
scatter-gather :
    (m : Memory) (from to a b n : ℕ)
    → load (scatter m to (segment b n ∷ []) (gather m from (segment a n ∷ []))) to b n
      ≡ load m from a n
unfolding scatter gather
scatter-gather m from to a b n =
    rw (append-nil (load m from a n), take-load m from a n)
      (rw (length-load m from a n) at (load-store (load m from a n) m to b))

place_zero : (base k : ℕ) → base < 2 ^ 64 → place base 0 k ≡ base
place_zero base k h = ground arith

sum_bytes-single : (a n : ℕ) → n ≡ sum_bytes (segment a n ∷ [])
sum_bytes-single a n = omega arith

module _ {kernel : Kernel} (law : Copies kernel) (me pid a b n : ℕ) (m : Memory) where
  reads_single :
      (kernel.readv me pid (segment a n ∷ []) (segment b n ∷ []) m).0 ≡ n
      → load (kernel.readv me pid (segment a n ∷ []) (segment b n ∷ []) m).1 me a n ≡ load m pid b n
  reads_single all =
      ap (λ (x : Memory). load x me a n)
        (law.reads me pid (segment a n ∷ []) (segment b n ∷ []) m (all ∙ sum_bytes-single a n))
      ∙ scatter-gather m pid me b a n

  writes_single :
      (kernel.writev me pid (segment a n ∷ []) (segment b n ∷ []) m).0 ≡ n
      → load (kernel.writev me pid (segment a n ∷ []) (segment b n ∷ []) m).1 pid b n
        ≡ load m me a n
  writes_single all =
      ap (λ (x : Memory). load x pid b n)
        (law.writes me pid (segment a n ∷ []) (segment b n ∷ []) m (all ∙ sum_bytes-single a n))
      ∙ scatter-gather m me pid a b n

-- A contiguous buffer from its start is one segment.
pub iov-contiguous :
    (base last n : ℕ) (v : Iovec)
    → is_scattered v ≡ false
    → base < 2 ^ 64
    → iov base v 0 last n ≡ segment base n ∷ []
unfolding iov
iov-contiguous base last n v flat low =
    let start : place base 0 (len v) ≡ base = place_zero base (len v) low in
    ground (arith, flat, start)

-- A transfer between contiguous buffers, both from their start, whose system call moves all bytes:
-- what is then at the one is what was at the other.
module _ {kernel : Kernel} (law : Copies kernel) (me c buf n : ℕ) (v : Iovec) (w : World) where
  pub read_call-load :
      is_scattered v ≡ false
      → is_scattered (w.cookie c).iovec ≡ false
      → buf < 2 ^ 64
      → (w.cookie c).buf < 2 ^ 64
      → (read_call kernel me c buf v n 0 0 w).0 ≡ bytes_of n v
      → load (read_call kernel me c buf v n 0 0 w).1 (w.process me).pid buf (bytes_of n v)
        ≡ load w.memory (w.process (w.cookie c).owner).pid (w.cookie c).buf (bytes_of n v)
  read_call-load flat flat' low low' all =
      let k = w.cookie c in
      let local = iov-contiguous buf (add32 0 n) (bytes_of n v) v flat low in
      let remote = iov-contiguous k.buf k.size (bytes_of n v) k.iovec flat' low' in
      let call =
        ap₂ (λ l s. kernel.readv (w.process me).pid (w.process k.owner).pid l s w.memory) local
          remote in
      ap (λ (x : ℕ × Memory). load x.1 (w.process me).pid buf (bytes_of n v)) call
      ∙ reads_single law (w.process me).pid (w.process k.owner).pid buf k.buf (bytes_of n v)
          w.memory (ap (λ (x : ℕ × Memory). x.0) (sym call) ∙ all)

  pub write_call-load :
      is_scattered v ≡ false
      → is_scattered (w.cookie c).iovec ≡ false
      → buf < 2 ^ 64
      → (w.cookie c).buf < 2 ^ 64
      → (write_call kernel me c buf v n 0 0 w).0 ≡ bytes_of n v
      → load
          (write_call kernel me c buf v n 0 0 w).1
          (w.process (w.cookie c).owner).pid
          (w.cookie c).buf
          (bytes_of n v)
        ≡ load w.memory (w.process me).pid buf (bytes_of n v)
  write_call-load flat flat' low low' all =
      let k = w.cookie c in
      let local = iov-contiguous buf (add32 0 n) (bytes_of n v) v flat low in
      let remote = iov-contiguous k.buf k.size (bytes_of n v) k.iovec flat' low' in
      let call =
        ap₂ (λ l s. kernel.writev (w.process me).pid (w.process k.owner).pid l s w.memory) local
          remote in
      ap (λ (x : ℕ × Memory). load x.1 (w.process k.owner).pid k.buf (bytes_of n v)) call
      ∙ writes_single law (w.process me).pid (w.process k.owner).pid buf k.buf (bytes_of n v)
          w.memory (ap (λ (x : ℕ × Memory). x.0) (sym call) ∙ all)

-- With a reliable kernel the calls move all bytes.
module _ {kernel : Kernel} (law : Reliable kernel) (me c buf n : ℕ) (v : Iovec) (w : World) where
  pub read_call-all :
      is_scattered v ≡ false
      → is_scattered (w.cookie c).iovec ≡ false
      → buf < 2 ^ 64
      → (w.cookie c).buf < 2 ^ 64
      → (read_call kernel me c buf v n 0 0 w).0 ≡ bytes_of n v
  read_call-all flat flat' low low' =
      let k = w.cookie c in
      let local = ap sum_bytes (iov-contiguous buf (add32 0 n) (bytes_of n v) v flat low) in
      let remote = ap sum_bytes (iov-contiguous k.buf k.size (bytes_of n v) k.iovec flat' low') in
      law.reads_all (w.process me).pid (w.process k.owner).pid _ _ w.memory
        (omega (arith, local, remote))
      ∙ local
      ∙ sym (sum_bytes-single buf (bytes_of n v))

  pub write_call-all :
      is_scattered v ≡ false
      → is_scattered (w.cookie c).iovec ≡ false
      → buf < 2 ^ 64
      → (w.cookie c).buf < 2 ^ 64
      → (write_call kernel me c buf v n 0 0 w).0 ≡ bytes_of n v
  write_call-all flat flat' low low' =
      let k = w.cookie c in
      let local = ap sum_bytes (iov-contiguous buf (add32 0 n) (bytes_of n v) v flat low) in
      let remote = ap sum_bytes (iov-contiguous k.buf k.size (bytes_of n v) k.iovec flat' low') in
      law.writes_all (w.process me).pid (w.process k.owner).pid _ _ w.memory
        (omega (arith, local, remote))
      ∙ local
      ∙ sym (sum_bytes-single buf (bytes_of n v))
