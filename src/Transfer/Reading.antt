-- ===== src/Transfer/Reading.antt =====
-- A read of all that a request offers, by a process that names the count: what it returns, and what
-- of the memories, the request and the processes it leaves alone.
use umpi.Base.{
  ℕ, zero, suc, ◌+◌, ◌^◌, ◌<◌, ◌≡◌, ◌≢◌, refl, ap, ap₂, subst, ◌∙◌, false, some, List, [], ◌∷◌,
  arith, take, drop, add32, ◌==◌, ◌&&◌, Bool-cases, inl, inr, update_other,
}
use umpi.Iovec.{Iovec, is_scattered, len}
use umpi.World.{World, Memory, update, mpi_success, notify_done}
use umpi.Transfer.{
  Kernel, Segment, iov, bytes_of, read_call, read_from_owner, read_count, bad_read, complete,
}
use umpi.Transfer.Segments.{sum_bytes}
use umpi.Transfer.Delivery.{
  load, store, gather, scatter, Reliable, iov-contiguous, read_call-all, read_call-load,
}
use umpi.Transfer.Completion.{Fits, read_count_lem, bad_read_lem}

-- Bytes are read in one memory.
pub load-same : (m m' : Memory) (pid a n : ℕ) → m pid ≡ m' pid → load m pid a n ≡ load m' pid a n
unfolding load
load-same m m' pid a zero e = refl
load-same m m' pid a (suc n) e = ap₂ ◌∷◌ (ap (λ f. f a) e) (load-same m m' pid (a + 1) n e)

store_other : (bs : List ℕ) (m : Memory) (pid a p : ℕ) → p ≢ pid → store m pid a bs p ≡ m p
unfolding store
store_other [] m pid a p ne = refl
store_other (b ∷ bs) m pid a p ne =
    store_other bs (update m pid (update (m pid) a b)) pid (a + 1) p ne
    ∙ update_other m pid p (update (m pid) a b) ne

scatter_other :
    (ss : List Segment) (m : Memory) (pid : ℕ) (bs : List ℕ) (p : ℕ)
    → p ≢ pid
    → scatter m pid ss bs p ≡ m p
unfolding scatter
scatter_other [] m pid bs p ne = refl
scatter_other (s ∷ ss) m pid bs p ne =
    scatter_other ss (store m pid s.base (take s.bytes bs)) pid (drop s.bytes bs) p ne
    ∙ store_other (take s.bytes bs) m pid s.base p ne

-- A read changes the reader's memory only.
pub read_call-others :
    {kernel : Kernel} (law : Reliable kernel) (me c buf n : ℕ) (v : Iovec) (w : World) (p : ℕ)
    → is_scattered v ≡ false
    → is_scattered (w.cookie c).iovec ≡ false
    → buf < 2 ^ 64
    → (w.cookie c).buf < 2 ^ 64
    → p ≢ (w.process me).pid
    → (read_call kernel me c buf v n 0 0 w).1 p ≡ w.memory p
read_call-others {kernel} law me c buf n v w p flat flat' low low' ne =
    let k = w.cookie c in
    let l = iov buf v 0 (add32 0 n) (bytes_of n v) in
    let r = iov k.buf k.iovec 0 k.size (bytes_of n v) in
    let pid = (w.process k.owner).pid in
    let local = ap sum_bytes (iov-contiguous buf (add32 0 n) (bytes_of n v) v flat low) in
    let remote = ap sum_bytes (iov-contiguous k.buf k.size (bytes_of n v) k.iovec flat' low') in
    ap (λ (m : Memory). m p)
      (law.copies.reads (w.process me).pid pid l r w.memory
        (law.reads_all (w.process me).pid pid l r w.memory (omega (arith, local, remote))))
    ∙ scatter_other l w.memory (w.process me).pid (gather w.memory pid r) p ne

-- A request keeps its buffer, its owner and its source when a side of it is done, and processes
-- keep their ids.
pub record Kept (c : ℕ) (w w' : World) : Type 0 where
  pub owner : (w'.cookie c).owner ≡ (w.cookie c).owner
  pub buf : (w'.cookie c).buf ≡ (w.cookie c).buf
  pub iovec : (w'.cookie c).iovec ≡ (w.cookie c).iovec
  pub size : (w'.cookie c).size ≡ (w.cookie c).size
  pub src : (w'.cookie c).src ≡ (w.cookie c).src
  pub pids : (r : ℕ) → (w'.process r).pid ≡ (w.process r).pid

complete-Kept :
    (kernel : Kernel) (me c total : ℕ) (r : ℕ × Memory) (w : World)
    → Kept c w (complete kernel me c total r w).1
unfolding complete notify_done
complete-Kept kernel me c total (n, m) w = record {
  owner = ground arith;
  buf = ground arith;
  iovec = ground arith;
  size = ground arith;
  src = ground arith;
  pids = λ r. ground arith;
}

complete-all :
    (kernel : Kernel) (me c total : ℕ) (r : ℕ × Memory) (w : World)
    → r.0 ≡ total
    → ((complete kernel me c total r w).0 ≡ mpi_success)
      × ((complete kernel me c total r w).1.memory ≡ r.1)
unfolding complete notify_done
complete-all kernel me c total (n, m) w all = (ground arith, ground arith)

-- `read_from_owner` where the count is that of the request.
pub read_given_lem :
    (kernel : Kernel) (me c buf : ℕ) (v : Iovec) (n : ℕ) (w : World)
    → Fits (w.cookie c) v n buf
    → (w.cookie c).size ≡ n
    → read_from_owner kernel me c buf v n n 0 0 w
      ≡ some (complete kernel me c (bytes_of n v) (read_call kernel me c buf v n 0 0 w) w)
unfolding read_from_owner
read_given_lem kernel me c buf v n w f e =
    let k = w.cookie c in
    let nonzero : (n == 0 && len v == 0) ≡ false = ground (arith, f.some_len) in
    let given : read_count k v n 0 ≡ n = elim (Bool-cases (n == 0)) [
      | inl z ↦
          let none_given : n ≡ 0 = ground (arith, z) in
          rw none_given (read_count_lem k v n buf f ∙ e ∙ none_given)
      | inr z ↦ rw z refl
    ] in
    let good : bad_read k v n (bytes_of n v) 0 0 ≡ false =
      subst (λ m. bad_read k v n (bytes_of m v) 0 0 ≡ false) e
        (bad_read_lem k v n buf f (omega (arith, e))) in
    rw (nonzero, given, good) refl

-- With a reliable kernel such a read succeeds: the bytes are at `buf`, only this memory has changed,
-- and the request and the processes are kept.
pub read_given_bytes :
    {kernel : Kernel} (law : Reliable kernel) (me c buf : ℕ) (v : Iovec) (n : ℕ) (w : World)
    → Fits (w.cookie c) v n buf
    → (w.cookie c).size ≡ n
    → (w' : World) × (read_from_owner kernel me c buf v n n 0 0 w ≡ some (mpi_success, w'))
      × Kept c w w'
      × (load w'.memory (w.process me).pid buf (bytes_of n v)
          ≡ load w.memory (w.process (w.cookie c).owner).pid (w.cookie c).buf (bytes_of n v))
      × ((p : ℕ) → p ≢ (w.process me).pid → w'.memory p ≡ w.memory p)
read_given_bytes {kernel} law me c buf v n w f e =
    let call = read_call kernel me c buf v n 0 0 w in
    let total = bytes_of n v in
    let all = read_call-all law me c buf n v w f.flat f.flat_owner f.address f.address_owner in
    let (ret, memory) = complete-all kernel me c total call w all in
    (
      (complete kernel me c total call w).1,
      read_given_lem kernel me c buf v n w f e
          ∙ ap (λ x. some (x, (complete kernel me c total call w).1)) ret,
      complete-Kept kernel me c total call w,
      ap (λ (m : Memory). load m (w.process me).pid buf total) memory
          ∙ read_call-load law.copies me c buf n v w f.flat f.flat_owner f.address f.address_owner
              all,
      λ p ne.
          ap (λ (m : Memory). m p) memory
          ∙ read_call-others law me c buf n v w p f.flat f.flat_owner f.address f.address_owner ne,
    )
