-- ===== src/Mailbox/Exchange.antt =====
-- A message meets a receive: what both sides find afterwards, in either order of arrival.
use umpi.Base.{ℕ, ◌≤◌, ◌≡◌, refl, sym, ap, subst, ◌∙◌, some, List, ◌∷◌, arith, u16, ℕ_discrete}
use umpi.Iovec.{Iovec, is_scattered, len}
use umpi.World.{
  Cookie, Process, World, Memory, join, recv_match, send_match, set_cookie, set_process,
  update_self, update_other, mpi_success,
}
use umpi.Transfer.{
  Kernel, bytes_of, read_call, read_from_owner, write_call, write_to_owner, complete,
}
use umpi.Transfer.Delivery.{
  Reliable, load, read_call-load, write_call-load, read_call-all, write_call-all,
}
use umpi.Transfer.Completion.{Fits, read_from_owner_lem, write_to_owner_lem, complete_lem}
use umpi.Mailbox.{take_first, recv_found, recv_request, send_found, send_request}

-- A message and a receive have met in the request `c`: both sides use it, it is done without an
-- error, it says who sent how many elements with which tag, and the `total` bytes at the sender's
-- buffer are at the receiver's. (A process here is its pid.)
pub record Met (c src tag count : ℕ) (from from_buf to to_buf total : ℕ) (before : Memory)
    (after : World) : Type 0 where
  pub sender : (after.cookie c).src ≡ src
  pub label : (after.cookie c).tag ≡ tag
  pub elements : (after.cookie c).count ≡ count
  pub no_error : (after.cookie c).err ≡ 0
  pub done : (after.cookie c).busy ≡ 0
  pub shared : (after.cookie c).used ≡ 2
  pub bytes : load after.memory to to_buf total ≡ load before from from_buf total

module _ {kernel : Kernel} (law : Reliable kernel) (me c buf n : ℕ) (v : Iovec) (w : World) where
  -- `read_from_owner` on a request of the process `from`, by the process `to`.
  abbrev ReadMeets : Cookie → ℕ → ℕ → Type 0
  ReadMeets k from to =
      (w' : World) × (read_from_owner kernel me c buf v n 0 0 0 w ≡ some (mpi_success, w'))
      × Met c k.src k.tag k.count from k.buf to buf (bytes_of k.size v) w.memory w'

  -- `write_to_owner` on a request of the process `to`, by the process `from`.
  abbrev WriteMeets : Cookie → ℕ → ℕ → Type 0
  WriteMeets k from to =
      (w' : World) × (write_to_owner kernel me c buf v n 0 0 w ≡ some (mpi_success, w'))
      × Met c k.src k.tag n from buf to k.buf (bytes_of n v) w.memory w'

  module _ (f : Fits (w.cookie c) v n buf) (two : (w.cookie c).used ≡ 2)
      (busy : (w.cookie c).busy ≡ 1) (clean : (w.cookie c).err ≡ 0) where
    read_meets :
        (w.cookie c).size ≤ n
        → ReadMeets (w.cookie c) (w.process (w.cookie c).owner).pid (w.process me).pid
    read_meets le =
        let k = w.cookie c in
        let total = bytes_of k.size v in
        let call = read_call kernel me c buf v k.size 0 0 w in
        let all =
          read_call-all law me c buf k.size v w f.flat f.flat_owner f.address f.address_owner in
        let o = complete_lem kernel me c total call w all clean busy in
        (
          (complete kernel me c total call w).1,
          read_from_owner_lem kernel me c buf v n w f le
              ∙ ap (λ x. some (x, (complete kernel me c total call w).1)) o.ret,
          record {
            sender = o.src;
            label = o.tag;
            elements = o.count;
            no_error = o.err;
            done = o.busy;
            shared = o.used ∙ two;
            bytes =
                ap (λ (m : Memory). load m (w.process me).pid buf total) o.memory
                ∙ read_call-load law.copies me c buf k.size v w f.flat f.flat_owner f.address
                    f.address_owner all;
          },
        )

    write_meets :
        n ≤ (w.cookie c).size
        → (w.cookie c).count ≡ (w.cookie c).size
        → WriteMeets (w.cookie c) (w.process me).pid (w.process (w.cookie c).owner).pid
    write_meets le e =
        let k = w.cookie c in
        let total = bytes_of n v in
        let w1 = set_cookie w c (record k { count = n }) in
        let here : w1.cookie c ≡ record k { count = n } = update_self w.cookie c _ in
        let call = write_call kernel me c buf v n 0 0 w in
        let all = write_call-all law me c buf n v w f.flat f.flat_owner f.address f.address_owner in
        let o =
          complete_lem kernel me c total call w1 all (ap (λ x. x.err) here ∙ clean)
            (ap (λ x. x.busy) here ∙ busy) in
        (
          (complete kernel me c total call w1).1,
          write_to_owner_lem kernel me c buf v n w f le e
              ∙ ap (λ x. some (x, (complete kernel me c total call w1).1)) o.ret,
          record {
            sender = o.src ∙ ap (λ x. x.src) here;
            label = o.tag ∙ ap (λ x. x.tag) here;
            elements = o.count ∙ ap (λ x. x.count) here;
            no_error = o.err;
            done = o.busy;
            shared = o.used ∙ ap (λ x. x.used) here ∙ two;
            bytes =
                ap (λ (m : Memory). load m (w.process k.owner).pid k.buf total) o.memory
                ∙ write_call-load law.copies me c buf n v w f.flat f.flat_owner f.address
                    f.address_owner all;
          },
        )

same_pid :
    (w : World) (k : Cookie) (c r s : ℕ) (p : Process)
    → p.pid ≡ (w.process r).pid
    → ((set_process (set_cookie w c k) r p).process s).pid ≡ (w.process s).pid
same_pid w k c r s p e = elim (ℕ_discrete s r) [
  | yes eq ↦ rw eq (rw (update_self w.process r p) e)
  | no ne ↦ ap (λ x. x.pid) (update_other w.process r s p ne)
]

pub Fits-other :
    {k k' : Cookie} {v : Iovec} {n buf : ℕ}
    → k'.iovec ≡ k.iovec
    → k'.size ≡ k.size
    → k'.buf ≡ k.buf
    → Fits k v n buf
    → Fits k' v n buf
Fits-other {k} {k'} {v} {n} {buf} e s b f = record {
  flat = f.flat;
  flat_owner = ap is_scattered e ∙ f.flat_owner;
  same_len = ap len e ∙ f.same_len;
  some_len = f.some_len;
  few = f.few;
  few_owner = omega (arith, f.few_owner);
  small = f.small;
  small_owner = rw s f.small_owner;
  address = f.address;
  address_owner = omega (arith, f.address_owner);
}

-- With a kernel that does every transfer: a receive that finds a message in the inbox, where the
-- message is fresh (one user, one side to come, no error), both types are contiguous with one
-- element length, the receive has room and all sizes fit their words, returns MPI_SUCCESS with the
-- message's request, in which the two have then met.
pub recv_request_meets :
    {kernel : Kernel} (law : Reliable kernel) (me node buf n source tag : ℕ) (v : Iovec) (w : World)
    (c : ℕ) (ds : List ℕ)
    → take_first (λ d. recv_match (w.cookie d) source tag) (w.process me).inbox ≡ some (c, ds)
    → Fits (w.cookie c) v n buf
    → (w.cookie c).size ≤ n
    → (w.cookie c).used ≡ 1
    → (w.cookie c).busy ≡ 1
    → (w.cookie c).err ≡ 0
    → (w' : World) × (recv_request kernel me node buf n v source tag w
        ≡ some (record { ret = mpi_success; request = c; world = w' }))
      × (let k = w.cookie c in
          Met c k.src k.tag k.count
            (w.process k.owner).pid
            k.buf
            (w.process me).pid
            buf
            (bytes_of k.size v)
            w.memory
            w')
unfolding recv_request recv_found join
recv_request_meets {kernel} law me node buf n source tag v w c ds hit f le one busy clean =
    let k = w.cookie c in
    let p = record (w.process me) { inbox = ds; pending = c ∷ (w.process me).pending } in
    let w1 = set_process (set_cookie w c (join k)) me p in
    let here : w1.cookie c ≡ join k = update_self w.cookie c (join k) in
    let size = ap (λ x. x.size) here in
    let used : (w1.cookie c).used ≡ 2 = ap (λ x. x.used) here ∙ ground arith in
    let f1 : Fits (w1.cookie c) v n buf =
      Fits-other (ap (λ x. x.iovec) here) size (ap (λ x. x.buf) here) f in
    let base =
      read_meets law me c buf n v w1 f1 used (ap (λ x. x.busy) here ∙ busy)
        (ap (λ x. x.err) here ∙ clean) (omega arith) in
    let at_k =
      subst (λ x. ReadMeets law me c buf n v w1 x (w1.process x.owner).pid (w1.process me).pid) here
        base in
    let from =
      subst (λ x. ReadMeets law me c buf n v w1 (join k) x (w1.process me).pid)
        (same_pid w (join k) c me k.owner p refl) at_k in
    let (w', run, met) =
      subst (λ x. ReadMeets law me c buf n v w1 (join k) (w.process k.owner).pid x)
        (same_pid w (join k) c me me p refl) from in
    (w', ground (arith, hit, run), met)

-- With a kernel that does every transfer: a message that finds a receive in the outbox of `dest`,
-- where the receive is fresh (one user, one side to come, no error, its count its size), both
-- types are contiguous with one element length, the receive has room and all sizes fit their
-- words, returns MPI_SUCCESS with the receive's request, in which the two have then met; the
-- request then names this sender, tag and number of elements.
pub send_request_meets :
    {kernel : Kernel} (law : Reliable kernel) (me dest node buf n tag : ℕ) (v : Iovec) (w : World)
    (c : ℕ) (ds : List ℕ)
    → take_first (λ d. send_match (w.cookie d) me tag) (w.process dest).outbox ≡ some (c, ds)
    → Fits (w.cookie c) v n buf
    → n ≤ (w.cookie c).size
    → (w.cookie c).count ≡ (w.cookie c).size
    → (w.cookie c).used ≡ 1
    → (w.cookie c).busy ≡ 1
    → (w.cookie c).err ≡ 0
    → (w' : World) × (send_request kernel me dest node buf n v tag w
        ≡ some (record { ret = mpi_success; request = c; world = w' }))
      × (let k = w.cookie c in
          Met c
            (u16 me)
            (u16 tag)
            n
            (w.process me).pid
            buf
            (w.process k.owner).pid
            k.buf
            (bytes_of n v)
            w.memory
            w')
unfolding send_request send_found join
send_request_meets {kernel} law me dest node buf n tag v w c ds hit f le e one busy clean =
    let k = w.cookie c in
    let k' = join (record k { src = u16 me; tag = u16 tag }) in
    let p = record (w.process dest) { outbox = ds; pending = c ∷ (w.process dest).pending } in
    let w1 = set_process (set_cookie w c k') dest p in
    let here : w1.cookie c ≡ k' = update_self w.cookie c k' in
    let size = ap (λ x. x.size) here in
    let used : (w1.cookie c).used ≡ 2 = ap (λ x. x.used) here ∙ ground arith in
    let f1 : Fits (w1.cookie c) v n buf =
      Fits-other (ap (λ x. x.iovec) here) size (ap (λ x. x.buf) here) f in
    let base =
      write_meets law me c buf n v w1 f1 used (ap (λ x. x.busy) here ∙ busy)
        (ap (λ x. x.err) here ∙ clean) (omega arith) (ap (λ x. x.count) here ∙ e ∙ sym size) in
    let at_k =
      subst (λ x. WriteMeets law me c buf n v w1 x (w1.process me).pid (w1.process x.owner).pid)
        here base in
    let to =
      subst (λ x. WriteMeets law me c buf n v w1 k' (w1.process me).pid x)
        (same_pid w k' c dest k.owner p refl) at_k in
    let (w', run, met) =
      subst (λ x. WriteMeets law me c buf n v w1 k' x (w.process k.owner).pid)
        (same_pid w k' c dest me p refl) to in
    (w', ground (arith, hit, run), met)
