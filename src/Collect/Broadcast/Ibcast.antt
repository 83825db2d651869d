-- ===== src/Collect/Broadcast/Ibcast.antt =====
-- umpi.cc, MPI_Ibcast of a group of processes, the root first.
use umpi.Base.{
  All, ℕ, ◌+◌, ◌*◌, ◌^◌, ◌≤◌, ◌<◌, ◌≡◌, ◌≢◌, ap, ◌∙◌, true, false, some, List, [], arith, length,
  add32, lt32, sub32, update, update_self, ◌==◌, not, ◌||◌, ◌&&◌,
}
use umpi.Iovec.{Iovec, is_scattered, len}
use umpi.World.{World, new_cookie, mpi_success}
use umpi.Transfer.{Kernel}
use umpi.Transfer.Delivery.{Reliable, load}
use umpi.Calls.{Umpi, comm_world}
use umpi.Collect.{
  Slot, Slots, goes_on, in_turn, in_slot, turn, mpi_ibcast, ibcast_refuses, root_bcast_request,
  request_in, tag_cc,
}
use umpi.Collect.Arriving.{Leaf}
use umpi.Collect.Delivering.{calls}
use umpi.Collect.Broadcast.{Different, bcast_delivers, request_in_lem, root_lem}
use umpi.Collect.Broadcast.Slots.{Occupied, request_in-same, opens_lem, ibcasts, ibcasts-calls}

-- The root that comes first leaves the slot with its request in it.
root-slot :
    (kernel : Kernel) (u : Umpi) (node buf count : ℕ) (v : Iovec) (s : Slot) (w : World)
    → s.joined < u.size
    → s.box ≡ []
    → let t = (root_bcast_request kernel u node buf count v s w).slot in
      (t.ticket ≡ s.ticket) × (t.joined ≡ s.joined) × Occupied t
root-slot kernel u node buf count v s w first empty =
    let new = new_cookie u.rank buf v count count u.rank tag_cc (sub32 u.size s.joined) in
    let p = request_in u.rank node new s w in
    let (box, _, _, _, _) = request_in_lem u.rank node new s w empty in
    let e = ap (λ j. j.slot) (root_lem kernel u node buf count v s w empty first) in
    (
      ap (λ s. s.ticket) e ∙ request_in-same u.rank node new s w,
      ap (λ s. s.joined) e ∙ (request_in_lem u.rank node new s w empty).1,
      (p.request, [], ap (λ s. s.box) e ∙ box),
    )

-- MPI_Ibcast of `count` elements of a contiguous datatype: the root calls it first, with a ticket whose
-- slot is empty, and the processes `ls` call it after it, one after the other, with the same ticket;
-- they are at most `size` in all, and no other call comes between. The system copies all bytes it is
-- asked for; the processes have different memories; the buffers of the others and the root's are not
-- null; the sizes are within their words. Then the root's call returns MPI_SUCCESS and a request, the
-- calls of all the others return MPI_SUCCESS, and after them the bytes of the root's buffer are at the
-- buffer of each. No wait for a request is included.
pub ibcast_delivers :
    (kernel : Kernel) (n size trigger root node buf count : ℕ) (v : Iovec) (ls : List Leaf)
    (s : Slots) (w : World)
    → Reliable kernel
    → (s.slots (turn n s.ticket)).box ≡ []
    → is_scattered v ≡ false
    → 0 < len v
    → count < 2 ^ 31
    → count * len v < 2 ^ 63
    → 0 < buf
    → buf < 2 ^ 64
    → root < 2 ^ 15
    → root < size
    → Different (λ r. (w.process r).pid) root ls
    → All (λ (l : Leaf). (0 < l.buf) × (l.rank ≢ root)) ls
    → 1 < size
    → size < 2 ^ 31
    → 1 + length ls ≤ size
    → (c : ℕ) × (w1 : World) × (s1 : Slots) × (w' : World) × (mpi_ibcast kernel n
          (some (record { size = size; rank = root; trigger = trigger }))
          node
          buf
          count
          (some v)
          root
          comm_world
          s
          w
        ≡ goes_on (some (record { ret = mpi_success; request = some c; world = w1 }), s1))
      × (ibcasts kernel n size trigger count v root ls s.ticket s1.slots w1 ≡ some w')
      × All
          (λ (l : Leaf).
            load w'.memory (w.process l.rank).pid l.buf (count * len v)
            ≡ load w.memory (w.process root).pid buf (count * len v))
          ls
unfolding mpi_ibcast ibcast_refuses in_slot in_turn
ibcast_delivers kernel n size trigger root node buf count v ls s w law empty flat some_len few small
      some_buf low rank root_low different fine many size_small room =
    let i = turn n s.ticket in
    let t : Slot = record (s.slots i) { ticket = s.ticket } in
    let t1 : Slot = record t { joined = 1; locked = true } in
    let u : Umpi = record { size = size; rank = root; trigger = trigger } in
    let r = root_bcast_request kernel u node buf count v t1 w in
    let (c, w1, w', reply, all, delivered) =
      bcast_delivers kernel size trigger root node buf count v ls t w law empty flat some_len few
        small low rank different many room in
    let taken = update s.slots i t1 in
    let slots = update taken i r.slot in
    let here : slots i ≡ r.slot = update_self taken i r.slot in
    let (ticket, joined, front) = root-slot kernel u node buf count v t1 w many empty in
    let is_me : (root == root) ≡ true = ground arith in
    let ok : ((buf == 0 && not (count == 0)) || lt32 root 0 || not (lt32 root size) || false)
        ≡ false =
      ground (arith, some_buf, root_low, size_small) in
    (
      c,
      w1,
      record { ticket = add32 s.ticket 1; slots = slots },
      w',
      rw (ok, is_me, opens_lem n s empty)
          (rw (update_self s.slots i t1)
            (ap (λ a. goes_on (a, record { ticket = add32 s.ticket 1; slots = slots })) reply)),
      ibcasts-calls kernel n size trigger count v root root_low size_small ls s.ticket slots w1 w'
          fine (omega (arith, ap (λ s. s.joined) here, joined, room))
          (
            ap (λ s. s.ticket) here ∙ ticket,
            λ less. let (c, box, e) = front in (c, box, ap (λ s. s.box) here ∙ e),
          )
          (ap (λ s. calls kernel size trigger count v root ls s w1) here ∙ all),
      delivered,
    )
