-- ===== src/Collect/Broadcast.antt =====
-- A whole broadcast in one slot, where the root comes first.
pub mod Slots
pub mod Ibcast
use umpi.Base.{
  All, ℕ, ◌+◌, ◌*◌, ◌^◌, ◌≤◌, ◌<◌, ◌≡◌, ◌≢◌, refl, sym, ap, ◌∙◌, fun_ext, true, false, some, List,
  [], ◌∷◌, arith, length, sext16, sub32, update, update_self, ◌==◌,
}
use umpi.Iovec.{Iovec, is_scattered, len}
use umpi.World.{World, Memory, Cookie, new_cookie, mpi_success}
use umpi.Transfer.{Kernel, bytes_of}
use umpi.Transfer.Delivery.{Reliable, load}
use umpi.Transfer.Completion.{Fits, bytes_of_lem}
use umpi.Mailbox.{create_request}
use umpi.Calls.{Umpi}
use umpi.Collect.{Slot, request_in, root_bcast_request, as_root, hand_out, unlock, tag_cc}
use umpi.Collect.Arriving.{Leaf}
use umpi.Collect.Delivering.{All-map, Apart, calls, calls_deliver}

-- The processes that call after the root differ from it and from each other, and their buffers have
-- addresses.
abbrev pub Different : (ℕ → ℕ) → ℕ → List Leaf → Type 0
Different pids root [] = Unit
Different pids root (l ∷ ls) =
    (l.buf < 2 ^ 64)
    × (pids l.rank ≢ pids root)
    × All (λ (m : Leaf). pids m.rank ≢ pids l.rank) ls
    × Different pids root ls

-- `collect::create_request` in an empty box.
pub request_in_lem :
    (me node : ℕ) (new : Cookie) (s : Slot) (w : World)
    → s.box ≡ []
    → let p = request_in me node new s w in
      (p.slot.box ≡ p.request ∷ [])
      × (p.slot.joined ≡ s.joined)
      × (p.world.cookie p.request ≡ new)
      × (p.world.memory ≡ w.memory)
      × ((r : ℕ) → (p.world.process r).pid ≡ (w.process r).pid)
unfolding request_in create_request
request_in_lem me node new s w empty = rw empty (go (w.process me).free)
  where
    go :
        (free : List ℕ)
        → let made = create_request node free [] in
          (made.box ≡ made.cookie ∷ [])
          × (s.joined ≡ s.joined)
          × (update w.cookie made.cookie new made.cookie ≡ new)
          × (w.memory ≡ w.memory)
          × ((r : ℕ)
              → (update w.process me (record (w.process me) { free = made.free }) r).pid
                ≡ (w.process r).pid)
    go [] = (refl, refl, update_self w.cookie node new, refl, λ r. ground arith)
    go (c ∷ free) = (refl, refl, update_self w.cookie c new, refl, λ r. ground arith)

-- The root's call, which comes first: it leaves its request in the box, and is done.
pub root_lem :
    (kernel : Kernel) (u : Umpi) (node buf count : ℕ) (v : Iovec) (s : Slot) (w : World)
    → s.box ≡ []
    → s.joined < u.size
    → let p =
        request_in u.rank node
          (new_cookie u.rank buf v count count u.rank tag_cc (sub32 u.size s.joined))
          s
          w in
      root_bcast_request kernel u node buf count v s w ≡ record {
        reply = some (record { ret = mpi_success; request = some p.request; world = p.world });
        slot = unlock p.slot;
      }
unfolding root_bcast_request as_root hand_out
root_lem kernel u node buf count v s w empty first =
    let more : (s.joined == u.size) ≡ false = ground (arith, first) in rw (more, empty) refl

Different-Apart :
    (k : Cookie) (v : Iovec) (count : ℕ) (pids : ℕ → ℕ) (ls : List Leaf)
    → ((buf : ℕ) → buf < 2 ^ 64 → Fits k v count buf)
    → Different pids k.owner ls
    → Apart k v count pids ls
Different-Apart k v count pids [] fits d = tt
Different-Apart k v count pids (l ∷ ls) fits (low, other, others, rest) =
    (fits l.buf low, other, others, Different-Apart k v count pids ls fits rest)

new-Fits :
    (owner at count source tag num : ℕ) (v : Iovec) (buf : ℕ)
    → is_scattered v ≡ false
    → 0 < len v
    → count < 2 ^ 31
    → count * len v < 2 ^ 63
    → at < 2 ^ 64
    → buf < 2 ^ 64
    → Fits (new_cookie owner at v count count source tag num) v count buf
unfolding new_cookie
new-Fits owner at count source tag num v buf flat some_len few small low here = record {
  flat = flat;
  flat_owner = flat;
  same_len = refl;
  some_len = some_len;
  few = few;
  few_owner = few;
  small = small;
  small_owner = small;
  address = here;
  address_owner = low;
}

load-equal :
    {m m' : Memory} {pid pid' a a' n n' : ℕ}
    → m ≡ m'
    → pid ≡ pid'
    → a ≡ a'
    → n ≡ n'
    → load m pid a n ≡ load m' pid' a' n'
load-equal {m} {m'} {pid} {pid'} {a} {a'} {n} {n'} e f g h = rw (e, f, g, h) refl

-- What MPI_Ibcast does in one slot, for `count` elements of a contiguous datatype. The root has joined
-- the slot first, and calls `root_bcast_request`; the processes `ls` join after it, one after the
-- other, and each calls `bcast_request`; they are at most `size` in all, and no other call comes
-- between. The system copies all bytes it is asked for; the processes have different memories; the
-- sizes are within their words. Then the root's request call returns MPI_SUCCESS and a request, the
-- request calls of all the others return MPI_SUCCESS, and after them the bytes of the root's buffer
-- are at the buffer of each. No wait for the root's request is included.
pub bcast_delivers :
    (kernel : Kernel) (size trigger root node buf count : ℕ) (v : Iovec) (ls : List Leaf) (s : Slot)
    (w : World)
    → Reliable kernel
    → s.box ≡ []
    → is_scattered v ≡ false
    → 0 < len v
    → count < 2 ^ 31
    → count * len v < 2 ^ 63
    → buf < 2 ^ 64
    → root < 2 ^ 15
    → Different (λ r. (w.process r).pid) root ls
    → 1 < size
    → 1 + length ls ≤ size
    → let u : Umpi = record { size = size; rank = root; trigger = trigger } in
      let r =
        root_bcast_request kernel u node buf count v (record s { joined = 1; locked = true }) w in
      (c : ℕ) × (w1 : World) × (w' : World) × (r.reply
        ≡ some (record { ret = mpi_success; request = some c; world = w1 }))
      × (calls kernel size trigger count v root ls r.slot w1 ≡ some w')
      × All
          (λ (l : Leaf).
            load w'.memory (w.process l.rank).pid l.buf (count * len v)
            ≡ load w.memory (w.process root).pid buf (count * len v))
          ls
unfolding new_cookie
bcast_delivers kernel size trigger root node buf count v ls s w law empty flat some_len few small
      low rank different many room =
    let u : Umpi = record { size = size; rank = root; trigger = trigger } in
    let s1 : Slot = record s { joined = 1; locked = true } in
    let new = new_cookie root buf v count count root tag_cc (sub32 size 1) in
    let p = request_in root node new s1 w in
    let w1 = p.world in
    let c = p.request in
    let (box, joined, mine, memory, pids) = request_in_lem root node new s1 w empty in
    let e = root_lem kernel u node buf count v s1 w empty many in
    let total = bytes_of_lem count v few small in
    let same : ◌≡◌ {A = ℕ → ℕ} (λ r. (w1.process r).pid) (λ r. (w.process r).pid) = fun_ext pids in
    let owner : (w1.cookie c).owner ≡ root = ap (λ k. k.owner) mine in
    let apart : Apart (w1.cookie c) v count (λ r. (w1.process r).pid) ls =
      rw (mine, same)
        (Different-Apart new v count (λ r. (w.process r).pid) ls
          (λ b h.
            new-Fits root buf count root tag_cc (sub32 size 1) v b flat some_len few small low h)
          different) in
    let (w', all, _, delivered) =
      calls_deliver kernel size trigger count v root law c [] w1
        (ap (λ k. sext16 k.src) mine ∙ ground (arith, rank)) (ap (λ k. k.size) mine) ls
        (unlock p.slot) w1
        (record {
          owner = refl;
          buf = refl;
          iovec = refl;
          size = refl;
          src = refl;
          pids = λ r. refl;
        })
        refl (λ less. box) apart (omega (arith, joined, room)) in
    (
      c,
      w1,
      w',
      ap (λ j. j.reply) e,
      ap (λ j. calls kernel size trigger count v root ls j.slot w1) e ∙ all,
      All-map
          (λ (l : Leaf).
            load w'.memory (w1.process l.rank).pid l.buf (bytes_of count v)
            ≡ load w1.memory (w1.process (w1.cookie c).owner).pid (w1.cookie c).buf
                (bytes_of count v))
          (λ (l : Leaf).
            load w'.memory (w.process l.rank).pid l.buf (count * len v)
            ≡ load w.memory (w.process root).pid buf (count * len v))
          ls
          (λ l h.
            load-equal {m = w'.memory} refl (sym (pids l.rank)) refl (sym total)
            ∙ h
            ∙ load-equal memory (pids (w1.cookie c).owner ∙ ap (λ r. (w.process r).pid) owner)
                (ap (λ k. k.buf) mine) total)
          delivered,
    )
