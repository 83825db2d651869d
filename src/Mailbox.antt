-- ===== src/Mailbox.antt =====
-- umpi.cc, the methods of `class process` and the point-to-point calls above them. Each critical
-- section of a process's mutex is one function of the world. Where a request needs a new list node,
-- its address (from the pool allocator) is the argument `node`.
pub mod Matching
pub mod Boxes
pub mod Sweep
pub mod Exchange
pub mod Engine
use umpi.Base.{
  ℕ, zero, suc, ◌+◌, ◌*◌, ◌/◌, ◌<◌, Bool, true, false, not, ◌&&◌, ◌||◌, Option, none, some, List,
  [], ◌∷◌, ◌++◌, u16, u32, dec16, lt32, neg32, ltb, ◌==◌, if◌then◌else◌, take, length, get_elem?,
  set,
}
use umpi.Iovec.{Iovec, len}
use umpi.World.{
  Cookie, new_cookie, recv_match, send_match, join, Process, World, update, set_cookie, set_process,
  for_incoming, not_waiting, waiting_for_cookie, waiting_for_incoming, waiting_for_any_cookie,
  mpi_success, mpi_fail, mpi_any_source, mpi_any_tag,
}
use umpi.Transfer.{Kernel, write_to_owner, read_from_owner}

-- What a request call leaves: its result, `*request`, and the world.
pub record Reply : Type 0 where
  pub ret : ℕ
  pub request : ℕ
  pub world : World

-- The list work of `process::create_request`: a free node, or the new one, goes to the end of a box.
pub record Created : Type 0 where
  pub cookie : ℕ
  pub free : List ℕ
  pub box : List ℕ

unfoldable pub create_request : ℕ → List ℕ → List ℕ → Created
create_request node [] box = record { cookie = node; free = []; box = box ++ node ∷ [] }
create_request node (c ∷ free) box = record { cookie = c; free = free; box = box ++ c ∷ [] }

-- The searching loop over a box: the first cookie that matches, and the box without it.
unfoldable pub take_first : (ℕ → Bool) → List ℕ → Option (ℕ × List ℕ)
take_first p [] = none
take_first p (c ∷ cs) =
    let rest = take_first p cs in
    if p c then some (c, cs) else elim rest [ none ↦ none | some (d, ds) ↦ some (d, c ∷ ds) ]

abbrev pub replies : ℕ → Option (ℕ × World) → Option Reply
replies c none = none
replies c (some (ret, w)) = some (record { ret = ret; request = c; world = w })

module _ (kernel : Kernel) (me : ℕ) where
  -- `recv_request` where the message `c` waits in the inbox, which without it is `inbox`.
  unfoldable pub recv_found : ℕ → List ℕ → ℕ → ℕ → Iovec → World → Option Reply
  recv_found c inbox buf count v w =
      let p = record (w.process me) { inbox = inbox; pending = c ∷ (w.process me).pending } in
      replies c (
        read_from_owner kernel me c buf v count 0 0 0
          (set_process (set_cookie w c (join (w.cookie c))) me p))

  -- `recv_request` where none does: the receive waits in the outbox.
  unfoldable pub recv_posted : ℕ → ℕ → ℕ → Iovec → ℕ → ℕ → World → Reply
  recv_posted node buf count v source tag w =
      let p = w.process me in
      let made = create_request node p.free p.outbox in
      record {
        ret = mpi_success;
        request = made.cookie;
        world =
            set_process (set_cookie w made.cookie (new_cookie me buf v count count source tag 1)) me
              (record p { free = made.free; outbox = made.box });
      }

  -- `process::recv_request` of the process `me`.
  unfoldable pub recv_request : ℕ → ℕ → ℕ → Iovec → ℕ → ℕ → World → Option Reply
  recv_request node buf count v source tag w =
      elim (take_first (λ c. recv_match (w.cookie c) source tag) (w.process me).inbox) [
        | some (c, inbox) ↦ recv_found c inbox buf count v w
        | none ↦ some (recv_posted node buf count v source tag w)
      ]

  -- `send_request` where the receive `c` waits in the outbox of `dest`.
  unfoldable pub send_found : ℕ → ℕ → List ℕ → ℕ → ℕ → Iovec → ℕ → World → Option Reply
  send_found dest c outbox buf count v tag w =
      let p = record (w.process dest) { outbox = outbox; pending = c ∷ (w.process dest).pending } in
      let k = record (w.cookie c) { src = u16 me; tag = u16 tag } in
      replies c
        (write_to_owner kernel me c buf v count 0 0 (set_process (set_cookie w c (join k)) dest p))

  -- `send_request` where none does: the message waits in the inbox of `dest`.
  unfoldable pub send_posted : ℕ → ℕ → ℕ → ℕ → Iovec → ℕ → World → Reply
  send_posted dest node buf count v tag w =
      let p = w.process dest in
      let made = create_request node p.free p.inbox in
      let signals = if for_incoming p.waiting_for then p.signals + 1 else p.signals in
      record {
        ret = mpi_success;
        request = made.cookie;
        world =
            set_process (set_cookie w made.cookie (new_cookie me buf v count count me tag 1)) dest
              (record p { free = made.free; inbox = made.box; signals = signals });
      }

  -- `process::send_request` of the process `dest`, called by the process `me`.
  unfoldable pub send_request : ℕ → ℕ → ℕ → ℕ → Iovec → ℕ → World → Option Reply
  send_request dest node buf count v tag w =
      elim (take_first (λ c. send_match (w.cookie c) me tag) (w.process dest).outbox) [
        | some (c, outbox) ↦ send_found dest c outbox buf count v tag w
        | none ↦ some (send_posted dest node buf count v tag w)
      ]

-- The sweeping loop of `process::finalize`: cookies with no user leave the list for the front of
-- `free_`.
pub record Swept : Type 0 where
  pub pending : List ℕ
  pub free : List ℕ

unfoldable pub sweep : (ℕ → ℕ) → List ℕ → List ℕ → Swept
sweep used [] free = record { pending = []; free = free }
sweep used (c ∷ cs) free =
    let kept = sweep used cs free in
    let freed = sweep used cs (c ∷ free) in
    if used c == 0 then freed else record kept { pending = c ∷ kept.pending }

-- The trimming: above `trigger` free nodes, all but half of `trigger` go back to the pool.
unfoldable pub trim : ℕ → List ℕ → List ℕ
trim trigger free = if ltb trigger (length free) then take (trigger / 2) free else free

-- `process::finalize` of the process `r`; `trigger` is UMPI_OUTSTANDING_REQUESTS_PER_PROCESS.
unfoldable pub finalize : ℕ → ℕ → ℕ → World → World
finalize trigger r c w =
    let k = w.cookie c in
    let w' = set_cookie w c (record k { used = dec16 k.used }) in
    let p = w.process r in
    let swept = sweep (λ d. (w'.cookie d).used) p.pending p.free in
    set_process w' r (record p { pending = swept.pending; free = trim trigger swept.free })

-- `cookie::leave`
unfoldable pub leave : ℕ → ℕ → World → World
leave trigger c w = finalize trigger (w.cookie c).owner c w

-- `process::move_to_pending`: the node goes from another box to the front of `pending_`.
unfoldable pub move_to_pending : ℕ → ℕ → World → World
move_to_pending r c w =
    let p = w.process r in set_process w r (record p { pending = c ∷ p.pending })

-- `process::find_any`
unfoldable pub find_any : ℕ → ℕ → ℕ → World → Option ℕ
find_any r source tag w =
    elim (take_first (λ c. recv_match (w.cookie c) source tag) (w.process r).inbox) [
      | none ↦ none
      | some (c, _) ↦ some c
    ]
