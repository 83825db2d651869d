-- ===== src/Collect.antt =====
-- umpi.cc, collective operations: the slot that a process joins, and the broadcast. The child
-- Rooted has gather and scatter. A slot's box is
-- the list of the requests that wait for the others; the slot's mutex is held from the join to the
-- unlock, so the slot's part of a call is one step.
pub mod Joining
pub mod Arriving
pub mod Delivering
pub mod Broadcast
pub mod Allgatherv
pub mod Alone
pub mod Counting
pub mod Rooted
pub mod Everyone
pub mod Scan
pub mod Allreduce
pub mod Blocking
use umpi.Base.{
  ℕ, ◌+◌, ◌-◌, ◌%◌, ◌^◌, Bool, true, false, not, ◌&&◌, ◌||◌, Option, none, some, List, [], ◌∷◌, u32,
  add32, sub32, lt32, sext16, ◌==◌, if◌then◌else◌,
}
use umpi.Iovec.{Iovec}
use umpi.World.{
  Cookie, new_cookie, join, Process, World, update, set_cookie, set_process, mpi_success, mpi_fail,
}
use umpi.Transfer.{Kernel, write_to_owner, read_from_owner}
use umpi.Mailbox.{Reply, create_request, replies, move_to_pending}
use umpi.Calls.{Umpi, Comm, is_world, Answer, refuse, answer}

-- UMPI_TAG_CC
abbrev pub tag_cc : ℕ
tag_cc = 2 ^ 32 - 2

-- `class collect` without the buffers of MPI_IN_PLACE reductions; `locked` is whether `mutex_` is held.
pub record Slot : Type 0 where
  pub ticket : ℕ
  pub joined : ℕ
  pub box : List ℕ
  pub displs : ℕ → ℕ
  pub locked : Bool

-- `umpi->ticket` of the process and the slots.
pub record Slots : Type 0 where
  pub ticket : ℕ
  pub slots : ℕ → Slot

-- The test for an empty box; the `ticket_` and `joined_` that the join starts from.
unfoldable pub opened : ℕ → Slot → List ℕ → Option Slot
opened ticket s [] = some (record s { ticket = ticket; joined = 0 })
opened ticket s (_ ∷ _) = if s.ticket == ticket then some s else none

-- `(int) (umpi->ticket % UMPI_OUTSTANDING_COLLECTIVE_OPERATIONS)`
abbrev pub turn : ℕ → ℕ → ℕ
turn n ticket = ticket % n

-- The end of `get_current_slot`, for the slot of turn `i` opened.
unfoldable pub take_turn : Slots → ℕ → Option Slot → Option Slots
take_turn s i none = none
take_turn s i (some t) = some (record {
  ticket = add32 s.ticket 1;
  slots = update s.slots i (record t { joined = add32 t.joined 1; locked = true });
})

-- `shared::get_current_slot` for `n` slots, `none` where it ends the process. The slot that it
-- gives is that of the ticket before.
unfoldable pub get_current_slot : ℕ → Slots → Option Slots
unfolding opened take_turn
get_current_slot n s =
    let t = s.slots (turn n s.ticket) in take_turn s (turn n s.ticket) (opened s.ticket t t.box)

abbrev pub unlock : Slot → Slot
unlock s = record s { locked = false }

-- A request call's reply, and the slot afterwards.
pub record Joined : Type 0 where
  pub reply : Option Answer
  pub slot : Slot

-- A new request in the box of a slot.
pub record Posted : Type 0 where
  pub request : ℕ
  pub world : World
  pub slot : Slot

-- `collect::create_request`
unfoldable pub request_in : ℕ → ℕ → Cookie → Slot → World → Posted
request_in me node new s w =
    let p = w.process me in
    let made = create_request node p.free s.box in
    record {
      request = made.cookie;
      world = set_process (set_cookie w made.cookie new) me (record p { free = made.free });
      slot = record s { box = made.box };
    }

-- The call unlocks the slot and returns MPI_SUCCESS.
abbrev pub succeeds : Posted → Joined
succeeds p = record {
  reply = some (record { ret = mpi_success; request = some p.request; world = p.world });
  slot = unlock p.slot;
}

-- The transfers of a call decide what it returns; `*request` is set before.
abbrev pub finishes : ℕ → Option (ℕ × World) → Option Answer
finishes c none = none
finishes c (some (ret, w)) = some (record { ret = ret; request = some c; world = w })

-- The next transfer, if there was no error.
unfoldable pub and_then : Option (ℕ × World) → (World → Option (ℕ × World)) → Option (ℕ × World)
and_then none next = none
and_then (some (ret, w)) next = if ret == mpi_success then next w else some (ret, w)

-- `todo.back()`, which is undefined on an empty list.
unfoldable pub back : List ℕ → Option ℕ
back [] = none
back (c ∷ cs) = elim cs [ [] ↦ some c | _ ∷ _ ↦ back cs ]

module _ (kernel : Kernel) (u : Umpi) where
  -- A request call that finds the root's request `c` first in the box, up to `mutex_.unlock()`: it
  -- joins, and the last one moves the request on.
  unfoldable pub found_locked : ℕ → List ℕ → Slot → World → Slot × World
  found_locked c box s w =
      let w' = set_cookie w c (join (w.cookie c)) in
      if s.joined == u.size
      then (record s { box = box; locked = false }, move_to_pending (w.cookie c).owner c w')
      else (unlock s, w')

  -- The whole call, where no other process comes between the unlock and the transfer with the owner.
  unfoldable pub root_found : (World → Option (ℕ × World)) → ℕ → List ℕ → Slot → World → Joined
  unfolding found_locked
  root_found transfer c box s w =
      let (s', w') = found_locked c box s w in
      record { reply = finishes c (transfer w'); slot = s' }

  -- A request call of a process that is not the root, where the box of the slot is given: `posted` is
  -- what it does where the root's request is not the first.
  unfoldable pub join_box :
      (ℕ → World → Option (ℕ × World))
      → (Slot → World → Joined)
      → ℕ
      → Slot
      → World
      → List ℕ
      → Joined
  unfolding root_found
  join_box transfer posted root s w [] = posted s w
  join_box transfer posted root s w (c ∷ box) =
      if sext16 (w.cookie c).src == root then root_found (transfer c) c box s w else posted s w

  unfoldable pub join_root :
      (ℕ → World → Option (ℕ × World)) → (Slot → World → Joined) → ℕ → Slot → World → Joined
  unfolding join_box
  join_root transfer posted root s w = join_box transfer posted root s w s.box

  abbrev pub bcast_posted : ℕ → ℕ → ℕ → Iovec → Slot → World → Joined
  bcast_posted node buf count v s w =
      succeeds (request_in u.rank node (new_cookie u.rank buf v count count u.rank tag_cc 1) s w)

  -- `collect::bcast_request`
  unfoldable pub bcast_request : ℕ → ℕ → ℕ → Iovec → ℕ → Slot → World → Joined
  unfolding join_root
  bcast_request node buf count v root s w =
      join_root (λ c. read_from_owner kernel u.rank c buf v count count 0 0)
        (bcast_posted node buf count v) root s w

  -- The loop of the root over those that wait, with its transfer, up to the first error.
  unfoldable pub hand_out : (ℕ → World → Option (ℕ × World)) → List ℕ → World → Option (ℕ × World)
  unfolding and_then
  hand_out transfer [] w = some (mpi_success, w)
  hand_out transfer (c ∷ cs) w =
      and_then (transfer c (move_to_pending (w.cookie c).owner c w)) (λ w'. hand_out transfer cs w')

  -- A request call of the root, with the transfer of its loop and the arguments of its own request.
  -- `none` for the reply is `todo.back()` on an empty list, or a division by zero.
  unfoldable pub as_root :
      (ℕ → World → Option (ℕ × World)) → ℕ → ℕ → ℕ → ℕ → Iovec → Slot → World → Joined
  unfolding back hand_out
  as_root transfer node buf size count v s w =
      if s.joined == u.size
      then record {
        reply = elim (back s.box) [
          | none ↦ none
          | some b ↦ finishes b (hand_out transfer s.box (set_cookie w b (join (w.cookie b))))
        ];
        slot = record s { box = []; locked = false };
      }
      else (let new =
            request_in u.rank node
              (new_cookie u.rank buf v size count u.rank tag_cc (sub32 u.size s.joined))
              (record s { box = [] }) w in
          record {
            reply = finishes new.request (hand_out transfer s.box new.world);
            slot = unlock new.slot;
          })

  -- `collect::root_bcast_request`
  unfoldable pub root_bcast_request : ℕ → ℕ → ℕ → Iovec → Slot → World → Joined
  unfolding as_root
  root_bcast_request node buf count v s w =
      as_root (λ c. write_to_owner kernel u.rank c buf v count 0 0) node buf count count v s w

-- The slot after the request in it.
abbrev pub finish_in : ℕ → Slots → Joined → Option Answer × Slots
finish_in i s j = (j.reply, record s { slots = update s.slots i j.slot })

-- What a collective call comes to: it returns (or the reply is undefined), or the process ends.
pub data Outcome : Type 0 where
  ends : Outcome
  goes_on : Option Answer × Slots → Outcome

-- After `get_current_slot` for the turn `i`.
unfoldable pub in_turn : ℕ → (Slot → World → Joined) → World → Option Slots → Outcome
in_turn i request w none = ends
in_turn i request w (some s) = goes_on (finish_in i s (request (s.slots i) w))

-- A call that takes the current slot, of `n`, for its request.
unfoldable pub in_slot : ℕ → (Slot → World → Joined) → Slots → World → Outcome
unfolding get_current_slot in_turn
in_slot n request s w = in_turn (turn n s.ticket) request w (get_current_slot n s)

-- The checks of `MPI_Ibcast` after those for null pointers.
unfoldable pub ibcast_refuses : ℕ → ℕ → ℕ → ℕ → Comm → Bool
ibcast_refuses n buf count root comm =
    (buf == 0 && not (count == 0)) || lt32 root 0 || not (lt32 root n) || not (is_world comm)

-- `MPI_Ibcast`, with `n` slots.
unfoldable pub mpi_ibcast :
    Kernel → ℕ → Option Umpi → ℕ → ℕ → ℕ → Option Iovec → ℕ → Comm → Slots → World → Outcome
unfolding in_slot
mpi_ibcast kernel n none node buf count datatype root comm s w = goes_on (refuse w, s)
mpi_ibcast kernel n (some u) node buf count none root comm s w = goes_on (refuse w, s)
mpi_ibcast kernel n (some u) node buf count (some v) root comm s w =
    if ibcast_refuses u.size buf count root comm
    then goes_on (refuse w, s)
    else (if u.rank == root
        then in_slot n (root_bcast_request kernel u node buf count v) s w
        else in_slot n (bcast_request kernel u node buf count v root) s w)
