-- ===== src/Collect/Broadcast/Slots.antt =====
-- umpi.cc, MPI_Ibcast of all processes, over the slots.
use umpi.Base.{
  All, ℕ, ◌+◌, ◌^◌, ◌≤◌, ◌<◌, ◌≡◌, ◌≢◌, refl, subst, ap, ◌∙◌, true, false, Option, none, some, List,
  [], ◌∷◌, ◌++◌, arith, length, sext16, add32, lt32, update, update_self, ◌==◌, if◌then◌else◌,
  Bool-cases, inl, inr, not, ◌||◌, ◌&&◌,
}
use umpi.Iovec.{Iovec}
use umpi.World.{World, Cookie, new_cookie, mpi_success}
use umpi.Transfer.{Kernel}
use umpi.Mailbox.{create_request}
use umpi.Calls.{Answer, comm_world}
use umpi.Collect.{
  Slot, Slots, Outcome, ends, goes_on, finish_in, in_turn, in_slot, turn, opened, take_turn,
  get_current_slot, mpi_ibcast, ibcast_refuses, bcast_request, join_root, join_box, root_found,
  found_locked, request_in, tag_cc,
}
use umpi.Collect.Arriving.{Leaf, call}
use umpi.Collect.Delivering.{calls, and_next}

-- Something waits in the box.
abbrev pub Occupied : Slot → Type 0
Occupied s = (c : ℕ) × (box : List ℕ) × (s.box ≡ c ∷ box)

request_in-Occupied :
    (me node : ℕ) (new : Cookie) (s : Slot) (w : World)
    → Occupied s
    → let t = (request_in me node new s w).slot in
      (t.ticket ≡ s.ticket) × (t.joined ≡ s.joined) × Occupied t
unfolding request_in create_request
request_in-Occupied me node new s w (c, box, front) = rw front (go (w.process me).free)
  where
    go :
        (free : List ℕ)
        → (s.ticket ≡ s.ticket)
          × (s.joined ≡ s.joined)
          × ((d : ℕ) × (rest : List ℕ) × ((create_request node free (c ∷ box)).box ≡ d ∷ rest))
    go [] = (refl, refl, (c, box ++ node ∷ [], refl))
    go (d ∷ free) = (refl, refl, (c, box ++ d ∷ [], refl))

pub request_in-same :
    (me node : ℕ) (new : Cookie) (s : Slot) (w : World)
    → (request_in me node new s w).slot.ticket ≡ s.ticket
unfolding request_in
request_in-same me node new s w = refl

-- The call joins the slot of its turn, where others of the same ticket wait.
joins_lem :
    (n : ℕ) (s : Slots)
    → Occupied (s.slots (turn n s.ticket))
    → (s.slots (turn n s.ticket)).ticket ≡ s.ticket
    → let t = s.slots (turn n s.ticket) in
      get_current_slot n s
      ≡ some (record {
        ticket = add32 s.ticket 1;
        slots =
            update s.slots
              (turn n s.ticket)
              (record t { joined = add32 t.joined 1; locked = true });
      })
unfolding get_current_slot opened take_turn
joins_lem n s (c, box, front) same =
    let here : ((s.slots (turn n s.ticket)).ticket == s.ticket) ≡ true = ground (arith, same) in
    rw (front, here) refl

pub opens_lem :
    (n : ℕ) (s : Slots)
    → (s.slots (turn n s.ticket)).box ≡ []
    → let t = s.slots (turn n s.ticket) in
      get_current_slot n s
      ≡ some (record {
        ticket = add32 s.ticket 1;
        slots =
            update s.slots
              (turn n s.ticket)
              (record t { ticket = s.ticket; joined = 1; locked = true });
      })
unfolding get_current_slot opened take_turn
opens_lem n s empty = rw empty refl

-- The next call, if this one succeeded.
unfoldable pub and_goes_on : Outcome → (Slots → World → Option World) → Option World
and_goes_on ends next = none
and_goes_on (goes_on (none, s)) next = none
and_goes_on (goes_on (some a, s)) next = if a.ret == mpi_success then next s a.world else none

module _ (kernel : Kernel) (n size trigger : ℕ) (count : ℕ) (v : Iovec) (root : ℕ) where
  -- MPI_Ibcast of a process whose next ticket is `ticket`.
  abbrev pub ibcast : Leaf → ℕ → (ℕ → Slot) → World → Outcome
  ibcast l ticket slots w =
      mpi_ibcast kernel n (some (record { size = size; rank = l.rank; trigger = trigger })) l.node
        l.buf count (some v) root comm_world (record { ticket = ticket; slots = slots }) w

  -- MPI_Ibcast of some processes in a row, each with the ticket `ticket`, up to the first that fails.
  unfoldable pub ibcasts : List Leaf → ℕ → (ℕ → Slot) → World → Option World
  unfolding and_goes_on
  ibcasts [] ticket slots w = some w
  ibcasts (l ∷ ls) ticket slots w =
      and_goes_on (ibcast l ticket slots w) (λ s w'. ibcasts ls ticket s.slots w')

  call-slot :
      (l : Leaf) (s : Slot) (w : World)
      → Occupied s
      → let t = (call kernel size trigger count v root l s w).slot in
        (t.ticket ≡ s.ticket) × (t.joined ≡ s.joined + 1) × (s.joined + 1 < size → Occupied t)
  unfolding bcast_request join_root join_box root_found found_locked
  call-slot l s w (c, box, front) =
      let posted =
        request_in-Occupied l.rank l.node (new_cookie l.rank l.buf v count count l.rank tag_cc 1)
          (record s { joined = s.joined + 1; box = c ∷ box; locked = true }) w (c, box, refl) in
      rw front (elim (Bool-cases (sext16 (w.cookie c).src == root)) [
        | inr e ↦ rw e (posted.0, posted.1, λ less. posted.2)
        | inl e ↦ rw e (elim (Bool-cases (s.joined + 1 == size)) [
          | inl f ↦ rw f (refl, refl, λ less. absurd (ground (arith, f, less)))
          | inr f ↦ rw f (refl, refl, λ less. (c, box, refl))
        ])
      ])

  -- What the processes that come after the root find in the slots: their slot has their ticket, and
  -- something waits in it as long as not all have joined.
  abbrev Waits : ℕ → (ℕ → Slot) → Type 0
  Waits ticket slots =
      let t = slots (turn n ticket) in (t.ticket ≡ ticket) × (t.joined < size → Occupied t)

  module _ (root_low : root < size) (small : size < 2 ^ 31) where
    ibcast-call :
        (l : Leaf) (ticket : ℕ) (slots : ℕ → Slot) (w : World)
        → 0 < l.buf
        → l.rank ≢ root
        → (slots (turn n ticket)).joined < size
        → Waits ticket slots
        → let t = slots (turn n ticket) in
          let j = call kernel size trigger count v root l t w in
          ibcast l ticket slots w
          ≡ goes_on (
              finish_in
                (turn n ticket)
                (record {
                  ticket = add32 ticket 1;
                  slots =
                      update slots
                        (turn n ticket)
                        (record t { joined = t.joined + 1; locked = true });
                })
                j)
    unfolding mpi_ibcast ibcast_refuses in_slot in_turn
    ibcast-call l ticket slots w some_buf other room (same, occupied) =
        let t = slots (turn n ticket) in
        let no : (l.rank == root) ≡ false = ground (arith, other) in
        let fine : ((l.buf == 0 && not (count == 0))
              || lt32 root 0
              || not (lt32 root size)
              || false)
            ≡ false =
          ground (arith, some_buf, root_low, small) in
        let fit : add32 t.joined 1 ≡ t.joined + 1 = omega (arith, room, small) in
        rw
          (
            fine,
            no,
            joins_lem n (record { ticket = ticket; slots = slots }) (occupied room) same,
            fit,
          )
          (rw
            (update_self slots (turn n ticket) (record t { joined = t.joined + 1; locked = true }))
            refl)

    pub ibcasts-calls :
        (ls : List Leaf) (ticket : ℕ) (slots : ℕ → Slot) (w w' : World)
        → All (λ (l : Leaf). (0 < l.buf) × (l.rank ≢ root)) ls
        → (slots (turn n ticket)).joined + length ls ≤ size
        → Waits ticket slots
        → calls kernel size trigger count v root ls (slots (turn n ticket)) w ≡ some w'
        → ibcasts ls ticket slots w ≡ some w'
    unfolding ibcasts calls and_next and_goes_on
    ibcasts-calls [] ticket slots w w' fine few waits e = e
    ibcasts-calls (l ∷ ls) ticket slots w w' ((some_buf, other), fine) few waits e =
        let t = slots (turn n ticket) in
        let room : t.joined < size = omega (arith, few) in
        let j = call kernel size trigger count v root l t w in
        let (kept, joined, still) = call-slot l t w (waits.1 room) in
        let taken =
          update slots (turn n ticket) (record t { joined = t.joined + 1; locked = true }) in
        let slots' = update taken (turn n ticket) j.slot in
        let here : slots' (turn n ticket) ≡ j.slot = update_self taken (turn n ticket) j.slot in
        let waits' : Waits ticket slots' = (
          ap (λ s. s.ticket) here ∙ kept ∙ waits.0,
          λ less.
              let (c, box, front) = still (omega (arith, less, ap (λ s. s.joined) here, joined)) in
              (c, box, ap (λ s. s.box) here ∙ front),
        ) in
        rw (ibcast-call l ticket slots w some_buf other room waits) (
          go (calls kernel size trigger count v root ls j.slot) (λ s. ibcasts ls ticket s.slots)
            (finish_in (turn n ticket) (record { ticket = add32 ticket 1; slots = taken }) j).1
            j.reply e
            (λ x e'.
              ibcasts-calls ls ticket slots' x w' fine
                (omega (arith, few, ap (λ s. s.joined) here, joined)) waits'
                (ap (λ s. calls kernel size trigger count v root ls s x) here ∙ e')))
      where
        go :
            (next : World → Option World) (next' : Slots → World → Option World) (s : Slots)
            (a : Option Answer)
            → and_next a next ≡ some w'
            → ((x : World) → next x ≡ some w' → next' s x ≡ some w')
            → and_goes_on (goes_on (a, s)) next' ≡ some w'
        go next next' s none e f = absurd (ground (arith, e))
        go next next' s (some a) e f = elim (Bool-cases (a.ret == mpi_success)) [
          | inl ok ↦
              rw ok (f a.world (subst (λ q. (if q then next a.world else none) ≡ some w') ok e))
          | inr bad ↦ absurd (ground (arith, bad, e))
        ]
