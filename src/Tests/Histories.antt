-- ===== src/Tests/Histories.antt =====
-- The properties of histories and of collective requests at samples.
use umpi.Base.{ℕ, ◌+◌, ◌==◌, ◌≡◌, refl, arith, true, false, [], ◌∷◌}
use umpi.World.{World, new_cookie, join, set_cookie}
use umpi.Mailbox.{move_to_pending, send_request, send_posted, take_first}
use umpi.Mailbox.Boxes.Finalize.{IsEmpty}
use umpi.Mailbox.Engine.{view}
use umpi.Mailbox.Engine.Runs.{Run, send, start, sent}
use umpi.Mailbox.Engine.Pairs.{NoPair, Run-NoPair}
use umpi.Iovec.{len}
use umpi.Calls.{Umpi}
use umpi.Collect.{Slot, found_locked, bcast_request, root_bcast_request, tag_cc}
use umpi.Collect.Counting.{Moment, Reach, here, next, joins, reads, Reach-counted}
use umpi.Transfer.{read_from_owner, complete, read_call}
use umpi.Collect.Rooted.{gather_request, root_gather_request, scatter_request, root_scatter_request}
use umpi.Collect.Scan.{too_wide, exscan_request, scan_request}
use umpi.Collect.Scan.Lock.{request-unlocks}
use umpi.Tests.Samples.{copying, ints, silent}

-- Process 0 sends a message with tag 7 to process 1.
abbrev after_send : World
after_send = (send_posted copying 0 1 9 100 3 ints 7 silent).world

silent-IsEmpty : (r : ℕ) → IsEmpty (silent.process r)
silent-IsEmpty r = record { no_free = refl; no_inbox = refl; no_outbox = refl; no_pending = refl }

one_send : Run copying silent (send 0 1 7 ∷ []) after_send
unfolding send_request send_posted take_first
one_send =
    sent [] silent 0 1 9 100 3 ints 7 (send_posted copying 0 1 9 100 3 ints 7 silent) start
      (omega arith) (omega arith) (λ s. refl) refl

Run-NoPair_example : NoPair (view after_send)
Run-NoPair_example = Run-NoPair silent-IsEmpty one_send

-- The second of three processes joins a broadcast, whose root's request is at address 5.
abbrev second : Umpi
second = record { size = 3; rank = 1; trigger = 8 }

abbrev slot : Slot
slot = record { ticket = 4; joined = 2; box = 5 ∷ []; displs = λ r. 0; locked = true }

abbrev posted : World
posted = record silent { cookie = λ c. new_cookie 0 100 ints 3 3 0 tag_cc 2 }

-- Of the three, the root has joined; the second joins, the third joins, and the second reads.
abbrev posted_slot : Slot
posted_slot = record slot { joined = 1; locked = false }

abbrev posted_moment : Moment
posted_moment = record { slot = posted_slot; world = posted; begun = 0 }

abbrev two_joined : Slot
two_joined = record slot { joined = 2; locked = false }

abbrev all_joined : Slot
all_joined = record slot { joined = 3; box = []; locked = false }

abbrev once_joined : World
once_joined = set_cookie posted 5 (join (posted.cookie 5))

abbrev twice_joined : World
twice_joined = move_to_pending 0 5 (set_cookie once_joined 5 (join (once_joined.cookie 5)))

abbrev read_once : ℕ × World
read_once = complete copying 1 5 12 (read_call copying 1 5 200 ints 3 0 0 twice_joined) twice_joined

one_read :
    Reach copying second 5 posted_moment
      (record { slot = all_joined; world = read_once.1; begun = 1 })
unfolding found_locked read_from_owner new_cookie len join move_to_pending
one_read =
    next
      (next
        (next here
          (joins posted_slot posted 0 [] (two_joined, once_joined) refl (omega arith) refl))
        (joins two_joined once_joined 1 [] (all_joined, twice_joined) refl (omega arith) refl))
      (reads all_joined twice_joined 1 1 200 ints 3 3 0 0 read_once refl)

Reach-counted_example :
    ((read_once.1.cookie 5).busy + 3 ≡ 3 + 1) × (((read_once.1.cookie 5).busy == 0) ≡ false)
unfolding new_cookie
Reach-counted_example =
    Reach-counted copying second 5 posted_moment
      (record { slot = all_joined; world = read_once.1; begun = 1 }) (omega arith) refl
      (omega arith) refl one_read

-- The wide data are 100 numbers.
request-unlocks_example :
    ((bcast_request copying second 9 200 100 ints 0 slot posted).slot.locked ≡ false)
    × ((root_bcast_request copying second 9 200 100 ints slot posted).slot.locked ≡ false)
    × ((gather_request copying second 9 200 100 ints 0 slot posted).slot.locked ≡ false)
    × ((root_gather_request copying second 9 200 100 ints slot posted).slot.locked ≡ false)
    × ((scatter_request copying second 9 200 100 ints 0 slot posted).slot.locked ≡ false)
    × ((root_scatter_request copying second 9 200 100 ints slot posted).slot.locked ≡ false)
    × ((scan_request copying second
          (λ i io n v m. m)
          600
          700
          100
          ints
          1
          9
          300
          200
          slot
          posted).slot.locked
        ≡ too_wide 100 ints)
    × ((exscan_request copying second
          (λ i io n v m. m)
          600
          700
          100
          ints
          1
          9
          300
          200
          slot
          posted).slot.locked
        ≡ too_wide 100 ints)
request-unlocks_example =
    request-unlocks copying second (λ i io n v m. m) 600 700 1 9 300 200 100 0 ints slot posted refl
