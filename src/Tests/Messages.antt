-- ===== src/Tests/Messages.antt =====
-- The properties of the mailboxes at the sample worlds.
use umpi.Base.{some, true, [], ◌≡◌, refl, ◌^◌, ◌-◌, arith, inl, inr}
use umpi.Iovec.{is_scattered, len}
use umpi.World.{World, recv_match, send_match, new_cookie, mpi_success}
use umpi.Transfer.{bytes_of}
use umpi.Transfer.Completion.{Fits}
use umpi.Mailbox.{recv_request, send_request, send_posted, take_first, finalize}
use umpi.Mailbox.Matching.{recv_match-send_match}
use umpi.Mailbox.Sweep.{Reclaims, finalize-Reclaims}
use umpi.Mailbox.Exchange.{Met, recv_request_meets, send_request_meets}
use umpi.Mailbox.Boxes.{Inv}
use umpi.Mailbox.Boxes.Finalize.{Reach, start, later, sends, Reach-Inv}
use umpi.Tests.Samples.{copying, copying-Reliable, ints, message, wanted, silent, sent, asked, done}

message-Fits : Fits message ints 5 300
unfolding is_scattered len
message-Fits = record {
  flat = refl;
  flat_owner = refl;
  same_len = refl;
  some_len = omega arith;
  few = omega arith;
  few_owner = omega arith;
  small = omega arith;
  small_owner = omega arith;
  address = omega arith;
  address_owner = omega arith;
}

recv_request_meets_example :
    (w' : World) × (recv_request copying 1 9 300 5 ints 0 7 sent
      ≡ some (record { ret = mpi_success; request = 5; world = w' }))
    × Met 5 0 7 3 1000 100 1001 300 (bytes_of 3 ints) sent.memory w'
unfolding take_first recv_match
recv_request_meets_example =
    recv_request_meets copying-Reliable 1 9 300 5 0 7 ints sent 5 [] refl message-Fits (omega arith)
      refl refl refl

wanted-Fits : Fits wanted ints 3 100
unfolding is_scattered len
wanted-Fits = record {
  flat = refl;
  flat_owner = refl;
  same_len = refl;
  some_len = omega arith;
  few = omega arith;
  few_owner = omega arith;
  small = omega arith;
  small_owner = omega arith;
  address = omega arith;
  address_owner = omega arith;
}

send_request_meets_example :
    (w' : World) × (send_request copying 0 1 9 100 3 ints 7 asked
      ≡ some (record { ret = mpi_success; request = 5; world = w' }))
    × Met 5 0 7 3 1000 100 1001 200 (bytes_of 3 ints) asked.memory w'
unfolding take_first send_match
send_request_meets_example =
    send_request_meets copying-Reliable 0 1 9 100 3 7 ints asked 5 [] refl wanted-Fits (omega arith)
      refl refl refl refl

one_sent-Reach : Reach copying silent (send_posted copying 0 1 9 100 3 ints 7 silent).world
unfolding send_request send_posted take_first
one_sent-Reach =
    later start
      (sends 0 1 9 100 3 ints 7 (send_posted copying 0 1 9 100 3 ints 7 silent) (λ s. refl) refl)

Reach-Inv_example : Inv (send_posted copying 0 1 9 100 3 ints 7 silent).world
Reach-Inv_example =
    Reach-Inv (λ r. record { no_free = refl; no_inbox = refl; no_outbox = refl; no_pending = refl })
      one_sent-Reach

recv_match-send_match_example :
    (recv_match (new_cookie 0 100 ints 3 3 0 7 1) 0 (2 ^ 32 - 1) ≡ true)
    × (send_match (new_cookie 0 100 ints 3 3 0 (2 ^ 32 - 1) 1) 0 7 ≡ true)
recv_match-send_match_example =
    recv_match-send_match 0 7 0 (2 ^ 32 - 1) 0 100 3 3 1 ints (omega arith) (omega arith)
      (inl (omega arith)) (inr refl)

finalize-Reclaims_example : Reclaims 4 1 5 done (finalize 4 1 5 done)
finalize-Reclaims_example = finalize-Reclaims 4 1 5 done
