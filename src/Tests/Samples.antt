-- ===== src/Tests/Samples.antt =====
-- Sample types, messages and worlds.
use umpi.Base.{ℕ, ◌+◌, ◌==◌, if◌then◌else◌, none, [], ◌∷◌, refl, arith}
use umpi.Iovec.{Iovec, entry, id_int, id_scattered}
use umpi.Iovec.Shape.{IsIovec, contiguous, scattered}
use umpi.World.{Cookie, Process, World, not_waiting}
use umpi.Transfer.{Kernel}
use umpi.Transfer.Segments.{sum_bytes}
use umpi.Transfer.Delivery.{gather, scatter, Reliable}

-- A kernel that does every transfer.
abbrev pub copying : Kernel
copying = record {
  writev = λ me pid l r m. (sum_bytes l, scatter m pid r (gather m me l));
  readv = λ me pid l r m. (sum_bytes l, scatter m me l (gather m pid r));
}

pub copying-Reliable : Reliable copying
copying-Reliable = record {
  copies = record { writes = λ me pid l r m all. refl; reads = λ me pid l r m all. refl };
  writes_all = λ me pid l r m room. refl;
  reads_all = λ me pid l r m room. refl;
}

-- MPI_INT, and a type of two segments.
abbrev pub ints : Iovec
ints = entry id_int 4 ∷ []

pub ints-IsIovec : IsIovec ints
ints-IsIovec = contiguous id_int 4 (λ e. omega (arith, e)) (omega arith)

abbrev pub two_parts : Iovec
two_parts = entry id_scattered 2 ∷ entry 16 8 ∷ entry 0 4 ∷ entry 8 4 ∷ []

pub two_parts-IsIovec : IsIovec two_parts
two_parts-IsIovec =
    scattered 16 (entry 0 4 ∷ entry 8 4 ∷ []) (omega arith) (omega arith) (omega arith)
      (omega arith, (omega arith, tt))

-- Process `r` with nothing in its lists.
abbrev pub quiet : ℕ → Process
quiet r = record {
  pid = 1000 + r;
  free = [];
  inbox = [];
  outbox = [];
  pending = [];
  waiting = none;
  waiting_for = not_waiting;
  signals = 0;
}

-- Three numbers that process 0 sent with tag 7.
abbrev pub message : Cookie
message = record {
  owner = 0;
  buf = 100;
  iovec = ints;
  size = 3;
  count = 3;
  tag = 7;
  src = 0;
  err = 0;
  used = 1;
  busy = 1;
}

-- A receive of up to five numbers that process 1 waits for.
abbrev pub wanted : Cookie
wanted = record {
  owner = 1;
  buf = 200;
  iovec = ints;
  size = 5;
  count = 5;
  tag = 7;
  src = 0;
  err = 0;
  used = 1;
  busy = 1;
}

abbrev pub silent : World
silent = record { cookie = λ c. message; process = quiet; memory = λ pid a. a }

-- The message waits in the inbox of process 1.
abbrev pub sent : World
sent = record {
  cookie = λ c. message;
  process = λ r. if r == 1 then record (quiet 1) { inbox = 5 ∷ [] } else quiet r;
  memory = λ pid a. a;
}

-- The receive waits in the outbox of process 1.
abbrev pub asked : World
asked = record {
  cookie = λ c. wanted;
  process = λ r. if r == 1 then record (quiet 1) { outbox = 5 ∷ [] } else quiet r;
  memory = λ pid a. a;
}

-- The message is done and process 1, which is not its owner, holds it.
abbrev pub done : World
done = record {
  cookie = λ c. record message { busy = 0 };
  process = λ r. if r == 1 then record (quiet 1) { pending = 5 ∷ [] } else quiet r;
  memory = λ pid a. a;
}
