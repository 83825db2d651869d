-- ===== src/Tests/Blocks.antt =====
-- The properties of the pool and of the collective slots at samples.
use umpi.Base.{
  false, ℕ, ◌+◌, ◌==◌, List, [], ◌∷◌, ◌≡◌, refl, ◌<◌, arith, inl, update, occurs, ◌≤◌, ◌⊎◌,
  if◌then◌else◌,
}
use umpi.Pool.Reuse.{alloc-dealloc}
use umpi.Pool.{
  new_pool, std_align, Pool, block, alloc, dealloc, done, aligned, align, list, list_size,
}
use umpi.Pool.Blocks.{Inv, owned, width}
use umpi.Pool.Histories.{Clients, gets, History, opened, after, history_apart}
use umpi.Collect.{Slots}

-- A new pool of 1000 bytes at 4096.
abbrev fresh : Pool
fresh = record { first = λ i. 0; count = λ i. 0; space = 1000; begin = 4096; memory = λ a. 0 }

abbrev nothing : ℕ → List ℕ
nothing i = []

alloc-dealloc_example :
    (q r : Pool) × (dealloc 88 4096 20 fresh ≡ done q)
    × (alloc 88 20 q ≡ block 4096 r)
    × ((j : ℕ) → (r.first j ≡ fresh.first j) × (r.count j ≡ fresh.count j))
unfolding list aligned align list_size
alloc-dealloc_example = alloc-dealloc 88 4096 20 fresh (omega arith) (omega arith) (omega arith)

-- The pool with one block of 32 bytes given out.
abbrev given : Pool
given = record { first = λ i. 0; count = λ i. 0; space = 968; begin = 4128; memory = λ a. 0 }

abbrev one : ℕ → List ℕ
one i = if i == 1 then 4096 ∷ [] else []

one_owner : (i a : ℕ) → 0 < owned nothing one i a → (i ≡ 1) × (a ≡ 4096)
one_owner i a h = ground (arith, h)

given-Inv : Inv 4096 5096 given nothing one
given-Inv = record {
  stands = record { linked = λ i. tt; counted = λ i. refl; short = λ i. omega arith };
  once = λ i a. ground arith;
  inside = λ i a h. (omega (arith, one_owner i a h), omega (arith, one_owner i a h));
  apart = λ i j a b h k. inl (
    ground (arith, one_owner i a h, one_owner j b k),
    ground (arith, one_owner i a h, one_owner j b k),
  );
  start = omega arith;
  room = refl;
  small = omega arith;
}

-- Slot 1 is open for the ticket 1, with one request.
abbrev slots : Slots
slots = record {
  ticket = 1;
  slots = λ i. record {
    ticket = 1;
    joined = 1;
    box = if i == 1 then 5 ∷ [] else [];
    displs = λ k. 0;
    locked = false;
  };
}

abbrev closed : Slots
closed = record {
  ticket = 0;
  slots = λ i. record { ticket = 0; joined = 0; box = []; displs = λ k. 0; locked = false };
}

abbrev one_client : Clients
one_client = record { pool = given; live = update nothing (list (aligned 20)) (4096 ∷ []) }

-- Two clients have got blocks of 20 and 40 bytes.
abbrev two_clients : Clients
two_clients = record {
  pool = record { first = λ i. 0; count = λ i. 0; space = 920; begin = 4176; memory = λ a. 0 };
  live = update one_client.live (list (aligned 40)) (4128 ∷ one_client.live (list (aligned 40)));
}

one_request : History 88 4096 5096 1 one_client
unfolding alloc aligned align list list_size new_pool std_align
one_request = after (opened (λ a. 0)) (gets 20 4096 given (omega arith) refl refl)

two_requests : History 88 4096 5096 2 two_clients
unfolding alloc aligned align list list_size
two_requests = after one_request (gets 40 4128 two_clients.pool (omega arith) refl refl)

history_apart_example :
    (occurs 4096 (two_clients.live 1) ≡ 1)
    × (4096 ≤ 4096)
    × (4096 + width 1 ≤ 5096)
    × (((◌≡◌ {A = ℕ} 4096 4128) × (◌≡◌ {A = ℕ} 1 2))
        ⊎ (4096 + width 1 ≤ 4128)
        ⊎ (4128 + width 2 ≤ 4096))
unfolding list aligned align
history_apart_example =
    history_apart 88 4096 5096 2 two_clients 1 2 4096 4128 (omega arith) (omega arith) (omega arith)
      two_requests (omega arith) (omega arith)
