-- ===== src/Startup/Places.antt =====
-- Where the constructor of `struct shared` puts the processes and the ints of the slots.
use umpi.Base.{
  ℕ, ◌+◌, ◌^◌, ◌≤◌, ◌<◌, ◌≡◌, ◌≢◌, sym, ap, subst, ◌∙◌, ◌⊎◌, inl, inr, ◌&&◌, Option, none, some, [],
  ◌∷◌, arith, mul64, sext32, occurs, update_self, dec_lt, Option-cases, Bool-cases,
}
use umpi.Pool.{Pool, new_pool, alloc, allocate}
use umpi.Pool.Sizes.{aligned_lem}
use umpi.Pool.Start.{no_blocks}
use umpi.Pool.Histories.{Clients, History, opened, history_apart}
use umpi.Launcher.{Sizes}
use umpi.Startup.{
  Shared, Answers, taken, take_displs, with_displs, with_procs, new_shared, new_barrier,
  new_mutexes, node_size, slot_count, object,
}
use umpi.Startup.Layout.{class_of, with_block, taken-History, displs-History}

-- The allocations that have led to an object.
record Made (k : Sizes) (n : ℕ) (p : Pool) (s : Shared) : Type 0 where
  procs : ℕ × Pool
  displs : (ℕ → ℕ) × Pool
  first : taken p (alloc (node_size k) (mul64 n k.process) p) ≡ some procs
  then_ : take_displs (node_size k) n slot_count 0 (λ i. 0) procs.1 ≡ some displs
  procs_ : s.procs ≡ procs.0
  displs_ : s.displs ≡ displs.0

abbrev procs_of : Option Shared → ℕ
procs_of none = 0
procs_of (some s) = s.procs

abbrev displs_of : Option Shared → ℕ → ℕ
displs_of none = λ i. 0
displs_of (some s) = s.displs

with_displs-Made :
    (k : Sizes) (size n : ℕ) (p : Pool) (s : Shared) (r : ℕ × Pool)
    → taken p (alloc (node_size k) (mul64 n k.process) p) ≡ some r
    → with_displs k size n r ≡ some s
    → Made k n p s
unfolding with_displs object
with_displs-Made k size n p s r f e =
    elim (Option-cases (take_displs (node_size k) n slot_count 0 (λ i. 0) r.1)) [
      | inl g ↦
          let stops : with_displs k size n r ≡ none = ap (object size r.0) g in
          absurd (ground (arith, e, stops))
      | inr (d, g) ↦
          let made : object size r.0 (some d) ≡ some s = sym (ap (object size r.0) g) ∙ e in
          record {
            procs = r;
            displs = d;
            first = f;
            then_ = g;
            procs_ = sym (ap procs_of made);
            displs_ = sym (ap displs_of made);
          }
    ]

-- What follows the first allocation.
abbrev next : Sizes → ℕ → ℕ → Option (ℕ × Pool) → Option Shared
next k size n x = elim x [ none ↦ none | some r ↦ with_displs k size n r ]

-- Two different blocks of clients, of `la` and `lb` bytes.
blocks_apart :
    (node start end n : ℕ) (c : Clients) (a b la lb : ℕ)
    → start + 31 ≤ end
    → end < 2 ^ 63
    → n < 2 ^ 63
    → History node start end n c
    → (0 < la) × (la < 2 ^ 63)
    → (0 < lb) × (lb < 2 ^ 63)
    → 0 < occurs a (c.live (class_of la))
    → 0 < occurs b (c.live (class_of lb))
    → (class_of la ≡ class_of lb → a ≢ b)
    → (start ≤ a) × (a + la ≤ end) × ((a + la ≤ b) ⊎ (b + lb ≤ a))
blocks_apart node start end n c a b la lb room small few h (some_a, short_a) (some_b, short_b) mine
      yours other =
    let (_, low, high, apart) =
      history_apart node start end n c (class_of la) (class_of lb) a b room small few h mine
        yours in
    let sizes_a = aligned_lem la some_a short_a in
    let sizes_b = aligned_lem lb some_b short_b in
    (
      low,
      omega (arith, high, sizes_a),
      elim apart [
        | inl same ↦ absurd (other same.1 same.0)
        | inr (inl l) ↦ inl (omega (arith, l, sizes_a))
        | inr (inr l) ↦ inr (omega (arith, l, sizes_b))
      ],
    )

with_procs-Made :
    (k : Sizes) (size n : ℕ) (p : Pool) (s : Shared) → with_procs k size n p ≡ some s → Made k n p s
unfolding with_procs allocate
with_procs-Made k size n p s e =
    elim (Option-cases (taken p (alloc (node_size k) (mul64 n k.process) p))) [
      | inl f ↦
          let stops : with_procs k size n p ≡ none = ap (next k size n) f in
          absurd (ground (arith, e, stops))
      | inr (r, f) ↦ with_displs-Made k size n p s r f (sym (ap (next k size n) f) ∙ e)
    ]

new_shared-Made :
    (k : Sizes) (sync : ℕ → Answers) (size start end : ℕ) (memory : ℕ → ℕ) (s : Shared)
    → new_shared k sync size start end memory ≡ some s
    → Made k (sext32 size) (new_pool start end memory) s
unfolding new_shared
new_shared-Made k sync size start end memory s e =
    elim (Bool-cases (new_barrier (sync 0) && new_mutexes sync (2 + slot_count) 1)) [
      | inl f ↦
          with_procs-Made k size (sext32 size) (new_pool start end memory) s (ground (arith, e, f))
      | inr f ↦ absurd (ground (arith, e, f))
    ]

-- A history whose clients hold the processes at `a`, of `la` bytes, and the ints of the slots at `d`, of
-- `lb` bytes each, all different.
record Laid (node start end la lb a : ℕ) (d : ℕ → ℕ) : Type 0 where
  steps : ℕ
  clients : Clients
  few : steps < 2 ^ 63
  history : History node start end steps clients
  procs_held : 0 < occurs a (clients.live (class_of la))
  displs_held : (i : ℕ) → i < slot_count → 0 < occurs (d i) (clients.live (class_of lb))
  procs_differ : (i : ℕ) → i < slot_count → class_of la ≡ class_of lb → a ≢ d i
  displs_differ : (i j : ℕ) → i < slot_count → j < slot_count → i ≢ j → d i ≢ d j

Made-Laid :
    (k : Sizes) (n start end : ℕ) (memory : ℕ → ℕ) (s : Shared)
    → start + 31 ≤ end
    → end < 2 ^ 63
    → (0 < mul64 n k.process) × (mul64 n k.process < 2 ^ 63)
    → (0 < mul64 n 4) × (mul64 n 4 < 2 ^ 63)
    → (m : Made k n (new_pool start end memory) s)
    → Laid (node_size k) start end (mul64 n k.process) (mul64 n 4) m.procs.0 m.displs.0
Made-Laid k n start end memory s room small (some_procs, procs_short) (some_ints, ints_short) m =
    let la = mul64 n k.process in
    let held : with_block m.procs.0 la no_blocks (class_of la) ≡ m.procs.0 ∷ [] =
      update_self no_blocks (class_of la) (m.procs.0 ∷ []) in
    let mine : 0 < occurs m.procs.0 (with_block m.procs.0 la no_blocks (class_of la)) =
      rw held (ground arith) in
    let (h, _) =
      taken-History (node_size k) start end room small la 0 (new_pool start end memory) no_blocks
        m.procs some_procs procs_short (omega arith) (opened memory) m.first in
    let (steps, live, sum, last, placed) =
      displs-History (node_size k) start end room small n slot_count 0 1 (λ i. 0) m.procs.1
        (with_block m.procs.0 la no_blocks) m.displs some_ints ints_short (omega arith) h m.then_ in
    record {
      steps = steps;
      clients = record { pool = m.displs.1; live = live };
      few = omega (arith, sum);
      history = last;
      procs_held = placed.kept m.procs.0 (class_of la) mine;
      displs_held = λ i low. placed.held i (omega arith) low;
      procs_differ = λ i low same eq. absurd (
          omega (
            arith,
            placed.fresh i (omega arith) low,
            subst (λ x. 0 < occurs x (with_block m.procs.0 la no_blocks (class_of (mul64 n 4)))) eq
                (subst (λ x. 0 < occurs m.procs.0 (with_block m.procs.0 la no_blocks x)) same mine),
          ));
      displs_differ = λ i j low high ne eq. elim (dec_lt i j) [
        | yes less ↦ placed.distinct i j (omega arith) less high eq
        | no more ↦ placed.distinct j i (omega arith) (omega (arith, ne, more)) low (sym eq)
      ];
    }

-- The constructor of `struct shared` over the memory from `start` up to `end`, of at least 31 bytes,
-- where the processes and the ints of a slot take some bytes, and less than 2 ^ 63: if it returns,
-- the processes, the ints of a slot and those of another lie in this memory and do not overlap.
pub new_shared-apart :
    (k : Sizes) (sync : ℕ → Answers) (size start end : ℕ) (memory : ℕ → ℕ) (s : Shared) (i j : ℕ)
    → start + 31 ≤ end
    → end < 2 ^ 63
    → 0 < mul64 (sext32 size) k.process
    → mul64 (sext32 size) k.process < 2 ^ 63
    → 0 < mul64 (sext32 size) 4
    → mul64 (sext32 size) 4 < 2 ^ 63
    → new_shared k sync size start end memory ≡ some s
    → i < slot_count
    → j < slot_count
    → i ≢ j
    → (start ≤ s.procs)
      × (s.procs + mul64 (sext32 size) k.process ≤ end)
      × (start ≤ s.displs i)
      × (s.displs i + mul64 (sext32 size) 4 ≤ end)
      × ((s.procs + mul64 (sext32 size) k.process ≤ s.displs i)
          ⊎ (s.displs i + mul64 (sext32 size) 4 ≤ s.procs))
      × ((s.displs i + mul64 (sext32 size) 4 ≤ s.displs j)
          ⊎ (s.displs j + mul64 (sext32 size) 4 ≤ s.displs i))
new_shared-apart k sync size start end memory s i j room small some_procs procs_short some_ints
      ints_short e low high other =
    let m = new_shared-Made k sync size start end memory s e in
    let la = mul64 (sext32 size) k.process in
    let lb = mul64 (sext32 size) 4 in
    let l : Laid (node_size k) start end la lb s.procs s.displs =
      subst (λ a. Laid (node_size k) start end la lb a s.displs) (sym m.procs_)
        (subst (Laid (node_size k) start end la lb m.procs.0) (sym m.displs_) (
          Made-Laid k (sext32 size) start end memory s room small (some_procs, procs_short)
            (some_ints, ints_short) m)) in
    let (a, b, c) =
      blocks_apart (node_size k) start end l.steps l.clients s.procs (s.displs i) la lb room small
        l.few l.history (some_procs, procs_short) (some_ints, ints_short) l.procs_held
        (l.displs_held i low) (l.procs_differ i low) in
    let (f, g, d) =
      blocks_apart (node_size k) start end l.steps l.clients (s.displs i) (s.displs j) lb lb room
        small l.few l.history (some_ints, ints_short) (some_ints, ints_short) (l.displs_held i low)
        (l.displs_held j high) (λ same. l.displs_differ i j low high other) in
    (a, b, f, g, c, d)
