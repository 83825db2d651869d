-- ===== src/Startup/Layout.antt =====
-- The allocations of the constructor of `struct shared` as a history of the pool.
use umpi.Base.{
  ℕ, zero, suc, ◌+◌, ◌^◌, ◌≤◌, ◌<◌, ◌≡◌, ◌≢◌, refl, sym, ap, subst, ◌∙◌, ◌⊎◌, inl, inr, Option,
  none, some, List, ◌∷◌, arith, mul64, occurs, update, update_self, update_other, ℕ_discrete,
  Option-cases,
}
use umpi.Pool.{Pool, Allocation, null, block, no_memory, alloc, aligned, list}
use umpi.Pool.Histories.{History, gets, after, history_apart}
use umpi.Startup.{taken, take_displs}
use umpi.Startup.Room.{take_displs-step}

taken_cases :
    (p : Pool) (r : Allocation) (t : ℕ × Pool)
    → taken p r ≡ some t
    → (r ≡ block t.0 t.1) ⊎ (r ≡ null)
unfolding taken
taken_cases p null t e = inr refl
taken_cases p (block a q) t e = inl (ground (arith, e))
taken_cases p no_memory t e = absurd (ground (arith, e))

alloc_not_null : (node len : ℕ) (p : Pool) → 0 < len → alloc node len p ≢ null
unfolding alloc
alloc_not_null node len p some_len e = absurd (ground (arith, some_len, e))

-- The class of a length.
abbrev pub class_of : ℕ → ℕ
class_of len = list (aligned len)

-- One more block `a` of `len` bytes.
abbrev pub with_block : ℕ → ℕ → (ℕ → List ℕ) → ℕ → List ℕ
with_block a len live = update live (class_of len) (a ∷ live (class_of len))

module _ (node start end : ℕ) (room : start + 31 ≤ end) (small : end < 2 ^ 63) where
  -- An allocation goes on with a history, and gives a block that no client has.
  pub taken-History :
      (len n : ℕ) (p : Pool) (live : ℕ → List ℕ) (t : ℕ × Pool)
      → 0 < len
      → len < 2 ^ 63
      → suc n < 2 ^ 63
      → History node start end n (record { pool = p; live = live })
      → taken p (alloc node len p) ≡ some t
      → History node start end (suc n) (record { pool = t.1; live = with_block t.0 len live })
        × (occurs t.0 (live (class_of len)) ≡ 0)
  taken-History len n p live t some_len short few h e =
      elim (taken_cases p (alloc node len p) t e) [
        | inr nothing ↦ absurd (alloc_not_null node len p some_len nothing)
        | inl got ↦
            let next : History node start end (suc n)
                (record { pool = t.1; live = with_block t.0 len live }) =
              after h (gets len t.0 t.1 short got refl) in
            let self : with_block t.0 len live (class_of len) ≡ t.0 ∷ live (class_of len) =
              update_self live (class_of len) (t.0 ∷ live (class_of len)) in
            let some_one : 0 < occurs t.0 (with_block t.0 len live (class_of len)) =
              rw self (ground arith) in
            let once =
              (history_apart node start end (suc n)
                (record { pool = t.1; live = with_block t.0 len live }) (class_of len)
                (class_of len) t.0 t.0 room small few next some_one some_one).0 in
            (next, ground (arith, once, self))
      ]

-- What the loop does to `displs_` from the slot `i` on, for `m` slots: each gets a block of `len`
-- bytes that no client had, no two the same, and clients keep theirs.
pub record Placed (len i m : ℕ) (displs displs' : ℕ → ℕ) (live live' : ℕ → List ℕ) : Type 0 where
  pub held : (j : ℕ) → i ≤ j → j < i + m → 0 < occurs (displs' j) (live' (class_of len))
  pub kept : (a c : ℕ) → 0 < occurs a (live c) → 0 < occurs a (live' c)
  pub fresh : (j : ℕ) → i ≤ j → j < i + m → occurs (displs' j) (live (class_of len)) ≡ 0
  pub distinct : (j k : ℕ) → i ≤ j → j < k → k < i + m → displs' j ≢ displs' k
  pub before : (j : ℕ) → j < i → displs' j ≡ displs j

occurs_tail : (a b : ℕ) (xs : List ℕ) → occurs b (a ∷ xs) ≡ 0 → (b ≢ a) × (occurs b xs ≡ 0)
occurs_tail a b xs e = (λ f. absurd (ground (arith, e, f)), ground (arith, e))

one_more_Placed :
    (len i m a : ℕ) (displs displs' : ℕ → ℕ) (live live' : ℕ → List ℕ)
    → occurs a (live (class_of len)) ≡ 0
    → Placed len (i + 1) m (update displs i a) displs' (with_block a len live) live'
    → Placed len i (suc m) displs displs' live live'
one_more_Placed len i m a displs displs' live live' new k =
    let self : with_block a len live (class_of len) ≡ a ∷ live (class_of len) =
      update_self live (class_of len) (a ∷ live (class_of len)) in
    let first : displs' i ≡ a = k.before i (omega arith) ∙ update_self displs i a in
    let later : (j : ℕ)
        → i + 1 ≤ j
        → j < i + 1 + m
        → (displs' j ≢ a) × (occurs (displs' j) (live (class_of len)) ≡ 0) =
      λ j low high.
        occurs_tail a (displs' j) (live (class_of len))
          (ap (occurs (displs' j)) (sym self) ∙ k.fresh j low high) in
    record {
      held = λ j low high. elim (ℕ_discrete j i) [
        | yes e ↦ rw (e, first) (k.kept a (class_of len) (rw self (ground arith)))
        | no ne ↦ k.held j (omega (arith, low, ne)) (omega (arith, high))
      ];
      kept = λ b c h. k.kept b c (elim (ℕ_discrete c (class_of len)) [
        | yes e ↦ rw (e, self) (ground (arith, subst (λ x. 0 < occurs b (live x)) e h))
        | no ne ↦ rw (update_other live (class_of len) c (a ∷ live (class_of len)) ne) h
      ]);
      fresh = λ j low high. elim (ℕ_discrete j i) [
        | yes e ↦ rw (e, first) new
        | no ne ↦ (later j (omega (arith, low, ne)) (omega (arith, high))).1
      ];
      distinct = λ j l low less high. elim (ℕ_discrete j i) [
        | yes e ↦ λ same.
            (later l (omega (arith, low, less)) (omega (arith, high))).0
              (sym same ∙ ap displs' e ∙ first)
        | no ne ↦ k.distinct j l (omega (arith, low, ne)) less (omega (arith, high))
      ];
      before = λ j low.
          k.before j (omega (arith, low)) ∙ update_other displs i j a (λ e. omega (arith, low, e));
    }

module _ (node start end : ℕ) (room : start + 31 ≤ end) (small : end < 2 ^ 63) where
  pub displs-History :
      (size m i n : ℕ) (displs : ℕ → ℕ) (p : Pool) (live : ℕ → List ℕ) (r : (ℕ → ℕ) × Pool)
      → 0 < mul64 size 4
      → mul64 size 4 < 2 ^ 63
      → n + m < 2 ^ 63
      → History node start end n (record { pool = p; live = live })
      → take_displs node size m i displs p ≡ some r
      → (n' : ℕ) × (live' : ℕ → List ℕ) × (n' ≡ n + m)
        × History node start end n' (record { pool = r.1; live = live' })
        × Placed (mul64 size 4) i m displs r.0 live live'
  unfolding take_displs
  displs-History size zero i n displs p live r some_len short few h e =
      let same : (displs, p) ≡ r = ground (arith, e) in
      (
        n,
        live,
        omega arith,
        subst (λ x. History node start end n (record { pool = x.1; live = live })) same h,
        record {
          held = λ j low high. absurd (omega (arith, low, high));
          kept = λ a c k. k;
          fresh = λ j low high. absurd (omega (arith, low, high));
          distinct = λ j k low less high. absurd (omega (arith, low, less, high));
          before = λ j low. ap (λ x. x.0 j) (sym same);
        },
      )
  displs-History size (suc m) i n displs p live r some_len short few h e =
      elim (Option-cases (taken p (alloc node (mul64 size 4) p))) [
        | inl f ↦
            let stops : take_displs node size (suc m) i displs p ≡ none =
              ap
                (λ x. elim x as (λ _. Option ((ℕ → ℕ) × Pool)) [
                  | none ↦ none
                  | some t ↦ take_displs node size m (i + 1) (update displs i t.0) t.1
                ])
                f in
            absurd (ground (arith, e, stops))
        | inr (t, f) ↦
            let (h', new) =
              taken-History node start end room small (mul64 size 4) n p live t some_len short
                (omega (arith, few)) h f in
            let (n', live', sum, last, placed) =
              displs-History size m (i + 1) (suc n) (update displs i t.0) t.1
                (with_block t.0 (mul64 size 4) live) r some_len short (omega (arith, few)) h'
                (sym (take_displs-step node size m i displs p t.0 t.1 f) ∙ e) in
            (
              n',
              live',
              omega (arith, sum),
              last,
              one_more_Placed (mul64 size 4) i m t.0 displs r.0 live live' new placed,
            )
      ]
