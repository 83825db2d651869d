-- ===== src/Pool/Blocks.antt =====
-- The blocks of a pool: those in the free lists and those that clients hold never overlap.
use umpi.Base.{
  ℕ, suc, ◌+◌, ◌*◌, ◌≤◌, ◌<◌, ◌^◌, ◌≡◌, refl, sym, ap, subst, ◌∙◌, ◌≢◌, ◌⊎◌, inl, inr, List, [],
  ◌∷◌, arith, occurs, update, update_self, update_other, ℕ_discrete, sub64, dec_lt,
}
use umpi.Pool.{Pool, pop, aligned, list}
use umpi.Pool.Sizes.{aligned_lem}
use umpi.Pool.Stacks.{Stands, pop-Stands}

-- The size in bytes of a block of class `i`.
abbrev pub width : ℕ → ℕ
width i = 16 * suc i

-- How often an address stands among the free blocks and the blocks of clients of a class.
abbrev pub owned : (ℕ → List ℕ) → (ℕ → List ℕ) → ℕ → ℕ → ℕ
owned free live i a = occurs a (free i) + occurs a (live i)

-- `free` and `live` are the free blocks and the blocks of clients, by class; the pool's memory
-- reaches from `base` to `limit`, and what is below `begin_` has been given out once.
pub record Inv (base limit : ℕ) (p : Pool) (free live : ℕ → List ℕ) : Type 0 where
  pub stands : Stands p free
  pub once : (i a : ℕ) → owned free live i a ≤ 1
  pub inside : (i a : ℕ) → 0 < owned free live i a → (base ≤ a) × (a + width i ≤ p.begin)
  pub apart :
      (i j a b : ℕ)
      → 0 < owned free live i a
      → 0 < owned free live j b
      → ((a ≡ b) × (i ≡ j)) ⊎ (a + width i ≤ b) ⊎ (b + width j ≤ a)
  pub start : base ≤ p.begin
  pub room : p.begin + p.space ≡ limit
  pub small : limit < 2 ^ 63

pub occurs_cons : (d c : ℕ) (cs : List ℕ) → occurs d (c ∷ cs) ≡ occurs d (c ∷ []) + occurs d cs
occurs_cons d c cs = omega arith

occurs_self : (c : ℕ) → occurs c (c ∷ []) ≡ 1
occurs_self c = ground arith

occurs_other : (d c : ℕ) → d ≢ c → occurs d (c ∷ []) ≡ 0
occurs_other d c ne = ground arith

-- If the same blocks are owned, only the free lists need a look.
pub same_owned :
    {base limit : ℕ} {p p' : Pool} {free live free' live' : ℕ → List ℕ}
    → Inv base limit p free live
    → Stands p' free'
    → p'.begin ≡ p.begin
    → p'.space ≡ p.space
    → ((i a : ℕ) → owned free' live' i a ≡ owned free live i a)
    → Inv base limit p' free' live'
same_owned inv st b s same = record {
  stands = st;
  once = λ i a. omega (arith, same i a, inv.once i a);
  inside = λ i a h. let (lo, hi) = inv.inside i a (omega (arith, same i a)) in (lo, omega arith);
  apart = λ i j a c h k. inv.apart i j a c (omega (arith, same i a)) (omega (arith, same j c));
  start = omega (arith, inv.start);
  room = omega (arith, inv.room);
  small = inv.small;
}

-- A block that `alloc` gave: a client's from now on, and no client's before; long enough, inside
-- the pool's memory, and apart from all other blocks of clients.
pub record Given (base limit len a : ℕ) (p' : Pool) (free live : ℕ → List ℕ) : Type 0 where
  pub free_after : ℕ → List ℕ
  pub inv :
      Inv base limit p' free_after
        (update live (list (aligned len)) (a ∷ live (list (aligned len))))
  pub unused : (i : ℕ) → occurs a (live i) ≡ 0
  pub above : base ≤ a
  pub below : a + len ≤ limit
  pub disjoint : (i b : ℕ) → 0 < occurs b (live i) → (a + len ≤ b) ⊎ (b + width i ≤ a)

module _ {base limit : ℕ} {p : Pool} {free live : ℕ → List ℕ}
    (inv : Inv base limit p free live) where
  -- Taking `a`, the top of the stack of class `i`.
  pub take_top :
      (i a : ℕ) (xs : List ℕ)
      → free i ≡ a ∷ xs
      → Inv base limit (pop i p) (update free i xs) (update live i (a ∷ live i))
  unfolding pop
  take_top i a xs e = same_owned inv (pop-Stands i a xs p free inv.stands e).1 refl refl λ j b.
      elim (ℕ_discrete j i) [
        | yes eq ↦ rw eq (
            rw (update_self free i xs, update_self live i (a ∷ live i))
              (omega (arith, ap (occurs b) e)))
        | no ne ↦ rw (update_other free i j xs ne, update_other live i j (a ∷ live i) ne) refl
      ]

  -- What has not been given out is owned by none.
  begin-unowned : (j : ℕ) → owned free live j p.begin ≡ 0
  begin-unowned j = elim (dec_lt 0 (owned free live j p.begin)) [
    | yes h ↦ absurd (omega (arith, (inv.inside j p.begin h).1))
    | no h ↦ omega arith
  ]

  -- With `begin_` given out, each address is owned as before, or it is the new block.
  new_cases :
      (i j b : ℕ)
      → (owned free (update live i (p.begin ∷ live i)) j b ≡ owned free live j b)
        ⊎ ((j ≡ i) × (b ≡ p.begin) × (owned free (update live i (p.begin ∷ live i)) j b ≡ 1))
  new_cases i j b = elim (ℕ_discrete j i) [
    | no ne ↦ inl (rw (update_other live i j (p.begin ∷ live i) ne) refl)
    | yes e ↦ elim (ℕ_discrete b p.begin) [
      | yes same ↦ inr (
        e,
        same,
        rw (same, e, update_self live i (p.begin ∷ live i))
            (omega
              (arith, begin-unowned i, occurs_cons p.begin p.begin (live i), occurs_self p.begin)),
      )
      | no other ↦ inl (
          rw (e, update_self live i (p.begin ∷ live i))
            (omega (arith, occurs_cons b p.begin (live i), occurs_other b p.begin other)))
    ]
  ]

  -- Taking new memory for a block of class `i`.
  pub take_new :
      (i : ℕ)
      → width i ≤ p.space
      → Inv base limit
          (record p { begin = p.begin + width i; space = sub64 p.space (width i) })
          free
          (update live i (p.begin ∷ live i))
  take_new i fits = record {
    stands = record {
      linked = inv.stands.linked;
      counted = inv.stands.counted;
      short = inv.stands.short;
    };
    once = λ j b. elim (new_cases i j b) [
      | inl e ↦ omega (arith, e, inv.once j b)
      | inr e ↦ omega (arith, e.2)
    ];
    inside = λ j b h. elim (new_cases i j b) [
      | inl e ↦ let (lo, hi) = inv.inside j b (omega (arith, e)) in (lo, omega arith)
      | inr e ↦ (rw (e.1) inv.start, rw (e.0, e.1) (omega arith))
    ];
    apart = λ j k b c h g. elim (new_cases i j b) [
      | inl e ↦ elim (new_cases i k c) [
        | inl f ↦ inv.apart j k b c (omega (arith, e)) (omega (arith, f))
        | inr f ↦ inr (inl (rw (f.1) (inv.inside j b (omega (arith, e))).1))
      ]
      | inr e ↦ elim (new_cases i k c) [
        | inl f ↦ inr (inr (rw (e.1) (inv.inside k c (omega (arith, f))).1))
        | inr f ↦ inl (e.1 ∙ sym f.1, e.0 ∙ sym f.0)
      ]
    ];
    start = omega (arith, inv.start);
    room = omega (arith, inv.room, inv.small, fits);
    small = inv.small;
  }

  -- The block at the top of a stack is given.
  pub pop-Given :
      (len a : ℕ) (xs : List ℕ)
      → 0 < len
      → len < 2 ^ 63
      → free (list (aligned len)) ≡ a ∷ xs
      → Given base limit len a (pop (list (aligned len)) p) free live
  pop-Given len a xs some_len small e =
      let i = list (aligned len) in
      let mine : 0 < owned free live i a =
        omega (arith, ap (occurs a) e, occurs_cons a a xs, occurs_self a) in
      let free_one : 1 ≤ occurs a (free i) =
        omega (arith, ap (occurs a) e, occurs_cons a a xs, occurs_self a) in
      let sizes = aligned_lem len some_len small in
      record {
        free_after = update free i xs;
        inv = take_top i a xs e;
        unused = λ j. elim (dec_lt 0 (occurs a (live j))) [
          | no h ↦ omega arith
          | yes h ↦ elim (inv.apart i j a a mine (omega arith)) [
            | inl same ↦
                absurd
                  (omega (arith, inv.once i a, subst (λ k. 0 < occurs a (live k)) (sym same.1) h))
            | inr (inl l) ↦ absurd (omega (arith, l))
            | inr (inr l) ↦ absurd (omega (arith, l))
          ]
        ];
        above = (inv.inside i a mine).0;
        below = omega (arith, (inv.inside i a mine).1, inv.room, sizes);
        disjoint = λ j b h. elim (inv.apart i j a b mine (omega arith)) [
          | inl same ↦ absurd (
              omega (
                arith,
                inv.once i a,
                subst (λ k. 0 < occurs b (live k)) (sym same.1) h,
                ap (λ c. occurs c (live i)) same.0,
              ))
          | inr (inl l) ↦ inl (omega (arith, l, sizes))
          | inr (inr l) ↦ inr l
        ];
      }

  -- New memory is given.
  pub begin-Given :
      (len : ℕ)
      → 0 < len
      → len < 2 ^ 63
      → aligned len ≤ p.space
      → Given base limit len p.begin
          (record p { begin = p.begin + aligned len; space = sub64 p.space (aligned len) })
          free
          live
  begin-Given len some_len small fits =
      let i = list (aligned len) in
      let sizes = aligned_lem len some_len small in
      record {
        free_after = free;
        inv =
            subst
              (λ n.
                Inv base limit (record p { begin = p.begin + n; space = sub64 p.space n }) free
                  (update live i (p.begin ∷ live i)))
              (sym sizes.0) (take_new i (omega (arith, sizes)));
        unused = λ j. omega (arith, begin-unowned j);
        above = inv.start;
        below = omega (arith, inv.room, sizes);
        disjoint = λ j b h. inr (inv.inside j b (omega arith)).1;
      }
