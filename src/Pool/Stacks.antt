-- ===== src/Pool/Stacks.antt =====
-- The linked lists of free blocks stand for stacks of addresses.
use umpi.Base.{
  ℕ, suc, ◌+◌, ◌<◌, ◌^◌, ◌≡◌, refl, ap, subst, ◌∙◌, ◌≢◌, List, [], ◌∷◌, arith, length, occurs,
  update, update_self, update_other, ℕ_discrete, add64, sub64,
}
use umpi.Pool.{Pool, push, pop}

-- From `head` the links in `memory` lead through the addresses of the list.
abbrev pub Chain : (ℕ → ℕ) → ℕ → List ℕ → Type 0
Chain memory head [] = Unit {0}
Chain memory head (a ∷ xs) = (head ≡ a) × Chain memory (memory a) xs

-- A write to an address that is not in the list changes nothing.
pub Chain-update :
    (memory : ℕ → ℕ) (head a v : ℕ) (xs : List ℕ)
    → occurs a xs ≡ 0
    → Chain memory head xs
    → Chain (update memory a v) head xs
Chain-update memory head a v [] out ch = tt
Chain-update memory head a v (b ∷ bs) out ch =
    let other : b ≢ a = λ e. absurd (ground (arith, e)) in
    (
      ch.0,
      rw (update_other memory a b v other)
          (Chain-update memory (memory b) a v bs (omega arith) ch.1),
    )

-- The lists and counters of a pool stand for a stack of each size class.
pub record Stands (p : Pool) (free : ℕ → List ℕ) : Type 0 where
  pub linked : (i : ℕ) → Chain p.memory (p.first i) (free i)
  pub counted : (i : ℕ) → p.count i ≡ length (free i)
  pub short : (i : ℕ) → length (free i) < 2 ^ 63

-- `push` puts an address that is in no list on its stack.
pub push-Stands :
    (i a : ℕ) (p : Pool) (free : ℕ → List ℕ)
    → Stands p free
    → ((j : ℕ) → occurs a (free j) ≡ 0)
    → length (free i) + 1 < 2 ^ 63
    → Stands (push i a p) (update free i (a ∷ free i))
unfolding push
push-Stands i a p free st out room = record {
  linked = λ j. elim (ℕ_discrete j i) [
    | yes e ↦ rw e (
        rw (update_self free i (a ∷ free i), update_self p.first i a)
          (
            refl,
            rw (update_self p.memory a (p.first i))
                (Chain-update p.memory (p.first i) a (p.first i) (free i) (out i) (st.linked i)),
          ))
    | no ne ↦
        rw (update_other free i j (a ∷ free i) ne, update_other p.first i j a ne)
          (Chain-update p.memory (p.first j) a (p.first i) (free j) (out j) (st.linked j))
  ];
  counted = λ j. elim (ℕ_discrete j i) [
    | yes e ↦ rw e (
        rw (update_self free i (a ∷ free i), update_self p.count i (add64 (p.count i) 1))
          (omega (arith, st.counted i)))
    | no ne ↦
        rw
          (update_other free i j (a ∷ free i) ne, update_other p.count i j (add64 (p.count i) 1) ne)
          (st.counted j)
  ];
  short = λ j. elim (ℕ_discrete j i) [
    | yes e ↦ rw e (rw (update_self free i (a ∷ free i)) (omega arith))
    | no ne ↦ rw (update_other free i j (a ∷ free i) ne) (st.short j)
  ];
}

-- `pop` takes the top of a stack that is not empty.
pub pop-Stands :
    (i a : ℕ) (xs : List ℕ) (p : Pool) (free : ℕ → List ℕ)
    → Stands p free
    → free i ≡ a ∷ xs
    → (p.first i ≡ a) × Stands (pop i p) (update free i xs)
unfolding pop
pop-Stands i a xs p free st e =
    let top : (p.first i ≡ a) × Chain p.memory (p.memory a) xs =
      subst (Chain p.memory (p.first i)) e (st.linked i) in
    let next : Chain p.memory (p.memory (p.first i)) xs = rw top.0 top.1 in
    let long : p.count i ≡ suc (length xs) = st.counted i ∙ ap length e in
    let some_room : suc (length xs) < 2 ^ 63 = omega (arith, st.short i, ap length e) in
    (
      top.0,
      record {
        linked = λ j. elim (ℕ_discrete j i) [
          | yes same ↦
              rw same
                (rw (update_self free i xs, update_self p.first i (p.memory (p.first i))) next)
          | no ne ↦
              rw (update_other free i j xs ne, update_other p.first i j (p.memory (p.first i)) ne)
                (st.linked j)
        ];
        counted = λ j. elim (ℕ_discrete j i) [
          | yes same ↦ rw same (
              rw (update_self free i xs, update_self p.count i (sub64 (p.count i) 1)) (omega arith))
          | no ne ↦
              rw (update_other free i j xs ne, update_other p.count i j (sub64 (p.count i) 1) ne)
                (st.counted j)
        ];
        short = λ j. elim (ℕ_discrete j i) [
          | yes same ↦ rw same (rw (update_self free i xs) (omega arith))
          | no ne ↦ rw (update_other free i j xs ne) (st.short j)
        ];
      },
    )
