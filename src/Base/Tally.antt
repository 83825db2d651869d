-- ===== src/Base/Tally.antt =====
-- How many of the first numbers pass a test.
use Prim.Native.Nat.{ℕ, zero, suc, ◌<◌, ◌≤◌}
use mathlib.Core.Path.{◌≡◌, refl, sym, subst}
use mathlib.Core.Logic.{◌≢◌}
use mathlib.Core.Logic.{inl, inr}
use mathlib.Core.Bool.{Bool, true, false}
use native.Mathlib.Omega.{arith}
use native.Mathlib.Decide.{ℕ_discrete}
use umpi.Base.Tests.{if◌then◌else◌, Bool-cases}

unfoldable pub tally : (ℕ → Bool) → ℕ → ℕ
tally p zero = 0
tally p (suc n) = let rest = tally p n in if p n then suc rest else rest

pub tally_le : (p : ℕ → Bool) (n : ℕ) → tally p n ≤ n
unfolding tally
tally_le p zero = omega arith
tally_le p (suc n) = let rest = tally_le p n in ground (arith, rest)

-- If all pass, each one does.
pub tally_full : (p : ℕ → Bool) (n i : ℕ) → tally p n ≡ n → i < n → p i ≡ true
unfolding tally
tally_full p zero i all low = absurd (omega (arith, low))
tally_full p (suc n) i all low = elim (Bool-cases (p n)) [
  | inr e ↦ absurd (ground (arith, all, e, tally_le p n))
  | inl e ↦ elim (ℕ_discrete i n) [
    | yes same ↦ rw same e
    | no other ↦ tally_full p n i (ground (arith, all, e)) (omega (arith, low, other))
  ]
]

pub tally_none : (p : ℕ → Bool) (n : ℕ) → ((i : ℕ) → i < n → p i ≡ false) → tally p n ≡ 0
unfolding tally
tally_none p zero h = refl
tally_none p (suc n) h = rw (h n (omega arith)) (tally_none p n (λ i low. h i (omega arith)))

pub tally_same : (p q : ℕ → Bool) (n : ℕ) → ((i : ℕ) → i < n → q i ≡ p i) → tally q n ≡ tally p n
unfolding tally
tally_same p q zero h = refl
tally_same p q (suc n) h =
    let rest = tally_same p q n (λ i low. h i (omega arith)) in rw (h n (omega arith), rest) refl

-- One more passes.
pub tally_one_more :
    (p q : ℕ → Bool) (n r : ℕ)
    → r < n
    → p r ≡ false
    → q r ≡ true
    → ((i : ℕ) → i ≢ r → q i ≡ p i)
    → tally q n ≡ suc (tally p n)
unfolding tally
tally_one_more p q zero r low before after same = absurd (omega (arith, low))
tally_one_more p q (suc n) r low before after same = elim (ℕ_discrete n r) [
  | yes e ↦
      let rest = tally_same p q n (λ i less. same i (λ f. omega (arith, less, e, f))) in
      ground (
        arith,
        rest,
        subst (λ k. p k ≡ false) (sym e) before,
        subst (λ k. q k ≡ true) (sym e) after,
      )
  | no other ↦
      let rest = tally_one_more p q n r (omega (arith, low, other)) before after same in
      rw (same n other, rest) (ground arith)
]
