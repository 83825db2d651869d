-- ===== src/Collect/Scan/Order.antt =====
-- The order in which a scan goes through the requests.
use umpi.Base.{
  ℕ, ◌≤◌, ◌<◌, ◌≡◌, ◌^◌, refl, List, [], ◌∷◌, arith, All, occurs, Bool-cases, inl, inr, lt32,
}
use umpi.Collect.Scan.{insert_by, sort_by}

-- Each entry's key is at most those behind it.
abbrev pub Sorted : (ℕ → ℕ) → List ℕ → Type 0
Sorted key [] = Unit {0}
Sorted key (c ∷ cs) = All (λ d. key c ≤ key d) cs × Sorted key cs

insert-All :
    (key : ℕ → ℕ) (k c : ℕ) (cs : List ℕ)
    → k ≤ key c
    → All (λ d. k ≤ key d) cs
    → All (λ d. k ≤ key d) (insert_by key c cs)
unfolding insert_by
insert-All key k c [] le h = (le, tt)
insert-All key k c (d ∷ ds) le (h, hs) = elim (Bool-cases (lt32 (key d) (key c))) [
  | inl e ↦ rw e (h, insert-All key k c ds le hs)
  | inr e ↦ rw e (le, (h, hs))
]

All-le :
    (key : ℕ → ℕ) (a b : ℕ) (cs : List ℕ)
    → a ≤ b
    → All (λ d. b ≤ key d) cs
    → All (λ d. a ≤ key d) cs
All-le key a b [] le h = tt
All-le key a b (c ∷ cs) le (h, hs) = (omega (arith, le, h), All-le key a b cs le hs)

insert-Sorted :
    (key : ℕ → ℕ) (c : ℕ) (cs : List ℕ)
    → ((d : ℕ) → key d < 2 ^ 31)
    → Sorted key cs
    → Sorted key (insert_by key c cs)
unfolding insert_by
insert-Sorted key c [] small h = (tt, tt)
insert-Sorted key c (d ∷ ds) small (h, hs) = elim (Bool-cases (lt32 (key d) (key c))) [
  | inl e ↦ rw e (
    insert-All key (key d) c ds (ground (arith, e, small c, small d)) h,
    insert-Sorted key c ds small hs,
  )
  | inr e ↦
      let le : key c ≤ key d = ground (arith, e, small c, small d) in
      rw e ((le, All-le key (key c) (key d) ds le h), (h, hs))
]

occurs-insert :
    (key : ℕ → ℕ) (a c : ℕ) (cs : List ℕ) → occurs a (insert_by key c cs) ≡ occurs a (c ∷ cs)
unfolding insert_by
occurs-insert key a c [] = refl
occurs-insert key a c (d ∷ ds) = ground (arith, occurs-insert key a c ds)

-- For ranks that are not negative, the scan goes through the same requests, each as often, in the
-- order of their ranks.
pub sort_by_lem :
    (key : ℕ → ℕ) (cs : List ℕ)
    → ((d : ℕ) → key d < 2 ^ 31)
    → Sorted key (sort_by key cs) × ((a : ℕ) → occurs a (sort_by key cs) ≡ occurs a cs)
unfolding sort_by
sort_by_lem key [] small = (tt, λ a. refl)
sort_by_lem key (c ∷ cs) small =
    let (sorted, same) = sort_by_lem key cs small in
    (
      insert-Sorted key c (sort_by key cs) small sorted,
      λ a. omega (arith, occurs-insert key a c (sort_by key cs), same a),
    )
