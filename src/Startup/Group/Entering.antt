-- ===== src/Startup/Group/Entering.antt =====
-- One more process comes to the barrier.
use umpi.Base.{
  ℕ, suc, ◌+◌, ◌*◌, ◌<◌, ◌≤◌, ◌≡◌, refl, ap, sym, ◌∙◌, ◌≢◌, ◌⊎◌, inl, inr, Bool, arith, update,
  update_self, update_other, ℕ_discrete, dec_lt, ◌==◌, tally, tally_full, tally_none,
  tally_one_more,
}
use umpi.World.{World}
use umpi.Startup.Group.{Group, Rounds, begin_wait}

pub update_cases {ℓ} :
    {A : Type ℓ} (f : ℕ → A) (r : ℕ) (v : A) (q : ℕ)
    → ((q ≡ r) × (update f r v q ≡ v)) ⊎ ((q ≢ r) × (update f r v q ≡ f q))
update_cases f r v q = elim (ℕ_discrete q r) [
  | yes e ↦ inl (e, rw e (update_self f r v))
  | no ne ↦ inr (ne, update_other f r q v ne)
]

module _ {n : ℕ} {pids : ℕ → ℕ} {lets : ℕ → ℕ → Bool} (s : Group) (k : Rounds n pids lets s) (r : ℕ)
    (mine : r < n) (here : s.entered r ≡ k.full) where
  one_more : tally (λ i. update s.entered r (s.entered r + 1) i == suc k.full) n ≡ suc k.extra
  one_more =
      tally_one_more (λ i. s.entered i == suc k.full)
        (λ i. update s.entered r (s.entered r + 1) i == suc k.full) n r mine (ground (arith, here))
        (rw (update_self s.entered r (s.entered r + 1)) (ground (arith, here)))
        (λ i ne. rw (update_other s.entered r i (s.entered r + 1) ne) refl)
      ∙ ap suc k.waiting

  bounds :
      (q : ℕ)
      → q < n
      → (k.full ≤ update s.entered r (s.entered r + 1) q)
        × (update s.entered r (s.entered r + 1) q ≤ k.full + 1)
  bounds q low = elim (update_cases s.entered r (s.entered r + 1) q) [
    | inl (e, u) ↦ (omega (arith, u, here), omega (arith, u, here))
    | inr (ne, u) ↦ (omega (arith, u, k.low q low), omega (arith, u, k.high q low))
  ]

  late_new :
      (q e : ℕ)
      → q < n
      → update s.entered r (s.entered r + 1) q ≡ suc e
      → (e * n ≤ update s.last r s.total q) × (update s.last r s.total q < e * n + n)
  late_new q e low same = elim (ℕ_discrete q r) [
    | yes eq ↦
        let now : k.full ≡ e = omega (
          arith,
          here,
          same,
          ap (update s.entered r (s.entered r + 1)) eq,
          update_self s.entered r (s.entered r + 1),
        ) in
        rw (eq, update_self s.last r s.total, sym now)
          (omega (arith, k.all), omega (arith, k.all, k.short))
    | no ne ↦
        rw (update_other s.last r q s.total ne)
          (k.late q e low (sym (update_other s.entered r q (s.entered r + 1) ne) ∙ same))
  ]

  -- A process that has left all its calls enters the next round.
  pub enter-Rounds :
      (w : World)
      → ((q : ℕ) → q < n → 0 < update s.entered r (s.entered r + 1) q → (w.process q).pid ≡ pids q)
      → Rounds n pids lets (begin_wait r (record s { world = w }))
  enter-Rounds w made = elim (dec_lt (suc k.extra) n) [
    | yes room ↦ record {
      full = k.full;
      extra = suc k.extra;
      all = omega (arith, k.all);
      short = room;
      low = λ q low. (bounds q low).0;
      high = λ q low. (bounds q low).1;
      waiting = one_more;
      behind = k.behind;
      late = late_new;
      made = made;
    }
    | no full ↦
        let each : (q : ℕ) → q < n → update s.entered r (s.entered r + 1) q ≡ suc k.full = λ q low.
          ground (
            arith,
            tally_full (λ i. update s.entered r (s.entered r + 1) i == suc k.full) n q
                (omega (arith, one_more, full, k.short)) low,
          ) in
        record {
          full = suc k.full;
          extra = 0;
          all = omega (arith, k.all, full, k.short);
          short = omega (arith, mine);
          low = λ q low. omega (arith, each q low);
          high = λ q low. omega (arith, each q low);
          waiting =
              tally_none (λ i. update s.entered r (s.entered r + 1) i == suc (suc k.full)) n
                λ i low. ground (arith, each i low);
          behind = λ q low. omega (arith, k.behind q low);
          late = late_new;
          made = made;
        }
  ]
