-- ===== src/Mailbox/Boxes.antt =====
-- The invariant of all mailboxes: a node lies in one list of one process at most, requests that
-- wait in a box are fresh, and free nodes are unused.
pub mod Touches
pub mod Nodes
pub mod Requests
pub mod Finalize
use umpi.Base.{
  ℕ, ◌+◌, ◌-◌, ◌≤◌, ◌<◌, ◌^◌, ◌≡◌, refl, sym, ap, ◌∙◌, ◌≢◌, inl, inr, List, [], ◌∷◌, ◌++◌, arith,
  occurs, occurs-append, ℕ_discrete,
}
use umpi.World.{Cookie, Process, World, update, set_cookie, set_process, update_self, update_other}

-- How often a node stands in the two boxes of a process, and in its four lists.
abbrev pub posted : ℕ → Process → ℕ
posted c p = occurs c p.inbox + occurs c p.outbox

abbrev pub held : ℕ → Process → ℕ
held c p = occurs c p.free + posted c p + occurs c p.pending

pub record Inv (w : World) : Type 0 where
  pub once : (r c : ℕ) → held c (w.process r) ≤ 1
  pub apart : (r s c : ℕ) → 0 < held c (w.process r) → 0 < held c (w.process s) → r ≡ s
  pub fresh :
      (r c : ℕ) → 0 < posted c (w.process r) → ((w.cookie c).used ≡ 1) × ((w.cookie c).busy ≡ 1)
  pub idle : (r c : ℕ) → 0 < occurs c (w.process r).free → (w.cookie c).used ≡ 0

-- A step of the process `r` that changes one cookie and moves one node.
pub record Moves (w : World) (r c : ℕ) (k : Cookie) (p : Process) : Type 0 where
  pub rest_held : (d : ℕ) → d ≢ c → held d p ≡ held d (w.process r)
  pub rest_posted : (d : ℕ) → d ≢ c → posted d p ≤ posted d (w.process r)
  pub rest_free : (d : ℕ) → d ≢ c → occurs d p.free ≤ occurs d (w.process r).free
  pub here : held c p ≡ 1
  pub nowhere : (s : ℕ) → s ≢ r → held c (w.process s) ≡ 0
  pub fresh_here : 0 < posted c p → (k.used ≡ 1) × (k.busy ≡ 1)
  pub idle_here : 0 < occurs c p.free → k.used ≡ 0

module _ {w : World} {r c : ℕ} {k : Cookie} {p : Process} (m : Moves w r c k p) (inv : Inv w) where
  abbrev moved : World
  moved = set_process (set_cookie w c k) r p

  p-once : (d : ℕ) → held d p ≤ 1
  p-once d = elim (ℕ_discrete d c) [
    | yes e ↦ rw e (omega (arith, m.here))
    | no ne ↦ omega (arith, m.rest_held d ne, inv.once r d)
  ]

  moved-once : (s d : ℕ) → held d (moved.process s) ≤ 1
  moved-once s d = elim (ℕ_discrete s r) [
    | yes e ↦ rw e (rw (update_self w.process r p) (p-once d))
    | no ne ↦ rw (update_other w.process r s p ne) (inv.once s d)
  ]

  -- Where the moved process holds a node, it held it before, or no process did.
  p-apart : (s d : ℕ) → s ≢ r → 0 < held d (w.process s) → 0 < held d p → ⊥
  p-apart s d ne there here = elim (ℕ_discrete d c) [
    | yes e ↦ let there' = rw e at there in omega (arith, m.nowhere s ne)
    | no other ↦ ne (inv.apart s r d there (omega (arith, m.rest_held d other)))
  ]

  moved-apart : (s t d : ℕ) → 0 < held d (moved.process s) → 0 < held d (moved.process t) → s ≡ t
  moved-apart s t d hs ht = elim (ℕ_discrete s r) [
    | yes e ↦ elim (ℕ_discrete t r) [
      | yes e' ↦ e ∙ sym e'
      | no ne' ↦ absurd (
          p-apart t d ne' (rw (update_other w.process r t p ne') at ht)
            (rw (update_self w.process r p) at (rw e at hs)))
    ]
    | no ne ↦ elim (ℕ_discrete t r) [
      | yes e' ↦ absurd (
          p-apart s d ne (rw (update_other w.process r s p ne) at hs)
            (rw (update_self w.process r p) at (rw e' at ht)))
      | no ne' ↦
          inv.apart s t d (rw (update_other w.process r s p ne) at hs)
            (rw (update_other w.process r t p ne') at ht)
    ]
  ]

  here_fresh : (s : ℕ) → 0 < posted c (moved.process s) → (k.used ≡ 1) × (k.busy ≡ 1)
  here_fresh s h = elim (ℕ_discrete s r) [
    | yes e ↦ m.fresh_here (rw (update_self w.process r p) at (rw e at h))
    | no ne ↦
        let h' = rw (update_other w.process r s p ne) at h in absurd (omega (arith, m.nowhere s ne))
  ]

  here_idle : (s : ℕ) → 0 < occurs c (moved.process s).free → k.used ≡ 0
  here_idle s h = elim (ℕ_discrete s r) [
    | yes e ↦ m.idle_here (rw (update_self w.process r p) at (rw e at h))
    | no ne ↦
        let h' = rw (update_other w.process r s p ne) at h in absurd (omega (arith, m.nowhere s ne))
  ]

  moved-fresh :
      (s d : ℕ)
      → 0 < posted d (moved.process s)
      → ((moved.cookie d).used ≡ 1) × ((moved.cookie d).busy ≡ 1)
  moved-fresh s d h = elim (ℕ_discrete d c) [
    | yes same ↦ rw same (rw (update_self w.cookie c k) (here_fresh s (rw same at h)))
    | no other ↦ rw (update_other w.cookie c d k other) (elim (ℕ_discrete s r) [
      | yes e ↦
          let h' = rw (update_self w.process r p) at (rw e at h) in
          inv.fresh r d (omega (arith, m.rest_posted d other))
      | no ne ↦ inv.fresh s d (rw (update_other w.process r s p ne) at h)
    ])
  ]

  moved-idle : (s d : ℕ) → 0 < occurs d (moved.process s).free → (moved.cookie d).used ≡ 0
  moved-idle s d h = elim (ℕ_discrete d c) [
    | yes same ↦ rw same (rw (update_self w.cookie c k) (here_idle s (rw same at h)))
    | no other ↦ rw (update_other w.cookie c d k other) (elim (ℕ_discrete s r) [
      | yes e ↦
          let h' = rw (update_self w.process r p) at (rw e at h) in
          inv.idle r d (omega (arith, m.rest_free d other))
      | no ne ↦ inv.idle s d (rw (update_other w.process r s p ne) at h)
    ])
  ]

  pub Moves-Inv : Inv moved
  Moves-Inv = record {
    once = moved-once;
    apart = moved-apart;
    fresh = moved-fresh;
    idle = moved-idle;
  }
