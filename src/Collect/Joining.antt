-- ===== src/Collect/Joining.antt =====
-- The slots of collective operations: when a call joins one, and when it ends the process.
use umpi.Base.{
  ℕ, ◌+◌, ◌-◌, ◌≤◌, ◌<◌, ◌%◌, ◌≡◌, ◌≢◌, ◌⊎◌, ap, ◌∙◌, sym, arith, Option, none, some, [], add32,
  dec_lt,
}
use umpi.Collect.{Slot, Slots, turn}
use native.Mathlib.Nat.{mod-add-mod, mod-eq_of_lt, mod-eq-sub-mod, mod-lt}

-- Two tickets that are fewer than `n` calls apart have different slots, of `n`.
pub turn-apart : (n a b : ℕ) → 0 < n → a < b → b < a + n → turn n a ≢ turn n b
turn-apart n a b some_slot lt near e =
    let r : a % n < n = mod-lt a some_slot in
    let sum : a + (b - a) ≡ b = omega arith in
    let shifted : (a % n + (b - a)) % n ≡ a % n =
      mod-add-mod a n (b - a) ∙ ap (λ x. x % n) sum ∙ sym e in
    elim (dec_lt (a % n + (b - a)) n) [
      | yes h ↦ omega (arith, shifted, mod-eq_of_lt h)
      | no h ↦
          let wrap : n ≤ a % n + (b - a) = omega arith in
          let low : a % n + (b - a) - n < n = omega arith in
          omega (arith, shifted, mod-eq-sub-mod wrap, mod-eq_of_lt low, wrap)
    ]

-- What opening leaves of a slot: it was empty, or its requests have the ticket.
abbrev Opened : ℕ → Slot → Option Slot → Type 0
Opened ticket s none = (s.box ≢ []) × (s.ticket ≢ ticket)
Opened ticket s (some t) =
    (t.ticket ≡ ticket)
    × (t.box ≡ s.box)
    × (((s.box ≡ []) × (t.joined ≡ 0)) ⊎ ((s.ticket ≡ ticket) × (t.joined ≡ s.joined)))

-- What joining the current slot leaves of the slots.
abbrev pub Turned : ℕ → Slots → Option Slots → Type 0
Turned n s none =
    ((s.slots (turn n s.ticket)).box ≢ []) × ((s.slots (turn n s.ticket)).ticket ≢ s.ticket)
Turned n s (some s') =
    let old = s.slots (turn n s.ticket) in
    let new = s'.slots (turn n s.ticket) in
    (new.ticket ≡ s.ticket)
    × (new.box ≡ old.box)
    × (((old.box ≡ []) × (new.joined ≡ 1))
        ⊎ ((old.ticket ≡ s.ticket) × (new.joined ≡ add32 old.joined 1)))
    × (s'.ticket ≡ add32 s.ticket 1)
    × ((i : ℕ) → i ≢ turn n s.ticket → s'.slots i ≡ s.slots i)
