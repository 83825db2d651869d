-- ===== src/Offset/Mappings.antt =====
-- Pointers that one process stores and another follows.
use umpi.Base.{ℕ, ◌+◌, ◌<◌, ◌^◌, ◌≡◌, true, arith}
use umpi.Offset.{from_pointer, is_set, to_pointer}

-- A pointer that a process makes, to a place less than 2 ^ 63 bytes from the start of its mapping, is
-- not null, and another process, whose mapping starts elsewhere, follows it to the same place of its
-- own mapping. Neither mapping starts at 0 or reaches the end of the address space.
pub to_pointer-from_pointer :
    (here there o : ℕ)
    → 0 < here
    → o < 2 ^ 63
    → here + o < 2 ^ 64
    → there + o < 2 ^ 64
    → (to_pointer there (from_pointer here (here + o)) ≡ there + o)
      × (is_set (from_pointer here (here + o)) ≡ true)
unfolding to_pointer from_pointer is_set
to_pointer-from_pointer here there o start small fits fits' =
    let offset : from_pointer here (here + o) ≡ o = ground (arith, start, fits, small) in
    rw offset (omega (arith, fits'), ground (arith, small))
