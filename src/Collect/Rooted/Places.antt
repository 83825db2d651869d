-- ===== src/Collect/Rooted/Places.antt =====
-- Where the two ways of gathering put the elements.
use umpi.Base.{ℕ, ◌+◌, ◌*◌, ◌≤◌, ◌<◌, ◌^◌, ◌≡◌, arith, u16, sext16}
use umpi.Iovec.{Iovec, len}
use umpi.World.{new_cookie}
use umpi.Transfer.{place}
use umpi.Transfer.Segments.{place_lem}
use umpi.Calls.{Umpi}
use umpi.Collect.{tag_cc}
use umpi.Collect.Rooted.{leaf_seek, root_seek, mul32}

scale : (a b k : ℕ) → a ≤ b → a * k ≤ b * k
scale a b k h = grind arith

-- For two or more elements from each process and a rank that is not 0, the two ways of gathering
-- disagree: a process that comes after the root writes at its rank times the number of elements
-- behind the start of the root's buffer, while the root, if it comes after the process, puts the
-- elements of that process at its rank, so that they lie over those of others.
pub gather_misplaced :
    (v : Iovec) (base size n rank num total trigger : ℕ) (owner buf room : ℕ) (t : Iovec)
    → 0 < len v
    → 2 ≤ n
    → 1 ≤ rank
    → rank < 2 ^ 15
    → n * rank < 2 ^ 31
    → base + n * rank * len v < 2 ^ 63
    → let u : Umpi = record { size = size; rank = rank; trigger = trigger } in
      let from_root = new_cookie owner base v total n 0 tag_cc num in
      let from_leaf = new_cookie rank buf t room room rank tag_cc 1 in
      (place base (leaf_seek u from_root) (len v) ≡ base + n * rank * len v)
      × (place base (root_seek from_leaf) (len v) ≡ base + rank * len v)
      × (base + rank * len v < base + n * rank * len v)
unfolding leaf_seek root_seek new_cookie
gather_misplaced v base size n rank num total trigger owner buf room t some_len two one short small
      fits =
    let twice : rank + rank ≤ n * rank = grind arith in
    let more : (rank + rank) * len v ≤ n * rank * len v =
      scale (rank + rank) (n * rank) (len v) twice in
    let some_bytes : 1 * len v ≤ rank * len v = scale 1 rank (len v) one in
    let far : mul32 n rank ≡ n * rank = omega (arith, small) in
    let near : sext16 (u16 rank) ≡ rank = ground (arith, short) in
    let parts : (rank + rank) * len v ≡ rank * len v + rank * len v = omega arith in
    (
      rw far (place_lem base (n * rank) (len v) small fits),
      rw near (place_lem base rank (len v) (omega arith) (omega arith)),
      omega arith,
    )
