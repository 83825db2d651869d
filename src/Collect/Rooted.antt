-- ===== src/Collect/Rooted.antt =====
-- umpi.cc, gathering at a root and scattering from it.
pub mod Places
pub mod Entry
use umpi.Transfer.Copy.{umpi_copy}
use umpi.World.{mpi_fail}
use umpi.Calls.{Comm, is_world, refuse}
use umpi.Collect.{Outcome, goes_on, in_slot, Slots}
use umpi.Base.{
  zero, suc, add32, mul64, lt32, Bool, Option, none, some, not, ◌&&◌, ◌||◌, ◌==◌, if◌then◌else◌, ℕ,
  ◌+◌, ◌*◌, ◌≤◌, ◌<◌, ◌^◌, ◌≡◌, arith, u16, u32, sext16,
}
use umpi.Iovec.{Iovec, len}
use umpi.World.{Cookie, World, new_cookie}
use umpi.Transfer.{Kernel, write_to_owner, read_from_owner, place}
use umpi.Transfer.Segments.{place_lem}
use umpi.Calls.{Umpi}
use umpi.Collect.{Slot, Joined, request_in, succeeds, join_root, as_root, tag_cc}

-- A product of two `int`.
abbrev pub mul32 : ℕ → ℕ → ℕ
mul32 a b = u32 (a * b)

-- The element at which a process that finds the root's gather request `k` writes.
unfoldable pub leaf_seek : Umpi → Cookie → ℕ
leaf_seek u k = mul32 k.count u.rank

-- The element at which the root puts what it reads from a waiting request `k`.
unfoldable pub root_seek : Cookie → ℕ
root_seek k = sext16 k.src

module _ (kernel : Kernel) (u : Umpi) where
  -- A process's own request, where the root's is not there.
  abbrev pub posted : ℕ → ℕ → ℕ → Iovec → Slot → World → Joined
  posted node buf count v s w =
      succeeds (request_in u.rank node (new_cookie u.rank buf v count count u.rank tag_cc 1) s w)

  -- `collect::gather_request`
  unfoldable pub gather_request : ℕ → ℕ → ℕ → Iovec → ℕ → Slot → World → Joined
  unfolding leaf_seek
  gather_request node buf count v root s w =
      join_root kernel u
        (λ c x. write_to_owner kernel u.rank c buf v count (leaf_seek u (x.cookie c)) 0 x)
        (posted node buf count v) root s w

  -- `collect::root_gather_request`
  unfoldable pub root_gather_request : ℕ → ℕ → ℕ → Iovec → Slot → World → Joined
  unfolding root_seek
  root_gather_request node buf count v s w =
      as_root kernel u
        (λ c x.
          read_from_owner kernel u.rank c buf v (mul32 count u.size) count (root_seek (x.cookie c))
            0 x)
        node buf (mul32 count u.size) count v s w

  -- `collect::scatter_request`
  unfoldable pub scatter_request : ℕ → ℕ → ℕ → Iovec → ℕ → Slot → World → Joined
  scatter_request node buf count v root s w =
      join_root kernel u
        (λ c x.
          read_from_owner kernel u.rank c buf v count count 0 (mul32 (x.cookie c).count u.rank) x)
        (posted node buf count v) root s w

  -- `collect::root_scatter_request`
  unfoldable pub root_scatter_request : ℕ → ℕ → ℕ → Iovec → Slot → World → Joined
  root_scatter_request node buf count v s w =
      as_root kernel u
        (λ c x.
          write_to_owner kernel u.rank c buf v count 0 (mul32 count (sext16 (x.cookie c).src)) x)
        node buf (mul32 count u.size) count v s w

-- The sum of `n` of the counts from `i` on, in an `int`.
unfoldable pub total_count : (ℕ → ℕ) → ℕ → ℕ → ℕ
total_count counts zero i = 0
total_count counts (suc n) i = add32 (counts i) (total_count counts n (i + 1))

module _ (kernel : Kernel) (u : Umpi) where
  -- `collect::gatherv_request`
  unfoldable pub gatherv_request : ℕ → ℕ → ℕ → Iovec → ℕ → Slot → World → Joined
  gatherv_request node buf count v root s w =
      join_root kernel u (λ c. write_to_owner kernel u.rank c buf v count (s.displs u.rank) 0)
        (posted kernel u node buf count v) root s w

  -- `collect::root_gatherv_request`; the arrays are functions of the rank.
  unfoldable pub root_gatherv_request : ℕ → ℕ → (ℕ → ℕ) → (ℕ → ℕ) → Iovec → Slot → World → Joined
  unfolding total_count
  root_gatherv_request node buf counts displs v s w =
      let total = total_count counts u.size 0 in
      as_root kernel u
        (λ c x.
          let src = sext16 (x.cookie c).src in
          read_from_owner kernel u.rank c buf v total (counts src) (displs src) 0 x)
        node buf total 0 v (record s { displs = displs }) w
