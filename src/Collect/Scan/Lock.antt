-- ===== src/Collect/Scan/Lock.antt =====
-- Which request calls of the collective operations leave their slot locked.
use umpi.Base.{
  ℕ, ◌≡◌, refl, true, false, List, [], ◌∷◌, arith, Bool-cases, inl, inr, Option, sext16,
}
use umpi.Iovec.{Iovec}
use umpi.World.{World}
use umpi.Transfer.{Kernel, read_from_owner, write_to_owner}
use umpi.Calls.{Umpi}
use umpi.Collect.{
  Slot, Joined, join_box, root_found, found_locked, join_root, as_root, bcast_request,
  root_bcast_request, bcast_posted,
}
use umpi.Collect.Rooted.{
  leaf_seek, root_seek, mul32, gather_request, root_gather_request, scatter_request,
  root_scatter_request, posted,
}
use umpi.Collect.Scan.{too_wide, Op, exscan_request, scan_request, scan_posted}

module _ (kernel : Kernel) (u : Umpi) where
  join_box-unlocked :
      (transfer : ℕ → World → Option (ℕ × World)) (posted : Slot → World → Joined) (root : ℕ)
      (s : Slot) (w : World) (box : List ℕ)
      → (posted s w).slot.locked ≡ false
      → (join_box kernel u transfer posted root s w box).slot.locked ≡ false
  unfolding join_box root_found found_locked
  join_box-unlocked transfer posted root s w [] h = h
  join_box-unlocked transfer posted root s w (c ∷ box) h = ground (arith, h)

  as_root-unlocked :
      (transfer : ℕ → World → Option (ℕ × World)) (node buf size count : ℕ) (v : Iovec) (s : Slot)
      (w : World)
      → (as_root kernel u transfer node buf size count v s w).slot.locked ≡ false
  unfolding as_root
  as_root-unlocked transfer node buf size count v s w = ground arith

-- A request call of a broadcast, a gather or a scatter, of the root or of another process, unlocks
-- the slot that it holds, whatever its transfers do. One of a scan or an exclusive scan leaves the
-- slot locked exactly if its data is too wide for the slot's buffers.
pub request-unlocks :
    (kernel : Kernel) (u : Umpi) (op : Op) (sb rb in_place node sendbuf buf count root : ℕ)
    (v : Iovec) (s : Slot) (w : World)
    → s.locked ≡ true
    → ((bcast_request kernel u node buf count v root s w).slot.locked ≡ false)
      × ((root_bcast_request kernel u node buf count v s w).slot.locked ≡ false)
      × ((gather_request kernel u node buf count v root s w).slot.locked ≡ false)
      × ((root_gather_request kernel u node buf count v s w).slot.locked ≡ false)
      × ((scatter_request kernel u node buf count v root s w).slot.locked ≡ false)
      × ((root_scatter_request kernel u node buf count v s w).slot.locked ≡ false)
      × ((scan_request kernel u op sb rb count v in_place node sendbuf buf s w).slot.locked
          ≡ too_wide count v)
      × ((exscan_request kernel u op sb rb count v in_place node sendbuf buf s w).slot.locked
          ≡ too_wide count v)
unfolding join_root bcast_request root_bcast_request gather_request root_gather_request
    scatter_request root_scatter_request scan_request exscan_request scan_posted
request-unlocks kernel u op sb rb in_place node sendbuf buf count root v s w held = (
  join_box-unlocked kernel u (λ c. read_from_owner kernel u.rank c buf v count count 0 0)
      (bcast_posted kernel u node buf count v) root s w s.box refl,
  as_root-unlocked kernel u (λ c. write_to_owner kernel u.rank c buf v count 0 0) node buf count
      count v s w,
  join_box-unlocked kernel u
      (λ c x. write_to_owner kernel u.rank c buf v count (leaf_seek u (x.cookie c)) 0 x)
      (posted kernel u node buf count v) root s w s.box refl,
  as_root-unlocked kernel u
      (λ c x.
        read_from_owner kernel u.rank c buf v (mul32 count u.size) count (root_seek (x.cookie c)) 0
          x)
      node buf (mul32 count u.size) count v s w,
  join_box-unlocked kernel u
      (λ c x.
        read_from_owner kernel u.rank c buf v count count 0 (mul32 (x.cookie c).count u.rank) x)
      (posted kernel u node buf count v) root s w s.box refl,
  as_root-unlocked kernel u
      (λ c x.
        write_to_owner kernel u.rank c buf v count 0 (mul32 count (sext16 (x.cookie c).src)) x)
      node buf (mul32 count u.size) count v s w,
  elim (Bool-cases (too_wide count v)) [ inl e ↦ rw e held | inr e ↦ rw e (ground arith) ],
  elim (Bool-cases (too_wide count v)) [ inl e ↦ rw e held | inr e ↦ rw e (ground arith) ],
)
