-- ===== src/Collect/Delivering.antt =====
-- A broadcast where the root comes first: what the processes after it find.
use umpi.Base.{
  All, ℕ, ◌+◌, ◌≤◌, ◌<◌, ◌≡◌, ◌≢◌, refl, sym, ap, ◌∙◌, Option, none, some, List, [], ◌∷◌, arith,
  length, ◌==◌, if◌then◌else◌, sext16,
}
use umpi.Iovec.{Iovec}
use umpi.World.{World, Memory, Cookie, mpi_success}
use umpi.Transfer.{Kernel, bytes_of}
use umpi.Transfer.Delivery.{Reliable, load}
use umpi.Transfer.Completion.{Fits}
use umpi.Transfer.Reading.{Kept, read_given_bytes, load-same}
use umpi.Mailbox.Exchange.{Fits-other}
use umpi.Calls.{Answer}
use umpi.Collect.{Slot, finishes}
use umpi.Collect.Arriving.{Leaf, Kept-trans, call, arrived, arrived-Kept, call_lem}

-- The next call, if this one succeeded.
unfoldable pub and_next : Option Answer → (World → Option World) → Option World
and_next none next = none
and_next (some a) next = if a.ret == mpi_success then next a.world else none

pub All-map {ℓ κ} :
    {A : Type ℓ} (P Q : A → Type κ) (xs : List A) → ((x : A) → P x → Q x) → All P xs → All Q xs
All-map P Q [] f h = tt
All-map P Q (x ∷ xs) f h = (f x h.0, All-map P Q xs f h.1)

-- The processes that call are others than the root, `owner`, and differ from each other; each has room
-- for what the root's request `k` offers.
abbrev pub Apart : Cookie → Iovec → ℕ → (ℕ → ℕ) → List Leaf → Type 0
Apart k v count pids [] = Unit
Apart k v count pids (l ∷ ls) =
    Fits k v count l.buf
    × (pids l.rank ≢ pids k.owner)
    × All (λ (m : Leaf). pids m.rank ≢ pids l.rank) ls
    × Apart k v count pids ls

module _ (kernel : Kernel) (size trigger : ℕ) (count : ℕ) (v : Iovec) (root : ℕ) where
  -- The calls of some processes in a row, up to the first that fails.
  unfoldable pub calls : List Leaf → Slot → World → Option World
  unfolding and_next
  calls [] s w = some w
  calls (l ∷ ls) s w =
      let j = call kernel size trigger count v root l s w in
      and_next j.reply (λ w'. calls ls j.slot w')

  module _ (law : Reliable kernel) where
    -- Each process has the bytes of the root's request `c` in the world `w0`.
    abbrev Delivered : ℕ → World → List Leaf → World → Type 0
    Delivered c w0 ls w =
        All
          (λ (l : Leaf).
            load w.memory (w0.process l.rank).pid l.buf (bytes_of count v)
            ≡ load w0.memory (w0.process (w0.cookie c).owner).pid (w0.cookie c).buf
                (bytes_of count v))
          ls

    module _ (c : ℕ) (box : List ℕ) (w0 : World) (is_root : sext16 (w0.cookie c).src ≡ root)
        (whole : (w0.cookie c).size ≡ count) where
      abbrev pid_of : ℕ → ℕ
      pid_of r = (w0.process r).pid

      abbrev source : ℕ
      source = pid_of (w0.cookie c).owner

      -- One call.
      call_delivers :
          (l : Leaf) (s : Slot) (w : World)
          → Kept c w0 w
          → w.memory source ≡ w0.memory source
          → s.box ≡ c ∷ box
          → Fits (w0.cookie c) v count l.buf
          → (w1 : World) × ((call kernel size trigger count v root l s w).reply
              ≡ some (record { ret = mpi_success; request = some c; world = w1 }))
            × Kept c w0 w1
            × (load w1.memory (pid_of l.rank) l.buf (bytes_of count v)
                ≡ load w0.memory source (w0.cookie c).buf (bytes_of count v))
            × ((p : ℕ) → p ≢ pid_of l.rank → w1.memory p ≡ w.memory p)
      call_delivers l s w kept memory front fits =
          let total = bytes_of count v in
          let w' = arrived kernel size trigger count v root c s w in
          let (moved, same) = arrived-Kept kernel size trigger count v root c s w in
          let k = Kept-trans kept moved in
          let (w1, read, after, bytes, others) =
            read_given_bytes law l.rank c l.buf v count w' (Fits-other k.iovec k.size k.buf fits)
              (k.size ∙ whole) in
          let owner : (w'.process (w'.cookie c).owner).pid ≡ source =
            k.pids (w'.cookie c).owner ∙ ap pid_of k.owner in
          (
            w1,
            (call_lem kernel size trigger count v root l c box s w front
                  (ap sext16 kept.src ∙ is_root)).0
                ∙ ap (finishes c) read,
            Kept-trans k after,
            ap (λ x. load w1.memory x l.buf total) (sym (k.pids l.rank))
                ∙ bytes
                ∙ ap (λ x. load w'.memory x (w'.cookie c).buf total) owner
                ∙ ap (λ x. load w'.memory source x total) k.buf
                ∙ load-same w'.memory w0.memory source (w0.cookie c).buf total
                    (ap (λ (m : Memory). m source) same ∙ memory),
            λ p ne. others p (λ e. ne (e ∙ k.pids l.rank)) ∙ ap (λ (m : Memory). m p) same,
          )

      pub calls_deliver :
          (ls : List Leaf) (s : Slot) (w : World)
          → Kept c w0 w
          → w.memory source ≡ w0.memory source
          → (s.joined < size → s.box ≡ c ∷ box)
          → Apart (w0.cookie c) v count pid_of ls
          → s.joined + length ls ≤ size
          → (w' : World) × (calls ls s w ≡ some w')
            × ((p : ℕ) → All (λ (l : Leaf). pid_of l.rank ≢ p) ls → w'.memory p ≡ w.memory p)
            × Delivered c w0 ls w'
      unfolding calls and_next
      calls_deliver [] s w kept memory front apart few = (w, refl, λ p h. refl, tt)
      calls_deliver (l ∷ ls) s w kept memory front (fits, other, different, rest) few =
          let front' = front (omega (arith, few)) in
          let (w1, reply, kept1, bytes, others) = call_delivers l s w kept memory front' fits in
          let (_, joined, still) =
            call_lem kernel size trigger count v root l c box s w front'
              (ap sext16 kept.src ∙ is_root) in
          let (w', all, rests, delivered) =
            calls_deliver ls (call kernel size trigger count v root l s w).slot w1 kept1
              (others source (λ e. other (sym e)) ∙ memory)
              (λ less. still (ground (arith, less, joined))) rest (omega (arith, joined, few)) in
          (
            w',
            ap
                  (λ a.
                    and_next a (λ x. calls ls (call kernel size trigger count v root l s w).slot x))
                  reply
                ∙ all,
            λ p h. rests p h.1 ∙ others p (λ e. h.0 (sym e)),
            (
              load-same w'.memory w1.memory (pid_of l.rank) l.buf (bytes_of count v)
                    (rests (pid_of l.rank) different)
                  ∙ bytes,
              delivered,
            ),
          )
