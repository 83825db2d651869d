-- ===== src/Datatype/Commit.antt =====
-- umpi.cc, `shared::commit` and `MPI_Type_commit`: committed descriptions live in
-- the shared memory, each content once.
use umpi.Base.{
  ℕ, ◌≡◌, refl, ap, ◌∙◌, inl, inr, Bool, true, false, Bool-cases, arith, subst, Option, none, some,
  List, [], ◌∷◌, take, if◌then◌else◌,
}
use umpi.Iovec.{Iovec, same, size}
use umpi.Iovec.Shape.{IsIovec, same_iff, take-size}
use umpi.World.{mpi_success, mpi_fail}
use umpi.Datatype.{IovecPointer, null, local, shared, Handle, pointee}

-- The list `commited_`: offsets of the shared memory, with what is stored there.
abbrev pub Committed : Type 0
Committed = List (ℕ × Iovec)

-- The loop of `commit`.
unfoldable pub find_same : Iovec → Committed → Option (ℕ × Iovec)
find_same v [] = none
find_same v ((o, e) ∷ es) = if same e v then some (o, e) else find_same v es

-- After the loop of `shared::commit`: the pointer, `commited_`, and the arrays of the heap that are
-- deleted.
unfoldable pub commit_found :
    ℕ → Iovec → Committed → Option (ℕ × Iovec) → IovecPointer × Committed × List Iovec
commit_found fresh v list none =
    (shared fresh (take (size v) v), (fresh, take (size v) v) ∷ list, v ∷ [])
commit_found fresh v list (some (o, e)) = (shared o e, list, v ∷ [])

-- `shared::commit`; `fresh` is what the shared pool allocates if it is asked.
unfoldable pub commit : ℕ → Iovec → Committed → IovecPointer × Committed × List Iovec
unfolding find_same commit_found
commit fresh v list = commit_found fresh v list (find_same v list)

-- What `MPI_Type_commit` returns, `**datatype`, `commited_`, and the arrays that go back to the heap.
pub record Commits : Type 0 where
  pub ret : ℕ
  pub handle : Handle
  pub list : Committed
  pub deleted : List Iovec

-- `MPI_Type_commit`. The handle is `none` for each of the null pointers.
unfoldable pub mpi_type_commit : Bool → ℕ → Handle → Committed → Commits
unfolding commit
mpi_type_commit initialized fresh none list = record {
  ret = mpi_fail;
  handle = none;
  list = list;
  deleted = [];
}
mpi_type_commit false fresh (some t) list = record {
  ret = mpi_fail;
  handle = some t;
  list = list;
  deleted = [];
}
mpi_type_commit true fresh (some t) list = go t.iovec
  where
    go : IovecPointer → Commits
    go null = record { ret = mpi_fail; handle = some t; list = list; deleted = [] }
    go (shared o v) = record { ret = mpi_success; handle = some t; list = list; deleted = [] }
    go (local v) =
        let (p, list', gone) = commit fresh v list in
        record {
          ret = mpi_success;
          handle = some (record { iovec = p });
          list = list';
          deleted = gone;
        }

-- All that is committed describes a type.
pub data AllValid : Committed → Type 0 where
  none_yet : AllValid []
  one_more : (o : ℕ) (v : Iovec) (es : Committed) → IsIovec v → AllValid es → AllValid ((o, v) ∷ es)

find_same_self :
    (o : ℕ) (v : Iovec) (es : Committed) → IsIovec v → find_same v ((o, v) ∷ es) ≡ some (o, v)
unfolding find_same
find_same_self o v es h = rw ((same_iff h h).1 refl) refl

-- What is found has the same content.
find_same_lem :
    (v : Iovec) (es : Committed) (o : ℕ) (e : Iovec)
    → IsIovec v
    → AllValid es
    → find_same v es ≡ some (o, e)
    → e ≡ v
unfolding find_same
find_same_lem v [] o e h all eq = absurd (ground (arith, eq))
find_same_lem v ((b, w) ∷ es) o e h (one_more _ _ _ x all) eq = elim (Bool-cases (same w v)) [
  | inl t ↦
      (let g : some (b, w) ≡ some (o, e) =
          subst (λ q. (if q then some (b, w) else find_same v es) ≡ some (o, e)) t eq in
        ground (arith, g, (same_iff x h).0 t))
  | inr t ↦
      find_same_lem v es o e h all
        (subst (λ q. (if q then some (b, w) else find_same v es) ≡ some (o, e)) t eq)
]

-- For a well-formed description, where all that is committed is well-formed: `commit` keeps the
-- content and the well-formedness, and to commit an equal description again then gives the same
-- pointer, and stores nothing new.
pub commit_twice :
    (fresh fresh' : ℕ) (v : Iovec) (list : Committed)
    → IsIovec v
    → AllValid list
    → (pointee (commit fresh v list).0 ≡ some v)
      × AllValid (commit fresh v list).1
      × (commit fresh' v (commit fresh v list).1 ≡ commit fresh v list)
unfolding commit commit_found
commit_twice fresh fresh' v list h all = go (find_same v list) refl
  where
    go :
        (r : Option (ℕ × Iovec))
        → find_same v list ≡ r
        → (pointee (commit fresh v list).0 ≡ some v)
          × AllValid (commit fresh v list).1
          × (commit fresh' v (commit fresh v list).1 ≡ commit fresh v list)
    go none e =
        let c : commit fresh v list ≡ (shared fresh v, (fresh, v) ∷ list, v ∷ []) =
          ap (commit_found fresh v list) e
          ∙ ap (λ x. (shared fresh x, (fresh, x) ∷ list, v ∷ [])) (take-size h) in
        let d : commit fresh' v ((fresh, v) ∷ list) ≡ (shared fresh v, (fresh, v) ∷ list, v ∷ []) =
          ap (commit_found fresh' v ((fresh, v) ∷ list)) (find_same_self fresh v list h) in
        rw c (refl, one_more fresh v list h all, d)
    go (some (o, w)) e =
        let c : commit fresh v list ≡ (shared o w, list, v ∷ []) =
          ap (commit_found fresh v list) e in
        let d : commit fresh' v list ≡ (shared o w, list, v ∷ []) =
          ap (commit_found fresh' v list) e in
        rw c (ap some (find_same_lem v list o w h all e), all, d)
