-- ===== src/Calls/Any.antt =====
-- umpi.cc, `MPI_Waitany` and `process::wait_any` for a list of requests.
use umpi.Base.{
  ℕ, zero, suc, ◌+◌, ◌-◌, ◌≡◌, refl, ap, ap₂, ◌∙◌, arith, true, not, Option, none, some, List, [],
  ◌∷◌, ◌==◌, if◌then◌else◌, min, length, drop, take, get_or,
}
use umpi.World.{World}

-- A round of the loop of `wait_any`, from index `i` on: the first request that is there and not busy.
unfoldable pub first_done : World → ℕ → List (Option ℕ) → Option ℕ
first_done w i [] = none
first_done w i (none ∷ cs) = first_done w (i + 1) cs
first_done w i (some c ∷ cs) =
    let rest = first_done w (i + 1) cs in if (w.cookie c).busy == 0 then some i else rest

-- The scan of `MPI_Waitany`: it stops at a request of another process, or it gives `begin` and
-- `end` of the part that holds requests.
pub data Scan : Type 0 where
  foreign : ℕ → Scan
  range : ℕ → ℕ → Scan

unfoldable pub scan : World → ℕ → ℕ → ℕ → ℕ → List (Option ℕ) → Scan
scan w me i begin end [] = range begin end
scan w me i begin end (none ∷ cs) = scan w me (i + 1) begin end cs
scan w me i begin end (some c ∷ cs) =
    let rest = scan w me (i + 1) (min begin i) (i + 1) cs in
    if not ((w.cookie c).owner == me) then foreign i else rest

-- What `MPI_Waitany` comes to: an empty status, the index that it ends with, or sleep.
pub data Chosen : Type 0 where
  no_request : Chosen
  chosen : ℕ → Chosen
  sleeps : Chosen

abbrev pub chosen_from : Option ℕ → Chosen
chosen_from none = sleeps
chosen_from (some i) = chosen i

-- `*index` after the scan: that of a foreign request, or what `wait_any` gives for the part from
-- `begin` up to `end`.
unfoldable pub choose : World → List (Option ℕ) → Scan → Chosen
unfolding first_done
choose w requests (foreign i) = chosen i
choose w requests (range begin zero) = no_request
choose w requests (range begin (suc end)) =
    chosen_from (first_done w 0 (take (suc end - begin) (drop begin requests)))

-- `*index` in `MPI_Waitany`, up to its sleep.
unfoldable pub waitany_index : World → ℕ → List (Option ℕ) → Chosen
unfolding scan choose
waitany_index w me requests = choose w requests (scan w me 0 (length requests) 0 requests)

abbrev pub nulls : ℕ → List (Option ℕ) → List (Option ℕ)
nulls zero cs = cs
nulls (suc k) cs = none ∷ nulls k cs

pub scan-nulls :
    (w : World) (me i begin end k c : ℕ)
    → (w.cookie c).owner ≡ me
    → scan w me i begin end (nulls k (some c ∷ [])) ≡ range (min begin (i + k)) (suc (i + k))
unfolding scan
scan-nulls w me i begin end zero c own =
    let mine : ((w.cookie c).owner == me) ≡ true = ground (arith, own) in
    let e : i ≡ i + 0 = omega arith in
    let f : i + 1 ≡ suc (i + 0) = omega arith in rw mine (ap₂ range (ap (min begin) e) f)
scan-nulls w me i begin end (suc k) c own =
    let e : i + 1 + k ≡ i + suc k = omega arith in
    scan-nulls w me (i + 1) begin end k c own ∙ ap (λ x. range (min begin x) (suc x)) e

pub drop-nulls : (k : ℕ) (cs : List (Option ℕ)) → drop k (nulls k cs) ≡ cs
drop-nulls zero cs = refl
drop-nulls (suc k) cs = drop-nulls k cs

pub length-nulls : (k : ℕ) (cs : List (Option ℕ)) → length (nulls k cs) ≡ k + length cs
length-nulls zero cs = omega arith
length-nulls (suc k) cs = omega (arith, length-nulls k cs)

get_or-nulls : (k : ℕ) (x d : Option ℕ) → get_or (nulls k (x ∷ [])) k d ≡ x
get_or-nulls zero x d = refl
get_or-nulls (suc k) x d = get_or-nulls k x d

-- Where null requests, one at least, stand before a request of the process that is done,
-- `MPI_Waitany` chooses index 0, which is a null request, and not the index of the one that is
-- done.
pub waitany_displaced :
    (w : World) (me k c : ℕ)
    → (w.cookie c).owner ≡ me
    → (w.cookie c).busy ≡ 0
    → let requests = nulls (suc k) (some c ∷ []) in
      (waitany_index w me requests ≡ chosen 0)
      × (get_or requests 0 (some c) ≡ none)
      × (get_or requests (suc k) none ≡ some c)
unfolding waitany_index choose first_done
waitany_displaced w me k c own idle =
    let requests = nulls (suc k) (some c ∷ []) in
    let begins : min (length requests) (0 + suc k) ≡ suc k =
      omega (arith, length-nulls (suc k) (some c ∷ [])) in
    let ends : 0 + suc k ≡ suc k = omega arith in
    let found : scan w me 0 (length requests) 0 requests ≡ range (suc k) (suc (suc k)) =
      scan-nulls w me 0 (length requests) 0 (suc k) c own ∙ ap₂ range begins (ap suc ends) in
    let done : ((w.cookie c).busy == 0) ≡ true = ground (arith, idle) in
    let one : suc (suc k) - suc k ≡ suc zero = omega arith in
    let first : first_done w 0 (some c ∷ []) ≡ some 0 = rw done refl in
    (
      ap (choose w requests) found
          ∙ ap chosen_from
              (ap₂ (λ m cs. first_done w 0 (take m cs)) one (drop-nulls k (some c ∷ [])) ∙ first),
      refl,
      get_or-nulls k (some c) none,
    )
