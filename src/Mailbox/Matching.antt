-- ===== src/Mailbox/Matching.antt =====
-- Which message meets which receive, and that the search takes the oldest one.
use umpi.Base.{
  ℕ, ◌-◌, ◌≤◌, ◌<◌, ◌^◌, ◌≡◌, refl, ap, ◌⊎◌, inl, inr, Bool, true, false, ◌&&◌, ◌||◌, none, some,
  List, [], ◌∷◌, ◌++◌, arith, u16, sext16, ◌==◌, Bool-cases, Option-cases, All,
}
use umpi.Iovec.{Iovec}
use umpi.World.{new_cookie, recv_match, send_match, mpi_any_source, mpi_any_tag}
use umpi.Mailbox.{take_first}

-- A receive of `rsource` and `rtag` takes a message of `source` with `tag`.
abbrev pub accepts : ℕ → ℕ → ℕ → ℕ → Bool
accepts source tag rsource rtag =
    (tag == rtag || rtag == mpi_any_tag) && (source == rsource || rsource == mpi_any_source)

-- A tag or a rank that an `int16_t` holds, or the wildcard -1.
abbrev pub IsShort : ℕ → Type 0
IsShort x = (x < 2 ^ 15) ⊎ (x ≡ 2 ^ 32 - 1)

pub sext16-u16 : (x : ℕ) → IsShort x → sext16 (u16 x) ≡ x
sext16-u16 x (inl h) = ground arith
sext16-u16 x (inr e) = rw e refl

-- For ranks and tags that fit 16 bits, a message that waits as a cookie meets a receive exactly when
-- the receive accepts it, and a receive that waits as a cookie meets a message exactly then too: it
-- makes no difference which of the two came first.
pub recv_match-send_match :
    (source tag rsource rtag : ℕ) (owner buf size count num : ℕ) (v : Iovec)
    → source < 2 ^ 15
    → tag < 2 ^ 15
    → IsShort rsource
    → IsShort rtag
    → (recv_match (new_cookie owner buf v size count source tag num) rsource rtag
        ≡ accepts source tag rsource rtag)
      × (send_match (new_cookie owner buf v size count rsource rtag num) source tag
          ≡ accepts source tag rsource rtag)
unfolding recv_match send_match new_cookie
recv_match-send_match source tag rsource rtag owner buf size count num v hs ht hrs hrt = (
  rw (sext16-u16 source (inl hs), sext16-u16 tag (inl ht)) (ground arith),
  rw (sext16-u16 rsource hrs, sext16-u16 rtag hrt) (ground arith),
)

-- A message with a tag from 2 ^ 15 up, as an `int` that is not negative, which waits as a cookie is met
-- by no receive that asks for that tag, from whatever source.
pub recv_match_large_tag :
    (tag : ℕ) (source rsource owner buf size count num : ℕ) (v : Iovec)
    → 2 ^ 15 ≤ tag
    → tag < 2 ^ 31
    → recv_match (new_cookie owner buf v size count source tag num) rsource tag ≡ false
unfolding recv_match new_cookie
recv_match_large_tag tag source rsource owner buf size count num v h l =
    let other : (sext16 (u16 tag) == tag) ≡ false = ground arith in
    let not_any : (tag == mpi_any_tag) ≡ false = ground arith in rw (other, not_any) refl

-- The box `cs` holds `c` behind cookies that do not match; `ds` is the rest.
pub record First (p : ℕ → Bool) (cs : List ℕ) (c : ℕ) (ds : List ℕ) : Type 0 where
  pub before : List ℕ
  pub after : List ℕ
  pub found : cs ≡ before ++ c ∷ after
  pub rest : ds ≡ before ++ after
  pub matching : p c ≡ true
  pub older : All (λ d. p d ≡ false) before

-- What the search of a box finds is the oldest cookie that matches: none of those before it does, and
-- the rest of the box stays in its order.
pub take_first-some :
    (p : ℕ → Bool) (cs : List ℕ) {c : ℕ} {ds : List ℕ}
    → take_first p cs ≡ some (c, ds)
    → First p cs c ds
unfolding take_first
take_first-some p [] e = absurd (ground arith)
take_first-some p (x ∷ cs) {c} {ds} e = elim (Bool-cases (p x)) [
  | inl hit ↦ record {
    before = [];
    after = cs;
    found = ground arith;
    rest = ground arith;
    matching = ground arith;
    older = tt;
  }
  | inr miss ↦ elim (Option-cases (take_first p cs)) [
    | inl lost ↦ absurd (ground arith)
    | inr ((d, ds'), got) ↦
        let ih = take_first-some p cs got in
        let same : d ≡ c = ground arith in
        record {
          before = x ∷ ih.before;
          after = ih.after;
          found = rw (← same) (ap (◌∷◌ x) ih.found);
          rest = ground (arith, ih.rest);
          matching = rw (← same) ih.matching;
          older = (miss, ih.older);
        }
  ]
]

pub take_first-none :
    (p : ℕ → Bool) (cs : List ℕ) → take_first p cs ≡ none → All (λ d. p d ≡ false) cs
unfolding take_first
take_first-none p [] e = tt
take_first-none p (x ∷ cs) e = (ground arith, take_first-none p cs (ground arith))
