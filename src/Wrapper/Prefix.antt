-- ===== src/Wrapper/Prefix.antt =====
-- The prefix of the installation.
use umpi.Base.{
  ℕ, ◌≡◌, ◌≢◌, refl, ap, ◌∙◌, false, none, some, List, [], ◌∷◌, ◌++◌, take, All, arith, length,
}
use umpi.Wrapper.{codes, starts, rfind, prefix_of, up_to}

take-length_append : (xs ys : List ℕ) → take (length xs) (xs ++ ys) ≡ xs
take-length_append [] ys = refl
take-length_append (x ∷ xs) ys = ap (◌∷◌ x) (take-length_append xs ys)

rfind-append : (p xs s : List ℕ) → rfind p s ≡ some 0 → rfind p (xs ++ s) ≡ some (length xs)
unfolding rfind
rfind-append p [] s e = e
rfind-append p (x ∷ xs) s e = ground (arith, rfind-append p xs s e)

abbrev slash : ℕ
slash = 47

abbrev NoSlash : List ℕ → Type 0
NoSlash = All (λ c. c ≢ slash)

no_match : (s : List ℕ) → NoSlash s → starts (codes "bin/") s ≡ false
no_match [] h = refl
no_match (a ∷ []) h = ground arith
no_match (a ∷ b ∷ []) h = ground arith
no_match (a ∷ b ∷ c ∷ []) h = ground arith
no_match (a ∷ b ∷ c ∷ d ∷ s) (_, (_, (_, (ne, _)))) = ground (arith, ne)

rfind-NoSlash : (s : List ℕ) → NoSlash s → rfind (codes "bin/") s ≡ none
unfolding rfind
rfind-NoSlash [] h = refl
rfind-NoSlash (c ∷ s) (ne, h) = ground (arith, no_match (c ∷ s) (ne, h), rfind-NoSlash s h)

up_to-length : (xs ys : List ℕ) → up_to (xs ++ ys) (some (length xs)) ≡ xs
up_to-length xs ys = take-length_append xs ys

-- For an executable in the folder `bin` of a directory, under a name without slashes, the prefix is that
-- directory, also where another `bin/` stands in its path.
pub prefix_of-path :
    (dir name : List ℕ) → NoSlash name → prefix_of (dir ++ (codes "bin/" ++ name)) ≡ dir
unfolding prefix_of rfind
prefix_of-path dir name plain =
    let found : rfind (codes "bin/") (codes "bin/" ++ name) ≡ some 0 =
      rw (rfind-NoSlash name plain) refl in
    ap (up_to (dir ++ (codes "bin/" ++ name)))
      (rfind-append (codes "bin/") dir (codes "bin/" ++ name) found)
    ∙ up_to-length dir (codes "bin/" ++ name)
