-- ===== src/Wrapper/Showme.antt =====
-- What `--showme` prints.
use umpi.Base.{ℕ, ◌≡◌, refl, ap, ap₂, ◌∙◌, sym, Option, none, some, List, [], ◌∷◌, ◌++◌, All}
use umpi.Wrapper.{
  Mode, no_flag, show_all, flag_showme, flag_of, keep, find_flag, with_command, compiler, Wrapped,
  prints, executes, finish, with_args, main, new_args,
}

abbrev pub NoFlag : List (List ℕ) → Type 0
NoFlag = All (λ a. flag_of a ≡ none)

find_flag-plain : (args : List (List ℕ)) → NoFlag args → find_flag args ≡ (no_flag, args)
unfolding find_flag
find_flag-plain [] h = refl
find_flag-plain (a ∷ args) (e, h) = ap₂ (keep a args) (find_flag-plain args h) e

find_flag-first :
    (before after : List (List ℕ)) (f : List ℕ) (m : Mode)
    → NoFlag before
    → flag_of f ≡ some m
    → find_flag (before ++ f ∷ after) ≡ (m, before ++ after)
unfolding find_flag
find_flag-first [] after f m h e = ap (keep f after (find_flag after)) e
find_flag-first (a ∷ before) after f m (none_here, h) e =
    ap₂ (keep a (before ++ f ∷ after)) (find_flag-first before after f m h e) none_here

-- What is executed is what is printed instead.
abbrev pub printed : Wrapped → Wrapped
printed (executes args) = prints args
printed w = w

with_command-show :
    (path : List ℕ) (rest : List (List ℕ)) (o : Option (List ℕ))
    → with_command show_all path rest o ≡ printed (with_command no_flag path rest o)
unfolding with_command finish new_args
with_command-show path rest none = refl
with_command-show path rest (some command) = refl

with_args-show :
    (path : List ℕ) (args : List (List ℕ))
    → with_args path (show_all, args) ≡ printed (with_args path (no_flag, args))
unfolding with_args
with_args-show path [] = refl
with_args-show path (a ∷ args) = with_command-show path args (compiler a)

All-append : (xs ys : List (List ℕ)) → NoFlag xs → NoFlag ys → NoFlag (xs ++ ys)
All-append [] ys h k = k
All-append (x ∷ xs) ys (p, h) k = (p, All-append xs ys h k)

is_showme : flag_of flag_showme ≡ some show_all
unfolding flag_of
is_showme = refl

-- With `--showme` among arguments that are no flags, at any place, the wrapper prints the command that
-- it would execute without it; where it would end otherwise, it ends so.
pub main-showme :
    (path : Option (List ℕ)) (before after : List (List ℕ))
    → NoFlag before
    → NoFlag after
    → main path (before ++ flag_showme ∷ after) ≡ printed (main path (before ++ after))
unfolding main
main-showme none before after h k = refl
main-showme (some path) before after h k =
    ap (with_args path) (find_flag-first before after flag_showme show_all h is_showme)
    ∙ with_args-show path (before ++ after)
    ∙ sym (
        ap (λ x. printed (with_args path x))
          (find_flag-plain (before ++ after) (All-append before after h k)))
