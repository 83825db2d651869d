-- ===== src/Wrapper.antt =====
-- mpicc.cc: the compiler wrapper. A text is the list of its bytes.
pub mod Prefix
pub mod Showme
use Prim.Native.Char.{Char, code}
use Prim.Native.String.{String}
use umpi.Base.{
  ℕ, zero, suc, ◌≡◌, refl, Bool, true, false, not, ◌&&◌, Option, none, some, List, [], ◌∷◌, ◌++◌,
  ◌==◌, if◌then◌else◌, take, drop,
}

abbrev pub codes : String → List ℕ
codes String.[] = []
codes (String.◌∷◌ c s) = code c ∷ codes s

abbrev pub same_text : List ℕ → List ℕ → Bool
same_text [] [] = true
same_text [] (_ ∷ _) = false
same_text (_ ∷ _) [] = false
same_text (c ∷ cs) (d ∷ ds) = c == d && same_text cs ds

-- Whether the second text begins with the first.
abbrev pub starts : List ℕ → List ℕ → Bool
starts [] s = true
starts (c ∷ p) [] = false
starts (c ∷ p) (d ∷ s) = c == d && starts p s

-- `std::string::rfind` of a text that is not empty; `none` is `npos`.
unfoldable pub rfind : List ℕ → List ℕ → Option ℕ
rfind p [] = none
rfind p (c ∷ s) = elim (rfind p s) [
  | none ↦ if starts p (c ∷ s) then some 0 else none
  | some i ↦ some (suc i)
]

-- The four flags of `main`.
pub record Mode : Type 0 where
  pub showme : Bool
  pub commanding : Bool
  pub compiling : Bool
  pub linking : Bool

abbrev pub no_flag : Mode
no_flag = record { showme = false; commanding = true; compiling = true; linking = true }

abbrev pub show_all : Mode
show_all = record { showme = true; commanding = true; compiling = true; linking = true }

abbrev pub flag_showme : List ℕ
flag_showme = codes "--showme"

-- The tests of the loop over the arguments, for one of them.
unfoldable pub flag_of : List ℕ → Option Mode
flag_of a =
    if same_text a flag_showme
    then some show_all
    else (if same_text a (codes "--showme:compile")
        then some (record { showme = true; commanding = false; compiling = true; linking = false })
        else (if same_text a (codes "--showme:link")
            then some
                (record { showme = true; commanding = false; compiling = false; linking = true })
            else (if same_text a (codes "--showme:command")
                then some (record {
                  showme = true;
                  commanding = true;
                  compiling = false;
                  linking = false;
                })
                else none)))

-- A round of the loop: a flag is erased and ends it, and another argument stays.
abbrev pub keep : List ℕ → List (List ℕ) → Mode × List (List ℕ) → Option Mode → Mode × List (List ℕ)
keep a args rest (some m) = (m, args)
keep a args (m, rest) none = (m, a ∷ rest)

-- The loop: the mode, and the arguments without the first flag.
unfoldable pub find_flag : List (List ℕ) → Mode × List (List ℕ)
find_flag [] = (no_flag, [])
find_flag (a ∷ args) = keep a args (find_flag args) (flag_of a)

-- `prefix`, for the path of the executable.
abbrev pub up_to : List ℕ → Option ℕ → List ℕ
up_to s none = s
up_to s (some i) = take i s

unfoldable pub prefix_of : List ℕ → List ℕ
unfolding rfind
prefix_of path = up_to path (rfind (codes "bin/") path)

-- `command`, for `args[0]`. Without "mpi" in it `std::string` throws.
unfoldable pub compiler : List ℕ → Option (List ℕ)
compiler arg = elim (rfind (codes "mpi") arg) [
  | none ↦ none
  | some i ↦
      some (if same_text (drop i arg) (codes "mpicc") then codes "clang" else codes "clang++")
]

-- `compile` and `link`
unfoldable pub compile_args : List ℕ → List (List ℕ)
compile_args prefix = codes "-pthread" ∷ (codes "-I" ++ prefix ++ codes "include") ∷ []

unfoldable pub link_args : List ℕ → List (List ℕ)
link_args prefix =
    (codes "-Wl,-rpath," ++ prefix ++ codes "lib")
    ∷ (codes "-L" ++ prefix ++ codes "lib")
    ∷ codes "-lmpi"
    ∷ []

-- `new_args`; `rest` are the arguments after `args[0]`.
unfoldable pub new_args : Mode → List ℕ → List ℕ → List (List ℕ) → List (List ℕ)
new_args m command prefix rest =
    (if m.commanding then command ∷ [] else [])
    ++ rest
    ++ (if m.compiling then compile_args prefix else [])
    ++ (if m.linking then link_args prefix else [])

-- What `main` comes to: it prints the words of a command, it executes one (and returns 1 where that
-- fails), it returns 1 at once, or the behaviour is undefined or an exception ends it.
pub data Wrapped : Type 0 where
  prints : List (List ℕ) → Wrapped
  executes : List (List ℕ) → Wrapped
  no_path : Wrapped
  crashes : Wrapped

unfoldable pub finish : Mode → List (List ℕ) → Wrapped
finish m args = if m.showme then prints args else executes args

-- The rest of `main` where `command` is known.
unfoldable pub with_command : Mode → List ℕ → List (List ℕ) → Option (List ℕ) → Wrapped
unfolding finish
with_command m path rest none = crashes
with_command m path rest (some command) = finish m (new_args m command (prefix_of path) rest)

unfoldable pub with_args : List ℕ → Mode × List (List ℕ) → Wrapped
unfolding with_command
with_args path (m, []) = crashes
with_args path (m, arg ∷ rest) = with_command m path rest (compiler arg)

-- `main`, for what `readlink` gives (`none` for no path) and the arguments.
unfoldable pub main : Option (List ℕ) → List (List ℕ) → Wrapped
unfolding with_args find_flag
main none args = no_path
main (some path) args = with_args path (find_flag args)

-- The text that is printed for a command, without the end of the line.
unfoldable pub line : List (List ℕ) → List ℕ
line [] = []
line (a ∷ []) = a
line (a ∷ b ∷ args) = a ++ codes " " ++ line (b ∷ args)
