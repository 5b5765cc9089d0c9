-- ===== src/Path.antt =====
-- The lexical functions of Go's `path/filepath` that the program calls (Clean, Join, Base, Dir),
-- for a separator `/`. A path is a list of bytes, and a component is what stands between slashes.
pub mod Clean
pub mod Confine
pub mod Below
pub mod Names
pub mod Siblings
use unpacker.Base.{ℕ, ◌≡◌, ◌≢◌, Bool, true, false, ◌||◌, List, [], ◌∷◌, ◌++◌, reverse, refl}
use unpacker.Base.{String, if◌then◌else◌, ◌==◌, All}
use unpacker.Base.Text.{Bytes, codes, bytes_eq}

abbrev pub slash : ℕ
slash = b'/'

abbrev pub dot : Bytes
dot = codes "."

abbrev pub dot_dot : Bytes
dot_dot = codes ".."

-- What stands between the slashes: always one component at least. The last argument is the
-- component that is being read.
unfoldable pub split_from : Bytes → Bytes → List Bytes
split_from [] cur = cur ∷ []
split_from (c ∷ s) cur = elim (c == slash) [
  | true ↦ cur ∷ split_from s []
  | false ↦ split_from s (cur ++ (c ∷ []))
]

unfoldable pub split : Bytes → List Bytes
unfolding split_from
split s = split_from s []

-- The components with a slash between them.
unfoldable pub join_slash : List Bytes → Bytes
join_slash [] = []
join_slash (c ∷ []) = c
join_slash (c ∷ d ∷ cs) = c ++ (slash ∷ join_slash (d ∷ cs))

unfoldable pub is_rooted : Bytes → Bool
is_rooted [] = false
is_rooted (c ∷ s) = c == slash

-- A `..` takes the last component back. At the root it is dropped, and behind nothing or
-- another `..` it stays.
unfoldable pub back : Bool → List Bytes → List Bytes
back true [] = []
back false [] = dot_dot ∷ []
back rooted (t ∷ st) = if bytes_eq t dot_dot then dot_dot ∷ t ∷ st else st

-- One component, onto the components read so far, the last one first.
unfoldable pub push : Bool → Bytes → List Bytes → List Bytes
unfolding back
push rooted c st =
    if bytes_eq c [] || bytes_eq c dot
    then st
    else if bytes_eq c dot_dot
    then back rooted st
    else c ∷ st

unfoldable pub walk : Bool → List Bytes → List Bytes → List Bytes
unfolding push
walk rooted [] st = st
walk rooted (c ∷ cs) st = walk rooted cs (push rooted c st)

-- The text of a cleaned path, from its components in reverse.
unfoldable pub render : Bool → List Bytes → Bytes
unfolding join_slash
render true st = slash ∷ join_slash (reverse st)
render false [] = dot
render false (t ∷ st) = join_slash (reverse (t ∷ st))

-- `filepath.Clean`
unfoldable pub clean : Bytes → Bytes
unfolding walk render split is_rooted bytes_eq
clean s = render (is_rooted s) (walk (is_rooted s) (split s) [])

-- `filepath.Join` of two elements: an empty one is left out.
unfoldable pub join : Bytes → Bytes → Bytes
unfolding clean
join [] [] = []
join [] b = clean b
join a [] = clean a
join a b = clean (a ++ (slash ∷ b))

-- `filepath.Join` of several elements: empty ones in front are left out.
unfoldable pub join_all : List Bytes → Bytes
unfolding clean join_slash
join_all [] = []
join_all ([] ∷ elems) = join_all elems
join_all ((c ∷ a) ∷ elems) = clean (join_slash ((c ∷ a) ∷ elems))

-- The last component that is not empty, if there is one.
unfoldable pub last_filled : Bytes → List Bytes → Bytes
last_filled found [] = found
last_filled found (c ∷ cs) = last_filled (if bytes_eq c [] then found else c) cs

-- `filepath.Base`: the last component, trailing slashes aside.
unfoldable pub base : Bytes → Bytes
unfolding last_filled split bytes_eq
base [] = dot
base (c ∷ s) =
    let found = last_filled [] (split (c ∷ s)) in if bytes_eq found [] then slash ∷ [] else found

-- What stands before the last slash, that slash included.
unfoldable pub directory : Bytes → Bytes → Bytes
directory [] cur = []
directory (c ∷ s) cur = elim (c == slash) [
  | true ↦ cur ++ (slash ∷ directory s [])
  | false ↦ directory s (cur ++ (c ∷ []))
]

-- `filepath.Dir`
unfoldable pub dir : Bytes → Bytes
unfolding clean directory
dir s = clean (directory s [])

-- A component that names an entry of its directory.
abbrev pub IsName : Bytes → Type 0
IsName c = (bytes_eq c [] ≡ false) × (bytes_eq c dot ≡ false) × (bytes_eq c dot_dot ≡ false)

clean_examples :
    (clean (codes "a//b/./../c/") ≡ codes "a/c")
    × (clean (codes "/../a") ≡ codes "/a")
    × (clean (codes "../../x") ≡ codes "../../x")
    × (clean (codes "") ≡ codes ".")
    × (clean (codes "a/..") ≡ codes ".")
    × (clean (codes "/") ≡ codes "/")
    × (join (codes "out") (codes "../../etc/passwd") ≡ codes "../etc/passwd")
    × (base (codes "/a/b/") ≡ codes "b")
    × (base (codes "//") ≡ codes "/")
    × (dir (codes "a/b") ≡ codes "a")
    × (dir (codes "b") ≡ codes ".")
unfolding clean join base dir
clean_examples = (refl, refl, refl, refl, refl, refl, refl, refl, refl, refl, refl)
