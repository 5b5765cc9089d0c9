-- ===== src/System/Disk.antt =====
-- A disk as a list of entries by path, and the changes that calls of `os` make.
use unpacker.Base.{ℕ, zero, suc, ◌≡◌, refl, Bool, true, false, not, ◌||◌, ◌&&◌, ◌==◌, arith}
use unpacker.Base.{List, [], ◌∷◌, ◌++◌, Option, none, some, if◌then◌else◌, length, drop, ltb, ◌+◌}
use unpacker.Base.Text.{Bytes, bytes_eq, bytes_eq_iff, has_prefix, contains_byte}
use unpacker.Path.{slash, dot, dot_dot}

-- Permission bits, with the content of a regular file.
pub data Node : Type 0 where
  file : ℕ → Bytes → Node
  folder : ℕ → Node

abbrev pub Disk : Type 0
Disk = List (Bytes × Node)

unfoldable pub find : Bytes → Disk → Option Node
find p [] = none
find p ((q, n) ∷ d) = if bytes_eq q p then some n else find p d

unfoldable pub put : Bytes → Node → Disk → Disk
put p n [] = (p, n) ∷ []
put p n ((q, m) ∷ d) = if bytes_eq q p then (p, n) ∷ d else (q, m) ∷ put p n d

-- The directory itself and all below it.
unfoldable pub within : Bytes → Bytes → Bool
within p q = bytes_eq p q || has_prefix q (p ++ (slash ∷ []))

unfoldable pub remove_tree : Bytes → Disk → Disk
remove_tree p [] = []
remove_tree p ((q, n) ∷ d) =
    let rest = remove_tree p d in if within p q then rest else (q, n) ∷ rest

pub find-put :
    (p q : Bytes) (n : Node) (d : Disk)
    → find q (put p n d) ≡ (if bytes_eq p q then some n else find q d)
unfolding find put
find-put p q n [] = refl
find-put p q n ((r, m) ∷ d) =
    ground (arith, bytes_eq_iff p q, bytes_eq_iff r p, bytes_eq_iff r q, find-put p q n d)

pub find-remove_tree :
    (p q : Bytes) (d : Disk) → find q (remove_tree p d) ≡ (if within p q then none else find q d)
unfolding find remove_tree
find-remove_tree p q [] = ground arith
find-remove_tree p q ((r, m) ∷ d) = ground (arith, bytes_eq_iff r q, find-remove_tree p q d)

-- The entry of one path.
unfoldable pub erase : Bytes → Disk → Disk
erase p [] = []
erase p ((q, n) ∷ d) = let rest = erase p d in if bytes_eq q p then rest else (q, n) ∷ rest

pub find-erase :
    (p q : Bytes) (d : Disk) → find q (erase p d) ≡ (if bytes_eq p q then none else find q d)
unfolding find erase
find-erase p q [] = ground arith
find-erase p q ((r, m) ∷ d) =
    ground (arith, bytes_eq_iff p q, bytes_eq_iff r p, bytes_eq_iff r q, find-erase p q d)

pub put-put : (p : Bytes) (n m : Node) (d : Disk) → put p n (put p m d) ≡ put p n d
unfolding put
put-put p n m [] = ground (arith, bytes_eq_iff p p)
put-put p n m ((r, k) ∷ d) = ground (arith, bytes_eq_iff p p, bytes_eq_iff r p, put-put p n m d)

-- A removal that fails on the way has removed the first k entries only.
unfoldable pub remove_some : ℕ → Bytes → Disk → Disk
remove_some zero p d = d
remove_some (suc k) p [] = []
remove_some (suc k) p ((q, n) ∷ d) =
    let less = remove_some k p d in
    let same = remove_some (suc k) p d in if within p q then less else (q, n) ∷ same

-- The entries of one tree, under another name. The rest is left alone.
unfoldable pub move_tree : Bytes → Bytes → Disk → Disk
move_tree from to [] = []
move_tree from to ((q, n) ∷ d) =
    let rest = move_tree from to d in
    if within from q then (to ++ drop (length from) q, n) ∷ rest else (q, n) ∷ rest

unfoldable pub occupied : Bytes → Disk → Bool
occupied p [] = false
occupied p ((q, n) ∷ d) = within p q || occupied p d

-- What `os.ReadDir` lists: names, and whether they are directories, ordered by name.
abbrev pub Listing : Type 0
Listing = List (Bytes × Bool)

unfoldable pub name_le : Bytes → Bytes → Bool
name_le [] t = true
name_le (a ∷ s) [] = false
name_le (a ∷ s) (b ∷ t) = ltb a b || ((a == b) && name_le s t)

unfoldable pub insert_name : Bytes → Bool → Listing → Listing
insert_name name b [] = (name, b) ∷ []
insert_name name b ((m, c) ∷ l) =
    let rest = insert_name name b l in
    if name_le name m then (name, b) ∷ (m, c) ∷ l else (m, c) ∷ rest

abbrev pub is_folder : Node → Bool
is_folder (folder m) = true
is_folder (file m s) = false

-- A component that names an entry: `os.ReadDir` lists neither `.` nor `..`.
unfoldable pub names_entry : Bytes → Bool
unfolding bytes_eq contains_byte
names_entry c = not (bytes_eq c [] || bytes_eq c dot || bytes_eq c dot_dot || contains_byte slash c)

unfoldable pub list_dir : Bytes → Disk → Listing
unfolding has_prefix insert_name name_le names_entry
list_dir p [] = []
list_dir p ((q, n) ∷ d) =
    let rest = list_dir p d in
    let name = drop (length p + 1) q in
    if has_prefix q (p ++ (slash ∷ [])) && names_entry name
    then insert_name name (is_folder n) rest
    else rest
