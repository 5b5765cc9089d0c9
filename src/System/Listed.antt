-- ===== src/System/Listed.antt =====
-- The names that os.ReadDir lists.
use unpacker.Base.{
  ◌≡◌, refl, arith, Bool, true, false, [], ◌∷◌, ◌++◌, ◌&&◌, All, length, drop, ◌+◌, if◌then◌else◌,
  ℕ, Option, none, some,
}
use unpacker.Base.Text.{Bytes, has_prefix, contains_byte}
use unpacker.Path.{slash}
use unpacker.Path.Clean.{NoSlash}
use unpacker.Path.Names.{IsPlain}
use unpacker.Errors.{Result, ok, err}
use unpacker.System.Disk.{Disk, Listing, names_entry, name_le, insert_name, is_folder, list_dir}
use unpacker.System.Monad.{World, next_fault, call, unless_fault, has_folder, read_dir, os_error}
use unpacker.System.Yields.{Yields}

contains_byte-NoSlash : (c : Bytes) → contains_byte slash c ≡ false → NoSlash c
unfolding contains_byte
contains_byte-NoSlash [] h = tt
contains_byte-NoSlash (b ∷ c) h = (ground arith, contains_byte-NoSlash c (ground arith))

names_entry-IsPlain : (c : Bytes) → names_entry c ≡ true → IsPlain c
unfolding names_entry
names_entry-IsPlain c h =
    (((ground arith), (ground arith), (ground arith)), contains_byte-NoSlash c (ground arith))

-- Every listed name is one component, which names an entry.
abbrev pub ListsNames : Listing → Type 0
ListsNames = All (λ (e : Bytes × Bool). IsPlain e.0)

insert_name-ListsNames :
    (name : Bytes) (b : Bool) (l : Listing)
    → IsPlain name
    → ListsNames l
    → ListsNames (insert_name name b l)
unfolding insert_name
insert_name-ListsNames name b [] h _ = (h, tt)
insert_name-ListsNames name b ((m, c) ∷ l) h (k, ks) =
    go (name_le name m) (insert_name-ListsNames name b l h ks)
  where
    go :
        (q : Bool)
        → ListsNames (insert_name name b l)
        → ListsNames (if q then (name, b) ∷ (m, c) ∷ l else (m, c) ∷ insert_name name b l)
    go true rest = (h, (k, ks))
    go false rest = (k, rest)

list_dir-ListsNames : (p : Bytes) (d : Disk) → ListsNames (list_dir p d)
unfolding list_dir
list_dir-ListsNames p [] = tt
list_dir-ListsNames p ((q, n) ∷ d) =
    go (has_prefix q (p ++ (slash ∷ [])) && names_entry name) refl (list_dir-ListsNames p d)
  where
    name : Bytes
    name = drop (length p + 1) q

    go :
        (b : Bool)
        → has_prefix q (p ++ (slash ∷ [])) && names_entry name ≡ b
        → ListsNames (list_dir p d)
        → ListsNames (if b then insert_name name (is_folder n) (list_dir p d) else list_dir p d)
    go true h rest =
        insert_name-ListsNames name (is_folder n) (list_dir p d)
          (names_entry-IsPlain name (ground arith)) rest
    go false h rest = rest

pub read_dir-ListsNames : (p : Bytes) (w : World) → Yields ListsNames (read_dir p w)
unfolding read_dir call
read_dir-ListsNames p w =
    go (next_fault w.faults).0 (record w { disk = w.disk; faults = (next_fault w.faults).1 })
  where
    answer : Disk → Result Listing
    answer d = if has_folder p d then ok (list_dir p d) else err os_error

    listed :
        (b : Bool) (v : World)
        → Yields {A = Listing} ListsNames ((if b then ok (list_dir p w.disk) else err os_error), v)
    listed true v = list_dir-ListsNames p w.disk
    listed false v = tt

    go :
        (f : Option ℕ) (v : World)
        → Yields {A = Listing} ListsNames ((unless_fault answer f w.disk).0, v)
    go none v = listed (has_folder p w.disk) v
    go (some k) v = tt
