-- ===== src/System/Removal.antt =====
-- The removal of a file that the program has made.
use unpacker.Base.{◌≡◌, refl, arith, false, [], ◌∷◌, ◌++◌, Option, none, some}
use unpacker.Base.Text.{Bytes, bytes_eq_iff}
use unpacker.System.Disk.{Node, file, folder, Disk, find, put, erase, occupied}
use unpacker.System.Monad.{World, call, remove, append_to, appended}

-- Nothing on the disk stands below the path.
abbrev pub IsBare : Bytes → Disk → Type 0
IsBare p d = occupied p (erase p d) ≡ false

pub erase-put : (p : Bytes) (n : Node) (d : Disk) → erase p (put p n d) ≡ erase p d
unfolding erase put
erase-put p n [] = ground (arith, bytes_eq_iff p p)
erase-put p n ((r, m) ∷ d) = ground (arith, bytes_eq_iff p p, bytes_eq_iff r p, erase-put p n d)

pub erase-append_to : (p s : Bytes) (d : Disk) → erase p (append_to p s d) ≡ erase p d
erase-append_to p s d = go (find p d)
  where
    go : (n : Option Node) → erase p (appended p s d n) ≡ erase p d
    go none = refl
    go (some (folder m)) = refl
    go (some (file m t)) = erase-put p (file m (t ++ s)) d

-- A removal that does not fail takes away what is there, where nothing stands below it.
pub remove-erase :
    (p : Bytes) (w : World) {n : Node}
    → find p w.disk ≡ some n
    → IsBare p w.disk
    → (remove p (record w { faults = [] })).1.disk ≡ erase p w.disk
unfolding remove call
remove-erase p w found bare = rw (found, bare)
