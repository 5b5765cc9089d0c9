-- ===== src/Sorting.antt =====
-- The package sort, as unpack.go and verify.go call it.
pub mod Order
use unpacker.Base.{List, [], ◌∷◌, if◌then◌else◌}
use unpacker.Base.Text.{Bytes}
use unpacker.System.Disk.{name_le}

-- `sort.Strings`, by insertion.
unfoldable pub insert : Bytes → List Bytes → List Bytes
unfolding name_le
insert s [] = s ∷ []
insert s (t ∷ l) = if name_le s t then s ∷ t ∷ l else t ∷ insert s l

unfoldable pub sort : List Bytes → List Bytes
unfolding insert
sort [] = []
sort (s ∷ l) = insert s (sort l)
