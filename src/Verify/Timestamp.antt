-- ===== src/Verify/Timestamp.antt =====
-- internal/unpacker/verify.go: `observedTimestamp`, the name of what attested to a signature's time.
pub mod Order
use unpacker.Base.{Bool, true, false, List, [], ◌∷◌, ◌++◌, Option, none, some, if◌then◌else◌}
use unpacker.Base.Text.{Bytes, codes, bytes_eq}
use unpacker.Sorting.{sort}

-- `slicesCompact`: a text is dropped behind an equal one.
unfoldable pub compact_after : Bytes → List Bytes → List Bytes
unfolding bytes_eq
compact_after last [] = []
compact_after last (s ∷ l) =
    let rest = compact_after s l in if bytes_eq s last then rest else s ∷ rest

unfoldable pub slices_compact : List Bytes → List Bytes
unfolding compact_after
slices_compact [] = []
slices_compact (s ∷ l) = s ∷ compact_after s l

-- `strings.Join(l, "+")`
unfoldable pub join_plus : List Bytes → Bytes
join_plus [] = []
join_plus (s ∷ []) = s
join_plus (s ∷ t ∷ l) = s ++ (b'+' ∷ join_plus (t ∷ l))

-- The clock is no observer.
unfoldable pub observers : List Bytes → List Bytes
unfolding bytes_eq
observers [] = []
observers (t ∷ types) =
    let rest = observers types in if bytes_eq t (codes "CurrentTime") then rest else t ∷ rest

abbrev pub or_rekor_v2 : Bytes → Bytes → Bytes
or_rekor_v2 planned other =
    if bytes_eq planned (codes "rekor") then codes "none-rekor-v2" else other

abbrev pub named : Bytes → List Bytes → Bytes
named planned [] = or_rekor_v2 planned planned
named planned (t ∷ types) = join_plus (slices_compact (sort (t ∷ types)))

-- `observedTimestamp`, on the types of the verified timestamps.
unfoldable pub observed_timestamp : Option (List Bytes) → Bytes → Bytes
unfolding observers sort slices_compact join_plus
observed_timestamp none planned = or_rekor_v2 planned (codes "none")
observed_timestamp (some []) planned = or_rekor_v2 planned (codes "none")
observed_timestamp (some (t ∷ types)) planned = named planned (observers (t ∷ types))
