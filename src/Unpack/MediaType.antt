-- ===== src/Unpack/MediaType.antt =====
-- internal/unpacker/unpack.go: which media types `--mediatype` covers.
use unpacker.Base.{ℕ, ◌+◌, Bool, true, false, ◌&&◌, ◌||◌, List, [], ◌∷◌, ◌++◌}
use unpacker.Base.{if◌then◌else◌, leb, ◌==◌}
use unpacker.Base.Text.{Bytes, contains_byte}
use unpacker.Base.Runes.{runes}
use unpacker.Path.{slash}

-- The separators of `mediaTypeComponents`.
unfoldable pub is_separator : ℕ → Bool
is_separator c =
    c == b'/'
    || (c == b'.'
        || (c == b'+' || (c == b'-' || (c == b';' || (c == b' ' || (c == b',' || c == b'_'))))))

-- `strings.FieldsFunc`: the runs between separators, empty ones left out. The last argument is
-- the run that is being read.
abbrev pub flush_run : Bytes → List Bytes → List Bytes
flush_run [] rest = rest
flush_run (c ∷ run) rest = (c ∷ run) ∷ rest

unfoldable pub fields_from : Bytes → Bytes → List Bytes
fields_from [] run = flush_run run []
fields_from (c ∷ s) run = elim (is_separator c) [
  | true ↦ flush_run run (fields_from s [])
  | false ↦ fields_from s (run ++ (c ∷ []))
]

unfoldable pub media_type_components : Bytes → List Bytes
unfolding fields_from is_separator
media_type_components media_type = fields_from media_type []

-- The runes that `unicode.SimpleFold` leads to from an ASCII letter are its two cases, the Kelvin sign
-- for k and the long s for s. Each rune of another orbit stands for itself.
abbrev pub folded : ℕ → ℕ
folded r =
    if leb b'A' r && leb r b'Z'
    then r + 32
    else if r == 0x212a
    then b'k'
    else if r == 0x17f
    then b's'
    else r

unfoldable pub equal_runes : List ℕ → List ℕ → Bool
equal_runes [] [] = true
equal_runes (a ∷ s) (b ∷ t) = (folded a == folded b) && equal_runes s t
equal_runes _ _ = false

-- `strings.EqualFold`, where one of the two texts is ASCII.
unfoldable pub equal_fold : Bytes → Bytes → Bool
unfolding equal_runes runes
equal_fold s t = equal_runes (runes s) (runes t)

unfoldable pub any_fold : Bytes → List Bytes → Bool
unfolding equal_fold
any_fold word [] = false
any_fold word (part ∷ parts) = equal_fold part word || any_fold word parts

-- One value of `--mediatype`: in full with a slash, else by a whole component; empty never.
unfoldable pub type_matches : Bytes → Bytes → Bool
unfolding any_fold contains_byte media_type_components
type_matches media_type [] = false
type_matches media_type (c ∷ allowed) =
    if contains_byte slash (c ∷ allowed)
    then equal_fold media_type (c ∷ allowed)
    else any_fold (c ∷ allowed) (media_type_components media_type)

unfoldable pub allowed_media_type : Bytes → List Bytes → Bool
unfolding type_matches
allowed_media_type media_type [] = false
allowed_media_type media_type (a ∷ allowed) =
    type_matches media_type a || allowed_media_type media_type allowed
