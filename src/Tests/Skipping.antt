-- ===== src/Tests/Skipping.antt =====
-- The words for skipped entries.

use unpacker.Base.{◌≡◌, refl, [], ◌∷◌}
use unpacker.Base.Text.{codes}
use unpacker.Base.Runes.{decimal, digits}
use unpacker.System.{name_le}
use unpacker.Sorting.{insert, sort}
use unpacker.Extract.Skipped.{
  tar_type_name, quoted_byte, describe_part, join_comma, describe_skipped,
}

describes :
    describe_skipped ((b'2', 10) ∷ (b'1', 1) ∷ (b'S', 2) ∷ [])
    ≡ codes "hardlink x1, symlink x10, type 'S' x2"
unfolding describe_skipped describe_part tar_type_name quoted_byte join_comma sort insert name_le
    decimal digits
describes = refl

quotes : quoted_byte 1 ≡ 0x5c ∷ b'x' ∷ b'0' ∷ b'1' ∷ []
unfolding quoted_byte
quotes = refl

quotes_above : quoted_byte 0xad ≡ 0x5c ∷ b'u' ∷ b'0' ∷ b'0' ∷ b'a' ∷ b'd' ∷ []
unfolding quoted_byte
quotes_above = refl
