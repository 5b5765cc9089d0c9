-- ===== src/Extract/Skipped.antt =====
-- internal/unpacker/unpack.go: `describeSkipped`, the log's words for the entries that were skipped.

use mathlib.Core.List.{Permᴰ}
use unpacker.Base.{
  ℕ, ◌+◌, ◌-◌, ◌/◌, ◌%◌, ◌≡◌, ap, ◌||◌, ◌&&◌, not, ◌==◌, leb, ltb, List, [], ◌∷◌, ◌++◌, map, Option,
  none, some, if◌then◌else◌,
}
use unpacker.Base.Text.{Bytes, codes}
use unpacker.Base.Runes.{decimal}
use unpacker.Sorting.{sort}
use unpacker.Sorting.Order.{sort-Permᴰ}

-- `tarTypeNames`, by the flags of archive/tar.
unfoldable pub tar_type_name : ℕ → Option Bytes
tar_type_name flag =
    if flag == b'2'
    then some (codes "symlink")
    else if flag == b'1'
    then some (codes "hardlink")
    else if flag == b'3'
    then some (codes "char device")
    else if flag == b'4'
    then some (codes "block device")
    else if flag == b'6'
    then some (codes "fifo")
    else if flag == b'g'
    then some (codes "global header")
    else none

abbrev hex_digit : ℕ → ℕ
hex_digit n = if ltb n 10 then b'0' + n else b'a' + (n - 10)

abbrev hex_byte : ℕ → Bytes
hex_byte n = hex_digit (n / 16) ∷ hex_digit (n % 16) ∷ []

-- The escapes of control characters that have a letter.
abbrev control_escape : ℕ → Option Bytes
control_escape n =
    if n == 7
    then some (codes "\\a")
    else if n == 8
    then some (codes "\\b")
    else if n == 9
    then some (codes "\\t")
    else if n == 10
    then some (codes "\\n")
    else if n == 11
    then some (codes "\\v")
    else if n == 12
    then some (codes "\\f")
    else if n == 13
    then some (codes "\\r")
    else none

-- The rune of a byte, between the quotes: the printable ones up to 0xff as they are, in UTF-8.
unfoldable pub quoted_byte : ℕ → Bytes
quoted_byte n =
    if n == 0x27 || n == 0x5c
    then 0x5c ∷ n ∷ []
    else if leb 0x20 n && leb n 0x7e
    then n ∷ []
    else if leb 0xa1 n && not (n == 0xad)
    then (0xc0 + n / 64) ∷ (0x80 + n % 64) ∷ []
    else elim (control_escape n) [
      | some escape ↦ escape
      | none ↦
          if ltb n 0x20 || n == 0x7f then codes "\\x" ++ hex_byte n else codes "\\u00" ++ hex_byte n
    ]

-- `fmt.Sprintf("type %q", flag)` where there is no name.
abbrev flag_name : ℕ → Option Bytes → Bytes
flag_name flag (some name) = name
flag_name flag none = codes "type '" ++ quoted_byte flag ++ (0x27 ∷ [])

-- `fmt.Sprintf("%s x%d", name, count)`
unfoldable pub describe_part : ℕ × ℕ → Bytes
unfolding tar_type_name quoted_byte decimal
describe_part (flag, count) = flag_name flag (tar_type_name flag) ++ codes " x" ++ decimal count

-- `strings.Join(parts, ", ")`
unfoldable pub join_comma : List Bytes → Bytes
join_comma [] = []
join_comma (s ∷ []) = s
join_comma (s ∷ t ∷ l) = s ++ codes ", " ++ join_comma (t ∷ l)

-- `describeSkipped`, on the entries of the map in the order of an iteration.
unfoldable pub describe_skipped : List (ℕ × ℕ) → Bytes
unfolding describe_part sort join_comma
describe_skipped skipped = join_comma (sort (map describe_part skipped))

map-Permᴰ : {A B : Type 0} (f : A → B) {l m : List A} → Permᴰ l m → Permᴰ (map f l) (map f m)
map-Permᴰ f Permᴰ.nil = Permᴰ.nil
map-Permᴰ f (Permᴰ.cons e h) = Permᴰ.cons (ap f e) (map-Permᴰ f h)
map-Permᴰ f (Permᴰ.swap {l = l} e g) = Permᴰ.swap (ap f e) (ap f g)
map-Permᴰ f (Permᴰ.trans h k) = Permᴰ.trans (map-Permᴰ f h) (map-Permᴰ f k)

-- The words for the skipped entries do not depend on the order in which the map is iterated.
describe_skipped-Permᴰ : {l m : List (ℕ × ℕ)} → Permᴰ l m → describe_skipped l ≡ describe_skipped m
unfolding describe_skipped
describe_skipped-Permᴰ h = ap join_comma (sort-Permᴰ (map-Permᴰ describe_part h))
