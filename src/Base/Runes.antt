-- ===== src/Base/Runes.antt =====
-- How Go reads a string by runes: UTF-8, where a byte that starts no valid sequence is one U+FFFD.
-- And `%d` of a number that is not negative.
use Prim.Native.Nat.{ℕ, zero, suc, ◌+◌, ◌-◌, ◌*◌, ◌/◌, ◌%◌}
use mathlib.Core.Bool.{Bool, ◌&&◌}
use mathlib.Core.List.{List, [], ◌∷◌}
use unpacker.Base.Tests.{leb, ltb, if◌then◌else◌}
use unpacker.Base.Text.{Bytes}

abbrev in_range : ℕ → ℕ → ℕ → Bool
in_range lo hi b = leb lo b && leb b hi

-- The byte that a sequence goes on with, out of range where there is none.
abbrev first_of : Bytes → ℕ
first_of [] = 0
first_of (b ∷ s) = b

abbrev rest_of : Bytes → Bytes
rest_of [] = []
rest_of (b ∷ s) = s

abbrev rune_error : ℕ
rune_error = 0xfffd

-- The rune that a byte starts, and how many bytes behind it belong to it.
abbrev two_bytes : ℕ → Bytes → ℕ × ℕ
two_bytes b s =
    if in_range 0x80 0xbf (first_of s)
    then ((b - 0xc0) * 64 + (first_of s - 0x80), 1)
    else (rune_error, 0)

abbrev three_bytes : ℕ → ℕ → ℕ → Bytes → ℕ × ℕ
three_bytes lo hi b s =
    if in_range lo hi (first_of s) && in_range 0x80 0xbf (first_of (rest_of s))
    then ((b - 0xe0) * 4096 + (first_of s - 0x80) * 64 + (first_of (rest_of s) - 0x80), 2)
    else (rune_error, 0)

abbrev four_bytes : ℕ → ℕ → ℕ → Bytes → ℕ × ℕ
four_bytes lo hi b s =
    let third = first_of (rest_of s) in
    let fourth = first_of (rest_of (rest_of s)) in
    if in_range lo hi (first_of s) && (in_range 0x80 0xbf third && in_range 0x80 0xbf fourth)
    then (
      (b - 0xf0) * 262_144 + (first_of s - 0x80) * 4096 + (third - 0x80) * 64 + (fourth - 0x80),
      3,
    )
    else (rune_error, 0)

unfoldable pub decode_rune : ℕ → Bytes → ℕ × ℕ
decode_rune b s =
    if ltb b 0x80
    then (b, 0)
    else if in_range 0xc2 0xdf b
    then two_bytes b s
    else if in_range 0xe0 0xe0 b
    then three_bytes 0xa0 0xbf b s
    else if in_range 0xed 0xed b
    then three_bytes 0x80 0x9f b s
    else if in_range 0xe1 0xef b
    then three_bytes 0x80 0xbf b s
    else if in_range 0xf0 0xf0 b
    then four_bytes 0x90 0xbf b s
    else if in_range 0xf1 0xf3 b
    then four_bytes 0x80 0xbf b s
    else if in_range 0xf4 0xf4 b
    then four_bytes 0x80 0x8f b s
    else (rune_error, 0)

-- The number of bytes to skip is what is left of the rune before.
unfoldable pub runes_from : ℕ → Bytes → List ℕ
unfolding decode_rune
runes_from skip [] = []
runes_from zero (b ∷ s) = let (r, extra) = decode_rune b s in r ∷ runes_from extra s
runes_from (suc skip) (b ∷ s) = runes_from skip s

-- `for _, r := range s`
unfoldable pub runes : Bytes → List ℕ
unfolding runes_from
runes s = runes_from 0 s

-- The digits in front of some that are there, the last digit first; a number has fewer digits than
-- its size.
unfoldable pub digits : ℕ → ℕ → Bytes → Bytes
digits zero n s = s
digits (suc fuel) n s =
    let more = digits fuel (n / 10) ((b'0' + n % 10) ∷ s) in
    if ltb n 10 then (b'0' + n % 10) ∷ s else more

-- `%d`
unfoldable pub decimal : ℕ → Bytes
unfolding digits
decimal n = digits (n + 1) n []
