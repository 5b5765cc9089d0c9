-- ===== src/Compression.antt =====
-- internal/unpacker/unpack.go: the compression of a layer, read off its first bytes.
use unpacker.Base.{ℕ, String, ◌&&◌, List, [], ◌∷◌, Option, none}
use unpacker.Base.{if◌then◌else◌, length, take, drop, leb}
use unpacker.Base.Text.{Bytes, codes, has_prefix}
use unpacker.Errors.{Error, plain, Result, ok, err, wrap_result}

pub data CompressionKind : Type 0 where
  compression_unknown compression_gzip compression_zstd compression_none : CompressionKind

-- `compressionKind.String`
abbrev pub kind_name : CompressionKind → String
kind_name compression_gzip = "gzip"
kind_name compression_zstd = "zstd"
kind_name compression_none = "uncompressed tar"
kind_name compression_unknown = "unrecognised"

abbrev pub magic_gzip : Bytes
magic_gzip = 0x1f ∷ 0x8b ∷ []

abbrev pub magic_zstd : Bytes
magic_zstd = 0x28 ∷ 0xb5 ∷ 0x2f ∷ 0xfd ∷ []

-- The magic of a tar header stands at offset 257.
unfoldable pub sniff_compression : Bytes → Bytes × CompressionKind
unfolding has_prefix
sniff_compression content =
    let head = take 262 content in
    if has_prefix head magic_gzip
    then (head, compression_gzip)
    else if has_prefix head magic_zstd
    then (head, compression_zstd)
    else if leb 262 (length head) && has_prefix (take 5 (drop 257 head)) (codes "ustar")
    then (head, compression_none)
    else (head, compression_unknown)

-- The bytes that a reader gives, and the error that it ends with in place of the end of file.
pub data Stream : Type 0 where
  stream : Bytes → Option Error → Stream

-- One round of `tar.Reader.Next`: a header with the body that a read of the entry gives, and the
-- error that the read ends with; or the error of `Next`. The end of the list is the end of file.
pub record Header : Type 0 where
  pub name : Bytes
  pub typeflag : ℕ
  pub mode : ℕ

pub data Item : Type 0 where
  entry : Header → Bytes → Option Error → Item
  broken : Error → Item

-- The decompressors and the archive reader, which the program calls: compress/gzip, archive/tar and
-- klauspost's zstd.
pub record Readers : Type 0 where
  pub gunzip : Bytes → Result Stream
  pub unzstd : Bytes → Result Stream
  pub untar : Stream → List Item

unfoldable pub tar_stream : Readers → Bytes → Result Stream
unfolding sniff_compression
tar_stream R content = elim (sniff_compression content).1 [
  | compression_gzip ↦ wrap_result "open gzip" (R.gunzip content)
  | compression_zstd ↦ wrap_result "open zstd" (R.unzstd content)
  | compression_none ↦ ok (stream content none)
  | compression_unknown ↦ err (plain "unsupported layer compression")
]
