-- ===== src/Unpack/Layers.antt =====
-- internal/unpacker/unpack.go: the layers of an artifact, from the blobs in tmp/ to the disk.
use unpacker.Base.{List, [], ◌∷◌, ◌++◌, Option, none, some, if◌then◌else◌, ◌==◌, length, ltb}
use unpacker.Base.Text.{Bytes, codes, bytes_eq, has_prefix}
use unpacker.Base.Word.{sub_i64}
use unpacker.Path.{slash, clean, join, join_all, base}
use unpacker.Errors.{plain}
use unpacker.System.{
  M, ◌>>=◌, ◌>>◌, pure, fail, wrapping, say, extracted_layers, mkdir_all, stat_ok,
}
use unpacker.Limits.{Limits}
use unpacker.Compression.{Readers}
use unpacker.Extract.{extract_resolved}

pub record Layer : Type 0 where
  pub media_type : Bytes
  pub digest : Bytes
  pub annotations : List (Bytes × Bytes)

-- A map read at a key: a missing key gives the empty string.
unfoldable pub annotation : Bytes → List (Bytes × Bytes) → Bytes
unfolding bytes_eq
annotation key [] = []
annotation key ((k, v) ∷ rest) = if bytes_eq k key then v else annotation key rest

abbrev pub title_key : Bytes
title_key = codes "org.opencontainers.image.title"

-- `strings.SplitN(s, ":", 2)`, where it gives two parts.
unfoldable pub cut_colon : Bytes → Bytes → Option (Bytes × Bytes)
cut_colon [] before = none
cut_colon (c ∷ s) before = if c == b':' then some (before, s) else cut_colon s (before ++ (c ∷ []))

-- The name by title, where there is one.
titled : Bytes → Bytes → List Bytes
titled tmp [] = []
titled tmp (c ∷ title) = join tmp (base (clean (slash ∷ c ∷ title))) ∷ []

unfoldable pub candidates : Bytes → Layer → Bytes → Bytes → List Bytes
unfolding titled annotation
candidates tmp l algo hex =
    titled tmp (annotation title_key l.annotations)
    ++ (join tmp l.digest ∷ join tmp hex ∷ join_all (tmp ∷ codes "blobs" ∷ algo ∷ hex ∷ []) ∷ [])

-- The first candidate on the disk. One that leaves tmp/ is an error, also where a later one is there.
unfoldable pub find_candidate : Bytes → List Bytes → M Bytes
find_candidate tmp [] = fail (plain "no blob on disk for layer")
find_candidate tmp (c ∷ cs) =
    if has_prefix (clean c ++ (slash ∷ [])) (clean tmp ++ (slash ∷ []))
    then (do there ← stat_ok c; if there then pure c else find_candidate tmp cs)
    else fail (plain "layer resolves outside tmp dir")

unfoldable pub blob_path : Bytes → Layer → M Bytes
unfolding cut_colon candidates find_candidate
blob_path tmp l = elim (cut_colon l.digest []) [
  | none ↦ fail (plain "invalid digest format")
  | some (algo, hex) ↦ find_candidate tmp (candidates tmp l algo hex)
]

-- One layer after another, on what is left of the byte budget.
unfoldable pub extract_each : Readers → Bytes → Bytes → List Layer → Limits → M (Unit {0})
unfolding blob_path
extract_each R tmp image [] budget = pure tt
extract_each R tmp image (l ∷ layers) budget = do
  src ← blob_path tmp l
  written ← wrapping "extract layer" (extract_resolved R src image budget)
  extract_each R tmp image layers
      (record budget { max_total_bytes = sub_i64 budget.max_total_bytes written })

unfoldable pub extract_layers : Readers → Bytes → Bytes → List Layer → Limits → M (Unit {0})
unfolding extract_each
extract_layers R tmp image layers lim = do
  wrapping "create image dir" (mkdir_all image 0o755)
  extract_each R tmp image layers lim
  if ltb 1 (length layers) then say (extracted_layers (length layers)) else pure tt
