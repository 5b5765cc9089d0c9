-- ===== src/Unpack.antt =====
-- internal/unpacker/unpack.go: from a pulled artifact in tmp/ to a published image/.
pub mod MediaType
pub mod Layers
pub mod Shared
pub mod Blobs
pub mod Components
pub mod Publish
pub mod Confined
pub mod Atomic
pub mod Words
pub mod Copied
pub mod Bounded
use unpacker.Base.{
  ℕ, ◌+◌, ◌≡◌, Bool, true, false, ◌||◌, List, [], ◌∷◌, ◌++◌, Option, none, some, String,
}
use unpacker.Base.{if◌then◌else◌, length, ltb}
use unpacker.Base.Text.{Bytes, codes}
use unpacker.Base.Word.{I64, add_i64, lt_i64}
use unpacker.Path.{join, join_all}
use unpacker.Errors.{Error, plain, limit, wrap, Result, ok, err, wrap_result}
use unpacker.System.{
  World, M, ◌>>=◌, ◌>>◌, pure, fail, attempt, wrapping, lift, say, LogLine, said, copied_file,
}
use unpacker.System.{
  mkdir_all, open_file, read_file, open_source, read_source, read_dir, remove_all, rename, stat_ok,
}
use unpacker.Limits.{Limits, with_defaults}
use unpacker.Config.{Config}
use unpacker.Compression.{Readers, CompressionKind, compression_unknown, sniff_compression}
use unpacker.Extract.{copy_limited}
use unpacker.Unpack.MediaType.{allowed_media_type}
use unpacker.Unpack.Layers.{Layer, extract_layers}

-- What the program calls: the decompressors, the JSON decoder at the type `manifest`, and the
-- external commands: what `exec.Command` on a name and arguments, followed by `CombinedOutput`, gives,
-- which is the output on every outcome.
pub record Tools : Type 0 where
  pub readers : Readers
  pub parse_manifest : Bytes → Result (List Layer)
  pub command : Bytes → List Bytes → M (Bytes × Option Error)

-- The layers whose media type is allowed, in the order of the manifest.
unfoldable pub allowed_layers : List Bytes → List Layer → List Layer
unfolding allowed_media_type
allowed_layers types [] = []
allowed_layers types (l ∷ layers) =
    let rest = allowed_layers types layers in
    if allowed_media_type l.media_type types then l ∷ rest else rest

-- The first regular file of a listing.
unfoldable pub first_file : List (Bytes × Bool) → Option Bytes
first_file [] = none
first_file ((name, true) ∷ l) = first_file l
first_file ((name, false) ∷ l) = some name

abbrev is_archive : CompressionKind → Bool
is_archive compression_unknown = false
is_archive _ = true

abbrev pub sniffs_as_archive : Result Bytes → Bool
sniffs_as_archive (ok content) = is_archive (sniff_compression content).1
sniffs_as_archive (err e) = false

abbrev pub first_of_listing : Bytes → Result (List (Bytes × Bool)) → M Bool
first_of_listing dir (err e) = pure false
first_of_listing dir (ok l) = elim (first_file l) [
  | none ↦ pure false
  | some name ↦ (do content ← attempt (read_file (join dir name)); pure (sniffs_as_archive content))
]

unfoldable pub first_file_is_archive : Bytes → M Bool
unfolding first_file
first_file_is_archive dir = do listing ← attempt (read_dir dir); first_of_listing dir listing

-- The loop of `CopyFiles`: the files copied so far, and their bytes.
unfoldable pub copy_entries :
    Bytes → Bytes → Limits → List (Bytes × Bool) → I64 → I64 → M (Unit {0})
copy_entries src dest lim [] copied total = pure tt
copy_entries src dest lim ((name, true) ∷ entries) copied total =
    copy_entries src dest lim entries copied total
copy_entries src dest lim ((name, false) ∷ entries) copied total =
    if lt_i64 lim.max_entries (add_i64 copied 1)
    then fail (limit "more files to copy than allowed (--max-entries)")
    else (do
      open_source (join src name)
      open_file (join dest name) 0o666
      (content, read_error) ← read_source (join src name)
      total' ← copy_limited (join dest name) content read_error lim total
      say (copied_file name)
      copy_entries src dest lim entries (add_i64 copied 1) total')

-- `CopyFiles`
unfoldable pub copy_files : Bytes → Bytes → Limits → M (Unit {0})
unfolding copy_entries with_defaults
copy_files src dest lim = do
  wrapping "create dest dir" (mkdir_all dest 0o755)
  entries ← wrapping "read src dir" (read_dir src)
  copy_entries src dest (with_defaults lim) entries 0 0

-- The layers that the manifest allows; without a manifest there are none.
abbrev pub layers_of_manifest : Tools → Config → Result Bytes → M (List Layer)
layers_of_manifest T cfg (err e) = do
  say (said "manifest.json not found, proceeding without mediatype information")
  pure []
layers_of_manifest T cfg (ok content) = do
  layers ← lift (wrap_result "parse manifest" (T.parse_manifest content))
  pure (allowed_layers cfg.allowed_types layers)

abbrev pub umoci_args : Bytes → Bytes → List Bytes
umoci_args tmp image =
    codes "--log"
    ∷ codes "error"
    ∷ codes "raw"
    ∷ codes "unpack"
    ∷ codes "--rootless"
    ∷ codes "--image"
    ∷ tmp
    ∷ image
    ∷ []

abbrev pub after_umoci : Bytes × Option Error → M (Unit {0})
after_umoci (out, some e) = fail (wrap "umoci failed" e)
after_umoci (out, none) = if ltb 0 (length out) then say (said "umoci output") else pure tt

-- `runUmoci`
unfoldable pub run_umoci : Tools → Bytes → Bytes → M (Unit {0})
run_umoci T tmp image = T.command (codes "umoci") (umoci_args tmp image) >>= after_umoci

-- `dirExists`
abbrev pub dir_exists : Bytes → M Bool
dir_exists path = stat_ok path

-- The three ways to unpack.
abbrev pub unpack_by : Tools → Bytes → Bytes → Limits → Bool → List Layer → M (Unit {0})
unpack_by T tmp image lim false layers = copy_files tmp image lim
unpack_by T tmp image lim true [] = run_umoci T tmp image
unpack_by T tmp image lim true (l ∷ layers) = extract_layers T.readers tmp image (l ∷ layers) lim

unfoldable pub unpack_into : Tools → Config → Bytes → M (Unit {0})
unfolding allowed_layers first_file_is_archive copy_files run_umoci
unpack_into T cfg image_dir = do
  let tmp_dir = join cfg.output_dir (codes "tmp")
  data_read ← attempt (read_file (join cfg.output_dir (codes "manifest.json")))
  allowed ← layers_of_manifest T cfg data_read
  has_tar ← first_file_is_archive tmp_dir
  has_blobs ← dir_exists (join_all (tmp_dir ∷ codes "blobs" ∷ codes "sha256" ∷ []))
  unpack_by T tmp_dir image_dir (with_defaults cfg.limits) (has_tar || has_blobs) allowed

abbrev pub staging_dir : Config → Bytes
staging_dir cfg = join cfg.output_dir (codes ".image.staging")

abbrev pub image_dir : Config → Bytes
image_dir cfg = join cfg.output_dir (codes "image")

-- What is done with the outcome of `unpackInto`.
abbrev pub publish : Config → Result (Unit {0}) → M (Unit {0})
publish cfg (err e) = do _ ← attempt (remove_all (staging_dir cfg)); fail e
publish cfg (ok u) = do
  wrapping "replace previous image dir" (remove_all (image_dir cfg))
  wrapping "publish image dir" (rename (staging_dir cfg) (image_dir cfg))

-- `Unpack`
unfoldable pub unpack : Tools → Config → M (Unit {0})
unfolding unpack_into
unpack T cfg = do
  wrapping "clear staging dir" (remove_all (staging_dir cfg))
  outcome ← attempt (unpack_into T cfg (staging_dir cfg))
  publish cfg outcome
