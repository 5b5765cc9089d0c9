-- ===== src/Tests/Layered.antt =====
-- An artifact of two layers, which share one byte budget.
use unpacker.Base.{◌≡◌, ◌⊎◌, refl, [], ◌∷◌, none, arith}
use unpacker.Base.Text.{codes, bytes_eq, has_prefix}
use unpacker.Base.Word.{add_i64, sub_i64, lt_i64}
use unpacker.Path.{clean, join, dir}
use unpacker.Errors.{plain, limit, wrap, ok, err}
use unpacker.System.{
  World, file, folder, find, put, read_file, mkdir_all, open_file, write, flush, stat_ok, is_given,
}
use unpacker.Limits.{Limits}
use unpacker.Compression.{Readers, stream, entry, tar_stream, sniff_compression}
use unpacker.Extract.{extract_resolved, clamp_mode}
use unpacker.Extract.Budget.{IsResolved}
use unpacker.Unpack.Layers.{Layer, extract_layers, blob_path}
use unpacker.Unpack.Blobs.{blob_path-IsBelow}
use unpacker.Path.Confine.{EndsInName, IsBelow, join-EndsInName}

-- Every archive holds one file of nine bytes.
abbrev pub readers : Readers
readers = record {
  gunzip = λ s. ok (stream s none);
  unzstd = λ s. err (plain "zstd");
  untar = λ s.
      entry (record { name = codes "a"; typeflag = b'0'; mode = 0o644 }) (codes "name: pod") none
      ∷ [];
}

abbrev layer : Layer
layer = record { media_type = codes "helm"; digest = codes "sha256:ab"; annotations = [] }

abbrev tight : Limits
tight = record { max_total_bytes = 15; max_file_bytes = 10; max_entries = 3 }

tight-IsResolved : IsResolved tight
tight-IsResolved = omega arith

abbrev pulled : World
pulled = record {
  disk =
      (codes "o", folder 0o755)
      ∷ (codes "o/tmp", folder 0o755)
      ∷ (codes "o/tmp/ab", file 0o644 (0x1f ∷ 0x8b ∷ []))
      ∷ [];
  faults = [];
  copied = 0;
  log = [];
}

-- The second layer meets what the first one has left.
second_is_refused :
    (extract_layers readers (codes "o/tmp") (codes "o/i") (layer ∷ layer ∷ []) tight pulled).0
    ≡ err (
        wrap "extract layer"
          (limit "archive expands past the byte total limit (--max-total-bytes)"))
unfolding extract_layers extract_resolved sub_i64 add_i64 lt_i64 tar_stream sniff_compression
    read_file mkdir_all open_file write flush stat_ok find put bytes_eq has_prefix clean join dir
    is_given clamp_mode
second_is_refused = refl

tmp-EndsInName : EndsInName (codes "o/tmp")
unfolding bytes_eq join
tmp-EndsInName = join-EndsInName (codes "o") (codes "tmp") (ground arith) (ground arith)

blob_found : blob_path (codes "o/tmp") layer pulled ≡ (ok (codes "o/tmp/ab"), pulled)
unfolding blob_path stat_ok find bytes_eq has_prefix clean join is_given
blob_found = refl

blob_path-IsBelow_example :
    (clean (codes "o/tmp/ab") ≡ clean (codes "o/tmp"))
    ⊎ IsBelow (codes "o/tmp") (clean (codes "o/tmp/ab"))
blob_path-IsBelow_example =
    blob_path-IsBelow (codes "o/tmp") tmp-EndsInName layer pulled pulled (codes "o/tmp/ab")
      blob_found
