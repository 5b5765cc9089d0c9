-- ===== src/Tests/Blobs.antt =====
-- Downloads of one blob: one that matches its descriptor and one that does not.
use unpacker.Base.{ℕ, ◌≡◌, ◌⊎◌, refl, ◌&&◌, ◌==◌, length, arith}
use unpacker.Base.{Bool, [], ◌∷◌, some, if◌then◌else◌}
use unpacker.Base.Text.{Bytes, codes, bytes_eq, bytes_eq_iff, has_prefix}
use unpacker.Path.{clean, dir}
use unpacker.Errors.{Error, plain, wrap, ok, err}
use unpacker.System.{World, file, folder, find, put, erase, open_file, write, flush, remove}
use unpacker.System.{is_given, within, occupied}
use unpacker.Base.Word.{lt_i64, sub_i64}
use unpacker.Pull.Budget.{Descriptor, DownloadBudget, charge, charge_any}
use unpacker.Pull.Blob.{Fetcher, fetch_blob_to_file, store_blob}
use unpacker.Pull.Blob.Verified.{IsVerifying, fetch_blob_to_file-IsVerified}
use unpacker.Pull.Blob.Refused.{fetch_blob_to_file-erase}

abbrev matches : Descriptor → Bytes → Bool
matches desc body = bytes_eq body desc.digest && (length body == desc.size)

-- A registry that always serves `body`, where the digest of a text is the text itself.
abbrev serving : Bytes → Fetcher Bytes
serving body = record {
  fetch = λ desc. ok body;
  passed = λ desc b. b;
  read_error = λ desc b. ok tt;
  verify = λ desc b. if matches desc b then ok tt else err (plain "mismatch");
}

serving-IsVerifying : (body : Bytes) → IsVerifying (serving body) (λ s. s)
serving-IsVerifying body = record {
  sound = λ desc b r v. ground (arith, bytes_eq_iff b desc.digest);
}

abbrev blob : Descriptor
blob = record {
  media_type = [];
  digest = codes "abc";
  size = 3;
  artifact_type = [];
  annotations = [];
}

abbrev dest : Bytes
dest = codes "o/b"

abbrev ten : DownloadBudget
ten = record { max_file = 10; remaining = 10 }

abbrev seven : DownloadBudget
seven = record { max_file = 10; remaining = 7 }

abbrev before : World
before = record { disk = (codes "o", folder 0o755) ∷ []; faults = []; copied = 0; log = [] }

abbrev after : World
after = record before {
  disk = (codes "o", folder 0o755) ∷ (dest, file 0o666 (codes "abc")) ∷ [];
  copied = 3;
}

stored :
    fetch_blob_to_file (serving (codes "abc")) blob dest (some ten) before
    ≡ (ok (some seven), after)
unfolding fetch_blob_to_file open_file write flush dir clean charge_any store_blob find put bytes_eq
    is_given charge sub_i64 lt_i64
stored = refl

fetch_blob_to_file-IsVerified_example :
    (mode : ℕ) × (s : Bytes) × (after.disk ≡ put dest (file mode s) before.disk)
    × (s ≡ codes "abc")
    × (length s ≡ 3)
fetch_blob_to_file-IsVerified_example =
    fetch_blob_to_file-IsVerified (serving (codes "abc")) (λ s. s)
      (serving-IsVerifying (codes "abc")) blob dest (some ten) (some seven) before after stored

abbrev refused : Error
refused = wrap "blob failed verification against its declared digest" (plain "mismatch")

mismatched :
    fetch_blob_to_file (serving (codes "xyz")) blob dest (some ten) before
    ≡ (err refused, record before { copied = 3 })
unfolding fetch_blob_to_file open_file write flush dir clean charge_any store_blob find put bytes_eq
    remove erase is_given within has_prefix charge sub_i64 lt_i64
mismatched = refl

fetch_blob_to_file-erase_example :
    (before.disk ≡ before.disk) ⊎ (before.disk ≡ erase dest before.disk)
unfolding erase occupied bytes_eq within has_prefix
fetch_blob_to_file-erase_example =
    fetch_blob_to_file-erase (serving (codes "xyz")) blob dest (some ten) before
      (record before { copied = 3 }) refused refl mismatched
