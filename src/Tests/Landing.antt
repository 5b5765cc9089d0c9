-- ===== src/Tests/Landing.antt =====
-- Where the layers of an artifact land: a plain title, and one that leads out of the directory.
use unpacker.Path.Names.{IsPlain}
use unpacker.Base.{List, subst, arith, ◌≡◌, refl, [], ◌∷◌, some}
use unpacker.Base.Text.{Bytes, codes, bytes_eq}
use unpacker.Path.{
  split_from, split, join_slash, is_rooted, back, push, walk, render, clean, join, dir,
}
use unpacker.Path.Confine.{IsBelow}
use unpacker.System.{
  World, file, folder, call, find, put, is_given, has_folder, open_file, write, flush,
}
use unpacker.System.Confined.{Confined}
use unpacker.Base.Word.{sub_i64, lt_i64}
use unpacker.Limits.{with_defaults}
use unpacker.Pull.Budget.{Descriptor, DownloadBudget, charge, charge_any}
use unpacker.Pull.Blob.{copy_verified, store_blob, fetch_blob_to_file}
use unpacker.Pull.Oras.{blob_name, pull_layers}
use unpacker.Pull.Confined.{pull_layers-Confined}
use unpacker.Unpack.Layers.{annotation, title_key}
use unpacker.Pull.Registry.{Registry}
use unpacker.Pull.Credentials.{Repository}
use unpacker.Referrers.Fetch.{download_referrer, fetch_referrers}
use unpacker.Referrers.Total.{fetch_referrers-WithinLimit}
use unpacker.Referrers.Confined.{download_referrer-Confined}
use unpacker.Base.{none, ◌+◌, ◌≤◌, take, length-take}
use unpacker.Errors.{Result, ok, err}
use unpacker.Pull.Budget.{AreNat, AreWords, new_download_budget}
use unpacker.Pull.Total.{pull_layers-WithinLimit}
use unpacker.Tests.Worlds.{registry, repository, blob, start, config, encode}

abbrev titled : Bytes → Descriptor
titled title = record (blob (codes "a")) { annotations = (title_key, title) ∷ [] }

abbrev tmp : Bytes
tmp = codes "o/tmp"

abbrev ready : World
ready = record start {
  disk = (codes "o", folder 0o755) ∷ (tmp, folder 0o755) ∷ (codes "o/image", folder 0o755) ∷ [];
}

abbrev budget : DownloadBudget
budget = record { max_file = 10; remaining = 10 }

is_below : IsBelow tmp (join tmp (blob_name (titled (codes "x"))))
unfolding blob_name annotation bytes_eq split_from split join_slash is_rooted back push walk render
    clean join
is_below = (codes "x", refl, ((refl, refl, refl), tt))

pull_layers-Confined_example :
    Confined tmp ready
      (pull_layers (registry []) repository tmp (titled (codes "x") ∷ []) (some budget) ready).1
pull_layers-Confined_example =
    pull_layers-Confined (registry []) repository tmp (titled (codes "x") ∷ []) (some budget) ready
      (is_below, tt)

-- A title with dots is written into the image directory, before anything is verified.
escapes :
    find
      (codes "o/image/x")
      (pull_layers
        (registry [])
        repository
        tmp
        (titled (codes "../image/x") ∷ [])
        (some budget)
        ready).1.disk
    ≡ some (file 0o666 (codes "a"))
unfolding pull_layers fetch_blob_to_file copy_verified store_blob charge charge_any sub_i64 lt_i64
    blob_name annotation bytes_eq split_from split join_slash is_rooted back push walk render clean
    join dir call find put is_given has_folder open_file write flush
escapes = refl

m-IsPlain : IsPlain (codes "m")
unfolding bytes_eq
m-IsPlain = ((refl, refl, refl), ground arith)

s-IsPlain : IsPlain (codes "s")
unfolding bytes_eq
s-IsPlain = ((refl, refl, refl), ground arith)

download_referrer-Confined_example :
    Confined
      (join (codes "o") (codes "referrers"))
      start
      (download_referrer
        (registry [])
        repository
        (blob (codes "s"))
        (join (codes "o") (codes "referrers"))
        (codes "m")
        none
        start).1
download_referrer-Confined_example =
    download_referrer-Confined (registry []) repository (blob (codes "s")) (codes "o") (codes "m")
      none start s-IsPlain (λ content served. (m-IsPlain, tt))

-- A registry whose readers stop at the declared size.
abbrev pub bounded_registry : Registry Bytes
bounded_registry = record (registry (blob (codes "s") ∷ [])) {
  client = λ repo. record {
    fetch = λ desc. ok desc.digest;
    passed = λ desc body. take desc.size body;
    read_error = λ desc body. ok tt;
    verify = λ desc body. ok tt;
  };
}

pull_layers-WithinLimit_example :
    (pull_layers bounded_registry repository tmp
      (blob (codes "a") ∷ blob (codes "b") ∷ [])
      (some (new_download_budget config.limits))
      ready).1.copied
    ≤ 0 + (with_defaults config.limits).max_total_bytes
pull_layers-WithinLimit_example =
    pull_layers-WithinLimit bounded_registry
      (λ repo desc body. omega (arith, length-take desc.size body)) repository tmp
      (blob (codes "a") ∷ blob (codes "b") ∷ []) config.limits ready words
      (omega arith, (omega arith, tt))
  where
    words : AreWords config.limits
    words = record { total_word = omega arith; file_word = omega arith }

-- The one referrer that is listed.
pub listed-AreNat :
    (repo : Repository) (subject : Bytes) (descs : List Descriptor)
    → bounded_registry.referrers repo subject ≡ ok descs
    → AreNat descs
listed-AreNat repo subject descs e = subst sizes e (omega arith, tt)
  where
    sizes : Result (List Descriptor) → Type 0
    sizes (ok l) = AreNat l
    sizes (err x) = Unit

fetch_referrers-WithinLimit_example :
    (fetch_referrers bounded_registry encode config (codes "m") ready).1.copied
    ≤ 0 + (with_defaults config.limits).max_total_bytes
fetch_referrers-WithinLimit_example =
    fetch_referrers-WithinLimit bounded_registry
      (λ repo desc body. omega (arith, length-take desc.size body))
      (λ repo desc content served. (omega arith, tt)) listed-AreNat encode config (codes "m") ready
      (record { total_word = omega arith; file_word = omega arith })
