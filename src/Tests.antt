-- ===== src/Tests.antt =====
-- The theorems at concrete inputs, and runs of the definitions.
mod Pulling
mod Worlds
mod Running
mod Landing
mod Workspace
mod Limited
mod Skipping
mod Starting
mod Publishing
mod Verifying
mod Blobs
mod Layered
mod MediaTypes
use Prim.Native.Nat.{bit_and}
use unpacker.Base.{◌≤◌, ◌≡◌, ◌≢◌, ◌↔◌, ◌⊎◌, refl, arith, true, false, List, [], ◌∷◌, none, some}
use unpacker.Base.{length, if◌then◌else◌, ◌||◌}
use unpacker.Base.Text.{Bytes, codes, bytes_eq}
use unpacker.Base.Word.{add_i64, sub_i64}
use unpacker.Path.{IsName, join, clean, dir, base}
use unpacker.Path.Clean.{NoSlash}
use unpacker.Path.Confine.{EndsInName, join-EndsInName}
use unpacker.Errors.{Error, plain, limit, wrap, crane_status, Result, ok, err}
use unpacker.Exit.{exit_code}
use unpacker.Exit.Laws.{exit_code-wrap, exit_code_classifies, IsOfRegistry, IsMissing, Answered}
use unpacker.Errors.{error_is, verification_failed, limit_exceeded}
use unpacker.System.{read_file, mkdir_all, open_file, write, flush, file, folder, World, find, put}
use unpacker.System.Confined.{Confined}
use unpacker.Limits.{Limits, with_defaults}
use unpacker.Compression.{Readers, stream, Item, entry, tar_stream}
use unpacker.Extract.{extract_tar, extract_items, fresh, Progress, clamp_mode, perm}
use unpacker.Extract.Confinement.{extract_tar-Confined}
use unpacker.Extract.Budget.{IsResolved}
use unpacker.Extract.Bounded.{extract_tar-WithinLimit, WithinLimit}
use unpacker.Extract.Complete.{extract_items-refines, unpacked}
use unpacker.Extract.Modes.{clamp_mode-IsClamped, IsClamped}
use unpacker.Auth.{Credentials, deprecated, env_missing, resolve}
use unpacker.Auth.Laws.{resolve-IsOneKind, IsOneKind, IsAnswer, IsUnset}
use unpacker.Referrers.Names.{safe_file_name, type_dir_name, type_dir_name-IsName}
use unpacker.Verify.Config.{VerifyConfig, validate, validate_iff, IsMeaningful}

abbrev staging : Bytes
staging = codes "o/.image.staging"

abbrev chart : Item
chart =
    entry (record { name = codes "pod/Chart.yaml"; typeflag = b'0'; mode = 0o644 })
      (codes "name: pod") none

abbrev link : Item
link = entry (record { name = codes "pod/link"; typeflag = b'2'; mode = 0o777 }) [] none

abbrev escape : Item
escape =
    entry (record { name = codes "../../etc/cron"; typeflag = b'0'; mode = 0o644 }) (codes "x") none

-- Readers that take the bytes behind the magic as they are.
abbrev sample_readers : List Item → Readers
sample_readers items = record {
  gunzip = λ s. ok (stream s none);
  unzstd = λ s. err (plain "zstd");
  untar = λ s. items;
}

abbrev small_limits : Limits
small_limits = record { max_total_bytes = 20; max_file_bytes = 10; max_entries = 3 }

abbrev pulled : World
pulled = record {
  disk =
      (codes "o", folder 0o755)
      ∷ (codes "o/tmp", folder 0o755)
      ∷ (codes "o/tmp/pod.tgz", file 0o644 (0x1f ∷ 0x8b ∷ []))
      ∷ [];
  faults = [];
  copied = 0;
  log = [];
}

-- A run on a disk and items of its own.
run : List Item → Result (Unit {0}) × World
unfolding extract_tar tar_stream find put bytes_eq read_file add_i64 sub_i64 join mkdir_all dir
    open_file write flush
run items = extract_tar (sample_readers items) (codes "o/tmp/pod.tgz") staging small_limits pulled

run_places_file :
    find (codes "o/.image.staging/pod/Chart.yaml") (run (chart ∷ link ∷ [])).1.disk
    ≡ some (file 0o644 (codes "name: pod"))
unfolding run
run_places_file = refl

run_refuses_escape : (run (escape ∷ [])).0 ≡ err (plain "illegal path in tar")
unfolding run
run_refuses_escape = refl

staging-EndsInName : EndsInName staging
unfolding bytes_eq join
staging-EndsInName =
    join-EndsInName (codes "o") (codes ".image.staging") (ground arith) (ground arith)

extract_tar-Confined_example :
    Confined staging pulled
      (extract_tar
        (sample_readers (chart ∷ escape ∷ []))
        (codes "o/tmp/pod.tgz")
        staging
        small_limits
        pulled).1
extract_tar-Confined_example =
    extract_tar-Confined (sample_readers (chart ∷ escape ∷ [])) (codes "o/tmp/pod.tgz") staging
      small_limits pulled staging-EndsInName

small_limits-IsResolved : IsResolved (with_defaults small_limits)
unfolding with_defaults
small_limits-IsResolved = omega arith

-- The archive holds more than its limit of twenty bytes.
extract_tar-WithinLimit_example : WithinLimit (with_defaults small_limits).max_total_bytes pulled (
    extract_tar
      (sample_readers (chart ∷ chart ∷ chart ∷ []))
      (codes "o/tmp/pod.tgz")
      staging
      small_limits
      pulled)
extract_tar-WithinLimit_example =
    extract_tar-WithinLimit (sample_readers (chart ∷ chart ∷ chart ∷ [])) (codes "o/tmp/pod.tgz")
      staging small_limits pulled small_limits-IsResolved

abbrev unpacked_world : Result Progress × World
unpacked_world = extract_items staging small_limits (chart ∷ link ∷ []) fresh pulled

small-IsResolved : IsResolved small_limits
small-IsResolved = omega arith

abbrev after_run : World
after_run = record pulled {
  disk =
      (codes "o", folder 0o755)
      ∷ (codes "o/tmp", folder 0o755)
      ∷ (codes "o/tmp/pod.tgz", file 0o644 (0x1f ∷ 0x8b ∷ []))
      ∷ (staging, folder 0o755)
      ∷ (codes "o/.image.staging/pod", folder 0o755)
      ∷ (codes "o/.image.staging/pod/Chart.yaml", file 0o644 (codes "name: pod"))
      ∷ [];
  copied = 9;
}

abbrev after_progress : Progress
after_progress = record { entries = 2; total = 9; skipped = (b'2', 1) ∷ [] }

extraction_done :
    extract_items staging small_limits (chart ∷ link ∷ []) fresh pulled
    ≡ (ok after_progress, after_run)
unfolding run
extraction_done = refl

extract_items-refines_example :
    unpacked staging (chart ∷ link ∷ []) pulled.disk ≡ some after_run.disk
extract_items-refines_example =
    extract_items-refines staging small_limits (chart ∷ link ∷ []) pulled after_run after_progress
      small-IsResolved extraction_done

clamp_mode-IsClamped_example :
    IsClamped (perm 0o4777) (clamp_mode (perm 0o4777) false)
    × (bit_and (clamp_mode (perm 0o4777) true) 0o700 ≡ 0o700)
    × (bit_and (clamp_mode (perm 0o4777) false) 0o377 ≡ bit_and (perm 0o4777) 0o355)
    × (bit_and (clamp_mode (perm 0o4777) true) 0o077 ≡ bit_and (perm 0o4777) 0o055)
clamp_mode-IsClamped_example = clamp_mode-IsClamped 0o4777 false

abbrev key_config : VerifyConfig
key_config = record {
  cosign_identity = [];
  cosign_oidc_issuer = [];
  cosign_key_path = codes "cosign.pub";
  trusted_root_path = [];
  tuf_mirror = codes "https://tuf";
  tuf_root_path = [];
}

validate_iff_example : (validate key_config ≡ none) ↔ IsMeaningful key_config
validate_iff_example = validate_iff key_config

abbrev refused : Error
refused = wrap "pull" (crane_status 404)

exit_code_classifies_example :
    (exit_code none ≡ 0)
    × (exit_code (some refused) ≢ 0)
    × (exit_code (some refused) ≤ 5)
    × ((exit_code (some refused) ≡ 4) ↔ (error_is verification_failed refused ≡ true))
    × ((exit_code (some refused) ≡ 5) ↔ (
        (error_is verification_failed refused ≡ false) × (error_is limit_exceeded refused ≡ true)))
    × ((exit_code (some refused) ≡ 2) ↔ (IsOfRegistry refused × IsMissing refused))
    × ((exit_code (some refused) ≡ 3) ↔ (
        IsOfRegistry refused
        × (¬ IsMissing refused)
        × (Answered refused 401 ⊎ Answered refused 403)))
    × ((exit_code (some refused) ≡ 1) ↔ (
        IsOfRegistry refused
        × (¬ IsMissing refused)
        × (¬ Answered refused 401)
        × (¬ Answered refused 403)))
exit_code_classifies_example = exit_code_classifies refused

safe_name : safe_file_name (codes "../../x") (codes "abc") ≡ codes "x"
unfolding safe_file_name base clean
safe_name = refl

safe_type : type_dir_name (codes "application/vnd.a+json") ≡ codes "application-vnd.a-json"
unfolding type_dir_name bytes_eq
safe_type = refl

abbrev sample_env : Bytes → Bytes
sample_env name =
    if bytes_eq name (codes "USERNAME") || bytes_eq name (codes "PASSWORD") then codes "u" else []

-- The unprefixed pair is used with a warning.
warned : (resolve sample_env [] false pulled).1.log ≡ deprecated ∷ []
unfolding resolve bytes_eq
warned = refl

resolve-IsOneKind_example :
    ((c : Credentials) × (v : World) × (resolve sample_env [] false pulled ≡ (ok c, v))
      × IsOneKind c
      × IsAnswer sample_env [] false pulled c v)
    ⊎ ((resolve sample_env [] false pulled ≡ (err env_missing, pulled))
        × IsUnset sample_env [] false)
resolve-IsOneKind_example = resolve-IsOneKind sample_env [] false pulled
