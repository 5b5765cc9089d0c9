-- ===== src/Tests/Running.antt =====
-- Runs of the command, from the pull to the exit status.
use unpacker.Base.{◌≡◌, ◌⊎◌, refl, true, List, [], ◌∷◌, some, length, ◌||◌}
use unpacker.Base.Text.{Bytes, codes, bytes_eq, has_prefix, contains_byte}
use unpacker.Base.Runes.{decode_rune, runes_from, runes, digits, decimal}
use unpacker.Base.Word.{add_i64, sub_i64, lt_i64}
use unpacker.Path.{
  split_from, split, join_slash, is_rooted, back, push, walk, render, clean, join, join_all,
  last_filled, base, directory, dir,
}
use unpacker.Errors.{Error, wrap, Result, ok, err}
use unpacker.Exit.{exit_code}
use unpacker.System.{
  World, call, prefixes, ancestors, is_given, make_dirs, mkdir_all, has_folder, open_file, write,
  store, flush, write_file, read_file, open_source, read_source, remove_all, rename, read_dir,
  stat_ok, find, put, within, remove_tree, move_tree, occupied, name_le, insert_name, names_entry,
  list_dir,
}
use unpacker.Limits.{or_default, with_defaults, max_referrers}
use unpacker.Report.{RunResult, result_path, write_result}
use unpacker.Verify.Config.{requested}
use unpacker.Verify.Trust.{
  public_key_material, trusted_material, observer_options, policy_options, hex_digest_bytes,
}
use unpacker.Verify.Timestamp.{
  compact_after, slices_compact, join_plus, observers, observed_timestamp,
}
use unpacker.Sorting.{insert, sort}
use unpacker.Verify.Bundles.{
  verify, bundle_files, bundle_paths, policy_for, new_signature_verifier, check_bundles,
}
use unpacker.Pull.Budget.{Descriptor, new_download_budget, charge, charge_any}
use unpacker.Pull.Blob.{copy_verified, store_blob, fetch_blob_to_file}
use unpacker.Pull.Credentials.{Repository, new_oras_repository}
use unpacker.Pull.Relabel.{crane_fallback_reason}
use unpacker.Pull.Oras.{blob_name, pull_layers, pull_artifact, pull_with_oras}
use unpacker.Pull.Crane.{pull}
use unpacker.Referrers.Names.{
  is_kept, is_cut, trim_left, trim, type_dir_name, safe_file_name, first_non_empty,
}
use unpacker.Referrers.Fetch.{
  or_numbered, layer_name, download_layers, file_referrer, download_referrer, download_all,
  download_listed, fetch_referrers,
}
use unpacker.Unpack.Layers.{annotation, cut_colon}
use unpacker.Unpack.{
  allowed_layers, first_file, first_file_is_archive, copy_entries, copy_files, unpack_into, unpack,
}
use unpacker.Compression.{sniff_compression}
use unpacker.Extract.{copy_window, copy_through, check_copied, copy_limited}
use unpacker.Command.{fail_stage, unpack_stage, verify_stage, referrers_stage, run, error_of}
use unpacker.Command.Gate.{IsGated, verify_stage-IsGated}
use unpacker.Command.Status.{at_referrers, run-exit_code, run-too_many}
use unpacker.System.Stored.{OnlyAt}
use unpacker.Referrers.Fetch.{no_referrers, too_many}
use unpacker.Referrers.Recorded.{FromListing, fetch_referrers-IsRecorded}
use unpacker.Verify.Bundles.{cosign_bundle_artifact_type}
use unpacker.Tests.Worlds.{registry, repository, blob, libraries, offline, encode, config, start}

-- The signature of the manifest `m`.
abbrev pub signed : List Descriptor
signed = blob (codes "s") ∷ []

abbrev pub after : World
after = (run (libraries signed) config start).1

pub run_goes : run (libraries signed) config start ≡ (ok tt, after)
unfolding decode_rune runes_from runes digits decimal bytes_eq has_prefix contains_byte add_i64
    sub_i64 lt_i64 or_default with_defaults max_referrers split_from split join_slash is_rooted back
    push walk render clean join join_all last_filled base directory dir call prefixes ancestors
    is_given make_dirs mkdir_all has_folder open_file write store flush write_file read_file find
    put new_download_budget charge charge_any copy_verified store_blob fetch_blob_to_file
    new_oras_repository crane_fallback_reason blob_name pull_layers pull_artifact pull_with_oras
    pull annotation cut_colon remove_all rename read_dir stat_ok within remove_tree move_tree
    occupied name_le insert_name names_entry list_dir requested public_key_material trusted_material
    observer_options policy_options hex_digest_bytes insert sort compact_after slices_compact
    join_plus observers observed_timestamp verify bundle_files bundle_paths policy_for
    new_signature_verifier check_bundles is_kept is_cut trim_left trim type_dir_name safe_file_name
    first_non_empty or_numbered layer_name download_layers file_referrer download_referrer
    download_all download_listed fetch_referrers allowed_layers first_file first_file_is_archive
    open_source read_source copy_entries copy_files unpack_into unpack sniff_compression copy_window
    copy_through check_copied copy_limited write_result fail_stage unpack_stage verify_stage
    referrers_stage run
run_goes = refl

is_requested : requested config.verify ≡ true
unfolding requested
is_requested = refl

abbrev nothing : RunResult
nothing = no_referrers (registry signed) encode config (codes "m")

verify_stage-IsGated_example :
    IsGated
      (libraries signed)
      config
      (codes "m")
      []
      start
      (verify_stage (libraries signed) config (codes "m") nothing start)
verify_stage-IsGated_example =
    verify_stage-IsGated (libraries signed) config (codes "m") nothing start is_requested

-- Two referrers are one too many.
abbrev pub two : List Descriptor
two = blob (codes "s") ∷ blob (codes "t") ∷ []

abbrev pub pulled : World
pulled = (pull (registry two) offline config start).1

pub pulls : pull (registry two) offline config start ≡ (ok (codes "m"), pulled)
unfolding bytes_eq has_prefix add_i64 sub_i64 lt_i64 or_default with_defaults split_from split
    join_slash is_rooted push walk render clean join join_all dir call prefixes ancestors is_given
    make_dirs mkdir_all has_folder open_file write store flush write_file find put
    new_download_budget charge charge_any copy_verified store_blob fetch_blob_to_file
    new_oras_repository crane_fallback_reason blob_name pull_layers pull_artifact pull_with_oras
    pull annotation cut_colon
pulls = refl

abbrev too_many_listed : Error
too_many_listed = too_many (registry two) encode config

made : new_oras_repository (registry two).parse_reference config ≡ ok repository
unfolding new_oras_repository
made = refl

many : lt_i64 (max_referrers config.max_referrers) (length two) ≡ true
unfolding lt_i64 max_referrers or_default
many = refl

is_on : config.with_referrers || requested config.verify ≡ true
unfolding requested
is_on = refl

refuses :
    fetch_referrers (registry two) encode config (codes "m") pulled ≡ (err too_many_listed, pulled)
unfolding fetch_referrers download_listed new_oras_repository lt_i64 max_referrers or_default
refuses = refl

run-too_many_example :
    (exit_code (error_of (libraries two) (run (libraries two) config start).0) ≡ 5)
    × OnlyAt (result_path config) pulled (run (libraries two) config start).1
run-too_many_example =
    run-too_many (libraries two) config start pulled {repo = repository} pulls is_on refl made refl
      many

run-exit_code_example :
    ((run (libraries two) config start).0 ≡ err (wrap "referrers" too_many_listed))
    × (exit_code (error_of (libraries two) (run (libraries two) config start).0)
        ≡ exit_code (some too_many_listed))
run-exit_code_example =
    run-exit_code (libraries two) config start "referrers" too_many_listed
      (at_referrers pulls is_on refuses)

abbrev recorded : Result RunResult × World
recorded = fetch_referrers (registry signed) encode config (codes "m") start

abbrev one_referrer : RunResult
one_referrer = record nothing {
  referrers =
      record {
        artifact_type = cosign_bundle_artifact_type;
        media_type = codes "blob";
        digest = codes "s";
        size = 1;
        path = codes "referrers/application-vnd.dev.sigstore.bundle.v0.3-json/s";
        files = codes "manifest.json" ∷ codes "m" ∷ [];
        annotations = [];
      }
      ∷ [];
}

records : recorded ≡ (ok one_referrer, recorded.1)
unfolding decode_rune runes_from runes bytes_eq has_prefix contains_byte add_i64 sub_i64 lt_i64
    or_default with_defaults max_referrers split_from split join_slash is_rooted push walk render
    clean join join_all last_filled base dir call prefixes ancestors is_given make_dirs mkdir_all
    has_folder open_file write store flush write_file find put new_download_budget charge charge_any
    copy_verified store_blob fetch_blob_to_file new_oras_repository annotation is_kept is_cut
    trim_left trim type_dir_name safe_file_name first_non_empty or_numbered layer_name
    download_layers file_referrer download_referrer download_all download_listed fetch_referrers
    write_result
records = refl

fetch_referrers-IsRecorded_example :
    (subject : Bytes) × (repo : Repository) × (ok (codes "m") ≡ ok subject)
    × (new_oras_repository (registry signed).parse_reference config ≡ ok repo)
    × ((one_referrer.referrers ≡ [])
        ⊎ FromListing (registry signed) encode config repo subject one_referrer)
fetch_referrers-IsRecorded_example =
    fetch_referrers-IsRecorded (registry signed) encode config (codes "m") start recorded.1
      one_referrer records
