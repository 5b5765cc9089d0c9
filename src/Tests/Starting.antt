-- ===== src/Tests/Starting.antt =====
-- The whole program: a run that ends with 0, and flags that are refused.
use unpacker.Base.{◌≡◌, refl, true, false, List, [], ◌∷◌, none, arith}
use unpacker.Base.Text.{Bytes, codes, bytes_eq, has_prefix, contains_byte}
use unpacker.Base.Runes.{decode_rune, runes_from, runes, digits, decimal}
use unpacker.Base.Word.{add_i64, sub_i64, lt_i64}
use unpacker.Path.{
  split_from, split, join_slash, is_rooted, back, push, walk, render, clean, join, join_all,
  last_filled, base, directory, dir,
}
use unpacker.Errors.{ok}
use unpacker.Exit.{exit_code}
use unpacker.System.{
  World, call, prefixes, ancestors, is_given, make_dirs, mkdir_all, has_folder, open_file, write,
  store, flush, write_file, read_file, open_source, read_source, remove_all, rename, read_dir,
  stat_ok, find, put, within, remove_tree, move_tree, occupied, name_le, insert_name, names_entry,
  list_dir,
}
use unpacker.Limits.{or_default, with_defaults, max_referrers}
use unpacker.Report.{RunResult, write_result}
use unpacker.Verify.Config.{
  VerifyConfig, IsMeaningful, requested, validate, validate_iff, uses_trust_root,
}
use unpacker.Verify.Trust.{
  public_key_material, trusted_material, observer_options, policy_options, hex_digest_bytes,
}
use unpacker.Verify.Timestamp.{
  compact_after, slices_compact, join_plus, observers, observed_timestamp,
}
use unpacker.Sorting.{insert, sort}
use unpacker.Verify.Bundles.{
  verify, bundle_files, bundle_paths, policy_for, new_signature_verifier, check_bundles,
}
use unpacker.Verify.Sound.{Evidence}
use unpacker.Pull.Budget.{Descriptor, new_download_budget, charge, charge_any}
use unpacker.Pull.Blob.{copy_verified, store_blob, fetch_blob_to_file}
use unpacker.Pull.Credentials.{new_oras_repository}
use unpacker.Pull.Relabel.{crane_fallback_reason}
use unpacker.Pull.Oras.{blob_name, pull_layers, pull_artifact, pull_with_oras}
use unpacker.Pull.Crane.{pull}
use unpacker.Referrers.Names.{
  is_kept, is_cut, trim_left, trim, type_dir_name, safe_file_name, first_non_empty,
}
use unpacker.Referrers.Fetch.{
  or_numbered, layer_name, download_layers, file_referrer, download_referrer, download_all,
  download_listed, fetch_referrers,
}
use unpacker.Unpack.Layers.{annotation, cut_colon}
use unpacker.Unpack.{
  allowed_layers, first_file, first_file_is_archive, copy_entries, copy_files, unpack_into, unpack,
}
use unpacker.Compression.{sniff_compression}
use unpacker.Extract.{copy_window, copy_through, check_copied, copy_limited}
use unpacker.Command.{
  Flags, config_of, fail_stage, unpack_stage, verify_stage, referrers_stage, run, run_root, main,
}
use unpacker.Command.Gate.{Unpacked}
use unpacker.Command.Main.{main-IsMeaningful, main-Evidence}
use unpacker.Tests.Worlds.{
  blob, registry, offline, encode, libraries, start, sigstore, engine, by_key, config,
}
use unpacker.Auth.{Credentials, resolve}

abbrev signed : List Descriptor
signed = blob (codes "s") ∷ []

abbrev flags : Flags
flags = record {
  image = codes "r/a:t";
  output_dir = codes "o";
  mediatypes = [];
  config_path = [];
  is_public = true;
  insecure = false;
  allow_insecure_credentials = false;
  with_referrers = false;
  limits = config.limits;
  max_referrers = 1;
  platform = [];
  verify = by_key;
}

abbrev unset : Bytes → Bytes
unset name = []

ends_well : (main (libraries signed) unset flags start).0 ≡ 0
unfolding decode_rune runes_from runes digits decimal bytes_eq has_prefix contains_byte add_i64
    sub_i64 lt_i64 or_default with_defaults max_referrers split_from split join_slash is_rooted back
    push walk render clean join join_all last_filled base directory dir call prefixes ancestors
    is_given make_dirs mkdir_all has_folder open_file write store flush write_file read_file find
    put new_download_budget charge charge_any copy_verified store_blob fetch_blob_to_file
    new_oras_repository crane_fallback_reason blob_name pull_layers pull_artifact pull_with_oras
    pull annotation cut_colon remove_all rename read_dir stat_ok within remove_tree move_tree
    occupied name_le insert_name names_entry list_dir requested public_key_material trusted_material
    observer_options policy_options hex_digest_bytes insert sort compact_after slices_compact
    join_plus observers observed_timestamp verify bundle_files bundle_paths policy_for
    new_signature_verifier check_bundles is_kept is_cut trim_left trim type_dir_name safe_file_name
    first_non_empty or_numbered layer_name download_layers file_referrer download_referrer
    download_all download_listed fetch_referrers allowed_layers first_file first_file_is_archive
    open_source read_source copy_entries copy_files unpack_into unpack sniff_compression copy_window
    copy_through check_copied copy_limited write_result fail_stage unpack_stage verify_stage
    referrers_stage run run_root main exit_code validate resolve uses_trust_root
ends_well = refl

is_requested : requested flags.verify ≡ true
unfolding requested
is_requested = refl

main-Evidence_example :
    (creds : Credentials) × (x : World) × (resolved : Bytes) × (pulled : World)
    × (fetched : RunResult) × (u : World) × (resolve unset [] true start ≡ (ok creds, x))
    × (pull (registry signed) offline (config_of flags creds) x ≡ (ok resolved, pulled))
    × (fetch_referrers (registry signed) encode (config_of flags creds) resolved pulled
        ≡ (ok fetched, u))
    × Evidence sigstore engine (config_of flags creds) resolved fetched.referrers u
    × Unpacked
        (libraries signed)
        (config_of flags creds)
        u
        (main (libraries signed) unset flags start).1
main-Evidence_example = main-Evidence (libraries signed) unset flags start is_requested ends_well

-- A key and an identity at once.
abbrev both_modes : VerifyConfig
both_modes = record by_key { cosign_identity = codes "me" }

is_refused : ¬ IsMeaningful both_modes
unfolding validate
is_refused m =
    let accepted : validate both_modes ≡ none = (validate_iff both_modes).1 m in
    ground (arith, accepted)

main-IsMeaningful_example :
    main (libraries signed) unset (record flags { verify = both_modes }) start ≡ (1, start)
main-IsMeaningful_example =
    main-IsMeaningful (libraries signed) unset (record flags { verify = both_modes }) start
      is_refused
