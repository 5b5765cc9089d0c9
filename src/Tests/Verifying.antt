-- ===== src/Tests/Verifying.antt =====
-- Runs of the verification's parts, of the keychain, and of what is written down.

use mathlib.Core.List.{Permᴰ}
use unpacker.Base.{◌≡◌, ◌↔◌, refl, true, [], ◌∷◌, ◌++◌, Option, none, some, if◌then◌else◌}
use unpacker.Base.Text.{Bytes, codes, bytes_eq}
use unpacker.Errors.{Error, Result, ok}
use unpacker.System.{
  World, file, folder, call, find, put, read_file, write_file, open_file, store, flush, has_folder,
  is_given, name_le,
}
use unpacker.System.Reads.{Holds}
use unpacker.System.Stored.{OnlyAt}
use unpacker.Path.{
  split_from, split, join_slash, is_rooted, push, walk, render, clean, join, join_all, dir,
}
use unpacker.Report.{Referrer, Verification, RunResult, result_path, write_result}
use unpacker.Report.Written.{write_result-read_file}
use unpacker.Verify.Trust.{
  with_key, public_key_material, trusted_material, observer_options, policy_options,
  hex_digest_bytes,
}
use unpacker.Verify.Timestamp.{
  observed_timestamp, slices_compact, compact_after, join_plus, observers,
}
use unpacker.Sorting.{insert, sort}
use unpacker.Verify.Timestamp.Order.{observed_timestamp-Permᴰ}
use unpacker.Verify.Bundles.{
  SignatureVerifier, verify, bundle_paths, bundle_files, policy_for, new_signature_verifier,
  check_bundles, cosign_bundle_artifact_type,
}
use unpacker.Verify.Sound.{Evidence, verify-Evidence}
use unpacker.Verify.Record.{Apart, verify-verified_iff}
use unpacker.Verify.Decides.{any_accepted, Decided, verify-Decided}
use unpacker.Keychain.{
  AuthConfig, empty_config, is_filled, DockerConfig, from_config, find_config, spelled,
  resolve_target,
}
use unpacker.Keychain.First.{Answers, resolve_target-Answers}
use unpacker.Tests.Worlds.{sigstore, engine, config, start, encode}

-- A bundle that was downloaded.
abbrev signature : Referrer
signature = record {
  artifact_type = cosign_bundle_artifact_type;
  media_type = [];
  digest = codes "s";
  size = 1;
  path = codes "p";
  files = codes "manifest.json" ∷ codes "m" ∷ [];
  annotations = [];
}

abbrev downloaded : World
downloaded = record start {
  disk = (codes "k", file 0o644 (codes "pem")) ∷ (codes "o/p/m", file 0o666 (codes "m")) ∷ [];
}

abbrev answer : Result (Verification × Option Error) × World
answer = verify sigstore engine config (codes "m") (signature ∷ []) downloaded

abbrev good : Verification
good = record {
  mode = codes "key";
  identity = [];
  oidc_issuer = [];
  key_path = codes "k";
  trust_source = codes "key";
  timestamp_source = codes "Tlog";
  bundles = codes "m" ∷ [];
  verified = true;
  error = none;
}

verifies : answer ≡ (ok (good, none), answer.1)
unfolding verify bundle_files bundle_paths policy_for new_signature_verifier check_bundles
    public_key_material trusted_material observer_options policy_options hex_digest_bytes
    observed_timestamp sort insert slices_compact compact_after join_plus observers bytes_eq
    read_file call find split_from split join_slash is_rooted push walk render clean join join_all
verifies = refl

verify-Evidence_example :
    (true ≡ true) × Evidence sigstore engine config (codes "m") (signature ∷ []) downloaded
verify-Evidence_example =
    verify-Evidence sigstore engine config (codes "m") (signature ∷ []) downloaded answer.1 good
      verifies

verify-verified_iff_example :
    (rec : Verification) × (e : Option Error) × (v : World) × (answer ≡ (ok (rec, e), v))
    × ((rec.verified ≡ true) ↔ (e ≡ none))
    × Apart sigstore engine downloaded v
verify-verified_iff_example =
    verify-verified_iff sigstore engine config (codes "m") (signature ∷ []) downloaded

abbrev verifier : SignatureVerifier sigstore engine
verifier = record {
  verifier = tt;
  policy = record { algorithm = codes "sha256"; digest = codes "m"; option = with_key };
  trust_source = codes "key";
  timestamp_source = codes "none-bare-key";
}

verify-Decided_example :
    Decided sigstore engine
      (any_accepted sigstore engine verifier downloaded.disk
        (bundle_paths config.output_dir (signature ∷ [])))
      answer
unfolding bundle_files bundle_paths policy_for new_signature_verifier public_key_material
    trusted_material observer_options policy_options hex_digest_bytes bytes_eq read_file call find
    split_from split join_slash is_rooted push walk render clean join join_all
verify-Decided_example =
    verify-Decided sigstore engine config (codes "m") (signature ∷ []) downloaded downloaded refl
      refl refl ((codes "m", (0o666, refl)), tt)

abbrev result : RunResult
result = record {
  image = codes "i";
  digest = codes "m";
  referrers = [];
  verification = none;
  error = none;
}

abbrev out : World
out = record start { disk = (codes "o", folder 0o755) ∷ [] }

abbrev written : World
written = (write_result encode config result out).1

writes : write_result encode config result out ≡ (ok tt, written)
unfolding write_result write_file open_file store flush call find put has_folder is_given dir
    bytes_eq split_from split join_slash is_rooted push walk render clean join join_all
writes = refl

is_quiet : written.faults ≡ []
unfolding write_result write_file open_file store flush call find put has_folder is_given dir
    bytes_eq split_from split join_slash is_rooted push walk render clean join join_all
is_quiet = refl

write_result-read_file_example :
    (text : Bytes) × (x : World) × (ok (codes "m") ≡ ok text)
    × (read_file (result_path config) written ≡ (ok (text ++ (b'\n' ∷ [])), x))
    × OnlyAt (result_path config) out written
write_result-read_file_example =
    write_result-read_file encode config result out written writes is_quiet

observed_timestamp-Permᴰ_example :
    observed_timestamp (some (codes "Tlog" ∷ codes "TSA" ∷ [])) (codes "tsa")
    ≡ observed_timestamp (some (codes "TSA" ∷ codes "Tlog" ∷ [])) (codes "tsa")
observed_timestamp-Permᴰ_example =
    observed_timestamp-Permᴰ (codes "tsa") (Permᴰ.swap {l = []} refl refl)

observes :
    observed_timestamp (some (codes "Tlog" ∷ codes "TSA" ∷ [])) (codes "tsa") ≡ codes "TSA+Tlog"
unfolding observed_timestamp sort insert slices_compact compact_after join_plus observers bytes_eq
    name_le
observes = refl

-- An entry for the registry only.
abbrev entry : AuthConfig
entry = record empty_config { username = codes "u"; password = codes "p" }

abbrev docker : DockerConfig
docker = record {
  File = Bytes;
  load_from_reader = λ s. ok s;
  get_auth_config = λ cf key. if bytes_eq key (codes "r") then ok entry else ok empty_config;
  default_registry = codes "index.docker.io";
  default_auth_key = codes "https://index.docker.io/v1/";
}

resolves :
    resolve_target docker (codes "k") (codes "r/a") (codes "r") start
    ≡ (ok (from_config entry), start)
unfolding resolve_target find_config spelled is_filled read_file call find bytes_eq
resolves = refl

resolve_target-Answers_example :
    (content : Bytes) × (cf : Bytes) × Holds start.disk (codes "k") content
    × (ok content ≡ ok cf)
    × Answers docker cf (codes "r/a" ∷ codes "r" ∷ []) (from_config entry)
resolve_target-Answers_example =
    resolve_target-Answers docker (codes "k") (codes "r/a") (codes "r") start start
      (from_config entry) resolves
