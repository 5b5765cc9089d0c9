-- ===== src/Tests/Pulling.antt =====
-- Runs of the pull's parts, and the properties of them at these runs.
use unpacker.Base.{ℕ, ◌-◌, ◌^◌, ◌≤◌, ◌≡◌, refl, ◌↔◌, All, arith}
use unpacker.Base.{Bool, true, false, List, [], ◌∷◌, none, some}
use unpacker.Base.Text.{Bytes, codes}
use unpacker.Base.Word.{lt_i64, sub_i64}
use unpacker.Errors.{plain, Result, ok, err}
use unpacker.Auth.{Credentials, no_credentials}
use unpacker.Config.{Config}
use unpacker.Limits.{Limits, with_defaults}
use unpacker.Verify.Config.{VerifyConfig}
use unpacker.Pull.Budget.{
  Descriptor, DownloadBudget, new_download_budget, charge, charge_all, sum_sizes, charge_all_iff,
}
use unpacker.Pull.Credentials.{
  Reference, Repository, MayCarry, Carries, new_oras_repository, new_oras_repository-IsGuarded,
  CraneOptions, basic, keychain, crane_options, crane_options-IsGuarded,
}
use unpacker.Pull.Relabel.{
  MediaTypes, Manifest, crane_fallback_reason, IsArtifact, crane_fallback_reason-none_iff, relabel,
  IsDockerLayer, AreApart, blobs, relabel-IsOci,
}

abbrev pub types : MediaTypes
types = record {
  image_index = codes "index";
  image_manifest = codes "manifest";
  image_config = codes "config";
  docker_layer = codes "docker.tar.gzip";
  docker_uncompressed_layer = codes "docker.tar";
  docker_foreign_layer = codes "docker.foreign";
  oci_layer = codes "oci.tar+gzip";
  oci_uncompressed_layer = codes "oci.tar";
  oci_restricted_layer = codes "oci.restricted";
}

abbrev blob_of : Bytes → ℕ → Descriptor
blob_of media_type size = record {
  media_type = media_type;
  digest = codes "sha256:ab";
  size = size;
  artifact_type = [];
  annotations = [];
}

abbrev two_blobs : List Descriptor
two_blobs = blob_of (codes "config") 20 ∷ blob_of (codes "docker.tar") 30 ∷ []

abbrev hundred : Limits
hundred = record { max_total_bytes = 50; max_file_bytes = 30; max_entries = 0 }

charge_all_iff_example :
    ((c : DownloadBudget) × (charge_all two_blobs (new_download_budget hundred) ≡ ok c)) ↔ (
      All (λ (desc : Descriptor). desc.size ≤ (with_defaults hundred).max_file_bytes) two_blobs
      × (sum_sizes two_blobs ≤ (with_defaults hundred).max_total_bytes))
charge_all_iff_example = charge_all_iff hundred two_blobs (omega arith) (omega arith)

abbrev image : Manifest
image = record {
  media_type = codes "docker";
  config = blob_of (codes "docker.config") 20;
  layers = two_blobs;
}

types-AreApart : AreApart types
types-AreApart = record {
  layer = λ h. ground arith;
  uncompressed = λ h. ground arith;
  restricted = λ h. ground arith;
}

relabel-IsOci_example :
    ((relabel types image).media_type ≡ codes "manifest")
    × ((relabel types image).config.media_type ≡ codes "config")
    × All
        (λ (desc : Descriptor). ¬ IsDockerLayer types desc.media_type)
        (relabel types image).layers
    × (blobs types (relabel types image) ≡ blobs types image)
    × (relabel types (relabel types image) ≡ relabel types image)
relabel-IsOci_example = relabel-IsOci types types-AreApart image

crane_fallback_reason-none_iff_example :
    (crane_fallback_reason types ok (codes "manifest") (codes "config") ≡ none)
    ↔ IsArtifact types ok (codes "manifest") (codes "config")
crane_fallback_reason-none_iff_example =
    crane_fallback_reason-none_iff types ok (codes "manifest") (codes "config")

abbrev pair : Credentials
pair = record no_credentials { username = codes "u"; password = codes "p" }

abbrev no_verification : VerifyConfig
no_verification = record {
  cosign_identity = [];
  cosign_oidc_issuer = [];
  cosign_key_path = [];
  trusted_root_path = [];
  tuf_mirror = [];
  tuf_root_path = [];
}

abbrev insecure_config : Bool → Credentials → Config
insecure_config allow creds = record {
  image = codes "r/i:1";
  output_dir = codes "o";
  allowed_types = [];
  insecure = true;
  allow_insecure_credentials = allow;
  with_referrers = false;
  max_referrers = 0;
  platform = [];
  creds = some creds;
  verify = no_verification;
  limits = hundred;
}

abbrev parse_reference : Bytes → Result Reference
parse_reference s = ok (record { registry = codes "r"; reference = codes "1" })

oras_refuses :
    new_oras_repository parse_reference (insecure_config false pair)
    ≡ err (plain "refusing to send credentials over plain HTTP")
unfolding new_oras_repository
oras_refuses = refl

abbrev test_repository : Repository
test_repository = record {
  reference = record { registry = codes "r"; reference = codes "1" };
  plain_http = true;
  credential = some (codes "r", (codes "u", codes "p"));
}

oras_accepts : new_oras_repository parse_reference (insecure_config true pair) ≡ ok test_repository
unfolding new_oras_repository
oras_accepts = refl

new_oras_repository-IsGuarded_example :
    (parse_reference (codes "r/i:1") ≡ ok test_repository.reference)
    × (test_repository.plain_http ≡ true)
    × Carries (insecure_config true pair) test_repository
new_oras_repository-IsGuarded_example =
    new_oras_repository-IsGuarded parse_reference (insecure_config true pair) test_repository
      oras_accepts

abbrev test_options : CraneOptions (Unit {0})
test_options = record {
  platform = none;
  skips_verification = true;
  auth = some (basic (codes "u") (codes "p"));
}

crane_accepts : crane_options (λ s. ok tt) (insecure_config true pair) ≡ ok test_options
unfolding crane_options
crane_accepts = refl

crane_options-IsGuarded_example :
    MayCarry true true
    × (c : Credentials) × (some pair ≡ some c)
    × (c.username ≡ codes "u")
    × (c.password ≡ codes "p")
crane_options-IsGuarded_example =
    crane_options-IsGuarded (λ s. ok tt) (insecure_config true pair) test_options (codes "u")
      (codes "p") crane_accepts refl

-- Credentials of a config file go over a certificate that is not verified without being asked for.
crane_sends_config_file :
    crane_options {Plat = Unit {0}}
      (λ s. ok tt)
      (insecure_config false (record no_credentials { config_path = codes "c.json" }))
    ≡ ok (record {
      platform = none;
      skips_verification = true;
      auth = some (keychain (codes "c.json"));
    })
unfolding crane_options
crane_sends_config_file = refl

-- A blob that declares a negative size (here -1) passes the check and raises what remains.
negative_size_raises :
    charge (blob_of [] (2 ^ 64 - 1)) (new_download_budget hundred)
    ≡ ok (record { max_file = 30; remaining = 51 })
unfolding charge lt_i64 sub_i64 new_download_budget with_defaults
negative_size_raises = refl
