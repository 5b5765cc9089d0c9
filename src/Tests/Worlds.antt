-- ===== src/Tests/Worlds.antt =====
-- One signed artifact in a registry, and a run that fetches, verifies and unpacks it.
use unpacker.Base.{refl, false, ◌==◌, List, [], ◌∷◌, none, some, if◌then◌else◌, length}
use unpacker.Base.Text.{Bytes, codes, bytes_eq}
use unpacker.Errors.{plain, Result, ok, err}
use unpacker.System.{World, file, pure, fail, within}
use unpacker.Config.{Config}
use unpacker.Verify.Config.{VerifyConfig}
use unpacker.Verify.Trust.{Sigstore}
use unpacker.Verify.Bundles.{Engine, cosign_bundle_artifact_type}
use unpacker.Pull.Budget.{Descriptor}
use unpacker.Pull.Credentials.{Repository}
use unpacker.Pull.Registry.{Registry}
use unpacker.Pull.Crane.{Crane}
use unpacker.Report.{RunResult}
use unpacker.Unpack.{Tools}
use unpacker.Command.{Libraries}
use unpacker.Tests.Pulling.{types}
use unpacker.Tests.Layered.{readers}

-- A bundle is the digest that it signs.
abbrev pub sigstore : Sigstore
sigstore = record {
  Root = Bytes;
  rekor_logs = λ root. 1;
  timestamping_authorities = λ root. 0;
  parse_trusted_root = λ s. ok s;
  in_tuf_cache = within (codes "home/.sigstore");
  fetch_trusted_root = fail (plain "offline");
  fetch_trusted_root_with = λ url root. fail (plain "offline");
  fetch_trusted_root-SameBut = λ w. ((λ q _. refl), refl);
  fetch_trusted_root_with-SameBut = λ url initial w. ((λ q _. refl), refl);
  PublicKey = Bytes;
  pem_decode = λ s. some s;
  parse_public_key = λ s. ok s;
  Key = Bytes;
  load_verifier = λ k. ok k;
  Identity = Bytes;
  short_certificate_identity = λ issuer subject. ok subject;
  parse_digest = λ s. ok s;
  algorithm = λ s. codes "sha256";
  encoded = λ s. s;
  decode_hex = λ s. ok s;
  from_bytes = λ s. s;
  Bundle = Bytes;
  parse_bundle = λ s. ok s;
}

abbrev pub engine : Engine sigstore
engine = record {
  Verifier = Unit {0};
  new_signed_entity_verifier = λ material options. ok tt;
  verify = λ v policy b.
      if bytes_eq b policy.digest then ok (codes "Tlog" ∷ []) else err (plain "no signature");
}

abbrev pub blob : Bytes → Descriptor
blob digest = record {
  media_type = codes "blob";
  digest = digest;
  size = length digest;
  artifact_type = [];
  annotations = [];
}

-- Every blob is its digest, and the manifest `m` has one layer and `signers` as its referrers.
abbrev pub registry : List Descriptor → Registry Bytes
registry signers = record {
  types = types;
  parse_reference = λ s. ok (record { registry = codes "r"; reference = codes "t" });
  client = λ repo. record {
    fetch = λ desc. ok desc.digest;
    passed = λ desc b. b;
    read_error = λ desc b. ok tt;
    verify = λ desc b. if length b == desc.size then ok tt else err (plain "mismatch");
  };
  fetch_reference = λ repo tag. ok (blob (codes "m"), codes "m");
  read_all = λ desc b. ok b;
  fetch_all = λ repo desc. ok desc.digest;
  referrers = λ repo digest. ok signers;
  config_type = λ s. ok (codes "artifact");
  parse_layers = λ s. ok (blob (codes "a") ∷ []);
  parse_referrer = λ s. (
    record {
      artifact_type = cosign_bundle_artifact_type;
      config_media_type = [];
      layers = blob (codes "m") ∷ [];
      subject = some (codes "m");
    },
    none,
  );
  parse_digest = λ s. ok s;
  encoded = λ s. s;
}

abbrev pub offline : Crane
offline = record {
  Plat = Bytes;
  Image = Bytes;
  parse_platform = λ s. ok s;
  pull = λ image options. err (plain "offline");
  digest = λ i. ok i;
  raw = λ i. ok i;
  decode = λ s. err (plain "no manifest");
  encode = λ m. err (plain "no manifest");
  layout_write = λ path. pure tt;
  append_image = λ path i raw tag. pure tt;
}

abbrev pub tools : Tools
tools = record {
  readers = readers;
  parse_manifest = λ s. ok [];
  command = λ name args. pure (codes "no such image", some (plain "exit status 1"));
}

abbrev pub encode : RunResult → Result Bytes
encode r = ok r.digest

abbrev pub repository : Repository
repository = record {
  reference = record { registry = codes "r"; reference = codes "t" };
  plain_http = false;
  credential = none;
}

abbrev pub libraries : List Descriptor → Libraries
libraries signers = record {
  Body = Bytes;
  registry = registry signers;
  crane = offline;
  sigstore = sigstore;
  engine = engine;
  tools = tools;
  encode = encode;
}

abbrev pub by_key : VerifyConfig
by_key = record {
  cosign_identity = [];
  cosign_oidc_issuer = [];
  cosign_key_path = codes "k";
  trusted_root_path = [];
  tuf_mirror = [];
  tuf_root_path = [];
}

abbrev pub config : Config
config = record {
  image = codes "r/a:t";
  output_dir = codes "o";
  allowed_types = [];
  insecure = false;
  allow_insecure_credentials = false;
  with_referrers = false;
  max_referrers = 1;
  platform = [];
  creds = none;
  verify = by_key;
  limits = record { max_total_bytes = 0; max_file_bytes = 0; max_entries = 0 };
}

abbrev pub start : World
start = record {
  disk = (codes "k", file 0o644 (codes "pem")) ∷ [];
  faults = [];
  copied = 0;
  log = [];
}
