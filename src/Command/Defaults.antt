-- ===== src/Command/Defaults.antt =====
-- cmd/unpacker/main.go: the flag table of rootCmd, by what a command line without flags is parsed to.
use unpacker.Base.{false, [], ◌∷◌}
use unpacker.Base.Text.{Bytes, codes}
use unpacker.Limits.{
  Limits, default_max_total_bytes, default_max_file_bytes, default_max_entries,
  default_max_referrers,
}
use unpacker.Verify.Config.{VerifyConfig}
use unpacker.Command.{Flags}

abbrev pub default_limits : Limits
default_limits = record {
  max_total_bytes = default_max_total_bytes;
  max_file_bytes = default_max_file_bytes;
  max_entries = default_max_entries;
}

abbrev pub no_verification : VerifyConfig
no_verification = record {
  cosign_identity = [];
  cosign_oidc_issuer = [];
  cosign_key_path = [];
  trusted_root_path = [];
  tuf_mirror = [];
  tuf_root_path = [];
}

-- `unpacker IMAGE`
abbrev pub default_flags : Bytes → Flags
default_flags image = record {
  image = image;
  output_dir = codes ".";
  mediatypes = codes "flux" ∷ codes "helm" ∷ [];
  config_path = [];
  is_public = false;
  insecure = false;
  allow_insecure_credentials = false;
  with_referrers = false;
  limits = default_limits;
  max_referrers = default_max_referrers;
  platform = [];
  verify = no_verification;
}
