-- ===== src/Config.antt =====
-- internal/unpacker/unpack.go: `Config`, all that a run is told on the command line.
use unpacker.Base.{Bool, List, Option}
use unpacker.Base.Text.{Bytes}
use unpacker.Base.Word.{I64}
use unpacker.Auth.{Credentials}
use unpacker.Limits.{Limits}
use unpacker.Verify.Config.{VerifyConfig}

pub record Config : Type 0 where
  pub image : Bytes
  pub output_dir : Bytes
  pub allowed_types : List Bytes
  pub insecure : Bool
  pub allow_insecure_credentials : Bool
  pub with_referrers : Bool
  pub max_referrers : I64
  pub platform : Bytes
  pub creds : Option Credentials
  pub verify : VerifyConfig
  pub limits : Limits
