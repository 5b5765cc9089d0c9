-- ===== src/Report.antt =====
-- internal/unpacker/referrers.go and verify.go: the records of result.json, and `WriteResult`.
pub mod Written
use unpacker.Base.{String, Bool, List, [], ◌∷◌, ◌++◌, Option}
use unpacker.Base.Text.{Bytes, codes}
use unpacker.Base.Word.{I64}
use unpacker.Path.{join}
use unpacker.Errors.{Error, Result, wrap_result}
use unpacker.System.{M, ◌>>=◌, ◌>>◌, lift, write_file}
use unpacker.Config.{Config}

-- A referrer on the disk.
pub record Referrer : Type 0 where
  pub artifact_type : Bytes
  pub media_type : Bytes
  pub digest : Bytes
  pub size : I64
  pub path : Bytes
  pub files : List Bytes
  pub annotations : List (Bytes × Bytes)

-- The error text of a failed verification is kept as the error itself.
pub record Verification : Type 0 where
  pub mode : Bytes
  pub identity : Bytes
  pub oidc_issuer : Bytes
  pub key_path : Bytes
  pub trust_source : Bytes
  pub timestamp_source : Bytes
  pub bundles : List Bytes
  pub verified : Bool
  pub error : Option Error

-- A stage and the error whose text is recorded.
pub record ResultError : Type 0 where
  pub stage : String
  pub cause : Error

-- `Result`
pub record RunResult : Type 0 where
  pub image : Bytes
  pub digest : Bytes
  pub referrers : List Referrer
  pub verification : Option Verification
  pub error : Option ResultError

abbrev pub result_path : Config → Bytes
result_path cfg = join cfg.output_dir (codes "result.json")

-- `WriteResult`; `encode` is `json.MarshalIndent`.
unfoldable pub write_result : (RunResult → Result Bytes) → Config → RunResult → M (Unit {0})
write_result encode cfg result = do
  text ← lift (wrap_result "encode result.json" (encode result))
  write_file (result_path cfg) (text ++ (b'\n' ∷ [])) 0o644
