-- ===== src/Command.antt =====
-- cmd/unpacker/main.go: one run of the command, from its flags to its exit status.
pub mod Gate
pub mod Status
pub mod Main
pub mod Workspace
pub mod Defaults
pub mod Records
pub mod Followed
pub mod Bounded
use unpacker.Base.{ℕ, String, Bool, true, false, ◌||◌, List, [], ◌∷◌, Option, none, some}
use unpacker.Base.{if◌then◌else◌}
use unpacker.Base.Text.{Bytes, codes}
use unpacker.Base.Word.{I64}
use unpacker.Errors.{Error, wrap, Result, ok, err, wrap_result}
use unpacker.System.{M, World, ◌>>=◌, ◌>>◌, pure, fail, attempt, wrapping}
use unpacker.Auth.{Credentials, resolve}
use unpacker.Exit.{exit_code}
use unpacker.Limits.{Limits}
use unpacker.Config.{Config}
use unpacker.Verify.Config.{VerifyConfig, validate, requested}
use unpacker.Verify.Trust.{Sigstore}
use unpacker.Verify.Bundles.{Engine, verify}
use unpacker.Report.{Referrer, Verification, ResultError, RunResult, write_result}
use unpacker.Pull.Registry.{Registry}
use unpacker.Pull.Crane.{Crane, pull}
use unpacker.Referrers.Fetch.{fetch_referrers, no_referrers}
use unpacker.Unpack.{Tools, unpack}

-- The command line, parsed.
pub record Flags : Type 0 where
  pub image : Bytes
  pub output_dir : Bytes
  pub mediatypes : List Bytes
  pub config_path : Bytes
  pub is_public : Bool
  pub insecure : Bool
  pub allow_insecure_credentials : Bool
  pub with_referrers : Bool
  pub limits : Limits
  pub max_referrers : I64
  pub platform : Bytes
  pub verify : VerifyConfig

abbrev pub config_of : Flags → Credentials → Config
config_of flags creds = record {
  image = flags.image;
  output_dir = flags.output_dir;
  allowed_types = flags.mediatypes;
  insecure = flags.insecure;
  allow_insecure_credentials = flags.allow_insecure_credentials;
  with_referrers = flags.with_referrers;
  max_referrers = flags.max_referrers;
  platform = flags.platform;
  creds = some creds;
  verify = flags.verify;
  limits = flags.limits;
}

-- All that the program calls and does not implement.
pub record Libraries : Type 1 where
  pub Body : Type 0
  pub registry : Registry Body
  pub crane : Crane
  pub sigstore : Sigstore
  pub engine : Engine sigstore
  pub tools : Tools
  pub encode : RunResult → Result Bytes

module _ (L : Libraries) where
  -- `fail`: the error is recorded, and returned whether or not that worked.
  unfoldable pub fail_stage : Config → RunResult → String → Error → M (Unit {0})
  unfolding write_result
  fail_stage cfg result stage cause = do
    _ ← attempt (
        write_result L.encode cfg
          (record result { error = some (record { stage = stage; cause = cause }) }))
    fail (wrap stage cause)

  abbrev pub end_stage : Config → RunResult → String → Result (Unit {0}) → M (Unit {0})
  end_stage cfg result stage (ok u) = pure tt
  end_stage cfg result stage (err e) = fail_stage cfg result stage e

  unfoldable pub unpack_stage : Config → RunResult → M (Unit {0})
  unfolding unpack fail_stage
  unpack_stage cfg result = do
    outcome ← attempt (unpack L.tools cfg)
    end_stage cfg result "unpack" outcome

  -- What a verification leads to.
  abbrev pub after_verify : Config → RunResult → Option Error → M (Unit {0})
  after_verify cfg result (some e) = fail_stage cfg result "verify" e
  after_verify cfg result none = do write_result L.encode cfg result; unpack_stage cfg result

  -- Verification gates the unpacking.
  unfoldable pub verify_stage : Config → Bytes → RunResult → M (Unit {0})
  unfolding verify requested unpack_stage fail_stage write_result
  verify_stage cfg resolved result =
      if requested cfg.verify
      then (do
        (rec, e) ← verify L.sigstore L.engine cfg resolved result.referrers
        after_verify cfg (record result { verification = some rec }) e)
      else unpack_stage cfg result

  abbrev pub after_referrers : Config → Bytes → RunResult → Result RunResult → M (Unit {0})
  after_referrers cfg resolved result (err e) = fail_stage cfg result "referrers" e
  after_referrers cfg resolved result (ok fetched) = verify_stage cfg resolved fetched

  unfoldable pub referrers_stage : Config → Bytes → RunResult → M (Unit {0})
  unfolding verify_stage fetch_referrers requested write_result fail_stage
  referrers_stage cfg resolved result =
      if cfg.with_referrers || requested cfg.verify
      then (do
        outcome ← attempt (fetch_referrers L.registry L.encode cfg resolved)
        after_referrers cfg resolved result outcome)
      else (do write_result L.encode cfg result; verify_stage cfg resolved result)

  abbrev pub after_pull : Config → Result Bytes → M (Unit {0})
  after_pull cfg (err e) = fail_stage cfg (no_referrers L.registry L.encode cfg []) "pull" e
  after_pull cfg (ok resolved) =
      referrers_stage cfg resolved (no_referrers L.registry L.encode cfg resolved)

  -- From the configuration on.
  unfoldable pub run : Config → M (Unit {0})
  unfolding pull referrers_stage fail_stage
  run cfg = do outcome ← attempt (pull L.registry L.crane cfg); after_pull cfg outcome

  abbrev pub with_valid : Option Error → M (Unit {0}) → M (Unit {0})
  with_valid none m = m
  with_valid (some e) m = fail e

  -- `RunE` of the root command; `env` is `os.Getenv`.
  unfoldable pub run_root : (Bytes → Bytes) → Flags → M (Unit {0})
  unfolding run validate resolve
  run_root env flags = with_valid (validate flags.verify) (do
    creds ← wrapping "credentials" (resolve env flags.config_path flags.is_public)
    run (config_of flags creds))

  abbrev pub error_of : Result (Unit {0}) → Option Error
  error_of (ok u) = none
  error_of (err e) = some e

  -- `main`: the exit status, and the world that is left.
  unfoldable pub main : (Bytes → Bytes) → Flags → World → ℕ × World
  unfolding run_root exit_code
  main env flags w = let (r, v) = run_root env flags w in (exit_code (error_of r), v)
