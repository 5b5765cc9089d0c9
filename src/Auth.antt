-- ===== src/Auth.antt =====
-- internal/unpacker/auth.go: where registry credentials come from.
pub mod Laws
use unpacker.Base.{ℕ, Bool, true, false, not, ◌&&◌, List, [], Option, none, some, if◌then◌else◌}
use unpacker.Base.Text.{Bytes, codes, bytes_eq}
use unpacker.Errors.{Error, plain}
use unpacker.System.{M, ◌>>=◌, ◌>>◌, pure, fail, say, LogLine, said}

pub record Credentials : Type 0 where
  pub username : Bytes
  pub password : Bytes
  pub config_path : Bytes
  pub is_public : Bool

abbrev pub no_credentials : Credentials
no_credentials = record { username = []; password = []; config_path = []; is_public = false }

-- `s != ""`
abbrev pub filled : Bytes → Bool
filled [] = false
filled s = true

-- A pair of environment variables, where both are set. `env` is `os.Getenv`.
unfoldable pub env_pair : (Bytes → Bytes) → Bytes → Bytes → Option Credentials
env_pair env user pass =
    if filled (env user) && filled (env pass)
    then some (record no_credentials { username = env user; password = env pass })
    else none

abbrev pub env_missing : Error
env_missing =
    plain
      "private registry requires --config or UNPACKER_USERNAME/UNPACKER_PASSWORD environment variables"

abbrev pub deprecated : LogLine
deprecated =
    said
      "warning: using deprecated USERNAME/PASSWORD environment variables — set UNPACKER_USERNAME/UNPACKER_PASSWORD instead"

-- `Resolve`
unfoldable pub resolve : (Bytes → Bytes) → Bytes → Bool → M Credentials
unfolding env_pair
resolve env config_path true = pure (record no_credentials { is_public = true })
resolve env config_path false =
    if filled config_path
    then pure (record no_credentials { config_path = config_path })
    else elim (env_pair env (codes "UNPACKER_USERNAME") (codes "UNPACKER_PASSWORD")) [
      | some c ↦ pure c
      | none ↦ elim (env_pair env (codes "USERNAME") (codes "PASSWORD")) [
        | some c ↦ (do say deprecated; pure c)
        | none ↦ fail env_missing
      ]
    ]
