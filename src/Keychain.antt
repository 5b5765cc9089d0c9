-- ===== src/Keychain.antt =====
-- internal/unpacker/keychain.go: `configFileKeychain.Resolve`, credentials from one docker config
-- file.
pub mod First
use unpacker.Base.{Bool, true, false, List, [], ◌∷◌, ◌||◌, if◌then◌else◌}
use unpacker.Base.Text.{Bytes, bytes_eq}
use unpacker.Errors.{Error, wrap, Result, ok, err, wrap_result}
use unpacker.System.{M, ◌>>=◌, ◌>>◌, pure, wrapping, lift, read_file}
use unpacker.Auth.{filled}

-- `types.AuthConfig` of docker/cli, by the fields that the program reads or sets.
pub record AuthConfig : Type 0 where
  pub username : Bytes
  pub password : Bytes
  pub auth : Bytes
  pub server_address : Bytes
  pub identity_token : Bytes
  pub registry_token : Bytes

-- `cfg != empty`
unfoldable pub is_filled : AuthConfig → Bool
is_filled c =
    filled c.username
    || (filled c.password
        || (filled c.auth
            || (filled c.server_address || (filled c.identity_token || filled c.registry_token))))

abbrev pub empty_config : AuthConfig
empty_config = record {
  username = [];
  password = [];
  auth = [];
  server_address = [];
  identity_token = [];
  registry_token = [];
}

pub data Authenticator : Type 0 where
  anonymous : Authenticator
  from_config : AuthConfig → Authenticator

-- docker/cli's config file, and how go-containerregistry spells the registry of Docker Hub in it.
pub record DockerConfig : Type 1 where
  pub File : Type 0
  pub load_from_reader : Bytes → Result File
  pub get_auth_config : File → Bytes → Result AuthConfig
  pub default_registry : Bytes
  pub default_auth_key : Bytes

module _ (D : DockerConfig) where
  unfoldable pub spelled : Bytes → Bytes
  unfolding bytes_eq
  spelled key = if bytes_eq key D.default_registry then D.default_auth_key else key

  -- The loop over the keys: the first entry that is not empty, else the last one.
  unfoldable pub find_config : D.File → List Bytes → AuthConfig → Result AuthConfig
  unfolding spelled is_filled
  find_config cf [] last = ok last
  find_config cf (key ∷ keys) last = elim (D.get_auth_config cf (spelled key)) [
    | err e ↦ err (wrap "read credentials" e)
    | ok found ↦
        let cfg = record found { server_address = [] } in
        let rest = find_config cf keys cfg in if is_filled cfg then ok cfg else rest
  ]

  abbrev pub authenticator : AuthConfig → Authenticator
  authenticator cfg =
      if is_filled cfg then from_config (record cfg { server_address = [] }) else anonymous

  -- `Resolve`, for a target by its full name and its registry.
  unfoldable pub resolve_target : Bytes → Bytes → Bytes → M Authenticator
  unfolding find_config is_filled
  resolve_target path target registry = do
    content ← wrapping "open docker config" (read_file path)
    cf ← lift (wrap_result "parse docker config" (D.load_from_reader content))
    cfg ← lift (find_config cf (target ∷ registry ∷ []) empty_config)
    pure (authenticator cfg)
