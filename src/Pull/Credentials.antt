-- ===== src/Pull/Credentials.antt =====
-- internal/unpacker/pull.go: which credentials the two registry clients are given, and over what.
use unpacker.Base.{◌≡◌, ◌⊎◌, inl, inr, refl, subst, Bool-cases, arith}
use unpacker.Base.{Bool, true, false, not, ◌&&◌, Option, none, some, if◌then◌else◌}
use unpacker.Base.Text.{Bytes}
use unpacker.Errors.{plain, Result, ok, err, wrap_result}
use unpacker.Auth.{Credentials, filled}
use unpacker.Config.{Config}

-- `registry.Reference`: the part behind the repository is a tag or a digest.
pub record Reference : Type 0 where
  pub registry : Bytes
  pub reference : Bytes

-- A client for one repository, as `newOrasRepository` sets it up: the credential is bound to the
-- registry that it may be sent to.
pub record Repository : Type 0 where
  pub reference : Reference
  pub plain_http : Bool
  pub credential : Option (Bytes × (Bytes × Bytes))

abbrev has_username : Option Credentials → Bool
has_username none = false
has_username (some c) = filled c.username

abbrev pair_for : Bytes → Option Credentials → Option (Bytes × (Bytes × Bytes))
pair_for registry none = none
pair_for registry (some c) =
    if filled c.username then some (registry, (c.username, c.password)) else none

-- `newOrasRepository`; `parse` is the reference parser of oras-go.
unfoldable pub new_oras_repository : (Bytes → Result Reference) → Config → Result Repository
new_oras_repository parse cfg = elim (wrap_result "parse image reference" (parse cfg.image)) [
  | err e ↦ err e
  | ok reference ↦
      if has_username cfg.creds && cfg.insecure && not cfg.allow_insecure_credentials
      then err (plain "refusing to send credentials over plain HTTP")
      else ok (record {
        reference = reference;
        plain_http = cfg.insecure;
        credential = pair_for reference.registry cfg.creds;
      })
]

-- How crane authenticates: `WithAuth`, or `WithAuthFromKeychain` on a docker config file.
pub data CraneAuth : Type 0 where
  basic : Bytes → Bytes → CraneAuth
  keychain : Bytes → CraneAuth

-- The options that `pullWithCrane` gives to `crane.Pull`. Plat is go-containerregistry's platform.
pub record CraneOptions (Plat : Type 0) : Type 0 where
  pub platform : Option Plat
  pub skips_verification : Bool
  pub auth : Option CraneAuth

abbrev crane_auth : Option Credentials → Option CraneAuth
crane_auth none = none
crane_auth (some c) =
    if filled c.username
    then some (basic c.username c.password)
    else if filled c.config_path
    then some (keychain c.config_path)
    else none

abbrev parsed_platform : {Plat : Type 0} → (Bytes → Result Plat) → Bytes → Result (Option Plat)
parsed_platform parse text =
    if filled text
    then elim (parse text) [ ok p ↦ ok (some p) | err e ↦ wrap_result "parse --platform" (err e) ]
    else ok none

-- The first part of `pullWithCrane`, up to the pull.
unfoldable pub crane_options :
    {Plat : Type 0} → (Bytes → Result Plat) → Config → Result (CraneOptions Plat)
crane_options parse cfg = elim (parsed_platform parse cfg.platform) [
  | err e ↦ err e
  | ok platform ↦
      if cfg.insecure && has_username cfg.creds && not cfg.allow_insecure_credentials
      then err (plain "refusing to send credentials over unverified TLS")
      else ok (record {
        platform = platform;
        skips_verification = cfg.insecure;
        auth = crane_auth cfg.creds;
      })
]

-- Where a channel may carry a password.
abbrev pub MayCarry : Bool → Bool → Type 0
MayCarry is_insecure allow = (is_insecure ≡ false) ⊎ (allow ≡ true)

-- The pair that a client carries: the configured one, for one registry and where the channel may
-- carry it, and none exactly where no user is configured.
abbrev pub Carries : Config → Repository → Type 0
Carries cfg repo =
    ((repo.credential ≡ none) × (has_username cfg.creds ≡ false))
    ⊎ (MayCarry cfg.insecure cfg.allow_insecure_credentials
        × (c : Credentials) × (cfg.creds ≡ some c)
        × (filled c.username ≡ true)
        × (repo.credential ≡ some (repo.reference.registry, (c.username, c.password))))

-- The oras client is for the reference that the image names, over plain HTTP exactly where
-- `--insecure` says so. Where a user is configured, it carries the configured pair, for the registry
-- of the reference only, and then over plain HTTP only where `--insecure-allow-credentials` asks for
-- it; where none is, it carries no credential.
pub new_oras_repository-IsGuarded :
    (parse : Bytes → Result Reference) (cfg : Config) (repo : Repository)
    → new_oras_repository parse cfg ≡ ok repo
    → (parse cfg.image ≡ ok repo.reference) × (repo.plain_http ≡ cfg.insecure) × Carries cfg repo
unfolding new_oras_repository
new_oras_repository-IsGuarded parse cfg repo = read (parse cfg.image) cfg.creds
  where
    made : Reference → Option Credentials → Repository
    made reference creds = record {
      reference = reference;
      plain_http = cfg.insecure;
      credential = pair_for reference.registry creds;
    }

    IsMade : Result Reference → Option Credentials → Type 0
    IsMade r creds =
        (r ≡ ok repo.reference)
        × (repo.plain_http ≡ cfg.insecure)
        × Carries (record cfg { creds = creds }) repo

    shown :
        (reference : Reference) (creds : Option Credentials)
        → made reference creds ≡ repo
        → Carries (record cfg { creds = creds }) (made reference creds)
        → IsMade (ok reference) creds
    shown reference creds e h =
        subst
          (λ (z : Repository).
            (ok reference ≡ ok z.reference)
            × (z.plain_http ≡ cfg.insecure)
            × Carries (record cfg { creds = creds }) z)
          e (refl, refl, h)

    allowed : (a b : Bool) → a && not b ≡ false → MayCarry a b
    allowed false b h = inl refl
    allowed true true h = inr refl
    allowed true false h = cc

    with_user :
        (b : Bool) (reference : Reference) (c : Credentials)
        → filled c.username ≡ b
        → (if b && cfg.insecure && not cfg.allow_insecure_credentials
            then err (plain "refusing to send credentials over plain HTTP")
            else ok (made reference (some c)))
          ≡ ok repo
        → IsMade (ok reference) (some c)
    with_user false reference c u h =
        shown reference (some c) (ground (arith, h)) (inl (rw u refl, u))
    with_user true reference c u h =
        sent (Bool-cases (cfg.insecure && not cfg.allow_insecure_credentials))
      where
        sent :
            (cfg.insecure && not cfg.allow_insecure_credentials ≡ true)
              ⊎ (cfg.insecure && not cfg.allow_insecure_credentials ≡ false)
            → IsMade (ok reference) (some c)
        sent (inl e) = absurd (ground (arith, e, h))
        sent (inr e) =
            shown reference (some c) (ground (arith, e, h))
              (inr (allowed cfg.insecure cfg.allow_insecure_credentials e, c, refl, u, rw u refl))

    read :
        (r : Result Reference) (creds : Option Credentials)
        → elim (wrap_result "parse image reference" r) [
          | err e ↦ err e
          | ok reference ↦
              if has_username creds && cfg.insecure && not cfg.allow_insecure_credentials
              then err (plain "refusing to send credentials over plain HTTP")
              else ok (made reference creds)
        ]
          ≡ ok repo
        → IsMade r creds
    read (err e) creds h = cc
    read (ok reference) none h = shown reference none (ground (arith, h)) (inl (refl, refl))
    read (ok reference) (some c) h = with_user (filled c.username) reference c refl h

crane_guarded :
    {Plat : Type 0} (has_user has_config is_insecure allow : Bool) (platform : Option Plat)
    (c : Credentials) (opts : CraneOptions Plat) (user password : Bytes)
    → (if is_insecure && has_user && not allow
        then err (plain "refusing to send credentials over unverified TLS")
        else ok (record {
          platform = platform;
          skips_verification = is_insecure;
          auth =
              if has_user
              then some (basic c.username c.password)
              else if has_config
              then some (keychain c.config_path)
              else none;
        }))
      ≡ ok opts
    → opts.auth ≡ some (basic user password)
    → MayCarry opts.skips_verification allow × (c.username ≡ user) × (c.password ≡ password)
crane_guarded true has_config false allow platform c opts user password h a =
    (inl (ground arith), ground arith, ground arith)
crane_guarded true has_config true true platform c opts user password h a =
    (inr refl, ground arith, ground arith)
crane_guarded true has_config true false platform c opts user password h a = cc
crane_guarded false true true allow platform c opts user password h a = ground arith
crane_guarded false true false allow platform c opts user password h a = ground arith
crane_guarded false false true allow platform c opts user password h a = ground arith
crane_guarded false false false allow platform c opts user password h a = ground arith

-- Where crane is given a pair of user and password, it is the configured one, and over a
-- certificate that is not verified only where `--insecure-allow-credentials` asks for it.
pub crane_options-IsGuarded :
    {Plat : Type 0} (parse : Bytes → Result Plat) (cfg : Config) (opts : CraneOptions Plat)
    (user password : Bytes)
    → crane_options parse cfg ≡ ok opts
    → opts.auth ≡ some (basic user password)
    → MayCarry opts.skips_verification cfg.allow_insecure_credentials
      × (c : Credentials) × (cfg.creds ≡ some c)
      × (c.username ≡ user)
      × (c.password ≡ password)
unfolding crane_options
crane_options-IsGuarded {Plat} parse cfg opts user password =
    read (parsed_platform parse cfg.platform) cfg.creds
  where
    read :
        (r : Result (Option Plat)) (creds : Option Credentials)
        → elim r [
          | err e ↦ err e
          | ok platform ↦
              if cfg.insecure && has_username creds && not cfg.allow_insecure_credentials
              then err (plain "refusing to send credentials over unverified TLS")
              else ok (record {
                platform = platform;
                skips_verification = cfg.insecure;
                auth = crane_auth creds;
              })
        ]
          ≡ ok opts
        → opts.auth ≡ some (basic user password)
        → MayCarry opts.skips_verification cfg.allow_insecure_credentials
          × (c : Credentials) × (creds ≡ some c)
          × (c.username ≡ user)
          × (c.password ≡ password)
    read (err e) creds h a = cc
    read (ok platform) none h a = ground arith
    read (ok platform) (some c) h a =
        let (m, u, p) =
          crane_guarded (filled c.username) (filled c.config_path) cfg.insecure
            cfg.allow_insecure_credentials platform c opts user password h a in
        (m, c, refl, u, p)
