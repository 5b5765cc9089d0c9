-- ===== src/Verify/Trust.antt =====
-- internal/unpacker/verify.go: what is trusted (`trustedMaterial`), what attests to a signature's
-- time (`observerOptions`), and the verifier and policy made of them (`newSignatureVerifier`).
use unpacker.Base.{ℕ, Bool, List, [], ◌∷◌, ◌++◌, Option, none, some, if◌then◌else◌, ltb}
use unpacker.Base.Text.{Bytes, codes}
use unpacker.Errors.{Error, plain, wrap, Result, ok, err, wrap_result}
use unpacker.System.{M, ◌>>=◌, pure, wrapping, lift, read_file}
use unpacker.System.Keeps.{Keeps}
use unpacker.System.Reads.{SameBut}
use unpacker.Auth.{filled}
use unpacker.Verify.Config.{VerifyConfig}

-- The `verify.VerifierOption`s that the program asks for.
pub data VerifierOption : Type 0 where
  transparency_log : ℕ → VerifierOption
  signed_timestamps : ℕ → VerifierOption
  current_time : VerifierOption

-- sigstore-go, the crypto libraries and go-digest, as far as the program calls them.
pub record Sigstore : Type 1 where
  -- `*root.TrustedRoot`, with the sizes of what it lists
  pub Root : Type 0
  pub rekor_logs : Root → ℕ
  pub timestamping_authorities : Root → ℕ
  pub parse_trusted_root : Bytes → Result Root
  -- the paths of the cache where sigstore-go keeps what it has fetched by TUF, and of the
  -- directories that it makes for it (`CachePath` of `tuf.DefaultOptions`)
  pub in_tuf_cache : Bytes → Bool
  pub fetch_trusted_root : M Root
  -- at the URL of a mirror, with the bytes of an initial root if there are any
  pub fetch_trusted_root_with : Bytes → Option Bytes → M Root
  -- a fetch writes to its cache only
  pub fetch_trusted_root-SameBut : Keeps (SameBut in_tuf_cache) fetch_trusted_root
  pub fetch_trusted_root_with-SameBut :
      (url : Bytes) (initial : Option Bytes)
      → Keeps (SameBut in_tuf_cache) (fetch_trusted_root_with url initial)
  pub PublicKey : Type 0
  pub pem_decode : Bytes → Option Bytes
  pub parse_public_key : Bytes → Result PublicKey
  pub Key : Type 0
  pub load_verifier : PublicKey → Result Key
  -- a certificate identity, of an issuer and the regex of a subject
  pub Identity : Type 0
  pub short_certificate_identity : Bytes → Bytes → Result Identity
  pub parse_digest : Bytes → Result Bytes
  pub algorithm : Bytes → Bytes
  pub encoded : Bytes → Bytes
  pub decode_hex : Bytes → Result Bytes
  pub from_bytes : Bytes → Bytes
  pub Bundle : Type 0
  pub parse_bundle : Bytes → Result Bundle

-- `root.TrustedMaterial`, of the two kinds that the program makes.
pub data TrustedMaterial (Root Key : Type 0) : Type 0 where
  public_key : Key → TrustedMaterial Root Key
  trusted_root : Root → TrustedMaterial Root Key

pub data PolicyOption (Identity : Type 0) : Type 0 where
  with_key : PolicyOption Identity
  with_certificate_identity : Identity → PolicyOption Identity

-- `verify.NewPolicy(WithArtifactDigest(algorithm, digest), option)`
pub record Policy (Identity : Type 0) : Type 0 where
  pub algorithm : Bytes
  pub digest : Bytes
  pub option : PolicyOption Identity

module _ (S : Sigstore) where
  abbrev pub Material : Type 0
  Material = TrustedMaterial S.Root S.Key

  unfoldable pub decoded_key : Option Bytes → Result S.Key
  decoded_key none = err (plain "cosign key is not PEM")
  decoded_key (some block) = elim (S.parse_public_key block) [
    | err e ↦ err (wrap "parse cosign key" e)
    | ok pub_key ↦ wrap_result "load cosign key" (S.load_verifier pub_key)
  ]

  unfoldable pub public_key_material : Bytes → M Material
  unfolding decoded_key
  public_key_material path = do
    pem_bytes ← wrapping "read cosign key" (read_file path)
    key ← lift (decoded_key (S.pem_decode pem_bytes))
    pure (public_key key)

  -- The TUF root, where a path to one is given.
  unfoldable pub initial_root : Bytes → M (Option Bytes)
  initial_root [] = pure none
  initial_root (c ∷ path) = do
    root_json ← wrapping "read TUF root" (read_file (c ∷ path))
    pure (some root_json)

  -- An explicit key, a trusted root, a TUF repository, and else the public instance.
  unfoldable pub trusted_material : VerifyConfig → M (Material × Bytes)
  unfolding public_key_material initial_root
  trusted_material v =
      if filled v.cosign_key_path
      then (do material ← public_key_material v.cosign_key_path; pure (material, codes "key"))
      else if filled v.trusted_root_path
      then (do
        content ← wrapping "read trusted root" (read_file v.trusted_root_path)
        root ← lift (wrap_result "read trusted root" (S.parse_trusted_root content))
        pure (trusted_root root, codes "trusted-root"))
      else if filled v.tuf_mirror
      then (do
        initial ← initial_root v.tuf_root_path
        root ← wrapping "fetch trusted root" (S.fetch_trusted_root_with v.tuf_mirror initial)
        pure (trusted_root root, codes "tuf"))
      else (do
        root ← wrapping "fetch the public Sigstore trusted root" S.fetch_trusted_root
        pure (trusted_root root, codes "public"))

  abbrev attests_nothing : Error
  attests_nothing = plain "the trusted root has no Rekor log and no timestamp authority"

  unfoldable pub observer_options : Material → Result (List VerifierOption × Bytes)
  observer_options (public_key key) = ok (current_time ∷ [], codes "none-bare-key")
  observer_options (trusted_root root) =
      let has_rekor = ltb 0 (S.rekor_logs root) in
      let has_tsa = ltb 0 (S.timestamping_authorities root) in
      let opts = if has_rekor then transparency_log 1 ∷ [] else [] in
      if has_tsa
      then ok (opts ++ (signed_timestamps 1 ∷ []), codes "tsa")
      else if has_rekor
      then ok (opts ++ (current_time ∷ []), codes "rekor")
      else err attests_nothing

  unfoldable pub policy_options : VerifyConfig → Result (PolicyOption S.Identity)
  policy_options v =
      if filled v.cosign_key_path
      then ok with_key
      else elim (S.short_certificate_identity v.cosign_oidc_issuer v.cosign_identity) [
        | err e ↦ err (wrap "build certificate identity" e)
        | ok id ↦ ok (with_certificate_identity id)
      ]

  unfoldable pub hex_digest_bytes : Bytes → Result Bytes
  hex_digest_bytes d = wrap_result "decode digest" (S.decode_hex (S.encoded d))
