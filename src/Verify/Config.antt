-- ===== src/Verify/Config.antt =====
-- internal/unpacker/verify.go: `VerifyConfig` and the combinations of flags that it accepts.
use unpacker.Base.{◌≡◌, ◌↔◌, refl, arith, Bool, true, false, not, ◌&&◌, ◌||◌}
use unpacker.Base.{Option, none, some, if◌then◌else◌}
use unpacker.Base.Text.{Bytes}
use unpacker.Auth.{filled}
use unpacker.Errors.{Error, plain}

pub record VerifyConfig : Type 0 where
  pub cosign_identity : Bytes
  pub cosign_oidc_issuer : Bytes
  pub cosign_key_path : Bytes
  pub trusted_root_path : Bytes
  pub tuf_mirror : Bytes
  pub tuf_root_path : Bytes

unfoldable pub requested : VerifyConfig → Bool
requested v = filled v.cosign_identity || filled v.cosign_key_path

unfoldable pub uses_trust_root : VerifyConfig → Bool
uses_trust_root v = filled v.trusted_root_path || (filled v.tuf_mirror || filled v.tuf_root_path)

-- `none` is the nil error.
unfoldable pub validate : VerifyConfig → Option Error
unfolding requested uses_trust_root
validate v =
    if filled v.cosign_identity && filled v.cosign_key_path
    then some (
        plain
          "--verify-cosign-identity and --verify-cosign-key are different verification modes: pass one")
    else if filled v.cosign_identity && not (filled v.cosign_oidc_issuer)
    then some (plain "--verify-cosign-identity needs --verify-cosign-oidc-issuer")
    else if filled v.cosign_oidc_issuer && not (filled v.cosign_identity)
    then some (plain "--verify-cosign-oidc-issuer needs --verify-cosign-identity")
    else if filled v.cosign_key_path && uses_trust_root v
    then some (
        plain
          "--verify-cosign-key verifies against the key alone and never consults a trusted root")
    else if filled v.tuf_root_path && not (filled v.tuf_mirror)
    then some (plain "--verify-tuf-root needs --verify-tuf-mirror")
    else if uses_trust_root v && not (requested v)
    then some (
        plain
          "a --verify-trusted-root/--verify-tuf-* flag says what to trust but not what to check")
    else if filled v.trusted_root_path && filled v.tuf_mirror
    then some (
        plain
          "--verify-trusted-root and --verify-tuf-mirror are two ways to get the same material: pass one")
    else none

-- The meaningful combinations: no flag, a key alone, or an identity with its issuer and at most one
-- source of trust, where a TUF root comes with a mirror.
pub data IsMeaningful (v : VerifyConfig) : Type 0 where
  nothing :
      filled v.cosign_identity ≡ false
      → filled v.cosign_oidc_issuer ≡ false
      → filled v.cosign_key_path ≡ false
      → uses_trust_root v ≡ false
      → IsMeaningful v
  key_alone :
      filled v.cosign_key_path ≡ true
      → filled v.cosign_identity ≡ false
      → filled v.cosign_oidc_issuer ≡ false
      → uses_trust_root v ≡ false
      → IsMeaningful v
  keyless :
      filled v.cosign_identity ≡ true
      → filled v.cosign_oidc_issuer ≡ true
      → filled v.cosign_key_path ≡ false
      → (filled v.trusted_root_path && filled v.tuf_mirror) ≡ false
      → (filled v.tuf_root_path && not (filled v.tuf_mirror)) ≡ false
      → IsMeaningful v

validate_complete : (v : VerifyConfig) → IsMeaningful v → validate v ≡ none
unfolding validate
validate_complete v (nothing a b c d) = ground arith
validate_complete v (key_alone a b c d) = ground arith
validate_complete v (keyless a b c d e) = ground arith

validate_sound : (v : VerifyConfig) → validate v ≡ none → IsMeaningful v
unfolding validate
validate_sound v h = go (filled v.cosign_identity) (filled v.cosign_key_path) refl refl
  where
    go : (i k : Bool) → filled v.cosign_identity ≡ i → filled v.cosign_key_path ≡ k → IsMeaningful v
    go true k a b = keyless a (ground arith) (ground arith) (ground arith) (ground arith)
    go false true a b = key_alone b a (ground arith) (ground arith)
    go false false a b = nothing a (ground arith) b (ground arith)

-- `Validate` accepts exactly the meaningful combinations of flags, out of all sixty-four.
pub validate_iff : (v : VerifyConfig) → (validate v ≡ none) ↔ IsMeaningful v
validate_iff v = (validate_sound v, validate_complete v)
