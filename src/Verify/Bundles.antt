-- ===== src/Verify/Bundles.antt =====
-- internal/unpacker/verify.go: `Verify`, over the bundles that were downloaded.
use unpacker.Base.{true, false, List, [], ◌∷◌, ◌++◌, Option, none, some, if◌then◌else◌}
use unpacker.Base.Text.{Bytes, codes, bytes_eq}
use unpacker.Path.{join_all}
use unpacker.Errors.{Error, plain, wrap, wrap_two, sentinel, verification_failed, Result, ok, err}
use unpacker.Errors.{wrap_result, and_then}
use unpacker.System.{M, ◌>>=◌, ◌>>◌, pure, attempt, lift, say, said, read_file}
use unpacker.Auth.{filled}
use unpacker.Config.{Config}
use unpacker.Report.{Referrer, Verification}
use unpacker.Verify.Config.{VerifyConfig}
use unpacker.Verify.Trust.{
  Sigstore, Material, VerifierOption, Policy, trusted_material, observer_options, policy_options,
  hex_digest_bytes,
}
use unpacker.Verify.Timestamp.{observed_timestamp}

-- sigstore-go's verifier: what it makes of trust and options, and what it says of a bundle under a
-- policy, the types of the timestamps that it has verified or an error.
pub record Engine (S : Sigstore) : Type 1 where
  pub Verifier : Type 0
  pub new_signed_entity_verifier : Material S → List VerifierOption → Result Verifier
  pub verify : Verifier → Policy S.Identity → S.Bundle → Result (List Bytes)

abbrev pub cosign_bundle_artifact_type : Bytes
cosign_bundle_artifact_type = codes "application/vnd.dev.sigstore.bundle.v0.3+json"

-- The files of one referrer, without its manifest.
unfoldable pub bundle_files : Bytes → Bytes → List Bytes → List Bytes
unfolding bytes_eq
bundle_files output_dir path [] = []
bundle_files output_dir path (name ∷ names) =
    let rest = bundle_files output_dir path names in
    if bytes_eq name (codes "manifest.json")
    then rest
    else join_all (output_dir ∷ path ∷ name ∷ []) ∷ rest

-- `bundlePaths`
unfoldable pub bundle_paths : Bytes → List Referrer → List Bytes
unfolding bundle_files
bundle_paths output_dir [] = []
bundle_paths output_dir (ref ∷ refs) =
    let rest = bundle_paths output_dir refs in
    if bytes_eq ref.artifact_type cosign_bundle_artifact_type
    then bundle_files output_dir ref.path ref.files ++ rest
    else rest

module _ (S : Sigstore) (E : Engine S) where
  pub record SignatureVerifier : Type 0 where
    pub verifier : E.Verifier
    pub policy : Policy S.Identity
    pub trust_source : Bytes
    pub timestamp_source : Bytes

  -- The policy, which is bound to the digest that was resolved.
  unfoldable pub policy_for : VerifyConfig → Bytes → Result (Policy S.Identity)
  unfolding policy_options hex_digest_bytes
  policy_for v subject = and_then (policy_options S v) λ option.
      and_then (hex_digest_bytes S subject)
        λ digest. ok (record { algorithm = S.algorithm subject; digest = digest; option = option })

  abbrev pub make_verifier : VerifyConfig → Bytes → Material S × Bytes → Result SignatureVerifier
  make_verifier v subject (tm, source) = and_then (observer_options S tm) λ (opts, timestamps).
      and_then (wrap_result "build verifier" (E.new_signed_entity_verifier tm opts)) λ verifier.
        and_then (policy_for v subject) λ policy. ok (record {
          verifier = verifier;
          policy = policy;
          trust_source = source;
          timestamp_source = timestamps;
        })

  -- `newSignatureVerifier`
  unfoldable pub new_signature_verifier : VerifyConfig → Bytes → M SignatureVerifier
  unfolding trusted_material observer_options policy_for
  new_signature_verifier v subject = do
    trusted ← trusted_material S v
    lift (make_verifier v subject trusted)

  -- Behind the loop: no bundle was good.
  abbrev pub refused : SignatureVerifier → Verification → Option Error → Verification × Option Error
  refused sv rec last =
      let cause : Error = elim last [
        | none ↦ plain "no signature satisfied the policy"
        | some e ↦ e
      ] in
      (
        record rec {
          timestamp_source =
              if filled rec.timestamp_source then rec.timestamp_source else sv.timestamp_source;
          error = some cause;
        },
        some (wrap_two "%w: %w" (sentinel verification_failed) cause),
      )

  abbrev pub accepted : SignatureVerifier → Verification → List Bytes → Verification × Option Error
  accepted sv rec types = (
    record rec {
      timestamp_source = observed_timestamp (some types) sv.timestamp_source;
      verified = true;
    },
    none,
  )

  -- What is known behind a bundle, from the record and the last error.
  abbrev pub Outcome : Type 0
  Outcome = Verification × Option Error

  abbrev pub Next : Type 0
  Next = Verification → Option Error → M Outcome

  -- One round of the loop, from the answer of the verifier, the parsed bundle, the bytes of the file.
  abbrev pub on_verified : SignatureVerifier → Verification → Next → Result (List Bytes) → M Outcome
  on_verified sv seen next (err e) = next seen (some (wrap "bundle" e))
  on_verified sv seen next (ok types) = do say (said "verified"); pure (accepted sv seen types)

  abbrev pub on_parsed :
      SignatureVerifier → Verification → Next → Bytes → Result S.Bundle → M Outcome
  on_parsed sv rec next raw (err e) = next rec (some (wrap "parse signature bundle" e))
  on_parsed sv rec next raw (ok b) =
      on_verified sv (record rec { bundles = rec.bundles ++ (S.from_bytes raw ∷ []) }) next
        (E.verify sv.verifier sv.policy b)

  abbrev pub on_read : SignatureVerifier → Verification → Next → Result Bytes → M Outcome
  on_read sv rec next (err e) = pure (rec, some (wrap "read signature bundle" e))
  on_read sv rec next (ok raw) = on_parsed sv rec next raw (S.parse_bundle raw)

  -- The loop: the record so far, and the last error.
  unfoldable pub check_bundles : SignatureVerifier → List Bytes → Next
  check_bundles sv [] rec last = pure (refused sv rec last)
  check_bundles sv (path ∷ paths) rec last = do
    outcome ← attempt (read_file path)
    on_read sv rec (check_bundles sv paths) outcome

  abbrev pub new_record : VerifyConfig → Verification
  new_record v = record {
    mode = if filled v.cosign_key_path then codes "key" else codes "keyless";
    identity = v.cosign_identity;
    oidc_issuer = v.cosign_oidc_issuer;
    key_path = v.cosign_key_path;
    trust_source = [];
    timestamp_source = [];
    bundles = [];
    verified = false;
    error = none;
  }

  abbrev nothing_to_verify : Error
  nothing_to_verify = wrap "nothing to verify" (sentinel verification_failed)

  abbrev pub check_paths :
      SignatureVerifier → List Bytes → Verification → M (Verification × Option Error)
  check_paths sv [] rec = pure (rec, some nothing_to_verify)
  check_paths sv (path ∷ paths) rec = check_bundles sv (path ∷ paths) rec none

  abbrev pub with_verifier :
      Config → List Referrer → Verification → Result SignatureVerifier → M Outcome
  with_verifier cfg refs rec (err e) = pure (rec, some e)
  with_verifier cfg refs rec (ok sv) =
      check_paths sv (bundle_paths cfg.output_dir refs)
        (record rec { trust_source = sv.trust_source })

  abbrev pub with_subject : Config → List Referrer → Verification → Result Bytes → M Outcome
  with_subject cfg refs rec (err e) = pure (rec, some (wrap "parse resolved digest" e))
  with_subject cfg refs rec (ok subject) = do
    made ← attempt (new_signature_verifier cfg.verify subject)
    with_verifier cfg refs rec made

  -- `Verify`: the record, and the error.
  unfoldable pub verify : Config → Bytes → List Referrer → M Outcome
  unfolding new_signature_verifier check_bundles bundle_paths
  verify cfg resolved_digest refs =
      with_subject cfg refs (new_record cfg.verify) (S.parse_digest resolved_digest)
