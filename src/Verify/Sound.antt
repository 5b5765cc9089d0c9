-- ===== src/Verify/Sound.antt =====
-- What it takes for `Verify` to accept.

use unpacker.Base.{◌≡◌, refl, ap, subst, ◌∙◌, arith}
use unpacker.Base.{true, List, [], ◌∷◌, Option, none}
use unpacker.Base.Text.{Bytes}
use unpacker.Errors.{Error, Result, ok, err, wrap_result, and_then}
use unpacker.System.{World, proceed, lift}
use unpacker.Config.{Config}
use unpacker.Report.{Referrer, Verification}
use unpacker.Verify.Config.{VerifyConfig}
use unpacker.Verify.Trust.{
  Sigstore, Material, Policy, VerifierOption, trusted_material, observer_options,
}
use unpacker.System.Leaves.{Leaves}
use unpacker.Verify.Trusted.{IsTrusted, trusted_material-IsTrusted}
use unpacker.Verify.Bundles.{
  Engine, SignatureVerifier, policy_for, make_verifier, new_signature_verifier, check_paths,
  bundle_paths, verify, with_verifier, with_subject, new_record,
}
use unpacker.Verify.Accepted.{AcceptsOne, Sound, check_bundles-Sound}

module _ (S : Sigstore) (E : Engine S) where
  -- The verifier and the policy are made of the material that was loaded, with the options that it
  -- asks for, and of the flags and the subject.
  abbrev pub IsBuilt : VerifyConfig → Bytes → Material S → SignatureVerifier S E → Type 0
  IsBuilt v subject tm sv =
      (opts : List VerifierOption) × (observer_options S tm ≡ ok (opts, sv.timestamp_source))
      × (E.new_signed_entity_verifier tm opts ≡ ok sv.verifier)
      × (policy_for S E v subject ≡ ok sv.policy)

  make_verifier-IsBuilt :
      (v : VerifyConfig) (subject : Bytes) (t : Material S × Bytes) {sv : SignatureVerifier S E}
      → make_verifier S E v subject t ≡ ok sv
      → IsBuilt v subject t.0 sv × (t.1 ≡ sv.trust_source)
  make_verifier-IsBuilt v subject (tm, source) {sv} = observed (observer_options S tm) refl
    where
      Made : Type 0
      Made = IsBuilt v subject tm sv × (source ≡ sv.trust_source)

      bound :
          (opts : List VerifierOption) (timestamps : Bytes) (verifier : E.Verifier)
          → observer_options S tm ≡ ok (opts, timestamps)
          → E.new_signed_entity_verifier tm opts ≡ ok verifier
          → (p : Result (Policy S.Identity)) → policy_for S E v subject ≡ p
          → and_then p (λ policy. ok (record {
            verifier = verifier;
            policy = policy;
            trust_source = source;
            timestamp_source = timestamps;
          }))
            ≡ ok sv
          → Made
      bound opts timestamps verifier o n (err e) p h = cc
      bound opts timestamps verifier o n (ok policy) p h =
          let same : record {
            verifier = verifier;
            policy = policy;
            trust_source = source;
            timestamp_source = timestamps;
          }
              ≡ sv =
            ground (arith, h) in
          subst (λ (z : SignatureVerifier S E). IsBuilt v subject tm z × (source ≡ z.trust_source))
            same ((opts, o, n, p), refl)

      built :
          (opts : List VerifierOption) (timestamps : Bytes)
          → observer_options S tm ≡ ok (opts, timestamps)
          → (r : Result E.Verifier) → E.new_signed_entity_verifier tm opts ≡ r
          → and_then (wrap_result "build verifier" r) (λ verifier.
            and_then (policy_for S E v subject) λ policy. ok (record {
              verifier = verifier;
              policy = policy;
              trust_source = source;
              timestamp_source = timestamps;
            }))
            ≡ ok sv
          → Made
      built opts timestamps o (err e) n h = cc
      built opts timestamps o (ok verifier) n h =
          bound opts timestamps verifier o n (policy_for S E v subject) refl h

      observed :
          (r : Result (List VerifierOption × Bytes))
          → observer_options S tm ≡ r
          → and_then r (λ (opts, timestamps).
            and_then
              (wrap_result "build verifier" (E.new_signed_entity_verifier tm opts))
              λ verifier. and_then (policy_for S E v subject) λ policy. ok (record {
                verifier = verifier;
                policy = policy;
                trust_source = source;
                timestamp_source = timestamps;
              }))
            ≡ ok sv
          → Made
      observed (err e) o h = cc
      observed (ok (opts, timestamps)) o h =
          built opts timestamps o (E.new_signed_entity_verifier tm opts) refl h

  -- The material that the flags name has been loaded, and the verifier is built of it.
  abbrev pub IsLoaded : VerifyConfig → Bytes → World → SignatureVerifier S E → World → Type 0
  IsLoaded v subject w sv u =
      (tm : Material S) × (trusted_material S v w ≡ (ok (tm, sv.trust_source), u))
      × IsTrusted S v w tm u
      × IsBuilt v subject tm sv

  new_signature_verifier-IsLoaded :
      (v : VerifyConfig) (subject : Bytes) (w u : World) {sv : SignatureVerifier S E}
      → new_signature_verifier S E v subject w ≡ (ok sv, u)
      → IsLoaded v subject w sv u
  unfolding new_signature_verifier
  new_signature_verifier-IsLoaded v subject w u {sv} = go (trusted_material S v w) refl
    where
      go :
          (o : Result (Material S × Bytes) × World)
          → trusted_material S v w ≡ o
          → proceed (λ t. lift (make_verifier S E v subject t)) o ≡ (ok sv, u)
          → IsLoaded v subject w sv u
      go (ok (tm, source), x) t h =
          let (built, named) =
            make_verifier-IsBuilt v subject (tm, source)
              (ap (λ (o : Result (SignatureVerifier S E) × World). o.0) h) in
          let moved : x ≡ u = ap (λ (o : Result (SignatureVerifier S E) × World). o.1) h in
          let loaded : trusted_material S v w ≡ (ok (tm, sv.trust_source), u) =
            t ∙ ap (λ z. (ok (tm, z), x)) named ∙ ap (λ z. (ok (tm, sv.trust_source), z)) moved in
          (
            tm,
            loaded,
            subst (Leaves (λ (p : Material S × Bytes) z. IsTrusted S v w p.0 z)) loaded
                (trusted_material-IsTrusted S v w),
            built,
          )
      go (err e, x) t h =
          absurd (ground (arith, ap (λ (o : Result (SignatureVerifier S E) × World). o.0) h))

  -- What `Verify` has seen where it accepts, from the world that it started in: the verifier is the
  -- one that is built of the flags, and one of the bundles stands on the disk and is accepted by it.
  abbrev pub Evidence : Config → Bytes → List Referrer → World → Type 0
  Evidence cfg resolved refs w =
      (subject : Bytes) × (sv : SignatureVerifier S E) × (u : World) × (S.parse_digest resolved
        ≡ ok subject)
      × IsLoaded cfg.verify subject w sv u
      × AcceptsOne S E sv u.disk (bundle_paths cfg.output_dir refs)

  -- Where `Verify` returns no error, it has recorded a verified run, and one of the bundles that were
  -- downloaded stands on the disk and is accepted by the verifier that is built of the material that
  -- the flags name, with the options that this material asks for, under the policy that the flags and
  -- the resolved digest give. The material is the key in the file of the flags, else the root in their
  -- file, else what a fetch from their TUF mirror delivers, else what one from the public instance
  -- delivers.
  pub verify-Evidence :
      (cfg : Config) (resolved : Bytes) (refs : List Referrer) (w v : World) (rec : Verification)
      → verify S E cfg resolved refs w ≡ (ok (rec, none), v)
      → (rec.verified ≡ true) × Evidence cfg resolved refs w
  unfolding verify
  verify-Evidence cfg resolved refs w v rec = parsed (S.parse_digest resolved) refl
    where
      paths : List Bytes
      paths = bundle_paths cfg.output_dir refs

      returned : Result (Verification × Option Error) × World → Result (Verification × Option Error)
      returned o = o.0

      checked :
          (sv : SignatureVerifier S E) (ps : List Bytes) (r : Verification) (u : World)
          → Sound S E sv ps u.disk (check_paths S E sv ps r u)
      checked sv [] r u = tt
      checked sv (p ∷ ps) r u = check_bundles-Sound S E sv (p ∷ ps) r none u

      made :
          (subject : Bytes) (o : Result (SignatureVerifier S E) × World)
          → S.parse_digest resolved ≡ ok subject
          → new_signature_verifier S E cfg.verify subject w ≡ o
          → with_verifier S E cfg refs (new_record S E cfg.verify) o.0 o.1 ≡ (ok (rec, none), v)
          → (rec.verified ≡ true) × Evidence cfg resolved refs w
      made subject (err e, u) p q h = absurd (ground (arith, ap returned h))
      made subject (ok sv, u) p q h =
          let (verified, one) = subst (Sound S E sv paths u.disk) h (
            checked sv paths (record (new_record S E cfg.verify) { trust_source = sv.trust_source })
              u) in
          (
            verified,
            (subject, sv, u, p, new_signature_verifier-IsLoaded cfg.verify subject w u q, one),
          )

      parsed :
          (r : Result Bytes)
          → S.parse_digest resolved ≡ r
          → with_subject S E cfg refs (new_record S E cfg.verify) r w ≡ (ok (rec, none), v)
          → (rec.verified ≡ true) × Evidence cfg resolved refs w
      parsed (err e) p h = absurd (ground (arith, ap returned h))
      parsed (ok subject) p h =
          made subject (new_signature_verifier S E cfg.verify subject w) p refl h
