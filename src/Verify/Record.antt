-- ===== src/Verify/Record.antt =====
-- internal/unpacker/verify.go: what Verify records, and what it does to the disk.
use unpacker.Base.{◌≡◌, ◌↔◌, refl, subst}
use unpacker.Base.{true, false, List, [], ◌∷◌, ◌++◌, Option, none, some}
use unpacker.Base.Text.{Bytes}
use unpacker.Errors.{Error, wrap, Result, ok, err}
use unpacker.System.{World, attempt, read_file, find}
use unpacker.System.Keeps.{Keeps}
use unpacker.System.Reads.{SameBut, >>=-SameBut, read_file-SameBut}
use unpacker.Config.{Config}
use unpacker.Report.{Referrer, Verification}
use unpacker.Verify.Trust.{Sigstore}
use unpacker.Verify.Bundles.{
  Engine, SignatureVerifier, Outcome, Next, new_signature_verifier, check_bundles, check_paths,
  bundle_paths, verify, with_verifier, with_subject, new_record, on_verified, on_parsed, on_read,
}
use unpacker.Verify.Quiet.{new_signature_verifier-SameBut}

module _ (S : Sigstore) (E : Engine S) where
  abbrev IsQuiet : Next S E → Type 0
  IsQuiet next =
      (rec : Verification) (last : Option Error) → Keeps (SameBut S.in_tuf_cache) (next rec last)

  on_read-SameBut :
      (sv : SignatureVerifier S E) (rec : Verification) (next : Next S E) (r : Result Bytes)
      → IsQuiet next
      → Keeps (SameBut S.in_tuf_cache) (on_read S E sv rec next r)
  on_read-SameBut sv rec next (err e) h = λ w. ((λ q _. refl), refl)
  on_read-SameBut sv rec next (ok raw) h = parsed (S.parse_bundle raw)
    where
      verified :
          (seen : Verification) (r : Result (List Bytes))
          → Keeps (SameBut S.in_tuf_cache) (on_verified S E sv seen next r)
      verified seen (err e) = h seen (some (wrap "bundle" e))
      verified seen (ok types) = λ w. ((λ q _. refl), refl)

      parsed :
          (r : Result S.Bundle) → Keeps (SameBut S.in_tuf_cache) (on_parsed S E sv rec next raw r)
      parsed (err e) = h rec (some (wrap "parse signature bundle" e))
      parsed (ok b) =
          verified (record rec { bundles = rec.bundles ++ (S.from_bytes raw ∷ []) })
            (E.verify sv.verifier sv.policy b)

  check_bundles-SameBut :
      (sv : SignatureVerifier S E) (paths : List Bytes) → IsQuiet (check_bundles S E sv paths)
  unfolding check_bundles
  check_bundles-SameBut sv [] rec last = λ w. ((λ q _. refl), refl)
  check_bundles-SameBut sv (path ∷ paths) rec last =
      >>=-SameBut S.in_tuf_cache (attempt (read_file path))
        (on_read S E sv rec (check_bundles S E sv paths)) (read_file-SameBut S.in_tuf_cache path)
        (λ r.
          on_read-SameBut sv rec (check_bundles S E sv paths) r (check_bundles-SameBut sv paths))

  pub verify-SameBut :
      (cfg : Config) (resolved : Bytes) (refs : List Referrer)
      → Keeps (SameBut S.in_tuf_cache) (verify S E cfg resolved refs)
  unfolding verify
  verify-SameBut cfg resolved refs = parsed (S.parse_digest resolved)
    where
      rec : Verification
      rec = new_record S E cfg.verify

      checked :
          (sv : SignatureVerifier S E) (ps : List Bytes) (r : Verification)
          → Keeps (SameBut S.in_tuf_cache) (check_paths S E sv ps r)
      checked sv [] r = λ w. ((λ q _. refl), refl)
      checked sv (p ∷ ps) r = check_bundles-SameBut sv (p ∷ ps) r none

      made :
          (r : Result (SignatureVerifier S E))
          → Keeps (SameBut S.in_tuf_cache) (with_verifier S E cfg refs rec r)
      made (err e) = λ w. ((λ q _. refl), refl)
      made (ok sv) =
          checked sv (bundle_paths cfg.output_dir refs)
            (record rec { trust_source = sv.trust_source })

      parsed : (r : Result Bytes) → Keeps (SameBut S.in_tuf_cache) (with_subject S E cfg refs rec r)
      parsed (err e) = λ w. ((λ q _. refl), refl)
      parsed (ok subject) =
          >>=-SameBut S.in_tuf_cache (attempt (new_signature_verifier S E cfg.verify subject))
            (with_verifier S E cfg refs rec) (new_signature_verifier-SameBut S E cfg.verify subject)
            made

  -- The record says verified exactly where there is no error.
  abbrev pub Agrees : Result (Outcome S E) × World → Type 0
  Agrees (ok (rec, none), v) = rec.verified ≡ true
  Agrees (ok (rec, some e), v) = rec.verified ≡ false
  Agrees (err e, v) = ⊥

  abbrev Honest : Next S E → Type 0
  Honest next =
      (rec : Verification) (last : Option Error) (w : World)
      → rec.verified ≡ false
      → Agrees (next rec last w)

  on_read-Agrees :
      (sv : SignatureVerifier S E) (rec : Verification) (next : Next S E) (r : Result Bytes)
      (w : World)
      → rec.verified ≡ false
      → Honest next
      → Agrees (on_read S E sv rec next r w)
  on_read-Agrees sv rec next (err e) w f h = f
  on_read-Agrees sv rec next (ok raw) w f h = parsed (S.parse_bundle raw)
    where
      verified :
          (seen : Verification) (r : Result (List Bytes))
          → seen.verified ≡ false
          → Agrees (on_verified S E sv seen next r w)
      verified seen (err e) f = h seen (some (wrap "bundle" e)) w f
      verified seen (ok types) f = refl

      parsed : (r : Result S.Bundle) → Agrees (on_parsed S E sv rec next raw r w)
      parsed (err e) = h rec (some (wrap "parse signature bundle" e)) w f
      parsed (ok b) =
          verified (record rec { bundles = rec.bundles ++ (S.from_bytes raw ∷ []) })
            (E.verify sv.verifier sv.policy b) f

  check_bundles-Agrees :
      (sv : SignatureVerifier S E) (paths : List Bytes) → Honest (check_bundles S E sv paths)
  unfolding check_bundles
  check_bundles-Agrees sv [] rec last w f = f
  check_bundles-Agrees sv (path ∷ paths) rec last w f =
      on_read-Agrees sv rec (check_bundles S E sv paths) (read_file path w).0 (read_file path w).1 f
        (check_bundles-Agrees sv paths)

  verify-Agrees :
      (cfg : Config) (resolved : Bytes) (refs : List Referrer) (w : World)
      → Agrees (verify S E cfg resolved refs w)
  unfolding verify
  verify-Agrees cfg resolved refs w = parsed (S.parse_digest resolved)
    where
      rec : Verification
      rec = new_record S E cfg.verify

      checked :
          (sv : SignatureVerifier S E) (ps : List Bytes) (r : Verification) (u : World)
          → r.verified ≡ false
          → Agrees (check_paths S E sv ps r u)
      checked sv [] r u f = f
      checked sv (p ∷ ps) r u f = check_bundles-Agrees sv (p ∷ ps) r none u f

      made :
          (r : Result (SignatureVerifier S E)) (u : World)
          → Agrees (with_verifier S E cfg refs rec r u)
      made (err e) u = refl
      made (ok sv) u =
          checked sv (bundle_paths cfg.output_dir refs)
            (record rec { trust_source = sv.trust_source }) u refl

      parsed : (r : Result Bytes) → Agrees (with_subject S E cfg refs rec r w)
      parsed (err e) = refl
      parsed (ok subject) =
          made (new_signature_verifier S E cfg.verify subject w).0
            (new_signature_verifier S E cfg.verify subject w).1

  -- Nothing has changed but in the cache of what sigstore-go fetches by TUF.
  abbrev pub Apart : World → World → Type 0
  Apart w v = (q : Bytes) → S.in_tuf_cache q ≡ false → find q v.disk ≡ find q w.disk

  -- `Verify` returns on every path with a record, the record says verified exactly where there is no
  -- error, and nothing on the disk has changed but in the cache where sigstore-go keeps what it
  -- fetches by TUF.
  pub verify-verified_iff :
      (cfg : Config) (resolved : Bytes) (refs : List Referrer) (w : World)
      → (rec : Verification) × (e : Option Error) × (v : World) × (verify S E cfg resolved refs w
          ≡ (ok (rec, e), v))
        × ((rec.verified ≡ true) ↔ (e ≡ none))
        × Apart w v
  verify-verified_iff cfg resolved refs w =
      go (verify S E cfg resolved refs w) refl (verify-Agrees cfg resolved refs w)
    where
      disk : {o : Result (Outcome S E) × World} → verify S E cfg resolved refs w ≡ o → Apart w o.1
      disk q =
          subst (λ (o : Result (Outcome S E) × World). Apart w o.1) q
            (verify-SameBut cfg resolved refs w).0

      go :
          (o : Result (Outcome S E) × World)
          → verify S E cfg resolved refs w ≡ o
          → Agrees o
          → (rec : Verification) × (e : Option Error) × (v : World) × (verify S E cfg resolved refs
                w
              ≡ (ok (rec, e), v))
            × ((rec.verified ≡ true) ↔ (e ≡ none))
            × Apart w v
      go (ok (rec, none), v) q a = (rec, none, v, q, ((λ _. refl), (λ _. a)), disk q)
      go (ok (rec, some e), v) q a = (rec, some e, v, q, ((λ t. cc), (λ n. cc)), disk q)
      go (err e, v) q a = absurd a
