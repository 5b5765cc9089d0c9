-- ===== src/Verify/Decides.antt =====
-- What decides the loop of `Verify` where every bundle can be read.
use unpacker.Base.{
  ◌≡◌, refl, sym, subst, Bool, true, false, ◌||◌, List, [], ◌∷◌, ◌++◌, All, Option, none, some,
}
use unpacker.Base.Text.{Bytes}
use unpacker.Errors.{Error, wrap, Result, ok, err, error_is, verification_failed}
use unpacker.System.{World, find}
use unpacker.System.Disk.{Disk, Node, file, folder}
use unpacker.System.Reads.{Holds, read_file-found}
use unpacker.Config.{Config}
use unpacker.Report.{Referrer, Verification}
use unpacker.Verify.Trust.{Sigstore}
use unpacker.Verify.Bundles.{
  Engine, SignatureVerifier, Outcome, new_signature_verifier, check_bundles, check_paths,
  bundle_paths, verify, new_record, on_verified, on_parsed,
}

module _ (S : Sigstore) (E : Engine S) where
  abbrev judged : Result (List Bytes) → Bool
  judged (ok types) = true
  judged (err e) = false

  abbrev judged_bundle : SignatureVerifier S E → Result S.Bundle → Bool
  judged_bundle sv (ok b) = judged (E.verify sv.verifier sv.policy b)
  judged_bundle sv (err e) = false

  abbrev judged_node : SignatureVerifier S E → Option Node → Bool
  judged_node sv (some (file m raw)) = judged_bundle sv (S.parse_bundle raw)
  judged_node sv (some (folder m)) = false
  judged_node sv none = false

  -- Whether one of the files is a bundle that the verifier accepts.
  unfoldable pub any_accepted : SignatureVerifier S E → Disk → List Bytes → Bool
  any_accepted sv d [] = false
  any_accepted sv d (path ∷ paths) = judged_node sv (find path d) || any_accepted sv d paths

  abbrev pub CanBeRead : Disk → Bytes → Type 0
  CanBeRead d path = (raw : Bytes) × Holds d path raw

  -- The answer that goes with it: no error, or one that says that the verification failed.
  abbrev pub Decided : Bool → Result (Outcome S E) × World → Type 0
  Decided true (ok (rec, e), v) = e ≡ none
  Decided false (ok (rec, none), v) = ⊥
  Decided false (ok (rec, some e), v) = error_is verification_failed e ≡ true
  Decided b (err e, v) = ⊥

  check_bundles-Decided :
      (sv : SignatureVerifier S E) (paths : List Bytes) (rec : Verification) (last : Option Error)
      (w : World)
      → w.faults ≡ []
      → All (CanBeRead w.disk) paths
      → Decided (any_accepted sv w.disk paths) (check_bundles S E sv paths rec last w)
  unfolding check_bundles any_accepted error_is
  check_bundles-Decided sv [] rec last w quiet all = refl
  check_bundles-Decided sv (path ∷ paths) rec last w quiet ((raw, (m, found)), all) =
      let (v, ran, same, still) = read_file-found path w quiet (m, found) in
      rw ran (rw found (parsed v (S.parse_bundle raw) same still (check_bundles-Decided sv paths)))
    where
      Rest : Type 0
      Rest =
          (seen : Verification) (e : Option Error) (v : World)
          → v.faults ≡ []
          → All (CanBeRead v.disk) paths
          → Decided (any_accepted sv v.disk paths) (check_bundles S E sv paths seen e v)

      next :
          (seen : Verification) (e : Option Error) (v : World)
          → v.disk ≡ w.disk
          → v.faults ≡ []
          → Rest
          → Decided (any_accepted sv w.disk paths) (check_bundles S E sv paths seen e v)
      next seen e v same still rest =
          subst (λ d. Decided (any_accepted sv d paths) (check_bundles S E sv paths seen e v)) same
            (rest seen e v still (subst (λ d. All (CanBeRead d) paths) (sym same) all))

      verified :
          (v : World) (seen : Verification) (r : Result (List Bytes))
          → v.disk ≡ w.disk
          → v.faults ≡ []
          → Rest
          → Decided
              (judged r || any_accepted sv w.disk paths)
              (on_verified S E sv seen (check_bundles S E sv paths) r v)
      verified v seen (ok types) same still rest = refl
      verified v seen (err e) same still rest = next seen (some (wrap "bundle" e)) v same still rest

      parsed :
          (v : World) (r : Result S.Bundle)
          → v.disk ≡ w.disk
          → v.faults ≡ []
          → Rest
          → Decided
              (judged_bundle sv r || any_accepted sv w.disk paths)
              (on_parsed S E sv rec (check_bundles S E sv paths) raw r v)
      parsed v (ok b) same still rest =
          verified v (record rec { bundles = rec.bundles ++ (S.from_bytes raw ∷ []) })
            (E.verify sv.verifier sv.policy b) same still rest
      parsed v (err e) same still rest =
          next rec (some (wrap "parse signature bundle" e)) v same still rest

  -- Where the resolved digest is one, the verifier can be made, no call fails from there on and every
  -- downloaded bundle is a file, `Verify` gives no error where the verifier accepts one of them, and
  -- says that the verification has failed where it accepts none.
  pub verify-Decided :
      (cfg : Config) (resolved : Bytes) (refs : List Referrer) (w u : World) {subject : Bytes}
      {sv : SignatureVerifier S E}
      → S.parse_digest resolved ≡ ok subject
      → new_signature_verifier S E cfg.verify subject w ≡ (ok sv, u)
      → u.faults ≡ []
      → All (CanBeRead u.disk) (bundle_paths cfg.output_dir refs)
      → Decided
          (any_accepted sv u.disk (bundle_paths cfg.output_dir refs))
          (verify S E cfg resolved refs w)
  unfolding verify any_accepted error_is
  verify-Decided cfg resolved refs w u {subject} {sv} digest made quiet all =
      rw digest (rw made (checked (bundle_paths cfg.output_dir refs) all))
    where
      checked :
          (paths : List Bytes)
          → All (CanBeRead u.disk) paths
          → Decided (any_accepted sv u.disk paths) (
              check_paths S E sv paths
                (record (new_record S E cfg.verify) { trust_source = sv.trust_source })
                u)
      checked [] all = refl
      checked (p ∷ paths) all =
          check_bundles-Decided sv (p ∷ paths)
            (record (new_record S E cfg.verify) { trust_source = sv.trust_source }) none u quiet all
