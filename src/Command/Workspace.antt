-- ===== src/Command/Workspace.antt =====
-- cmd/unpacker/main.go: the paths that a run changes.
use unpacker.Base.{
  ◌≡◌, refl, ap, ◌∙◌, ◌⊎◌, [], inl, inr, arith, Bool, true, ◌||◌, List, All, Option, none, some,
  String,
}
use unpacker.Base.Text.{Bytes, bytes_eq, bytes_eq_refl}
use unpacker.Path.{join}
use unpacker.Path.Confine.{IsBelow}
use unpacker.Path.Names.{IsPlain}
use unpacker.Errors.{Error, Result, ok, err}
use unpacker.System.{World, M, attempt, find, within, ancestors}
use unpacker.System.Keeps.{Keeps, IsPreorder, >>=-Keeps, if-Keeps}
use unpacker.System.Ancestors.{OneOf}
use unpacker.System.Confined.{Confined}
use unpacker.System.Settled.{Settled, Settled-IsPreorder, OnlyAt-Settled, Settled-mono}
use unpacker.Config.{Config}
use unpacker.Report.{Referrer, Verification, RunResult, result_path, write_result}
use unpacker.Report.Written.{write_result-OnlyAt}
use unpacker.Verify.Config.{requested}
use unpacker.Verify.Bundles.{verify}
use unpacker.Verify.Record.{verify-verified_iff}
use unpacker.Pull.Budget.{Descriptor}
use unpacker.Pull.Credentials.{Repository}
use unpacker.Pull.Oras.{or_latest, blob_name}
use unpacker.Pull.Crane.{pull}
use unpacker.Pull.Settled.{tmp_dir, manifest_path, pull-Settled}
use unpacker.Referrers.Fetch.{fetch_referrers, no_referrers}
use unpacker.Referrers.Settled.{referrers_dir, fetch_referrers-Settled}
use unpacker.Unpack.{unpack}
use unpacker.Unpack.Confined.{UmociStays}
use unpacker.Unpack.Atomic.{OnWay, in_trees, unpack-Settled}
use unpacker.Command.{
  Libraries, fail_stage, end_stage, after_verify, unpack_stage, verify_stage, after_referrers,
  referrers_stage, after_pull, run,
}
use unpacker.Command.Gate.{fail_stage-OnlyAt}

-- All that a run may touch: entries of its output directory, and the cache of sigstore-go.
abbrev pub in_workspace : (Bytes → Bool) → Config → Bytes → Bool
in_workspace cache cfg q =
    within (tmp_dir cfg) q
    || (bytes_eq (manifest_path cfg) q
        || (within (referrers_dir cfg) q
            || (bytes_eq (result_path cfg) q || (in_trees cfg q || cache q))))

-- A directory on the way to one of the directories that a run makes.
abbrev pub OnTheWay : Config → Bytes → Type 0
OnTheWay cfg q =
    OneOf q (ancestors (tmp_dir cfg)) ⊎ OneOf q (ancestors (referrers_dir cfg)) ⊎ OnWay cfg q

module _ (cache : Bytes → Bool) (cfg : Config) where
  holds_tmp : (q : Bytes) → within (tmp_dir cfg) q ≡ true → in_workspace cache cfg q ≡ true
  holds_tmp q h = rw h refl

  holds_manifest : in_workspace cache cfg (manifest_path cfg) ≡ true
  holds_manifest = ground (arith, bytes_eq_refl (manifest_path cfg))

  holds_referrers :
      (q : Bytes) → within (referrers_dir cfg) q ≡ true → in_workspace cache cfg q ≡ true
  holds_referrers q h = ground arith

  holds_result : in_workspace cache cfg (result_path cfg) ≡ true
  holds_result = ground (arith, bytes_eq_refl (result_path cfg))

  holds_trees : (q : Bytes) → in_trees cfg q ≡ true → in_workspace cache cfg q ≡ true
  holds_trees q h = ground arith

module _ (L : Libraries) (cfg : Config)
    (named : (repo : Repository) (desc : Descriptor) (body : L.Body) (content : Bytes)
        (layers : List Descriptor)
      → L.registry.fetch_reference repo (or_latest repo.reference.reference) ≡ ok (desc, body)
      → L.registry.read_all desc body ≡ ok content
      → L.registry.parse_layers content ≡ ok layers
      → All (λ layer. IsBelow (tmp_dir cfg) (join (tmp_dir cfg) (blob_name layer))) layers)
    (listed_plain : (repo : Repository) (subject : Bytes) (descs : List Descriptor)
      → L.registry.referrers repo subject ≡ ok descs
      → All (λ desc. IsPlain (L.registry.encoded desc.digest)) descs)
    (layers_plain : (repo : Repository) (desc : Descriptor) (content : Bytes)
      → L.registry.fetch_all repo desc ≡ ok content
      → All
          (λ layer. IsPlain (L.registry.encoded layer.digest))
          (L.registry.parse_referrer content).0.layers)
    (layout_stays : Keeps (Confined (tmp_dir cfg)) (L.crane.layout_write (tmp_dir cfg)))
    (image_stays : (img : L.crane.Image) (raw : Result Bytes) (tag : Bytes)
      → Keeps (Confined (tmp_dir cfg)) (L.crane.append_image (tmp_dir cfg) img raw tag))
    (umoci_stays : UmociStays L.tools cfg) where
  abbrev Kept : World → World → Type 0
  Kept = Settled (in_workspace L.sigstore.in_tuf_cache cfg) (OnTheWay cfg)

  P : IsPreorder Kept
  P = Settled-IsPreorder (in_workspace L.sigstore.in_tuf_cache cfg) (OnTheWay cfg)

  write_result-Settled : (result : RunResult) → Keeps Kept (write_result L.encode cfg result)
  write_result-Settled result w =
      OnlyAt-Settled (in_workspace L.sigstore.in_tuf_cache cfg) (OnTheWay cfg) (result_path cfg) w
        (write_result L.encode cfg result w).1 (holds_result L.sigstore.in_tuf_cache cfg)
        (write_result-OnlyAt L.encode cfg result w)

  fail_stage-Settled :
      (result : RunResult) (stage : String) (e : Error)
      → Keeps Kept (fail_stage L cfg result stage e)
  fail_stage-Settled result stage e w =
      OnlyAt-Settled (in_workspace L.sigstore.in_tuf_cache cfg) (OnTheWay cfg) (result_path cfg) w
        (fail_stage L cfg result stage e w).1 (holds_result L.sigstore.in_tuf_cache cfg)
        (fail_stage-OnlyAt L cfg result stage e w)

  unpack_stage-Settled : (result : RunResult) → Keeps Kept (unpack_stage L cfg result)
  unfolding unpack_stage
  unpack_stage-Settled result =
      >>=-Keeps Kept P (Result (Unit {0})) (Unit {0}) (attempt (unpack L.tools cfg))
        (end_stage L cfg result "unpack") unpacked ended
    where
      unpacked : Keeps Kept (attempt (unpack L.tools cfg))
      unpacked w =
          Settled-mono (in_trees cfg) (in_workspace L.sigstore.in_tuf_cache cfg) (OnWay cfg)
            (OnTheWay cfg) w (unpack L.tools cfg w).1 (holds_trees L.sigstore.in_tuf_cache cfg)
            (λ q o. inr (inr o)) (unpack-Settled L.tools cfg umoci_stays w)

      ended : (r : Result (Unit {0})) → Keeps Kept (end_stage L cfg result "unpack" r)
      ended (ok u) = λ w. P.same w
      ended (err e) = fail_stage-Settled result "unpack" e

  verify-Settled :
      (resolved : Bytes) (refs : List Referrer)
      → Keeps Kept (verify L.sigstore L.engine cfg resolved refs)
  verify-Settled resolved refs w =
      let (rec, e, v, ran, _, same) = verify-verified_iff L.sigstore L.engine cfg resolved refs w in
      λ q out. inl (
        ap (λ (o : Result (Verification × Option Error) × World). find q o.1.disk) ran
        ∙ same q (ground (arith, out)))

  verify_stage-Settled :
      (resolved : Bytes) (result : RunResult) → Keeps Kept (verify_stage L cfg resolved result)
  unfolding verify_stage
  verify_stage-Settled resolved result =
      if-Keeps Kept P (Unit {0}) (requested cfg.verify) _ (unpack_stage L cfg result)
        (>>=-Keeps Kept P (Verification × Option Error) (Unit {0})
          (verify L.sigstore L.engine cfg resolved result.referrers) judged
          (verify-Settled resolved result.referrers) λ (rec, e). after rec e)
        (unpack_stage-Settled result)
    where
      judged : Verification × Option Error → M (Unit {0})
      judged (rec, e) = after_verify L cfg (record result { verification = some rec }) e

      after :
          (rec : Verification) (e : Option Error)
          → Keeps Kept (after_verify L cfg (record result { verification = some rec }) e)
      after rec (some e) = fail_stage-Settled (record result { verification = some rec }) "verify" e
      after rec none =
          >>=-Keeps Kept P (Unit {0}) (Unit {0})
            (write_result L.encode cfg (record result { verification = some rec }))
            (λ _. unpack_stage L cfg (record result { verification = some rec }))
            (write_result-Settled (record result { verification = some rec }))
            (λ _. unpack_stage-Settled (record result { verification = some rec }))

  referrers_stage-Settled :
      (resolved : Bytes) (result : RunResult) → Keeps Kept (referrers_stage L cfg resolved result)
  unfolding referrers_stage
  referrers_stage-Settled resolved result =
      if-Keeps Kept P (Unit {0}) (cfg.with_referrers || requested cfg.verify) _ _
        (>>=-Keeps Kept P (Result RunResult) (Unit {0})
          (attempt (fetch_referrers L.registry L.encode cfg resolved))
          (after_referrers L cfg resolved result)
          (fetch_referrers-Settled (in_workspace L.sigstore.in_tuf_cache cfg) (OnTheWay cfg)
            L.registry L.encode cfg (holds_referrers L.sigstore.in_tuf_cache cfg)
            (λ q o. inr (inl o)) (holds_result L.sigstore.in_tuf_cache cfg) listed_plain
            layers_plain resolved)
          after)
        (>>=-Keeps Kept P (Unit {0}) (Unit {0}) (write_result L.encode cfg result)
          (λ _. verify_stage L cfg resolved result) (write_result-Settled result)
          (λ _. verify_stage-Settled resolved result))
    where
      after : (r : Result RunResult) → Keeps Kept (after_referrers L cfg resolved result r)
      after (ok fetched) = verify_stage-Settled resolved fetched
      after (err e) = fail_stage-Settled result "referrers" e

  -- Whichever calls fail and on every outcome, a run changes nothing but tmp/, manifest.json,
  -- referrers/, result.json, the staging directory and image/ of its output directory and the cache
  -- where sigstore-go keeps what it fetches by TUF, and makes missing directories on the way to the
  -- former, where the layers of the served manifest have names that lead below tmp/, the encoded parts
  -- of the digests that the registry lists and of those in the manifests of the referrers name entries
  -- of a directory, and the writer of OCI layouts and umoci stay in the directories that they are
  -- given.
  pub run-Settled :
      Keeps (Settled (in_workspace L.sigstore.in_tuf_cache cfg) (OnTheWay cfg)) (run L cfg)
  unfolding run
  run-Settled =
      >>=-Keeps Kept P (Result Bytes) (Unit {0}) (attempt (pull L.registry L.crane cfg))
        (after_pull L cfg)
        (pull-Settled (in_workspace L.sigstore.in_tuf_cache cfg) (OnTheWay cfg) L.registry L.crane
          cfg (holds_tmp L.sigstore.in_tuf_cache cfg) (λ q o. inl o)
          (holds_manifest L.sigstore.in_tuf_cache cfg) named layout_stays image_stays)
        after
    where
      after : (r : Result Bytes) → Keeps Kept (after_pull L cfg r)
      after (ok resolved) =
          referrers_stage-Settled resolved (no_referrers L.registry L.encode cfg resolved)
      after (err e) = fail_stage-Settled (no_referrers L.registry L.encode cfg []) "pull" e
