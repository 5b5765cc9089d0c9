-- ===== src/Command/Followed.antt =====
-- cmd/unpacker/main.go: the manifest that a run unpacks by.
use unpacker.Base.{
  ◌≡◌, subst, inl, inr, arith, Bool, true, false, ◌||◌, List, [], All, Option, none, some,
  if◌then◌else◌, String,
}
use unpacker.Base.Text.{Bytes, bytes_eq_refl}
use unpacker.Path.{join}
use unpacker.Path.Confine.{IsBelow}
use unpacker.Path.Names.{IsPlain}
use unpacker.Errors.{Error, Result, ok, err}
use unpacker.System.{World, M, ◌>>=◌, ◌>>◌, attempt}
use unpacker.System.Keeps.{Keeps, IsPreorder}
use unpacker.System.Leaves.{Leaves, >>=-Leaves, attempt-Leaves}
use unpacker.System.Settled.{Settled-IsPreorder, OnlyAt-Settled}
use unpacker.Config.{Config}
use unpacker.Report.{Verification, RunResult, result_path, write_result}
use unpacker.Report.Written.{write_result-OnlyAt}
use unpacker.Verify.Config.{requested}
use unpacker.Verify.Bundles.{verify}
use unpacker.Verify.Record.{verify-SameBut}
use unpacker.Pull.Budget.{Descriptor}
use unpacker.Pull.Credentials.{Repository}
use unpacker.Pull.Oras.{or_latest, blob_name}
use unpacker.Pull.Crane.{pull}
use unpacker.Pull.Settled.{tmp_dir, manifest_path}
use unpacker.Pull.Served.{IsServed}
use unpacker.Pull.Answered.{pull-IsServed}
use unpacker.Referrers.Fetch.{fetch_referrers, no_referrers}
use unpacker.Referrers.Settled.{fetch_referrers-Settled}
use unpacker.Unpack.{unpack}
use unpacker.Command.Records.{in_records, OnWay, Between, Between-Holds}
use unpacker.Command.{
  Libraries, fail_stage, end_stage, after_verify, unpack_stage, verify_stage, after_referrers,
  referrers_stage, after_pull, run,
}

module _ (L : Libraries) (cfg : Config)
    (named : (repo : Repository) (desc : Descriptor) (body : L.Body) (content : Bytes)
        (layers : List Descriptor)
      → L.registry.fetch_reference repo (or_latest repo.reference.reference) ≡ ok (desc, body)
      → L.registry.read_all desc body ≡ ok content
      → L.registry.parse_layers content ≡ ok layers
      → All (λ layer. IsBelow (tmp_dir cfg) (join (tmp_dir cfg) (blob_name layer))) layers)
    (listed_plain : (repo : Repository) (subject : Bytes) (descs : List Descriptor)
      → L.registry.referrers repo subject ≡ ok descs
      → All (λ desc. IsPlain (L.registry.encoded desc.digest)) descs)
    (layers_plain : (repo : Repository) (desc : Descriptor) (content : Bytes)
      → L.registry.fetch_all repo desc ≡ ok content
      → All
          (λ layer. IsPlain (L.registry.encoded layer.digest))
          (L.registry.parse_referrer content).0.layers)
    (outside_cache : L.sigstore.in_tuf_cache (manifest_path cfg) ≡ false) where
  abbrev cache : Bytes → Bool
  cache = L.sigstore.in_tuf_cache

  abbrev Kept : World → World → Type 0
  Kept = Between cache cfg

  P : IsPreorder Kept
  P = Settled-IsPreorder (in_records cache cfg) (OnWay cfg)

  -- An unpacking that goes through, with only the records changed in front of it.
  abbrev Unpacks : World → Unit {0} → World → Type 0
  Unpacks w t v = (x : World) × Between cache cfg w x × (unpack L.tools cfg x ≡ (ok tt, v))

  fail_stage-Leaves :
      (Q : Unit {0} → World → Type 0) (result : RunResult) (stage : String) (e : Error) (w : World)
      → Leaves Q (fail_stage L cfg result stage e w)
  unfolding fail_stage
  fail_stage-Leaves Q result stage e w = tt

  unpack_stage-Unpacks :
      (w x : World) (result : RunResult)
      → Between cache cfg w x
      → Leaves (Unpacks w) (unpack_stage L cfg result x)
  unfolding unpack_stage
  unpack_stage-Unpacks w x result kept =
      attempt-Leaves (Unpacks w) (Unit {0}) (unpack L.tools cfg) (end_stage L cfg result "unpack") x
        ended
    where
      ended :
          (r : Result (Unit {0})) (u : World)
          → unpack L.tools cfg x ≡ (r, u)
          → Leaves (Unpacks w) (end_stage L cfg result "unpack" r u)
      ended (ok t) u e = (x, kept, e)
      ended (err z) u e = fail_stage-Leaves (Unpacks w) result "unpack" z u

  -- A record that is written changes the records only.
  recorded :
      (w x u : World) (result : RunResult)
      → Between cache cfg w x
      → write_result L.encode cfg result x ≡ (ok tt, u)
      → Between cache cfg w u
  recorded w x u result kept e =
      subst (λ (o : Result (Unit {0}) × World). Between cache cfg w o.1) e
        (P.then_also w x (write_result L.encode cfg result x).1 kept (
          OnlyAt-Settled (in_records cache cfg) (OnWay cfg) (result_path cfg) x
            (write_result L.encode cfg result x).1 (ground (arith, bytes_eq_refl (result_path cfg)))
            (write_result-OnlyAt L.encode cfg result x)))

  verify_stage-Unpacks :
      (w x : World) (digest : Bytes) (result : RunResult)
      → Between cache cfg w x
      → Leaves (Unpacks w) (verify_stage L cfg digest result x)
  unfolding verify_stage
  verify_stage-Unpacks w x digest result kept = asked (requested cfg.verify)
    where
      judged : Verification × Option Error → M (Unit {0})
      judged (rec, e) = after_verify L cfg (record result { verification = some rec }) e

      after :
          (rec : Verification) (e : Option Error) (u : World)
          → Between cache cfg w u
          → Leaves (Unpacks w) (after_verify L cfg (record result { verification = some rec }) e u)
      after rec (some e) u same =
          fail_stage-Leaves (Unpacks w) (record result { verification = some rec }) "verify" e u
      after rec none u same =
          >>=-Leaves (Unpacks w) (Unit {0})
            (write_result L.encode cfg (record result { verification = some rec }))
            (λ _. unpack_stage L cfg (record result { verification = some rec })) u
            λ _ y e.
              unpack_stage-Unpacks w y (record result { verification = some rec })
                (recorded w u y (record result { verification = some rec }) same e)

      verified : M (Verification × Option Error)
      verified = verify L.sigstore L.engine cfg digest result.referrers

      untouched :
          (o : Result (Verification × Option Error) × World)
          → verified x ≡ o
          → Between cache cfg w o.1
      untouched o e =
          subst (λ (o : Result (Verification × Option Error) × World). Between cache cfg w o.1) e
            (P.then_also w x (verified x).1 kept λ q out. inl (
              (verify-SameBut L.sigstore L.engine cfg digest result.referrers x).0 q
                (ground (arith, out))))

      asked :
          (b : Bool)
          → Leaves (Unpacks w) ((if b then (verified >>= judged) else unpack_stage L cfg result) x)
      asked true =
          >>=-Leaves (Unpacks w) (Verification × Option Error) verified judged x
            λ (rec, z) u e. after rec z u (untouched (ok (rec, z), u) e)
      asked false = unpack_stage-Unpacks w x result kept

  referrers_stage-Unpacks :
      (w : World) (digest : Bytes) (result : RunResult)
      → Leaves (Unpacks w) (referrers_stage L cfg digest result w)
  unfolding referrers_stage
  referrers_stage-Unpacks w digest result = asked (cfg.with_referrers || requested cfg.verify)
    where
      fetched : M RunResult
      fetched = fetch_referrers L.registry L.encode cfg digest

      kept : Keeps Kept fetched
      kept =
          fetch_referrers-Settled (in_records cache cfg) (OnWay cfg) L.registry L.encode cfg
            (λ q h. ground arith) (λ q o. o) (ground (arith, bytes_eq_refl (result_path cfg)))
            listed_plain layers_plain digest

      after :
          (r : Result RunResult) (u : World)
          → fetched w ≡ (r, u)
          → Leaves (Unpacks w) (after_referrers L cfg digest result r u)
      after (ok found) u e =
          verify_stage-Unpacks w u digest found
            (subst (λ (o : Result RunResult × World). Between cache cfg w o.1) e (kept w))
      after (err z) u e = fail_stage-Leaves (Unpacks w) result "referrers" z u

      asked :
          (b : Bool)
          → Leaves (Unpacks w) (
              (if b
                  then (attempt fetched >>= after_referrers L cfg digest result)
                  else (write_result L.encode cfg result >> verify_stage L cfg digest result))
                w)
      asked true =
          attempt-Leaves (Unpacks w) RunResult fetched (after_referrers L cfg digest result) w after
      asked false =
          >>=-Leaves (Unpacks w) (Unit {0}) (write_result L.encode cfg result)
            (λ _. verify_stage L cfg digest result) w
            λ _ u e. verify_stage-Unpacks w u digest result (recorded w w u result (P.same w) e)

  -- A run that goes through has pulled a digest, and has unpacked with manifest.json still holding the
  -- manifest that was served under this digest: by oras, verified against the descriptor, or by crane,
  -- as OCI. This is where the layers of the served manifest have names that lead below tmp/, the
  -- encoded parts of the digests that the registry lists and of those in the manifests of the
  -- referrers name entries of a directory, and manifest.json does not lie in the cache where
  -- sigstore-go keeps what it fetches by TUF.
  pub run-IsServed :
      (w v : World)
      → run L cfg w ≡ (ok tt, v)
      → (digest : Bytes) × (u : World) × (x : World) × (pull L.registry L.crane cfg w
          ≡ (ok digest, u))
        × IsServed L.registry L.crane cfg digest x.disk
        × (unpack L.tools cfg x ≡ (ok tt, v))
  unfolding run
  run-IsServed w v h =
      subst (Leaves Q) h
        (attempt-Leaves Q Bytes (pull L.registry L.crane cfg) (after_pull L cfg) w after)
    where
      Q : Unit {0} → World → Type 0
      Q t z =
          (digest : Bytes) × (u : World) × (x : World) × (pull L.registry L.crane cfg w
            ≡ (ok digest, u))
          × IsServed L.registry L.crane cfg digest x.disk
          × (unpack L.tools cfg x ≡ (ok tt, z))

      still :
          (digest : Bytes) (u x : World)
          → Between cache cfg u x
          → IsServed L.registry L.crane cfg digest u.disk
          → IsServed L.registry L.crane cfg digest x.disk
      still digest u x kept
            (inl (repo, desc, body, content, made, served, verified, reason, same, held)) =
          inl (
            repo,
            desc,
            body,
            content,
            made,
            served,
            verified,
            reason,
            same,
            Between-Holds cache cfg u x content outside_cache kept held,
          )
      still digest u x kept
            (inr (opts, img, m, left, content, made, got, named_by, sized, accepted, raw, held)) =
          inr (
            opts,
            img,
            m,
            left,
            content,
            made,
            got,
            named_by,
            sized,
            accepted,
            raw,
            Between-Holds cache cfg u x content outside_cache kept held,
          )

      through :
          (digest : Bytes) (u : World)
          → pull L.registry L.crane cfg w ≡ (ok digest, u)
          → (o : Result (Unit {0}) × World) → Leaves (Unpacks u) o
          → Leaves Q o
      through digest u e (ok t, z) (x, kept, unpacked) = (
        digest,
        u,
        x,
        e,
        still digest u x kept (pull-IsServed L.registry L.crane cfg named w u digest e),
        unpacked,
      )
      through digest u e (err z, y) out = tt

      after :
          (r : Result Bytes) (u : World)
          → pull L.registry L.crane cfg w ≡ (r, u)
          → Leaves Q (after_pull L cfg r u)
      after (ok digest) u e =
          through digest u e
            (referrers_stage L cfg digest (no_referrers L.registry L.encode cfg digest) u)
            (referrers_stage-Unpacks u digest (no_referrers L.registry L.encode cfg digest))
      after (err z) u e = fail_stage-Leaves Q (no_referrers L.registry L.encode cfg []) "pull" z u
