-- ===== src/Command/Gate.antt =====
-- cmd/unpacker/main.go: how verification and unpacking follow each other.
use unpacker.Base.{
  ◌≡◌, ◌⊎◌, inl, inr, refl, sym, ap, subst, ◌∙◌, arith, Bool, true, false, ◌||◌, Option, none, some,
  List,
}
use unpacker.Base.{if◌then◌else◌, String}
use unpacker.Base.Text.{Bytes, bytes_eq}
use unpacker.Errors.{Error, wrap, Result, ok, err}
use unpacker.System.{find, World, ◌>>=◌, ◌>>◌, attempt}
use unpacker.System.Keeps.{Keeps}
use unpacker.System.Stored.{OnlyAt}
use unpacker.Config.{Config}
use unpacker.Report.{Referrer, Verification, RunResult, result_path, write_result}
use unpacker.Report.Written.{write_result-OnlyAt}
use unpacker.Verify.Config.{requested}
use unpacker.Verify.Bundles.{verify}
use unpacker.Verify.Sound.{Evidence, verify-Evidence}
use unpacker.Verify.Record.{Apart, verify-verified_iff}
use unpacker.Unpack.{unpack}
use unpacker.Command.{
  Libraries, fail_stage, end_stage, after_verify, unpack_stage, verify_stage, after_referrers,
  referrers_stage, after_pull, run,
}
use unpacker.Pull.Crane.{pull}
use unpacker.Referrers.Fetch.{fetch_referrers, no_referrers}
use unpacker.System.Sequel.{>>=-ok}

module _ (L : Libraries) where
  pub fail_stage-OnlyAt :
      (cfg : Config) (result : RunResult) (stage : String) (e : Error)
      → Keeps (OnlyAt (result_path cfg)) (fail_stage L cfg result stage e)
  unfolding fail_stage
  fail_stage-OnlyAt cfg result stage e =
      write_result-OnlyAt L.encode cfg
        (record result { error = some (record { stage = stage; cause = e }) })

  -- No path has changed but result.json and the cache of what sigstore-go fetches by TUF.
  abbrev pub Recorded : Config → World → World → Type 0
  Recorded cfg w v =
      (q : Bytes)
      → bytes_eq (result_path cfg) q ≡ false
      → L.sigstore.in_tuf_cache q ≡ false
      → find q v.disk ≡ find q w.disk

  -- What a requested verification lets through.
  abbrev pub IsGated : Config → Bytes → List Referrer → World → Result (Unit {0}) × World → Type 0
  IsGated cfg resolved refs w o =
      Evidence L.sigstore L.engine cfg resolved refs w
      ⊎ ((e : Error) × (o.0 ≡ err (wrap "verify" e)) × Recorded cfg w o.1)

  -- Where verification is requested, a run behind the download of the referrers either has the
  -- evidence that the verifier that is built of the flags accepts one of the bundles for the resolved
  -- digest, or fails at the verification with no path changed but result.json and the cache where
  -- sigstore-go keeps what it fetches by TUF.
  pub verify_stage-IsGated :
      (cfg : Config) (resolved : Bytes) (result : RunResult) (w : World)
      → requested cfg.verify ≡ true
      → IsGated cfg resolved result.referrers w (verify_stage L cfg resolved result w)
  unfolding verify_stage
  verify_stage-IsGated cfg resolved result w asked =
      let (rec, e, v, ran, _, same) =
        verify-verified_iff L.sigstore L.engine cfg resolved result.referrers w in
      rw asked (rw ran (go rec e v ran same))
    where
      go :
          (rec : Verification) (e : Option Error) (v : World)
          → verify L.sigstore L.engine cfg resolved result.referrers w ≡ (ok (rec, e), v)
          → Apart L.sigstore L.engine w v
          → IsGated cfg resolved result.referrers w
              (after_verify L cfg (record result { verification = some rec }) e v)
      go rec none v ran same =
          inl (verify-Evidence L.sigstore L.engine cfg resolved result.referrers w v rec ran).1
      go rec (some e) v ran same = inr (
        e,
        refl,
        λ q h out.
            fail_stage-OnlyAt cfg (record result { verification = some rec }) "verify" e v q h
            ∙ same q out,
      )

  -- The unpacking ran and went through, from a disk that differs in result.json and the cache only.
  abbrev pub Unpacked : Config → World → World → Type 0
  Unpacked cfg w v = (u : World) × Recorded cfg w u × (unpack L.tools cfg u ≡ (ok tt, v))

  unpack_stage-ok :
      (cfg : Config) (result : RunResult) (w v : World)
      → unpack_stage L cfg result w ≡ (ok tt, v)
      → unpack L.tools cfg w ≡ (ok tt, v)
  unfolding unpack_stage fail_stage
  unpack_stage-ok cfg result w v = go (unpack L.tools cfg w)
    where
      go :
          (o : Result (Unit {0}) × World)
          → end_stage L cfg result "unpack" o.0 o.1 ≡ (ok tt, v)
          → o ≡ (ok tt, v)
      go (ok u, x) h = h
      go (err e, x) h = absurd (ground (arith, ap (λ (o : Result (Unit {0}) × World). o.0) h))

  after_verify-ok :
      (cfg : Config) (result : RunResult) (w v : World)
      → after_verify L cfg result none w ≡ (ok tt, v)
      → Unpacked cfg w v
  after_verify-ok cfg result w v h =
      let (_, u, wrote, rest) = >>=-ok (write_result L.encode cfg result) _ w h in
      (
        u,
        subst (λ (o : Result (Unit {0}) × World). Recorded cfg w o.1) wrote
            (λ q b _. write_result-OnlyAt L.encode cfg result w q b),
        unpack_stage-ok cfg result u v rest,
      )

  -- A verification that was requested and a run that went through.
  verify_stage-ok :
      (cfg : Config) (resolved : Bytes) (result : RunResult) (w v : World)
      → requested cfg.verify ≡ true
      → verify_stage L cfg resolved result w ≡ (ok tt, v)
      → Evidence L.sigstore L.engine cfg resolved result.referrers w × Unpacked cfg w v
  unfolding verify_stage fail_stage
  verify_stage-ok cfg resolved result w v asked h =
      let (rec, e, x, ran, _, same) =
        verify-verified_iff L.sigstore L.engine cfg resolved result.referrers w in
      go rec e x ran same (sym (rw asked (rw ran refl)) ∙ h)
    where
      go :
          (rec : Verification) (e : Option Error) (x : World)
          → verify L.sigstore L.engine cfg resolved result.referrers w ≡ (ok (rec, e), x)
          → Apart L.sigstore L.engine w x
          → after_verify L cfg (record result { verification = some rec }) e x ≡ (ok tt, v)
          → Evidence L.sigstore L.engine cfg resolved result.referrers w × Unpacked cfg w v
      go rec (some e) x ran same h =
          absurd (ground (arith, ap (λ (o : Result (Unit {0}) × World). o.0) h))
      go rec none x ran same h =
          let (u, only, unpacked) =
            after_verify-ok cfg (record result { verification = some rec }) x v h in
          (
            (verify-Evidence L.sigstore L.engine cfg resolved result.referrers w x rec ran).1,
            (u, (λ q b out. only q b out ∙ same q out), unpacked),
          )

  -- The referrers were downloaded, and the verification stage follows with them.
  abbrev Fetched : Config → Bytes → World → World → Type 0
  Fetched cfg resolved w v =
      (fetched : RunResult) × (u : World) × (fetch_referrers L.registry L.encode cfg resolved w
        ≡ (ok fetched, u))
      × (verify_stage L cfg resolved fetched u ≡ (ok tt, v))

  after_referrers-ok :
      (cfg : Config) (resolved : Bytes) (result : RunResult) (w v : World)
      (o : Result RunResult × World)
      → fetch_referrers L.registry L.encode cfg resolved w ≡ o
      → after_referrers L cfg resolved result o.0 o.1 ≡ (ok tt, v)
      → Fetched cfg resolved w v
  unfolding fail_stage
  after_referrers-ok cfg resolved result w v (ok fetched, u) q h = (fetched, u, q, h)
  after_referrers-ok cfg resolved result w v (err e, u) q h =
      absurd (ground (arith, ap (λ (o : Result (Unit {0}) × World). o.0) h))

  referrers_stage-ok :
      (cfg : Config) (resolved : Bytes) (result : RunResult) (w v : World)
      → requested cfg.verify ≡ true
      → referrers_stage L cfg resolved result w ≡ (ok tt, v)
      → Fetched cfg resolved w v
  unfolding referrers_stage
  referrers_stage-ok cfg resolved result w v = go cfg.with_referrers (requested cfg.verify)
    where
      go :
          (a b : Bool)
          → b ≡ true
          → (if a || b
                then (do
                  outcome ← attempt (fetch_referrers L.registry L.encode cfg resolved)
                  after_referrers L cfg resolved result outcome)
                else (do write_result L.encode cfg result; verify_stage L cfg resolved result))
              w
            ≡ (ok tt, v)
          → Fetched cfg resolved w v
      go true b t h =
          after_referrers-ok cfg resolved result w v
            (fetch_referrers L.registry L.encode cfg resolved w) refl h
      go false true t h =
          after_referrers-ok cfg resolved result w v
            (fetch_referrers L.registry L.encode cfg resolved w) refl h
      go false false t h = cc

  -- A run that goes through where verification is requested has pulled the image, has downloaded its
  -- referrers, has the evidence that the verifier accepts one of them for the digest of the pull, and
  -- has then unpacked, with no path but result.json and the cache changed in between.
  pub run-Evidence :
      (cfg : Config) (w v : World)
      → requested cfg.verify ≡ true
      → run L cfg w ≡ (ok tt, v)
      → (resolved : Bytes) × (pulled : World) × (fetched : RunResult) × (u : World) × (pull
            L.registry L.crane cfg w
          ≡ (ok resolved, pulled))
        × (fetch_referrers L.registry L.encode cfg resolved pulled ≡ (ok fetched, u))
        × Evidence L.sigstore L.engine cfg resolved fetched.referrers u
        × Unpacked cfg u v
  unfolding run fail_stage
  run-Evidence cfg w v asked = go (pull L.registry L.crane cfg w) refl
    where
      go :
          (o : Result Bytes × World)
          → pull L.registry L.crane cfg w ≡ o
          → after_pull L cfg o.0 o.1 ≡ (ok tt, v)
          → (resolved : Bytes) × (pulled : World) × (fetched : RunResult) × (u : World) × (pull
                L.registry L.crane cfg w
              ≡ (ok resolved, pulled))
            × (fetch_referrers L.registry L.encode cfg resolved pulled ≡ (ok fetched, u))
            × Evidence L.sigstore L.engine cfg resolved fetched.referrers u
            × Unpacked cfg u v
      go (err e, x) q h = absurd (ground (arith, ap (λ (o : Result (Unit {0}) × World). o.0) h))
      go (ok resolved, x) q h =
          let (fetched, u, got, rest) =
            referrers_stage-ok cfg resolved (no_referrers L.registry L.encode cfg resolved) x v
              asked h in
          let (evidence, unpacked) = verify_stage-ok cfg resolved fetched u v asked rest in
          (resolved, x, fetched, u, q, got, evidence, unpacked)
