-- ===== src/Command/Status.antt =====
-- The exit status of a run.
use unpacker.Base.{◌≡◌, refl, String, true, false, ◌||◌, List, ◌∷◌, none, some}
use unpacker.Base.{length}
use unpacker.Base.Text.{Bytes}
use unpacker.Base.Word.{lt_i64}
use unpacker.Errors.{Error, wrap, error_is, Result, ok, err}
use unpacker.System.{World}
use unpacker.Exit.{exit_code}
use unpacker.Exit.Laws.{exit_code-wrap}
use unpacker.Limits.{max_referrers}
use unpacker.Config.{Config}
use unpacker.Report.{Verification, RunResult, result_path, write_result}
use unpacker.System.Stored.{OnlyAt}
use unpacker.Command.Gate.{fail_stage-OnlyAt}
use unpacker.Verify.Config.{requested}
use unpacker.Verify.Bundles.{verify}
use unpacker.Pull.Crane.{pull}
use unpacker.Pull.Budget.{Descriptor}
use unpacker.Pull.Credentials.{Repository, new_oras_repository}
use unpacker.Referrers.Fetch.{fetch_referrers, no_referrers, download_listed, too_many}
use unpacker.Unpack.{unpack}
use unpacker.Command.{
  Libraries, fail_stage, unpack_stage, verify_stage, referrers_stage, run, error_of,
}

module _ (L : Libraries) (cfg : Config) where
  abbrev pulled : World → Result Bytes × World
  pulled = pull L.registry L.crane cfg

  abbrev fetched : Bytes → World → Result RunResult × World
  fetched = fetch_referrers L.registry L.encode cfg

  abbrev bare : Bytes → RunResult
  bare = no_referrers L.registry L.encode cfg

  abbrev written : RunResult → World → Result (Unit {0}) × World
  written = write_result L.encode cfg

  -- The stage that a run from a world stops at, by what the stages before it have returned, with the
  -- error that stops it.
  pub data StopsAt : World → String → Error → Type 0 where
    at_pull : {w u : World} {e : Error} → pulled w ≡ (err e, u) → StopsAt w "pull" e
    at_referrers :
        {w u v : World} {digest : Bytes} {e : Error}
        → pulled w ≡ (ok digest, u)
        → cfg.with_referrers || requested cfg.verify ≡ true
        → fetched digest u ≡ (err e, v)
        → StopsAt w "referrers" e
    at_verification :
        {w u v x : World} {digest : Bytes} {found : RunResult} {rec : Verification} {e : Error}
        → pulled w ≡ (ok digest, u)
        → cfg.with_referrers || requested cfg.verify ≡ true
        → requested cfg.verify ≡ true
        → fetched digest u ≡ (ok found, v)
        → verify L.sigstore L.engine cfg digest found.referrers v ≡ (ok (rec, some e), x)
        → StopsAt w "verify" e
    at_unpacking :
        {w u v x : World} {digest : Bytes} {e : Error}
        → pulled w ≡ (ok digest, u)
        → cfg.with_referrers || requested cfg.verify ≡ false
        → requested cfg.verify ≡ false
        → written (bare digest) u ≡ (ok tt, v)
        → unpack L.tools cfg v ≡ (err e, x)
        → StopsAt w "unpack" e
    at_unpacking_fetched :
        {w u v x : World} {digest : Bytes} {found : RunResult} {e : Error}
        → pulled w ≡ (ok digest, u)
        → cfg.with_referrers || requested cfg.verify ≡ true
        → requested cfg.verify ≡ false
        → fetched digest u ≡ (ok found, v)
        → unpack L.tools cfg v ≡ (err e, x)
        → StopsAt w "unpack" e
    at_unpacking_verified :
        {w u v x y z : World} {digest : Bytes} {found : RunResult} {rec : Verification} {e : Error}
        → pulled w ≡ (ok digest, u)
        → cfg.with_referrers || requested cfg.verify ≡ true
        → requested cfg.verify ≡ true
        → fetched digest u ≡ (ok found, v)
        → verify L.sigstore L.engine cfg digest found.referrers v ≡ (ok (rec, none), x)
        → written (record found { verification = some rec }) x ≡ (ok tt, y)
        → unpack L.tools cfg y ≡ (err e, z)
        → StopsAt w "unpack" e

  run-StopsAt :
      (w : World) (stage : String) (e : Error)
      → StopsAt w stage e
      → (run L cfg w).0 ≡ err (wrap stage e)
  unfolding run referrers_stage verify_stage unpack_stage fail_stage
  run-StopsAt w _ e (at_pull p) = rw p refl
  run-StopsAt w _ e (at_referrers p on q) = rw (p, on, q) refl
  run-StopsAt w _ e (at_verification p on asked q r) = rw (p, on, q, asked, r) refl
  run-StopsAt w _ e (at_unpacking p off unasked q r) = rw (p, off, q, unasked, r) refl
  run-StopsAt w _ e (at_unpacking_fetched p on unasked q r) = rw (p, on, q, unasked, r) refl
  run-StopsAt w _ e (at_unpacking_verified p on asked q r s t) = rw (p, on, q, asked, r, s, t) refl

  -- A run that stops at a stage returns the error of that stage under the stage's name, and exits with
  -- the code of that error, whether or not the failure could be recorded in result.json.
  pub run-exit_code :
      (w : World) (stage : String) (e : Error)
      → StopsAt w stage e
      → ((run L cfg w).0 ≡ err (wrap stage e))
        × (exit_code (error_of L (run L cfg w).0) ≡ exit_code (some e))
  run-exit_code w stage e at =
      let stopped = run-StopsAt w stage e at in (stopped, (rw stopped (exit_code-wrap stage e)))

  fetched-too_many :
      (u : World) {digest subject : Bytes} {repo : Repository} {desc : Descriptor}
      {descs : List Descriptor}
      → L.registry.parse_digest digest ≡ ok subject
      → new_oras_repository L.registry.parse_reference cfg ≡ ok repo
      → L.registry.referrers repo subject ≡ ok (desc ∷ descs)
      → lt_i64 (max_referrers cfg.max_referrers) (length (desc ∷ descs)) ≡ true
      → fetched digest u ≡ (err (too_many L.registry L.encode cfg), u)
  unfolding fetch_referrers download_listed
  fetched-too_many u parsed made listed many = rw (parsed, made, listed, many) refl

  -- Where the registry lists more referrers than allowed for the digest of the pull, a run that wants
  -- the referrers exits with 5, and behind the pull no path but result.json has changed.
  pub run-too_many :
      (w u : World) {digest subject : Bytes} {repo : Repository} {desc : Descriptor}
      {descs : List Descriptor}
      → pulled w ≡ (ok digest, u)
      → cfg.with_referrers || requested cfg.verify ≡ true
      → L.registry.parse_digest digest ≡ ok subject
      → new_oras_repository L.registry.parse_reference cfg ≡ ok repo
      → L.registry.referrers repo subject ≡ ok (desc ∷ descs)
      → lt_i64 (max_referrers cfg.max_referrers) (length (desc ∷ descs)) ≡ true
      → (exit_code (error_of L (run L cfg w).0) ≡ 5) × OnlyAt (result_path cfg) u (run L cfg w).1
  unfolding run referrers_stage exit_code error_is
  run-too_many w u {digest} p on parsed made listed many =
      let refused = fetched-too_many u parsed made listed many in
      let e = too_many L.registry L.encode cfg in
      (
        (rw (run-StopsAt w "referrers" e (at_referrers p on refused)) refl),
        (rw (p, on, refused) (fail_stage-OnlyAt L cfg (bare digest) "referrers" e u)),
      )
