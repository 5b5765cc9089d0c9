-- ===== src/Command/Bounded.antt =====
-- cmd/unpacker/main.go: how many bytes a run copies to the disk.
use unpacker.Base.{
  ℕ, ◌+◌, ◌*◌, ◌≤◌, ◌≡◌, refl, arith, Bool, true, false, ◌||◌, List, [], ◌∷◌, ◌++◌, Option, none,
  some, length, if◌then◌else◌, String,
}
use unpacker.Base.Text.{Bytes}
use unpacker.Errors.{Error, Result, ok, err, wrap_result}
use unpacker.System.{World, M, ◌>>=◌, ◌>>◌, attempt, lift, write_file}
use unpacker.System.Keeps.{Keeps, >>=-Keeps}
use unpacker.System.Quiet.{Quiet, Quiet-IsPreorder, write_file-Quiet}
use unpacker.Config.{Config}
use unpacker.Limits.{with_defaults}
use unpacker.Extract.Budget.{IsResolved}
use unpacker.Extract.Bounded.{WithinLimit}
use unpacker.Report.{Verification, RunResult, result_path, write_result}
use unpacker.Verify.Config.{requested}
use unpacker.Verify.Bundles.{verify}
use unpacker.Verify.Record.{verify-SameBut}
use unpacker.Pull.Budget.{Descriptor, AreNat, AreWords}
use unpacker.Pull.Credentials.{Repository}
use unpacker.Pull.Oras.{or_latest}
use unpacker.Pull.Crane.{pull}
use unpacker.Pull.Total.{Copies}
use unpacker.Pull.Bounded.{silent-Copies, pull-Copies}
use unpacker.Referrers.Fetch.{fetch_referrers, no_referrers}
use unpacker.Referrers.Total.{fetch_referrers-WithinLimit}
use unpacker.Unpack.{unpack}
use unpacker.Unpack.Bounded.{unpack-WithinLimit}
use unpacker.Command.{
  Libraries, fail_stage, end_stage, after_verify, unpack_stage, verify_stage, after_referrers,
  referrers_stage, after_pull, run,
}

module _ (L : Libraries) (cfg : Config) (words : AreWords cfg.limits)
    (resolved : IsResolved (with_defaults cfg.limits))
    (is_bounded : (repo : Repository) (desc : Descriptor) (body : L.Body)
      → length ((L.registry.client repo).passed desc body) ≤ desc.size)
    (layers_nat : (repo : Repository) (desc : Descriptor) (body : L.Body) (content : Bytes)
        (layers : List Descriptor)
      → L.registry.fetch_reference repo (or_latest repo.reference.reference) ≡ ok (desc, body)
      → L.registry.read_all desc body ≡ ok content
      → L.registry.parse_layers content ≡ ok layers
      → AreNat layers)
    (listed_nat : (repo : Repository) (subject : Bytes) (descs : List Descriptor)
      → L.registry.referrers repo subject ≡ ok descs
      → AreNat descs)
    (referrer_nat : (repo : Repository) (desc : Descriptor) (content : Bytes)
      → L.registry.fetch_all repo desc ≡ ok content
      → AreNat (L.registry.parse_referrer content).0.layers)
    (layout-Quiet : (path : Bytes) → Keeps Quiet (L.crane.layout_write path))
    (image-Quiet : (path : Bytes) (img : L.crane.Image) (raw : Result Bytes) (tag : Bytes)
      → Keeps Quiet (L.crane.append_image path img raw tag))
    (command-Quiet : (name : Bytes) (args : List Bytes)
      → Keeps Quiet (L.tools.command name args)) where
  abbrev cap : ℕ
  cap = (with_defaults cfg.limits).max_total_bytes

  write_result-Quiet : (result : RunResult) → Keeps Quiet (write_result L.encode cfg result)
  unfolding write_result
  write_result-Quiet result =
      >>=-Keeps Quiet Quiet-IsPreorder Bytes (Unit {0})
        (lift (wrap_result "encode result.json" (L.encode result)))
        (λ text. write_file (result_path cfg) (text ++ (b'\n' ∷ [])) 0o644) (λ w. refl)
        (λ text. write_file-Quiet (result_path cfg) (text ++ (b'\n' ∷ [])) 0o644)

  fail_stage-Quiet :
      (result : RunResult) (stage : String) (e : Error)
      → Keeps Quiet (fail_stage L cfg result stage e)
  unfolding fail_stage
  fail_stage-Quiet result stage e =
      write_result-Quiet (record result { error = some (record { stage = stage; cause = e }) })

  failed :
      (n : ℕ) (result : RunResult) (stage : String) (e : Error) (w : World)
      → Copies n w (fail_stage L cfg result stage e w)
  failed n result stage e w = omega (arith, fail_stage-Quiet result stage e w)

  unpack_stage-Copies :
      (result : RunResult) (w : World) → Copies (cap + 1) w (unpack_stage L cfg result w)
  unfolding unpack_stage
  unpack_stage-Copies result w =
      ended (unpack L.tools cfg w) (unpack-WithinLimit L.tools cfg command-Quiet resolved w)
    where
      ended :
          (o : Result (Unit {0}) × World)
          → WithinLimit cap w o
          → Copies (cap + 1) w (end_stage L cfg result "unpack" o.0 o.1)
      ended (ok t, u) h = omega (arith, h)
      ended (err e, u) h = omega (arith, h, fail_stage-Quiet result "unpack" e u)

  verify_stage-Copies :
      (digest : Bytes) (result : RunResult) (w : World)
      → Copies (cap + 1) w (verify_stage L cfg digest result w)
  unfolding verify_stage
  verify_stage-Copies digest result w = asked (requested cfg.verify)
    where
      judged : Verification × Option Error → M (Unit {0})
      judged (rec, e) = after_verify L cfg (record result { verification = some rec }) e

      after : (o : Verification × Option Error) (u : World) → Copies (cap + 1) u (judged o u)
      after (rec, some e) u =
          failed (cap + 1) (record result { verification = some rec }) "verify" e u
      after (rec, none) u =
          let found : RunResult = record result { verification = some rec } in
          silent-Copies (Unit {0}) (Unit {0}) (cap + 1) u (λ _. unpack_stage L cfg found)
            (write_result L.encode cfg found u) (write_result-Quiet found u)
            (λ _ x. unpack_stage-Copies found x)

      asked :
          (b : Bool)
          → Copies (cap + 1) w (
              (if b
                  then (verify L.sigstore L.engine cfg digest result.referrers >>= judged)
                  else unpack_stage L cfg result)
                w)
      asked false = unpack_stage-Copies result w
      asked true =
          silent-Copies (Verification × Option Error) (Unit {0}) (cap + 1) w judged
            (verify L.sigstore L.engine cfg digest result.referrers w)
            (verify-SameBut L.sigstore L.engine cfg digest result.referrers w).1 after

  referrers_stage-Copies :
      (digest : Bytes) (result : RunResult) (w : World)
      → Copies (cap + (cap + 1)) w (referrers_stage L cfg digest result w)
  unfolding referrers_stage
  referrers_stage-Copies digest result w = asked (cfg.with_referrers || requested cfg.verify)
    where
      fetched : Result RunResult → M (Unit {0})
      fetched = after_referrers L cfg digest result

      after :
          (o : Result RunResult × World)
          → o.1.copied ≤ w.copied + cap
          → Copies (cap + (cap + 1)) w (fetched o.0 o.1)
      after (ok found, u) h = omega (arith, h, verify_stage-Copies digest found u)
      after (err e, u) h = omega (arith, h, fail_stage-Quiet result "referrers" e u)

      asked :
          (b : Bool)
          → Copies (cap + (cap + 1)) w (
              (if b
                  then (attempt (fetch_referrers L.registry L.encode cfg digest) >>= fetched)
                  else (write_result L.encode cfg result >> verify_stage L cfg digest result))
                w)
      asked true = after (fetch_referrers L.registry L.encode cfg digest w) (
          fetch_referrers-WithinLimit L.registry is_bounded referrer_nat listed_nat L.encode cfg
            digest w words)
      asked false =
          silent-Copies (Unit {0}) (Unit {0}) (cap + (cap + 1)) w
            (λ _. verify_stage L cfg digest result) (write_result L.encode cfg result w)
            (write_result-Quiet result w)
            (λ _ u. omega (arith, verify_stage-Copies digest result u))

  -- On every outcome, what a run copies to the disk, in the blobs that it downloads for the artifact
  -- and its referrers and in the files that it unpacks, has at most three times the resolved
  -- --max-total-bytes and one byte more. This is for limits below the largest int64, readers that give
  -- no more bytes than a descriptor declares, sizes that are not negative in what the registry lists
  -- and in the served manifests, and apart from what crane and umoci write, which do not copy by the
  -- program's io.Copy.
  pub run-WithinLimit : (w : World) → (run L cfg w).1.copied ≤ w.copied + (3 * cap + 1)
  unfolding run
  run-WithinLimit w =
      after (pull L.registry L.crane cfg w)
        (pull-Copies L.registry L.crane cfg words is_bounded layers_nat layout-Quiet image-Quiet w)
    where
      after :
          (o : Result Bytes × World)
          → Copies cap w o
          → Copies (3 * cap + 1) w (after_pull L cfg o.0 o.1)
      after (ok digest, u) h =
          let bare = no_referrers L.registry L.encode cfg digest in
          omega (arith, h, referrers_stage-Copies digest bare u)
      after (err e, u) h =
          let bare = no_referrers L.registry L.encode cfg [] in
          omega (arith, h, fail_stage-Quiet bare "pull" e u)
