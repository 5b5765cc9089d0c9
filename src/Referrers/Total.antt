-- ===== src/Referrers/Total.antt =====
-- How many bytes the blobs of all referrers have together.
use unpacker.Base.{
  ◌+◌, ◌≤◌, ◌≡◌, refl, arith, Bool, true, false, List, [], ◌∷◌, ◌++◌, some, length, if◌then◌else◌,
}
use unpacker.Base.Text.{Bytes, codes, bytes_eq}
use unpacker.Base.Word.{lt_i64}
use unpacker.Path.{join}
use unpacker.Errors.{Error, wrap, Result, ok, err, wrap_result, error_is, errdef_unsupported}
use unpacker.System.{World, M, ◌>>=◌, ◌>>◌, pure, fail, attempt, lift, say, said, write_file}
use unpacker.System.Keeps.{Keeps, >>=-Keeps, if-Keeps}
use unpacker.System.Quiet.{Quiet, Quiet-IsPreorder, write_file-Quiet}
use unpacker.Config.{Config}
use unpacker.Limits.{with_defaults, max_referrers}
use unpacker.Report.{Referrer, RunResult, result_path, write_result}
use unpacker.Pull.Budget.{
  Descriptor, DownloadBudget, new_download_budget, IsBudget, AreNat, AreWords,
  new_download_budget-IsBudget,
}
use unpacker.Pull.Credentials.{Repository, new_oras_repository}
use unpacker.Pull.Registry.{Registry}
use unpacker.Referrers.Budgeted.{attempt_then-Copies, WithinLeft, download_referrer-Copies}
use unpacker.Pull.Total.{Copies, >>=-Copies}
use unpacker.Referrers.Fetch.{
  download_referrer, with_referrer, announce, failing, record_and_fail, Onward, after_download,
  download_all, no_referrers, nothing_listed, too_many, download_listed, fetch_referrers,
}

-- Readers give no more bytes than a descriptor says, and the layers of a served manifest have no
-- negative sizes.
module _ {Body : Type 0} (R : Registry Body)
    (is_bounded : (repo : Repository) (desc : Descriptor) (body : Body)
      → length ((R.client repo).passed desc body) ≤ desc.size)
    (layers_nat : (repo : Repository) (desc : Descriptor) (content : Bytes)
      → R.fetch_all repo desc ≡ ok content
      → AreNat (R.parse_referrer content).0.layers)
    (repo : Repository) (encode : RunResult → Result Bytes) (cfg : Config) where
  write_result-Quiet : (result : RunResult) → Keeps Quiet (write_result encode cfg result)
  unfolding write_result
  write_result-Quiet result =
      >>=-Keeps Quiet Quiet-IsPreorder Bytes (Unit {0})
        (lift (wrap_result "encode result.json" (encode result)))
        (λ text. write_file (result_path cfg) (text ++ (b'\n' ∷ [])) 0o644) (λ w. refl)
        (λ text. write_file-Quiet (result_path cfg) (text ++ (b'\n' ∷ [])) 0o644)

  record_and_fail-Quiet :
      (e : Error) (result : RunResult) → Keeps Quiet (record_and_fail R repo encode cfg e result)
  unfolding record_and_fail
  record_and_fail-Quiet e result =
      >>=-Keeps Quiet Quiet-IsPreorder (Result (Unit {0})) RunResult
        (attempt (write_result encode cfg result)) (failing R repo encode cfg e)
        (write_result-Quiet result) fails
    where
      fails : (r : Result (Unit {0})) → Keeps Quiet (failing R repo encode cfg e r)
      fails (ok u) = λ w. refl
      fails (err x) = λ w. refl

  written-Quiet : (result : RunResult) → Keeps Quiet (write_result encode cfg result >> pure result)
  written-Quiet result =
      >>=-Keeps Quiet Quiet-IsPreorder (Unit {0}) RunResult (write_result encode cfg result)
        (λ _. pure result) (write_result-Quiet result) (λ _ w. refl)

  announce-Quiet : (ref : Referrer) → Keeps Quiet (announce R repo ref)
  announce-Quiet ref =
      if-Keeps Quiet Quiet-IsPreorder (Unit {0}) (bytes_eq ref.digest []) (pure tt)
        (say (said "referrer downloaded")) (λ w. refl) (λ w. refl)

  download_all-Copies :
      (base_dir subject : Bytes) (descs : List Descriptor) (result : RunResult) (b : DownloadBudget)
      (w : World)
      → IsBudget b
      → AreNat descs
      → Copies b.remaining w
          (download_all R repo encode cfg base_dir subject descs result (some b) w)
  unfolding download_all
  download_all-Copies base_dir subject [] result b w ib all = omega (arith, written-Quiet result w)
  download_all-Copies base_dir subject (desc ∷ descs) result b w ib (h, all) =
      attempt_then-Copies (download_referrer R repo desc base_dir subject (some b))
        (after_download R repo encode cfg next result) b.remaining w
        (download_referrer-Copies R is_bounded layers_nat repo desc base_dir subject b
          (λ o. after_download R repo encode cfg next result (ok o)) w ib h
          (onward (λ r c u ic. download_all-Copies base_dir subject descs r c u ic all)))
        (λ e. record_and_fail-Quiet e result)
    where
      next : Onward R repo encode cfg
      next = download_all R repo encode cfg base_dir subject descs

      onward :
          ((r : RunResult) (c : DownloadBudget) (u : World)
            → IsBudget c
            → Copies c.remaining u (next r (some c) u))
          → WithinLeft (λ o. after_download R repo encode cfg next result (ok o))
      onward ih ref c u ic =
          let quiet : Copies 0 u (announce R repo ref u) = omega (arith, announce-Quiet ref u) in
          let all =
            >>=-Copies (announce R repo ref) (λ _. next (with_referrer R repo ref result) (some c))
              0 c.remaining u quiet (λ _ v. ih (with_referrer R repo ref result) c v ic) in
          omega (arith, all)

module _ {Body : Type 0} (R : Registry Body)
    (is_bounded : (repo : Repository) (desc : Descriptor) (body : Body)
      → length ((R.client repo).passed desc body) ≤ desc.size)
    (layers_nat : (repo : Repository) (desc : Descriptor) (content : Bytes)
      → R.fetch_all repo desc ≡ ok content
      → AreNat (R.parse_referrer content).0.layers)
    (listed_nat : (repo : Repository) (subject : Bytes) (descs : List Descriptor)
      → R.referrers repo subject ≡ ok descs
      → AreNat descs)
    (encode : RunResult → Result Bytes) (cfg : Config) where
  nothing_listed-Quiet :
      (repo : Repository) (result : RunResult) → Keeps Quiet (nothing_listed R encode cfg result)
  nothing_listed-Quiet repo result w =
      written-Quiet R is_bounded layers_nat repo encode cfg result
        (record w { log = w.log ++ (said "no referrers" ∷ []) })

  download_listed-Copies :
      (repo : Repository) (subject : Bytes) (result : RunResult) (w : World)
      → AreWords cfg.limits
      → (r : Result (List Descriptor)) → R.referrers repo subject ≡ r
      → Copies
          (with_defaults cfg.limits).max_total_bytes
          w
          (download_listed R encode cfg repo subject result r w)
  unfolding download_listed new_download_budget
  download_listed-Copies repo subject result w words (err e) q = go (error_is errdef_unsupported e)
    where
      go :
          (b : Bool)
          → Copies (with_defaults cfg.limits).max_total_bytes w (
              (if b then nothing_listed R encode cfg result else fail (wrap "query referrers" e)) w)
      go true = omega (arith, nothing_listed-Quiet repo result w)
      go false = omega arith
  download_listed-Copies repo subject result w words (ok []) q =
      omega (arith, nothing_listed-Quiet repo result w)
  download_listed-Copies repo subject result w words (ok (desc ∷ descs)) q =
      go (lt_i64 (max_referrers cfg.max_referrers) (length (desc ∷ descs)))
    where
      base_dir : Bytes
      base_dir = join cfg.output_dir (codes "referrers")

      all : M RunResult
      all =
          download_all R repo encode cfg base_dir subject (desc ∷ descs) result
            (some (new_download_budget cfg.limits))

      go :
          (b : Bool)
          → Copies
              (with_defaults cfg.limits).max_total_bytes
              w
              ((if b then fail (too_many R encode cfg) else all) w)
      go true = omega arith
      go false =
          download_all-Copies R is_bounded layers_nat repo encode cfg base_dir subject
            (desc ∷ descs) result (new_download_budget cfg.limits) w
            (new_download_budget-IsBudget cfg.limits words)
            (listed_nat repo subject (desc ∷ descs) q)

  -- Where readers give no more bytes than a descriptor declares, and no size is negative that the
  -- registry lists or that the manifest of a referrer declares, the blobs of all referrers that one
  -- run downloads have no more than the resolved --max-total-bytes together, on every outcome.
  pub fetch_referrers-WithinLimit :
      (digest : Bytes) (w : World)
      → AreWords cfg.limits
      → (fetch_referrers R encode cfg digest w).1.copied
        ≤ w.copied + (with_defaults cfg.limits).max_total_bytes
  unfolding fetch_referrers
  fetch_referrers-WithinLimit digest w words = parsed (R.parse_digest digest)
    where
      bare : RunResult
      bare = no_referrers R encode cfg digest

      listed : Bytes → Repository → M RunResult
      listed subject repo =
          download_listed R encode cfg repo subject bare (R.referrers repo subject)

      made :
          (subject : Bytes) (r : Result Repository)
          → Copies (with_defaults cfg.limits).max_total_bytes w ((lift r >>= listed subject) w)
      made subject (err e) = omega arith
      made subject (ok repo) =
          download_listed-Copies repo subject bare w words (R.referrers repo subject) refl

      parsed :
          (r : Result Bytes)
          → Copies (with_defaults cfg.limits).max_total_bytes w (
              (lift (wrap_result "parse subject digest" r) >>= λ subject.
              lift (new_oras_repository R.parse_reference cfg) >>= listed subject)
                w)
      parsed (err e) = omega arith
      parsed (ok subject) = made subject (new_oras_repository R.parse_reference cfg)
