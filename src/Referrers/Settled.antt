-- ===== src/Referrers/Settled.antt =====
-- The paths that `FetchReferrers` changes.
use unpacker.Base.{All}
use unpacker.Base.{inl, ◌≡◌, refl, subst, Bool, true, List, [], ◌∷◌, ◌++◌, Option, some, length}
use unpacker.Base.Text.{Bytes, codes, bytes_eq}
use unpacker.Base.Word.{lt_i64}
use unpacker.Path.{join, clean}
use unpacker.Path.Names.{IsPlain, clean-join}
use unpacker.Errors.{Error, Result, ok, err, wrap, wrap_result, error_is, errdef_unsupported}
use unpacker.System.{
  World, M, ◌>>=◌, ◌>>◌, pure, fail, attempt, lift, say, said, LogLine, within, ancestors,
}
use unpacker.System.Keeps.{Keeps, IsPreorder, >>=-Keeps, if-Keeps}
use unpacker.System.Ancestors.{OneOf}
use unpacker.System.Settled.{Settled, Settled-IsPreorder, Confined-Settled, OnlyAt-Settled}
use unpacker.Config.{Config}
use unpacker.Limits.{max_referrers}
use unpacker.Report.{Referrer, RunResult, result_path, write_result}
use unpacker.Report.Written.{write_result-OnlyAt}
use unpacker.Pull.Budget.{Descriptor, DownloadBudget, new_download_budget}
use unpacker.Pull.Credentials.{Repository, new_oras_repository}
use unpacker.Pull.Registry.{Registry}
use unpacker.Referrers.Fetch.{
  download_referrer, with_referrer, announce, failing, record_and_fail, Onward, after_download,
  download_all, no_referrers, nothing_listed, too_many, download_listed, fetch_referrers,
}
use unpacker.Referrers.Confined.{download_referrer-Confined}

abbrev pub referrers_dir : Config → Bytes
referrers_dir cfg = join cfg.output_dir (codes "referrers")

-- In a region that holds referrers/ and result.json, where the encoded parts of the digests that the
-- registry lists, and of those in the manifests that it serves, name entries of a directory.
module _ (inside : Bytes → Bool) (OnWay : Bytes → Type 0) {Body : Type 0} (R : Registry Body)
    (encode : RunResult → Result Bytes) (cfg : Config)
    (holds_referrers : (q : Bytes) → within (referrers_dir cfg) q ≡ true → inside q ≡ true)
    (on_way : (q : Bytes) → OneOf q (ancestors (referrers_dir cfg)) → OnWay q)
    (holds_result : inside (result_path cfg) ≡ true)
    (listed_plain : (repo : Repository) (subject : Bytes) (descs : List Descriptor)
      → R.referrers repo subject ≡ ok descs
      → All (λ desc. IsPlain (R.encoded desc.digest)) descs)
    (layers_plain : (repo : Repository) (desc : Descriptor) (content : Bytes)
      → R.fetch_all repo desc ≡ ok content
      → All (λ layer. IsPlain (R.encoded layer.digest)) (R.parse_referrer content).0.layers) where
  abbrev base_dir : Bytes
  base_dir = referrers_dir cfg

  abbrev Kept : World → World → Type 0
  Kept = Settled inside OnWay

  P : IsPreorder Kept
  P = Settled-IsPreorder inside OnWay

  saying-Settled : (A : Type 0) (l : LogLine) (m : M A) → Keeps Kept m → Keeps Kept (say l >> m)
  saying-Settled A l m h w = h (record w { log = w.log ++ (l ∷ []) })

  clean-base_dir : clean base_dir ≡ base_dir
  clean-base_dir = clean-join cfg.output_dir b'r' (codes "eferrers")

  download_referrer-Settled :
      (repo : Repository) (desc : Descriptor) (subject : Bytes) (budget : Option DownloadBudget)
      → IsPlain (R.encoded desc.digest)
      → Keeps Kept (download_referrer R repo desc base_dir subject budget)
  download_referrer-Settled repo desc subject budget own w =
      Confined-Settled inside OnWay base_dir w
        (download_referrer R repo desc base_dir subject budget w).1 clean-base_dir holds_referrers
        (λ q o. on_way q (subst (λ z. OneOf q (ancestors z)) clean-base_dir o))
        (download_referrer-Confined R repo desc cfg.output_dir subject budget w own
          (layers_plain repo desc))

  write_result-Settled : (result : RunResult) → Keeps Kept (write_result encode cfg result)
  write_result-Settled result w =
      OnlyAt-Settled inside OnWay (result_path cfg) w (write_result encode cfg result w).1
        holds_result (write_result-OnlyAt encode cfg result w)

  written-Settled :
      (result : RunResult) → Keeps Kept (write_result encode cfg result >> pure result)
  written-Settled result =
      >>=-Keeps Kept P (Unit {0}) RunResult (write_result encode cfg result) (λ _. pure result)
        (write_result-Settled result) (λ _ w. P.same w)

  record_and_fail-Settled :
      (repo : Repository) (e : Error) (result : RunResult)
      → Keeps Kept (record_and_fail R repo encode cfg e result)
  unfolding record_and_fail
  record_and_fail-Settled repo e result =
      >>=-Keeps Kept P (Result (Unit {0})) RunResult (attempt (write_result encode cfg result))
        (failing R repo encode cfg e) (write_result-Settled result) fails
    where
      fails : (r : Result (Unit {0})) → Keeps Kept (failing R repo encode cfg e r)
      fails (ok u) = λ w. P.same w
      fails (err x) = λ w. P.same w

  announce-Settled : (repo : Repository) (ref : Referrer) → Keeps Kept (announce R repo ref)
  announce-Settled repo ref =
      if-Keeps Kept P (Unit {0}) (bytes_eq ref.digest []) (pure tt)
        (say (said "referrer downloaded")) (λ w. P.same w) (λ w q _. inl refl)

  download_all-Settled :
      (repo : Repository) (subject : Bytes) (descs : List Descriptor) (result : RunResult)
      (budget : Option DownloadBudget)
      → All (λ desc. IsPlain (R.encoded desc.digest)) descs
      → Keeps Kept (download_all R repo encode cfg base_dir subject descs result budget)
  unfolding download_all
  download_all-Settled repo subject [] result budget plain = written-Settled result
  download_all-Settled repo subject (desc ∷ descs) result budget (own, plain) =
      >>=-Keeps Kept P (Result (Referrer × Option DownloadBudget)) RunResult
        (attempt (download_referrer R repo desc base_dir subject budget))
        (after_download R repo encode cfg next result)
        (download_referrer-Settled repo desc subject budget own)
        (behind (λ r b. download_all-Settled repo subject descs r b plain))
    where
      next : Onward R repo encode cfg
      next = download_all R repo encode cfg base_dir subject descs

      behind :
          ((r : RunResult) (b : Option DownloadBudget) → Keeps Kept (next r b))
          → (o : Result (Referrer × Option DownloadBudget))
          → Keeps Kept (after_download R repo encode cfg next result o)
      behind onward (err e) = record_and_fail-Settled repo e result
      behind onward (ok (ref, left)) =
          >>=-Keeps Kept P (Unit {0}) RunResult (announce R repo ref)
            (λ _. next (with_referrer R repo ref result) left) (announce-Settled repo ref)
            (λ _. onward (with_referrer R repo ref result) left)

  nothing_listed-Settled : (result : RunResult) → Keeps Kept (nothing_listed R encode cfg result)
  nothing_listed-Settled result =
      saying-Settled RunResult (said "no referrers") (write_result encode cfg result >> pure result)
        (written-Settled result)

  download_listed-Settled :
      (repo : Repository) (subject : Bytes) (result : RunResult) (r : Result (List Descriptor))
      → R.referrers repo subject ≡ r
      → Keeps Kept (download_listed R encode cfg repo subject result r)
  unfolding download_listed
  download_listed-Settled repo subject result (err e) got =
      if-Keeps Kept P RunResult (error_is errdef_unsupported e) (nothing_listed R encode cfg result)
        (fail (wrap "query referrers" e)) (nothing_listed-Settled result) (λ w. P.same w)
  download_listed-Settled repo subject result (ok []) got = nothing_listed-Settled result
  download_listed-Settled repo subject result (ok (desc ∷ descs)) got =
      if-Keeps Kept P RunResult (lt_i64 (max_referrers cfg.max_referrers) (length (desc ∷ descs)))
        (fail (too_many R encode cfg))
        (download_all R repo encode cfg base_dir subject (desc ∷ descs) result budget)
        (λ w. P.same w)
        (download_all-Settled repo subject (desc ∷ descs) result budget
          (listed_plain repo subject (desc ∷ descs) got))
    where
      budget : Option DownloadBudget
      budget = some (new_download_budget cfg.limits)

  -- A download of the referrers changes nothing outside the region.
  pub fetch_referrers-Settled : (digest : Bytes) → Keeps Kept (fetch_referrers R encode cfg digest)
  unfolding fetch_referrers
  fetch_referrers-Settled digest =
      >>=-Keeps Kept P Bytes RunResult
        (lift (wrap_result "parse subject digest" (R.parse_digest digest))) parsed (λ w. P.same w)
        λ subject.
          >>=-Keeps Kept P Repository RunResult (lift (new_oras_repository R.parse_reference cfg))
            (listed subject) (λ w. P.same w)
            λ repo.
              download_listed-Settled repo subject (no_referrers R encode cfg digest)
                (R.referrers repo subject) refl
    where
      listed : Bytes → Repository → M RunResult
      listed subject repo =
          download_listed R encode cfg repo subject (no_referrers R encode cfg digest)
            (R.referrers repo subject)

      parsed : Bytes → M RunResult
      parsed subject = lift (new_oras_repository R.parse_reference cfg) >>= listed subject
