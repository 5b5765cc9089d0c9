-- ===== src/Referrers/Fetch.antt =====
-- internal/unpacker/referrers.go: `FetchReferrers` and `downloadReferrer`.
use unpacker.Base.{ℕ, ◌+◌, List, [], ◌∷◌, ◌++◌, Option, none, some}
use unpacker.Base.{if◌then◌else◌, length}
use unpacker.Base.Text.{Bytes, codes, bytes_eq}
use unpacker.Base.Runes.{runes, decimal}
use unpacker.Base.Word.{lt_i64}
use unpacker.Path.{join, join_all}
use unpacker.Errors.{Error, plain, wrap, limit, error_is, errdef_unsupported, Result, ok, err}
use unpacker.Errors.{wrap_result}
use unpacker.System.{
  M, ◌>>=◌, ◌>>◌, pure, fail, attempt, wrapping, lift, say, said, mkdir_all, write_file,
}
use unpacker.Config.{Config}
use unpacker.Limits.{max_referrers}
use unpacker.Report.{Referrer, RunResult, write_result}
use unpacker.Pull.Budget.{Descriptor, DownloadBudget, new_download_budget, charge_any}
use unpacker.Pull.Blob.{fetch_blob_to_file}
use unpacker.Pull.Credentials.{Repository, new_oras_repository}
use unpacker.Pull.Registry.{Registry, ReferrerManifest}
use unpacker.Referrers.Names.{type_dir_name, safe_file_name, first_non_empty}
use unpacker.Unpack.Layers.{annotation, title_key}

-- `Referrer{}`
abbrev pub zero_referrer : Referrer
zero_referrer = record {
  artifact_type = [];
  media_type = [];
  digest = [];
  size = 0;
  path = [];
  files = [];
  annotations = [];
}

-- `fmt.Sprintf("layer-%d", i)` where no other name is left.
unfoldable pub or_numbered : ℕ → Bytes → Bytes
unfolding decimal
or_numbered i [] = codes "layer-" ++ decimal i
or_numbered i (c ∷ name) = c ∷ name

module _ {Body : Type 0} (R : Registry Body) (repo : Repository) where
  unfoldable pub layer_name : ℕ → Descriptor → Bytes
  unfolding or_numbered safe_file_name annotation
  layer_name i layer =
      or_numbered i
        (safe_file_name (annotation title_key layer.annotations) (R.encoded layer.digest))

  -- The loop over the layers of one referrer.
  unfoldable pub download_layers :
      Bytes
      → ℕ
      → List Descriptor
      → Referrer
      → Option DownloadBudget
      → M (Referrer × Option DownloadBudget)
  unfolding layer_name fetch_blob_to_file
  download_layers dir i [] ref budget = pure (ref, budget)
  download_layers dir i (layer ∷ layers) ref budget = do
    let name = layer_name i layer
    left ← wrapping "referrer" (fetch_blob_to_file (R.client repo) layer (join dir name) budget)
    download_layers dir (i + 1) layers (record ref { files = ref.files ++ (name ∷ []) }) left

  abbrev pub artifact_type_of : ReferrerManifest → Descriptor → Bytes
  artifact_type_of m desc =
      first_non_empty
        (m.artifact_type ∷ desc.artifact_type ∷ m.config_media_type ∷ desc.media_type ∷ [])

  abbrev pub new_referrer : ReferrerManifest → Descriptor → Referrer
  new_referrer m desc =
      let artifact_type = artifact_type_of m desc in
      record {
        artifact_type = artifact_type;
        media_type = desc.media_type;
        digest = desc.digest;
        size = desc.size;
        path =
            join_all (
              codes "referrers" ∷ type_dir_name (runes artifact_type) ∷ R.encoded desc.digest ∷ []);
        files = codes "manifest.json" ∷ [];
        annotations = desc.annotations;
      }

  abbrev pub referrer_dir : Bytes → ReferrerManifest → Descriptor → Bytes
  referrer_dir base_dir m desc =
      join_all
        (base_dir ∷ type_dir_name (runes (artifact_type_of m desc)) ∷ R.encoded desc.digest ∷ [])

  -- What follows the manifest: its layers, where it is a list of layers.
  abbrev pub download_rest :
      Bytes
      → ReferrerManifest
      → Option Error
      → Referrer
      → Option DownloadBudget
      → M (Referrer × Option DownloadBudget)
  download_rest dir m (some e) ref budget = do
    say (said "manifest is not a layer list")
    pure (ref, budget)
  download_rest dir m none ref budget = download_layers dir 0 m.layers ref budget

  -- Behind the check of the subject.
  unfoldable pub file_referrer :
      Descriptor
      → Bytes
      → Bytes
      → ReferrerManifest
      → Option Error
      → Option DownloadBudget
      → M (Referrer × Option DownloadBudget)
  unfolding download_layers
  file_referrer desc base_dir content m parse_error budget = do
    let dir = referrer_dir base_dir m desc
    wrapping "create referrer dir" (mkdir_all dir 0o755)
    wrapping "write referrer manifest" (write_file (join dir (codes "manifest.json")) content 0o644)
    download_rest dir m parse_error (new_referrer m desc) budget

  abbrev pub other_subject : Error
  other_subject = plain "referrer claims another subject: refusing to file it under this image"

  -- The switch on the subject.
  abbrev pub by_subject :
      Option Bytes
      → Bytes
      → Option DownloadBudget
      → M (Referrer × Option DownloadBudget)
      → M (Referrer × Option DownloadBudget)
  by_subject none subject budget filed = do
    say (said "referrer declares no subject")
    pure (zero_referrer, budget)
  by_subject (some s) subject budget filed =
      if bytes_eq s subject then filed else fail other_subject

  -- `downloadReferrer`: the referrer, and the budget that is left.
  unfoldable pub download_referrer :
      Descriptor → Bytes → Bytes → Option DownloadBudget → M (Referrer × Option DownloadBudget)
  unfolding file_referrer charge_any bytes_eq
  download_referrer desc base_dir subject budget = do
    left ← lift (wrap_result "referrer" (charge_any desc budget))
    content ← lift (wrap_result "fetch referrer manifest" (R.fetch_all repo desc))
    let parsed = R.parse_referrer content
    by_subject parsed.0.subject subject left
        (file_referrer desc base_dir content parsed.0 parsed.1 left)

  -- A referrer that was skipped is not recorded.
  abbrev pub with_referrer : Referrer → RunResult → RunResult
  with_referrer ref result =
      if bytes_eq ref.digest []
      then result
      else record result { referrers = result.referrers ++ (ref ∷ []) }

  abbrev pub announce : Referrer → M (Unit {0})
  announce ref = if bytes_eq ref.digest [] then pure tt else say (said "referrer downloaded")

  module _ (encode : RunResult → Result Bytes) (cfg : Config) where
    abbrev pub failing : Error → Result (Unit {0}) → M RunResult
    failing e (ok u) = fail e
    failing e (err x) = fail (wrap "and writing result.json failed" e)

    -- What landed is recorded, and then the run fails.
    unfoldable pub record_and_fail : Error → RunResult → M RunResult
    unfolding write_result
    record_and_fail e result = do
      written ← attempt (write_result encode cfg result)
      failing e written

    abbrev pub Onward : Type 0
    Onward = RunResult → Option DownloadBudget → M RunResult

    -- One round of the loop, behind the download.
    abbrev pub after_download :
        Onward → RunResult → Result (Referrer × Option DownloadBudget) → M RunResult
    after_download next result (err e) = record_and_fail e result
    after_download next result (ok (ref, left)) = do
      announce ref
      next (with_referrer ref result) left

    -- The loop of `FetchReferrers`.
    unfoldable pub download_all : Bytes → Bytes → List Descriptor → Onward
    unfolding download_referrer record_and_fail
    download_all base_dir subject [] result budget = do write_result encode cfg result; pure result
    download_all base_dir subject (desc ∷ descs) result budget = do
      outcome ← attempt (download_referrer desc base_dir subject budget)
      after_download (download_all base_dir subject descs) result outcome

module _ {Body : Type 0} (R : Registry Body) (encode : RunResult → Result Bytes)
    (cfg : Config) where
  abbrev pub no_referrers : Bytes → RunResult
  no_referrers subject_digest = record {
    image = cfg.image;
    digest = subject_digest;
    referrers = [];
    verification = none;
    error = none;
  }

  -- Nothing to download: the result is written as it is.
  abbrev pub nothing_listed : RunResult → M RunResult
  nothing_listed result = do say (said "no referrers"); write_result encode cfg result; pure result

  abbrev pub too_many : Error
  too_many = limit "registry listed more referrers than allowed (--max-referrers)"

  -- The listing of the registry, and what is done with it.
  unfoldable pub download_listed :
      Repository → Bytes → RunResult → Result (List Descriptor) → M RunResult
  unfolding download_all max_referrers new_download_budget
  download_listed repo subject result (err e) =
      if error_is errdef_unsupported e
      then nothing_listed result
      else fail (wrap "query referrers" e)
  download_listed repo subject result (ok []) = nothing_listed result
  download_listed repo subject result (ok (desc ∷ descs)) =
      if lt_i64 (max_referrers cfg.max_referrers) (length (desc ∷ descs))
      then fail too_many
      else download_all R repo encode cfg (join cfg.output_dir (codes "referrers")) subject
          (desc ∷ descs) result (some (new_download_budget cfg.limits))

  -- `FetchReferrers`
  unfoldable pub fetch_referrers : Bytes → M RunResult
  unfolding download_listed new_oras_repository
  fetch_referrers subject_digest = do
    subject ← lift (wrap_result "parse subject digest" (R.parse_digest subject_digest))
    repo ← lift (new_oras_repository R.parse_reference cfg)
    download_listed repo subject (no_referrers subject_digest) (R.referrers repo subject)
