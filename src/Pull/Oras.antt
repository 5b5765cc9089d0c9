-- ===== src/Pull/Oras.antt =====
-- internal/unpacker/pull.go: `pullWithOras`, a manifest and its blobs straight from the registry.
use unpacker.Base.{List, [], ◌∷◌, Option, none, some}
use unpacker.Base.Text.{Bytes, codes}
use unpacker.Path.{join}
use unpacker.Errors.{sentinel, use_crane_fallback, wrap, Result, ok, err, wrap_result}
use unpacker.System.{M, ◌>>=◌, ◌>>◌, pure, wrapping, lift, write_file}
use unpacker.Config.{Config}
use unpacker.Pull.Budget.{Descriptor, DownloadBudget, new_download_budget}
use unpacker.Pull.Blob.{fetch_blob_to_file}
use unpacker.Pull.Credentials.{Repository, new_oras_repository}
use unpacker.Pull.Registry.{Registry}
use unpacker.Pull.Relabel.{FallbackReason, crane_fallback_reason}
use unpacker.Unpack.Layers.{annotation, title_key, cut_colon}

-- The reference that is asked for: `latest` where there is none.
abbrev pub or_latest : Bytes → Bytes
or_latest [] = codes "latest"
or_latest (c ∷ s) = c ∷ s

abbrev titled_or : Option (Bytes × Bytes) → Bytes → Bytes → Bytes
titled_or parts digest (c ∷ title) = c ∷ title
titled_or (some (algo, hex)) digest [] = hex
titled_or none digest [] = digest

-- The title of a layer as it stands, else the hex of its digest.
unfoldable pub blob_name : Descriptor → Bytes
unfolding annotation cut_colon
blob_name layer =
    titled_or (cut_colon layer.digest []) layer.digest (annotation title_key layer.annotations)

-- The descriptor that is fetched.
abbrev pub layer_desc : Descriptor → Descriptor
layer_desc layer = record layer { artifact_type = []; annotations = [] }

-- `fmt.Errorf("%s: %w", reason, errUseCraneFallback)`, where there is a reason.
abbrev pub decline : Option FallbackReason → Result (Unit {0})
decline none = ok tt
decline (some reason) = err (wrap "not for oras" (sentinel use_crane_fallback))

module _ {Body : Type 0} (R : Registry Body) where
  -- The loop over the layers, on one budget.
  unfoldable pub pull_layers :
      Repository → Bytes → List Descriptor → Option DownloadBudget → M (Unit {0})
  unfolding fetch_blob_to_file blob_name
  pull_layers repo tmp [] budget = pure tt
  pull_layers repo tmp (layer ∷ layers) budget = do
    left ← fetch_blob_to_file (R.client repo) (layer_desc layer) (join tmp (blob_name layer)) budget
    pull_layers repo tmp layers left

  -- Behind the manifest.
  unfoldable pub pull_artifact : Config → Bytes → Repository → Descriptor → Bytes → M Bytes
  unfolding pull_layers crane_fallback_reason new_download_budget
  pull_artifact cfg tmp repo desc content = do
    lift (decline (crane_fallback_reason R.types R.config_type desc.media_type content))
    wrapping "write manifest.json"
        (write_file (join cfg.output_dir (codes "manifest.json")) content 0o644)
    layers ← lift (wrap_result "parse manifest" (R.parse_layers content))
    pull_layers repo tmp layers (some (new_download_budget cfg.limits))
    pure desc.digest

  -- `pullWithOras`: the digest of the manifest.
  unfoldable pub pull_with_oras : Config → Bytes → M Bytes
  unfolding pull_artifact new_oras_repository
  pull_with_oras cfg tmp = do
    repo ← lift (new_oras_repository R.parse_reference cfg)
    (desc, body) ←
        lift (
          wrap_result "fetch manifest"
            (R.fetch_reference repo (or_latest repo.reference.reference)))
    content ← lift (wrap_result "read manifest" (R.read_all desc body))
    pull_artifact cfg tmp repo desc content
