-- ===== src/Pull/Crane.antt =====
-- internal/unpacker/pull.go: `pullWithCrane`, an image into an OCI layout; and `Pull`, which tries
-- the two clients.
use unpacker.Base.{◌∷◌, if◌then◌else◌}
use unpacker.Base.Text.{Bytes, codes}
use unpacker.Path.{join}
use unpacker.Errors.{Error, wrap_two, error_is, use_crane_fallback, Result, ok, err}
use unpacker.Errors.{wrap_result}
use unpacker.System.{
  M, ◌>>=◌, ◌>>◌, pure, fail, attempt, wrapping, lift, say, said, write_file, mkdir_all, remove_all,
}
use unpacker.Config.{Config}
use unpacker.Pull.Budget.{new_download_budget, charge_all}
use unpacker.Pull.Credentials.{CraneOptions, crane_options}
use unpacker.Pull.Oras.{pull_with_oras}
use unpacker.Pull.Registry.{Registry}
use unpacker.Pull.Relabel.{MediaTypes, Manifest, raw_manifest}

-- go-containerregistry: parsing a platform, pulling an image (its manifest only), and writing an
-- OCI layout. `append_image` is given the manifest bytes that the image shows, and its tag.
pub record Crane : Type 1 where
  pub Plat : Type 0
  pub Image : Type 0
  pub parse_platform : Bytes → Result Plat
  pub pull : Bytes → CraneOptions Plat → Result Image
  pub digest : Image → Result Bytes
  pub raw : Image → Result Bytes
  pub decode : Bytes → Result Manifest
  pub encode : Manifest → Result Bytes
  pub layout_write : Bytes → M (Unit {0})
  pub append_image : Bytes → Image → Result Bytes → Bytes → M (Unit {0})

module _ (T : MediaTypes) (C : Crane) where
  -- `ociImage.RawManifest`, and `partial.Manifest`, which decodes it.
  abbrev pub oci_raw : C.Image → Result Bytes
  oci_raw img = raw_manifest T C.decode C.encode (C.raw img)

  abbrev pub decoded : Result Bytes → Result Manifest
  decoded (err e) = err e
  decoded (ok content) = C.decode content

  -- What is written once the sizes are accepted.
  unfoldable pub write_image : Config → C.Image → M (Unit {0})
  unfolding raw_manifest
  write_image cfg img = do
    let tmp = join cfg.output_dir (codes "tmp")
    wrapping "create OCI layout" (C.layout_write tmp)
    wrapping "append image to layout" (C.append_image tmp img (oci_raw img) (codes "latest"))
    content ← lift (wrap_result "get manifest" (oci_raw img))
    write_file (join cfg.output_dir (codes "manifest.json")) content 0o644

  -- `pullWithCrane`: the digest as the registry serves it.
  unfoldable pub pull_with_crane : Config → M Bytes
  unfolding crane_options write_image charge_all new_download_budget
  pull_with_crane cfg = do
    opts ← lift (crane_options C.parse_platform cfg)
    img ← lift (wrap_result "crane pull" (C.pull cfg.image opts))
    served_digest ← lift (wrap_result "resolve image digest" (C.digest img))
    manifest ← lift (wrap_result "read manifest" (decoded (oci_raw img)))
    _ ← lift (charge_all (manifest.config ∷ manifest.layers) (new_download_budget cfg.limits))
    write_image cfg img
    pure served_digest

module _ {Body : Type 0} (R : Registry Body) (C : Crane) where
  -- The outcome of crane, behind a failure of oras.
  abbrev pub after_crane : Error → Result Bytes → M Bytes
  after_crane oras_err (ok digest) = do say (said "resolved"); pure digest
  after_crane oras_err (err crane_err) =
      if error_is use_crane_fallback oras_err
      then fail crane_err
      else fail (wrap_two "oras: %w; crane fallback: %w" oras_err crane_err)

  abbrev pub after_oras : Config → Bytes → Result Bytes → M Bytes
  after_oras cfg tmp (ok digest) = do say (said "resolved"); pure digest
  after_oras cfg tmp (err oras_err) = do
    say (said "oras failed, falling back to go-containerregistry")
    wrapping "clean partial oras output" (remove_all tmp)
    outcome ← attempt (pull_with_crane R.types C cfg)
    after_crane oras_err outcome

  -- `Pull`
  unfoldable pub pull : Config → M Bytes
  unfolding pull_with_oras pull_with_crane
  pull cfg = do
    let tmp = join cfg.output_dir (codes "tmp")
    wrapping "create tmp dir" (mkdir_all tmp 0o755)
    say (said "pulling with oras")
    outcome ← attempt (pull_with_oras R cfg tmp)
    after_oras cfg tmp outcome
