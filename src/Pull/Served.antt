-- ===== src/Pull/Served.antt =====
-- internal/unpacker/pull.go: the manifest.json of a pull, by the client that has written it.
use unpacker.Base.{◌≡◌, refl, ap, subst, ◌⊎◌, ◌∷◌, none}
use unpacker.Base.Text.{Bytes, codes}
use unpacker.Errors.{Result, ok, err, wrap_result}
use unpacker.System.{World, M, ◌>>=◌, ◌>>◌, pure, lift, write_file}
use unpacker.System.Disk.{Disk}
use unpacker.System.Leaves.{
  Leaves, >>=-Leaves, wrapping-Leaves, lift-Leaves, lift-wrap_result-Leaves,
}
use unpacker.System.Reads.{Holds}
use unpacker.System.Stored.{write_file-Holds}
use unpacker.Config.{Config}
use unpacker.Pull.Budget.{Descriptor, DownloadBudget, new_download_budget, charge_all}
use unpacker.Pull.Credentials.{Repository, CraneOptions, new_oras_repository, crane_options}
use unpacker.Pull.Relabel.{Manifest, crane_fallback_reason}
use unpacker.Pull.Registry.{Registry}
use unpacker.Pull.Oras.{or_latest}
use unpacker.Pull.Crane.{Crane, oci_raw, decoded, write_image, pull_with_crane}
use unpacker.Pull.Settled.{tmp_dir, manifest_path}

module _ {Body : Type 0} (R : Registry Body) (C : Crane) (cfg : Config) where
  -- The manifest of an artifact, as the registry has served it and `content.ReadAll` has let it
  -- through, under the digest of its descriptor.
  abbrev pub ByOras : Bytes → Disk → Type 0
  ByOras digest d =
      (repo : Repository) × (desc : Descriptor) × (body : Body) × (content : Bytes)
      × (new_oras_repository R.parse_reference cfg ≡ ok repo)
      × (R.fetch_reference repo (or_latest repo.reference.reference) ≡ ok (desc, body))
      × (R.read_all desc body ≡ ok content)
      × (crane_fallback_reason R.types R.config_type desc.media_type content ≡ none)
      × (digest ≡ desc.digest)
      × Holds d (manifest_path cfg) content

  -- The manifest of an image, as OCI, under the digest that the registry serves; its declared sizes
  -- were accepted.
  abbrev pub ByCrane : Bytes → Disk → Type 0
  ByCrane digest d =
      (opts : CraneOptions C.Plat) × (img : C.Image) × (manifest : Manifest)
      × (left : DownloadBudget) × (content : Bytes) × (crane_options C.parse_platform cfg ≡ ok opts)
      × (C.pull cfg.image opts ≡ ok img)
      × (C.digest img ≡ ok digest)
      × (decoded R.types C (oci_raw R.types C img) ≡ ok manifest)
      × (charge_all (manifest.config ∷ manifest.layers) (new_download_budget cfg.limits) ≡ ok left)
      × (oci_raw R.types C img ≡ ok content)
      × Holds d (manifest_path cfg) content

  abbrev pub IsServed : Bytes → Disk → Type 0
  IsServed digest d = ByOras digest d ⊎ ByCrane digest d

  -- What a write of manifest.json leaves.
  pub written-Holds :
      (content : Bytes) (w u : World)
      → write_file (manifest_path cfg) content 0o644 w ≡ (ok tt, u)
      → Holds u.disk (manifest_path cfg) content
  written-Holds content w u h =
      subst (λ (o : Result (Unit {0}) × World). Holds o.1.disk (manifest_path cfg) content) h
        (write_file-Holds (manifest_path cfg) content 0o644 w
          (ap (λ (o : Result (Unit {0}) × World). o.0) h))

  abbrev Shown : C.Image → Unit {0} → World → Type 0
  Shown img t v =
      (content : Bytes) × (oci_raw R.types C img ≡ ok content)
      × Holds v.disk (manifest_path cfg) content

  write_image-Shown :
      (img : C.Image) (w : World) → Leaves (Shown img) (write_image R.types C cfg img w)
  unfolding write_image
  write_image-Shown img w =
      wrapping-Leaves (Shown img) (Unit {0}) "create OCI layout" (C.layout_write tmp) _ w λ _ u _.
        wrapping-Leaves (Shown img) (Unit {0}) "append image to layout"
          (C.append_image tmp img raw (codes "latest"))
          (λ _. lift (wrap_result "get manifest" raw) >>= written) u
          λ _ x _.
            lift-wrap_result-Leaves (Shown img) Bytes "get manifest" raw written x
              λ content shown. stored content shown x (written content x) refl
    where
      tmp : Bytes
      tmp = tmp_dir cfg

      raw : Result Bytes
      raw = oci_raw R.types C img

      written : Bytes → M (Unit {0})
      written content = write_file (manifest_path cfg) content 0o644

      stored :
          (content : Bytes)
          → raw ≡ ok content
          → (x : World) (o : Result (Unit {0}) × World) → written content x ≡ o
          → Leaves (Shown img) o
      stored content shown x (ok t, y) e = (content, shown, written-Holds content x y e)
      stored content shown x (err z, y) e = tt

  pub pull_with_crane-ByCrane :
      (w : World) → Leaves (λ digest v. ByCrane digest v.disk) (pull_with_crane R.types C cfg w)
  unfolding pull_with_crane
  pull_with_crane-ByCrane w =
      lift-Leaves Q (CraneOptions C.Plat) (crane_options C.parse_platform cfg) _ w λ opts made.
        lift-wrap_result-Leaves Q C.Image "crane pull" (C.pull cfg.image opts) digested w
          λ img pulled.
            lift-wrap_result-Leaves Q Bytes "resolve image digest" (C.digest img) (read img) w
              λ served answered.
                lift-wrap_result-Leaves Q Manifest "read manifest"
                  (decoded R.types C (oci_raw R.types C img)) (charged img served) w
                  λ manifest sized.
                    lift-Leaves Q DownloadBudget
                      (charge_all (manifest.config ∷ manifest.layers)
                        (new_download_budget cfg.limits))
                      (λ _. write_image R.types C cfg img >> pure served) w
                      λ left accepted.
                        >>=-Leaves Q (Unit {0}) (write_image R.types C cfg img) (λ _. pure served) w
                          λ _ u wrote.
                            let (content, raw, held) =
                              subst (Leaves (Shown img)) wrote (write_image-Shown img w) in
                            (
                              opts, img, manifest, left, content, made, pulled, answered, sized,
                              accepted, raw, held,
                            )
    where
      Q : Bytes → World → Type 0
      Q digest v = ByCrane digest v.disk

      charged : C.Image → Bytes → Manifest → M Bytes
      charged img served manifest =
          lift (charge_all (manifest.config ∷ manifest.layers) (new_download_budget cfg.limits))
          >>= λ _. write_image R.types C cfg img >> pure served

      read : C.Image → Bytes → M Bytes
      read img served =
          lift (wrap_result "read manifest" (decoded R.types C (oci_raw R.types C img)))
          >>= charged img served

      digested : C.Image → M Bytes
      digested img = lift (wrap_result "resolve image digest" (C.digest img)) >>= read img
