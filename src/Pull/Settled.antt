-- ===== src/Pull/Settled.antt =====
-- The paths that `Pull` changes.
use unpacker.Base.{
  ◌≡◌, subst, Bool, true, false, List, [], ◌∷◌, ◌++◌, All, Option, some, if◌then◌else◌,
}
use unpacker.Base.Text.{Bytes, codes}
use unpacker.Path.{join, clean}
use unpacker.Path.Confine.{IsBelow}
use unpacker.Path.Names.{clean-join}
use unpacker.Errors.{Error, Result, ok, err, wrap_two, wrap_result, error_is, use_crane_fallback}
use unpacker.System.{
  World, M, ◌>>=◌, ◌>>◌, pure, fail, attempt, wrapping, lift, say, said, LogLine, write_file,
  mkdir_all, remove_all, within, ancestors,
}
use unpacker.System.Keeps.{Keeps, IsPreorder, >>=-Keeps, >>=-Keeps_of}
use unpacker.System.Yields.{lift-Yields}
use unpacker.System.Ancestors.{OneOf, Near, ancestors_self-Near}
use unpacker.System.Confined.{Confined, mkdir_all-Confined}
use unpacker.System.Stored.{write_file-OnlyAt}
use unpacker.System.Settled.{
  Settled, Settled-IsPreorder, Confined-Settled, OnlyAt-Settled, remove_all-Settled,
}
use unpacker.Config.{Config}
use unpacker.Pull.Budget.{Descriptor, DownloadBudget, new_download_budget, charge_all}
use unpacker.Pull.Credentials.{Repository, CraneOptions, new_oras_repository, crane_options}
use unpacker.Pull.Relabel.{Manifest, crane_fallback_reason}
use unpacker.Pull.Registry.{Registry}
use unpacker.Pull.Oras.{or_latest, blob_name, decline, pull_layers, pull_artifact, pull_with_oras}
use unpacker.Pull.Crane.{
  Crane, oci_raw, decoded, write_image, pull_with_crane, after_crane, after_oras, pull,
}
use unpacker.Pull.Confined.{pull_layers-Confined}

abbrev pub tmp_dir : Config → Bytes
tmp_dir cfg = join cfg.output_dir (codes "tmp")

abbrev pub manifest_path : Config → Bytes
manifest_path cfg = join cfg.output_dir (codes "manifest.json")

-- In a region that holds tmp/ and manifest.json: the layers of the served manifest have names that
-- lead below tmp/, and the writer of OCI layouts stays below it.
module _ (inside : Bytes → Bool) (OnWay : Bytes → Type 0) {Body : Type 0} (R : Registry Body)
    (C : Crane) (cfg : Config)
    (holds_tmp : (q : Bytes) → within (tmp_dir cfg) q ≡ true → inside q ≡ true)
    (on_way : (q : Bytes) → OneOf q (ancestors (tmp_dir cfg)) → OnWay q)
    (holds_manifest : inside (manifest_path cfg) ≡ true)
    (named : (repo : Repository) (desc : Descriptor) (body : Body) (content : Bytes)
        (layers : List Descriptor)
      → R.fetch_reference repo (or_latest repo.reference.reference) ≡ ok (desc, body)
      → R.read_all desc body ≡ ok content
      → R.parse_layers content ≡ ok layers
      → All (λ layer. IsBelow (tmp_dir cfg) (join (tmp_dir cfg) (blob_name layer))) layers)
    (layout_stays : Keeps (Confined (tmp_dir cfg)) (C.layout_write (tmp_dir cfg)))
    (image_stays : (img : C.Image) (raw : Result Bytes) (tag : Bytes)
      → Keeps (Confined (tmp_dir cfg)) (C.append_image (tmp_dir cfg) img raw tag)) where
  abbrev tmp : Bytes
  tmp = tmp_dir cfg

  abbrev Kept : World → World → Type 0
  Kept = Settled inside OnWay

  P : IsPreorder Kept
  P = Settled-IsPreorder inside OnWay

  clean-tmp : clean tmp ≡ tmp
  clean-tmp = clean-join cfg.output_dir b't' (codes "mp")

  in_tmp : (A : Type 0) (m : M A) → Keeps (Confined tmp) m → Keeps Kept m
  in_tmp A m stays w =
      Confined-Settled inside OnWay tmp w (m w).1 clean-tmp holds_tmp
        (λ q o. on_way q (subst (λ z. OneOf q (ancestors z)) clean-tmp o)) (stays w)

  saying-Settled : (A : Type 0) (l : LogLine) (m : M A) → Keeps Kept m → Keeps Kept (say l >> m)
  saying-Settled A l m h w = h (record w { log = w.log ++ (l ∷ []) })

  write_manifest-Settled :
      (content : Bytes) → Keeps Kept (write_file (manifest_path cfg) content 0o644)
  write_manifest-Settled content w =
      OnlyAt-Settled inside OnWay (manifest_path cfg) w
        (write_file (manifest_path cfg) content 0o644 w).1 holds_manifest
        (write_file-OnlyAt (manifest_path cfg) content 0o644 w)

  pull_artifact-Settled :
      (repo : Repository) (desc : Descriptor) (content : Bytes)
      → ((layers : List Descriptor)
          → R.parse_layers content ≡ ok layers
          → All (λ layer. IsBelow tmp (join tmp (blob_name layer))) layers)
      → Keeps Kept (pull_artifact R cfg tmp repo desc content)
  unfolding pull_artifact
  pull_artifact-Settled repo desc content below =
      >>=-Keeps Kept P (Unit {0}) Bytes
        (lift (decline (crane_fallback_reason R.types R.config_type desc.media_type content))) _
        (λ w. P.same w)
        λ _.
          >>=-Keeps Kept P (Unit {0}) Bytes
            (wrapping "write manifest.json" (write_file (manifest_path cfg) content 0o644))
            (λ _. lift (wrap_result "parse manifest" (R.parse_layers content)) >>= fetched)
            (write_manifest-Settled content)
            λ _.
              >>=-Keeps_of Kept P (List Descriptor) Bytes
                (λ layers. R.parse_layers content ≡ ok layers)
                (lift (wrap_result "parse manifest" (R.parse_layers content))) fetched
                (λ w. P.same w) (lift-Yields "parse manifest" (R.parse_layers content))
                λ layers parsed.
                  >>=-Keeps Kept P (Unit {0}) Bytes (pull_layers R repo tmp layers budget)
                    (λ _. pure desc.digest)
                    (in_tmp (Unit {0}) (pull_layers R repo tmp layers budget)
                      (λ w. pull_layers-Confined R repo tmp layers budget w (below layers parsed)))
                    (λ _ w. P.same w)
    where
      budget : Option DownloadBudget
      budget = some (new_download_budget cfg.limits)

      fetched : List Descriptor → M Bytes
      fetched layers = pull_layers R repo tmp layers budget >> pure desc.digest

  pull_with_oras-Settled : Keeps Kept (pull_with_oras R cfg tmp)
  unfolding pull_with_oras
  pull_with_oras-Settled =
      >>=-Keeps Kept P Repository Bytes (lift (new_oras_repository R.parse_reference cfg)) found
        (λ w. P.same w)
        λ repo.
          >>=-Keeps_of Kept P (Descriptor × Body) Bytes (λ served. asked repo ≡ ok served)
            (lift (wrap_result "fetch manifest" (asked repo))) (read repo) (λ w. P.same w)
            (lift-Yields "fetch manifest" (asked repo))
            λ (desc, body) served.
              >>=-Keeps_of Kept P Bytes Bytes (λ content. R.read_all desc body ≡ ok content)
                (lift (wrap_result "read manifest" (R.read_all desc body)))
                (pull_artifact R cfg tmp repo desc) (λ w. P.same w)
                (lift-Yields "read manifest" (R.read_all desc body))
                λ content verified.
                  pull_artifact-Settled repo desc content
                    (λ layers. named repo desc body content layers served verified)
    where
      asked : Repository → Result (Descriptor × Body)
      asked repo = R.fetch_reference repo (or_latest repo.reference.reference)

      read : Repository → Descriptor × Body → M Bytes
      read repo (desc, body) =
          lift (wrap_result "read manifest" (R.read_all desc body))
          >>= pull_artifact R cfg tmp repo desc

      found : Repository → M Bytes
      found repo = lift (wrap_result "fetch manifest" (asked repo)) >>= read repo

  write_image-Settled : (img : C.Image) → Keeps Kept (write_image R.types C cfg img)
  unfolding write_image
  write_image-Settled img =
      >>=-Keeps Kept P (Unit {0}) (Unit {0}) (wrapping "create OCI layout" (C.layout_write tmp)) _
        (in_tmp (Unit {0}) (C.layout_write tmp) layout_stays)
        λ _.
          >>=-Keeps Kept P (Unit {0}) (Unit {0})
            (wrapping "append image to layout" (C.append_image tmp img raw (codes "latest")))
            (λ _. lift (wrap_result "get manifest" raw) >>= written)
            (in_tmp (Unit {0}) (C.append_image tmp img raw (codes "latest"))
              (image_stays img raw (codes "latest")))
            λ _.
              >>=-Keeps Kept P Bytes (Unit {0}) (lift (wrap_result "get manifest" raw)) written
                (λ w. P.same w) write_manifest-Settled
    where
      raw : Result Bytes
      raw = oci_raw R.types C img

      written : Bytes → M (Unit {0})
      written content = write_file (manifest_path cfg) content 0o644

  pull_with_crane-Settled : Keeps Kept (pull_with_crane R.types C cfg)
  unfolding pull_with_crane
  pull_with_crane-Settled =
      >>=-Keeps Kept P (CraneOptions C.Plat) Bytes (lift (crane_options C.parse_platform cfg))
        (λ opts. lift (wrap_result "crane pull" (C.pull cfg.image opts)) >>= digested)
        (λ w. P.same w)
        λ opts.
          >>=-Keeps Kept P C.Image Bytes (lift (wrap_result "crane pull" (C.pull cfg.image opts)))
            digested (λ w. P.same w)
            λ img.
              >>=-Keeps Kept P Bytes Bytes
                (lift (wrap_result "resolve image digest" (C.digest img))) (read img)
                (λ w. P.same w)
                λ served.
                  >>=-Keeps Kept P Manifest Bytes
                    (lift (wrap_result "read manifest" (decoded R.types C (oci_raw R.types C img))))
                    (charged img served) (λ w. P.same w)
                    λ manifest.
                      >>=-Keeps Kept P DownloadBudget Bytes
                        (lift (
                          charge_all (manifest.config ∷ manifest.layers)
                            (new_download_budget cfg.limits)))
                        (λ _. write_image R.types C cfg img >> pure served) (λ w. P.same w)
                        λ _.
                          >>=-Keeps Kept P (Unit {0}) Bytes (write_image R.types C cfg img)
                            (λ _. pure served) (write_image-Settled img) (λ _ w. P.same w)
    where
      charged : C.Image → Bytes → Manifest → M Bytes
      charged img served manifest =
          lift (charge_all (manifest.config ∷ manifest.layers) (new_download_budget cfg.limits))
          >>= λ _. write_image R.types C cfg img >> pure served

      read : C.Image → Bytes → M Bytes
      read img served =
          lift (wrap_result "read manifest" (decoded R.types C (oci_raw R.types C img)))
          >>= charged img served

      digested : C.Image → M Bytes
      digested img = lift (wrap_result "resolve image digest" (C.digest img)) >>= read img

  after_oras-Settled : (r : Result Bytes) → Keeps Kept (after_oras R C cfg tmp r)
  after_oras-Settled (ok digest) =
      saying-Settled Bytes (said "resolved") (pure digest) (λ w. P.same w)
  after_oras-Settled (err e) =
      saying-Settled Bytes (said "oras failed, falling back to go-containerregistry") cleaned (
        >>=-Keeps Kept P (Unit {0}) Bytes (wrapping "clean partial oras output" (remove_all tmp))
          (λ _. attempt (pull_with_crane R.types C cfg) >>= after_crane R C e)
          (remove_all-Settled inside OnWay tmp holds_tmp)
          λ _.
            >>=-Keeps Kept P (Result Bytes) Bytes (attempt (pull_with_crane R.types C cfg))
              (after_crane R C e) pull_with_crane-Settled crane)
    where
      cleaned : M Bytes
      cleaned =
          wrapping "clean partial oras output" (remove_all tmp)
          >> (attempt (pull_with_crane R.types C cfg) >>= after_crane R C e)

      refused :
          (b : Bool) (x : Error)
          → Keeps Kept {A = Bytes}
              (if b then fail x else fail (wrap_two "oras: %w; crane fallback: %w" e x))
      refused true x w = P.same w
      refused false x w = P.same w

      crane : (r : Result Bytes) → Keeps Kept (after_crane R C e r)
      crane (ok digest) = saying-Settled Bytes (said "resolved") (pure digest) (λ w. P.same w)
      crane (err x) = refused (error_is use_crane_fallback e) x

  -- A pull changes nothing outside the region.
  pub pull-Settled : Keeps Kept (pull R C cfg)
  unfolding pull
  pull-Settled =
      >>=-Keeps Kept P (Unit {0}) Bytes (wrapping "create tmp dir" (mkdir_all tmp 0o755)) _
        (in_tmp (Unit {0}) (mkdir_all tmp 0o755) made)
        λ _.
          saying-Settled Bytes (said "pulling with oras")
            (attempt (pull_with_oras R cfg tmp) >>= after_oras R C cfg tmp)
            (>>=-Keeps Kept P (Result Bytes) Bytes (attempt (pull_with_oras R cfg tmp))
              (after_oras R C cfg tmp) pull_with_oras-Settled after_oras-Settled)
    where
      made : Keeps (Confined tmp) (mkdir_all tmp 0o755)
      made =
          mkdir_all-Confined tmp tmp 0o755
            (subst (λ z. All (Near tmp) (ancestors z)) clean-tmp (ancestors_self-Near tmp))
