-- ===== src/Pull/Bounded.antt =====
-- How many bytes the blobs of a pull have together.
use unpacker.Base.{
  ℕ, ◌+◌, ◌≤◌, ◌≡◌, refl, ◌∙◌, arith, Bool, true, false, List, ◌∷◌, Option, some, length,
  if◌then◌else◌,
}
use unpacker.Base.Text.{Bytes, codes}
use unpacker.Path.{join}
use unpacker.Errors.{Error, Result, ok, err, wrap_two, wrap_result, error_is, use_crane_fallback}
use unpacker.System.{
  World, M, proceed, ◌>>=◌, ◌>>◌, pure, fail, attempt, wrapping, lift, say, said, write_file,
  mkdir_all, remove_all,
}
use unpacker.System.Keeps.{Keeps, >>=-Keeps}
use unpacker.System.Quiet.{
  Quiet, Quiet-IsPreorder, mkdir_all-Quiet, write_file-Quiet, remove_all-Quiet,
}
use unpacker.Config.{Config}
use unpacker.Limits.{with_defaults}
use unpacker.Pull.Budget.{
  Descriptor, DownloadBudget, AreNat, AreWords, new_download_budget, charge_all,
}
use unpacker.Pull.Credentials.{Repository, CraneOptions, new_oras_repository, crane_options}
use unpacker.Pull.Relabel.{Manifest, crane_fallback_reason}
use unpacker.Pull.Registry.{Registry}
use unpacker.Pull.Oras.{or_latest, decline, pull_layers, pull_artifact, pull_with_oras}
use unpacker.Pull.Crane.{
  Crane, oci_raw, decoded, write_image, pull_with_crane, after_crane, after_oras, pull,
}
use unpacker.Pull.Total.{Copies, pull_layers-WithinLimit}

-- A part that copies nothing, in front of a bounded one.
pub silent-Copies :
    (A B : Type 0) (n : ℕ) (w : World) (f : A → M B) (o : Result A × World)
    → Quiet w o.1
    → ((a : A) (u : World) → Copies n u (f a u))
    → Copies n w (proceed f o)
silent-Copies A B n w f (ok a, u) q next = omega (arith, q, next a u)
silent-Copies A B n w f (err e, u) q next = omega (arith, q)

-- Readers give no more bytes than a descriptor says, the layers of the served manifest have no
-- negative sizes, and the writer of OCI layouts does not use the program's io.Copy.
module _ {Body : Type 0} (R : Registry Body) (C : Crane) (cfg : Config)
    (words : AreWords cfg.limits)
    (is_bounded : (repo : Repository) (desc : Descriptor) (body : Body)
      → length ((R.client repo).passed desc body) ≤ desc.size)
    (layers_nat : (repo : Repository) (desc : Descriptor) (body : Body) (content : Bytes)
        (layers : List Descriptor)
      → R.fetch_reference repo (or_latest repo.reference.reference) ≡ ok (desc, body)
      → R.read_all desc body ≡ ok content
      → R.parse_layers content ≡ ok layers
      → AreNat layers)
    (layout-Quiet : (path : Bytes) → Keeps Quiet (C.layout_write path))
    (image-Quiet : (path : Bytes) (img : C.Image) (raw : Result Bytes) (tag : Bytes)
      → Keeps Quiet (C.append_image path img raw tag)) where
  abbrev cap : ℕ
  cap = (with_defaults cfg.limits).max_total_bytes

  pull_artifact-Copies :
      (tmp : Bytes) (repo : Repository) (desc : Descriptor) (content : Bytes) (w : World)
      → ((layers : List Descriptor) → R.parse_layers content ≡ ok layers → AreNat layers)
      → Copies cap w (pull_artifact R cfg tmp repo desc content w)
  unfolding pull_artifact
  pull_artifact-Copies tmp repo desc content w nat =
      silent-Copies (Unit {0}) Bytes cap w declined
        (lift (decline (crane_fallback_reason R.types R.config_type desc.media_type content)) w)
        refl
        λ _ u.
          silent-Copies (Unit {0}) Bytes cap u written
            (wrapping "write manifest.json" (write_file manifest content 0o644) u)
            (write_file-Quiet manifest content 0o644 u) λ _ x. parsed (R.parse_layers content) nat x
    where
      manifest : Bytes
      manifest = join cfg.output_dir (codes "manifest.json")

      budget : Option DownloadBudget
      budget = some (new_download_budget cfg.limits)

      fetched : List Descriptor → M Bytes
      fetched layers = pull_layers R repo tmp layers budget >> pure desc.digest

      written : Unit {0} → M Bytes
      written _ = lift (wrap_result "parse manifest" (R.parse_layers content)) >>= fetched

      declined : Unit {0} → M Bytes
      declined _ = wrapping "write manifest.json" (write_file manifest content 0o644) >>= written

      ended :
          (x : World) (o : Result (Unit {0}) × World)
          → o.1.copied ≤ x.copied + cap
          → Copies cap x (proceed (λ _. pure desc.digest) o)
      ended x (ok t, y) h = h
      ended x (err e, y) h = h

      parsed :
          (r : Result (List Descriptor))
          → ((layers : List Descriptor) → r ≡ ok layers → AreNat layers)
          → (x : World) → Copies cap x ((lift (wrap_result "parse manifest" r) >>= fetched) x)
      parsed (ok layers) nat x = ended x (pull_layers R repo tmp layers budget x) (
          pull_layers-WithinLimit R is_bounded repo tmp layers cfg.limits x words (nat layers refl))
      parsed (err e) nat x = omega arith

  pull_with_oras-Copies : (tmp : Bytes) (w : World) → Copies cap w (pull_with_oras R cfg tmp w)
  unfolding pull_with_oras
  pull_with_oras-Copies tmp w = found (new_oras_repository R.parse_reference cfg)
    where
      asked : Repository → Result (Descriptor × Body)
      asked repo = R.fetch_reference repo (or_latest repo.reference.reference)

      read : Repository → Descriptor × Body → M Bytes
      read repo (desc, body) =
          lift (wrap_result "read manifest" (R.read_all desc body))
          >>= pull_artifact R cfg tmp repo desc

      verified :
          (repo : Repository) (desc : Descriptor) (body : Body) (r : Result Bytes)
          → asked repo ≡ ok (desc, body)
          → R.read_all desc body ≡ r
          → Copies cap w
              ((lift (wrap_result "read manifest" r) >>= pull_artifact R cfg tmp repo desc) w)
      verified repo desc body (ok content) e q =
          pull_artifact-Copies tmp repo desc content w
            (λ layers. layers_nat repo desc body content layers e q)
      verified repo desc body (err x) e q = omega arith

      served :
          (repo : Repository) (r : Result (Descriptor × Body))
          → asked repo ≡ r
          → Copies cap w ((lift (wrap_result "fetch manifest" r) >>= read repo) w)
      served repo (ok (desc, body)) e = verified repo desc body (R.read_all desc body) e refl
      served repo (err x) e = omega arith

      found :
          (r : Result Repository)
          → Copies cap w (
              (lift r >>= λ repo. lift (wrap_result "fetch manifest" (asked repo)) >>= read repo) w)
      found (ok repo) = served repo (asked repo) refl
      found (err x) = omega arith

  write_image-Quiet : (img : C.Image) → Keeps Quiet (write_image R.types C cfg img)
  unfolding write_image
  write_image-Quiet img =
      >>=-Keeps Quiet Quiet-IsPreorder (Unit {0}) (Unit {0})
        (wrapping "create OCI layout" (C.layout_write tmp)) _ (layout-Quiet tmp)
        λ _.
          >>=-Keeps Quiet Quiet-IsPreorder (Unit {0}) (Unit {0})
            (wrapping "append image to layout" (C.append_image tmp img raw (codes "latest")))
            (λ _. lift (wrap_result "get manifest" raw) >>= written)
            (image-Quiet tmp img raw (codes "latest"))
            λ _.
              >>=-Keeps Quiet Quiet-IsPreorder Bytes (Unit {0})
                (lift (wrap_result "get manifest" raw)) written (λ w. refl)
                (λ content. write_file-Quiet manifest content 0o644)
    where
      tmp : Bytes
      tmp = join cfg.output_dir (codes "tmp")

      manifest : Bytes
      manifest = join cfg.output_dir (codes "manifest.json")

      raw : Result Bytes
      raw = oci_raw R.types C img

      written : Bytes → M (Unit {0})
      written content = write_file manifest content 0o644

  pull_with_crane-Quiet : Keeps Quiet (pull_with_crane R.types C cfg)
  unfolding pull_with_crane
  pull_with_crane-Quiet w = optioned (crane_options C.parse_platform cfg)
    where
      charged : C.Image → Bytes → Manifest → M Bytes
      charged img served manifest =
          lift (charge_all (manifest.config ∷ manifest.layers) (new_download_budget cfg.limits))
          >>= λ _. write_image R.types C cfg img >> pure served

      read : C.Image → Bytes → M Bytes
      read img served =
          lift (wrap_result "read manifest" (decoded R.types C (oci_raw R.types C img)))
          >>= charged img served

      digested : C.Image → M Bytes
      digested img = lift (wrap_result "resolve image digest" (C.digest img)) >>= read img

      pulled : CraneOptions C.Plat → M Bytes
      pulled opts = lift (wrap_result "crane pull" (C.pull cfg.image opts)) >>= digested

      ended :
          (served : Bytes) (o : Result (Unit {0}) × World)
          → Quiet w o.1
          → Quiet w (proceed (λ _. pure served) o).1
      ended served (ok t, y) q = q
      ended served (err e, y) q = q

      fits :
          (img : C.Image) (served : Bytes) (r : Result DownloadBudget)
          → Quiet w ((lift r >>= λ _. write_image R.types C cfg img >> pure served) w).1
      fits img served (ok b) =
          ended served (write_image R.types C cfg img w) (write_image-Quiet img w)
      fits img served (err e) = refl

      sized :
          (img : C.Image) (served : Bytes) (r : Result Manifest)
          → Quiet w ((lift (wrap_result "read manifest" r) >>= charged img served) w).1
      sized img served (ok m) =
          fits img served (charge_all (m.config ∷ m.layers) (new_download_budget cfg.limits))
      sized img served (err e) = refl

      answered :
          (img : C.Image) (r : Result Bytes)
          → Quiet w ((lift (wrap_result "resolve image digest" r) >>= read img) w).1
      answered img (ok served) = sized img served (decoded R.types C (oci_raw R.types C img))
      answered img (err e) = refl

      found : (r : Result C.Image) → Quiet w ((lift (wrap_result "crane pull" r) >>= digested) w).1
      found (ok img) = answered img (C.digest img)
      found (err e) = refl

      optioned : (r : Result (CraneOptions C.Plat)) → Quiet w ((lift r >>= pulled) w).1
      optioned (ok opts) = found (C.pull cfg.image opts)
      optioned (err e) = refl

  after_oras-Quiet : (tmp : Bytes) (r : Result Bytes) → Keeps Quiet (after_oras R C cfg tmp r)
  after_oras-Quiet tmp (ok digest) w = refl
  after_oras-Quiet tmp (err e) w =
      removed (wrapping "clean partial oras output" (remove_all tmp) said_so)
        (remove_all-Quiet tmp said_so)
    where
      said_so : World
      said_so = (say (said "oras failed, falling back to go-containerregistry") w).1

      refused :
          (b : Bool) (x : Error) (u : World)
          → ((if b then fail x else fail {A = Bytes} (wrap_two "oras: %w; crane fallback: %w" e x))
              u).1.copied
            ≡ u.copied
      refused true x u = refl
      refused false x u = refl

      crane : (r : Result Bytes) → Keeps Quiet (after_crane R C e r)
      crane (ok digest) = λ u. refl
      crane (err x) = refused (error_is use_crane_fallback e) x

      removed :
          (o : Result (Unit {0}) × World)
          → Quiet said_so o.1
          → Quiet w
              (proceed (λ _. attempt (pull_with_crane R.types C cfg) >>= after_crane R C e) o).1
      removed (ok t, u) q =
          >>=-Keeps Quiet Quiet-IsPreorder (Result Bytes) Bytes
            (attempt (pull_with_crane R.types C cfg)) (after_crane R C e) pull_with_crane-Quiet
            crane u
          ∙ q
      removed (err x, u) q = q

  -- On every outcome, the blobs that a pull downloads itself have no more than the resolved
  -- --max-total-bytes together.
  pub pull-Copies : (w : World) → Copies cap w (pull R C cfg w)
  unfolding pull
  pull-Copies w =
      silent-Copies (Unit {0}) Bytes cap w tried (wrapping "create tmp dir" (mkdir_all tmp 0o755) w)
        (mkdir_all-Quiet tmp 0o755 w)
        λ _ u. ended u (pull_with_oras R cfg tmp (told u)) (pull_with_oras-Copies tmp (told u))
    where
      tmp : Bytes
      tmp = join cfg.output_dir (codes "tmp")

      told : World → World
      told u = (say (said "pulling with oras") u).1

      tried : Unit {0} → M Bytes
      tried _ =
          say (said "pulling with oras")
          >> (attempt (pull_with_oras R cfg tmp) >>= after_oras R C cfg tmp)

      ended :
          (u : World) (o : Result Bytes × World)
          → Copies cap (told u) o
          → Copies cap u (after_oras R C cfg tmp o.0 o.1)
      ended u (r, x) h = omega (arith, h, after_oras-Quiet tmp r x)
