-- ===== src/Referrers/Subject.antt =====
-- internal/unpacker/referrers.go: the subjects that the records of downloadReferrer name.

use mathlib.Core.List.{Memᴰ}
use unpacker.Base.{
  ◌≡◌, refl, ap, ◌∙◌, arith, ◌⊎◌, inl, inr, ℕ, ◌+◌, Bool, true, false, List, [], ◌∷◌, ◌++◌, Option,
  none, some,
}
use unpacker.Base.{if◌then◌else◌}
use unpacker.Base.Text.{Bytes, codes, bytes_eq, bytes_eq_iff}
use unpacker.Errors.{Error, wrap_result, Result, ok, err}
use unpacker.System.{World, M, ◌>>=◌, ◌>>◌, fail, wrapping, lift, write_file, mkdir_all}
use unpacker.Path.{join}
use unpacker.Pull.Blob.{fetch_blob_to_file}
use unpacker.System.Yields.{Yields, >>=-Yields}
use unpacker.Report.{Referrer}
use unpacker.Pull.Budget.{charge_any, Descriptor, DownloadBudget}
use unpacker.Pull.Credentials.{Repository}
use unpacker.Pull.Registry.{Registry, ReferrerManifest}
use unpacker.Referrers.Fetch.{
  layer_name, referrer_dir, other_subject, download_layers, download_rest, new_referrer,
  file_referrer, by_subject, download_referrer,
}

module _ {Body : Type 0} (R : Registry Body) (repo : Repository) where
  -- The digest of the record is the one of its descriptor.
  abbrev HasDigest : Bytes → Referrer × Option DownloadBudget → Type 0
  HasDigest digest got = got.0.digest ≡ digest

  download_layers-digest :
      (dir : Bytes) (i : ℕ) (layers : List Descriptor) (ref : Referrer)
      (budget : Option DownloadBudget) (w : World)
      → Yields (HasDigest ref.digest) (download_layers R repo dir i layers ref budget w)
  unfolding download_layers
  download_layers-digest dir i [] ref budget w = refl
  download_layers-digest dir i (layer ∷ layers) ref budget w =
      let name = layer_name R repo i layer in
      let kept : Referrer = record ref { files = ref.files ++ (name ∷ []) } in
      >>=-Yields (HasDigest ref.digest)
        (wrapping "referrer" (fetch_blob_to_file (R.client repo) layer (join dir name) budget))
        (download_layers R repo dir (i + 1) layers kept) w
        (λ left u _. download_layers-digest dir (i + 1) layers kept left u)

  download_rest-digest :
      (dir : Bytes) (m : ReferrerManifest) (e : Option Error) (ref : Referrer)
      (budget : Option DownloadBudget) (w : World)
      → Yields (HasDigest ref.digest) (download_rest R repo dir m e ref budget w)
  download_rest-digest dir m (some e) ref budget w = refl
  download_rest-digest dir m none ref budget w = download_layers-digest dir 0 m.layers ref budget w

  file_referrer-digest :
      (desc : Descriptor) (base_dir content : Bytes) (m : ReferrerManifest) (e : Option Error)
      (budget : Option DownloadBudget) (w : World)
      → Yields (HasDigest desc.digest) (file_referrer R repo desc base_dir content m e budget w)
  unfolding file_referrer
  file_referrer-digest desc base_dir content m e budget w =
      let dir = referrer_dir R repo base_dir m desc in
      let stored =
        wrapping "write referrer manifest"
          (write_file (join dir (codes "manifest.json")) content 0o644) in
      let rest = download_rest R repo dir m e (new_referrer R repo m desc) budget in
      >>=-Yields (HasDigest desc.digest) (wrapping "create referrer dir" (mkdir_all dir 0o755))
        (λ _. stored >> rest) w
        (λ _ u _.
          >>=-Yields (HasDigest desc.digest) stored (λ _. rest) u
            (λ _ v _. download_rest-digest dir m e (new_referrer R repo m desc) budget v))

  -- A record of a listed referrer whose manifest, as the client has verified it, names the subject.
  abbrev pub IsFiled : Bytes → List Descriptor → Referrer → Type 0
  IsFiled subject listed ref =
      (desc : Descriptor) × (content : Bytes) × Memᴰ desc listed
      × (ref.digest ≡ desc.digest)
      × (R.fetch_all repo desc ≡ ok content)
      × ((R.parse_referrer content).0.subject ≡ some subject)

  -- A skipped referrer has no digest.
  abbrev pub IsKept : Bytes → List Descriptor → Referrer × Option DownloadBudget → Type 0
  IsKept subject listed got = (got.0.digest ≡ []) ⊎ IsFiled subject listed got.0

  by_subject-IsKept :
      (desc : Descriptor) (base_dir content subject : Bytes) (listed : List Descriptor)
      (s : Option Bytes) (budget : Option DownloadBudget) (w : World)
      → Memᴰ desc listed
      → R.fetch_all repo desc ≡ ok content
      → (R.parse_referrer content).0.subject ≡ s
      → Yields (IsKept subject listed) (
          by_subject R repo s subject budget
            (file_referrer R repo desc base_dir content
              (R.parse_referrer content).0
              (R.parse_referrer content).1
              budget)
            w)
  by_subject-IsKept desc base_dir content subject listed none budget w mem got said = inl refl
  by_subject-IsKept desc base_dir content subject listed (some s) budget w mem got said =
      chosen (bytes_eq s subject) refl
    where
      m : ReferrerManifest × Option Error
      m = R.parse_referrer content

      filed : M (Referrer × Option DownloadBudget)
      filed = file_referrer R repo desc base_dir content m.0 m.1 budget

      found :
          (o : Result (Referrer × Option DownloadBudget) × World)
          → s ≡ subject
          → Yields (HasDigest desc.digest) o
          → Yields (IsKept subject listed) o
      found (ok ref, u) same digest = inr (desc, content, mem, digest, got, said ∙ ap some same)
      found (err e, u) same digest = tt

      chosen :
          (b : Bool)
          → bytes_eq s subject ≡ b
          → Yields (IsKept subject listed) ((if b then filed else fail (other_subject R repo)) w)
      chosen true h =
          found (filed w) (ground (arith, bytes_eq_iff s subject))
            (file_referrer-digest desc base_dir content m.0 m.1 budget w)
      chosen false h = tt

  pub download_referrer-IsKept :
      (desc : Descriptor) (base_dir subject : Bytes) (listed : List Descriptor)
      (budget : Option DownloadBudget) (w : World)
      → Memᴰ desc listed
      → Yields (IsKept subject listed) (download_referrer R repo desc base_dir subject budget w)
  unfolding download_referrer
  download_referrer-IsKept desc base_dir subject listed budget w mem =
      >>=-Yields Q (lift (wrap_result "referrer" (charge_any desc budget))) rest w
        (λ left u _. manifest left u (R.fetch_all repo desc) refl)
    where
      Q : Referrer × Option DownloadBudget → Type 0
      Q = IsKept subject listed

      behind : Option DownloadBudget → Bytes → M (Referrer × Option DownloadBudget)
      behind left content = by_subject R repo (R.parse_referrer content).0.subject subject left (
          file_referrer R repo desc base_dir content (R.parse_referrer content).0
            (R.parse_referrer content).1 left)

      rest : Option DownloadBudget → M (Referrer × Option DownloadBudget)
      rest left = do
        content ← lift (wrap_result "fetch referrer manifest" (R.fetch_all repo desc))
        behind left content

      manifest :
          (left : Option DownloadBudget) (u : World) (r : Result Bytes)
          → R.fetch_all repo desc ≡ r
          → Yields Q ((lift (wrap_result "fetch referrer manifest" r) >>= behind left) u)
      manifest left u (err e) got = tt
      manifest left u (ok content) got =
          by_subject-IsKept desc base_dir content subject listed
            (R.parse_referrer content).0.subject left u mem got refl
