-- ===== src/Referrers/Confined.antt =====
-- Where the downloads of a referrer land.
use unpacker.Base.{
  ℕ, ◌+◌, ◌≡◌, refl, arith, sym, subst, ◌⊎◌, inl, inr, Bool, true, false, List, [], ◌∷◌, ◌++◌,
  Option, none, some, All,
}
use unpacker.Base.{if◌then◌else◌, take}
use unpacker.Base.Runes.{runes}
use unpacker.Base.Text.{Bytes, codes, bytes_eq, bytes_eq_refl}
use unpacker.Path.{join, clean}
use unpacker.Path.Confine.{EndsInName, IsBelow, join-EndsInName}
use unpacker.Path.Names.{IsPlain, join-IsBelow, join_all-IsBelow, clean-join}
use unpacker.Errors.{Error, Result, ok, err, wrap_result, first_error}
use unpacker.System.{
  World, M, ◌>>=◌, fail, attempt, wrapping, lift, mkdir_all, open_file, store, run_store, flush,
  write_file,
}
use unpacker.System.Disk.{Disk}
use unpacker.System.Keeps.{Keeps}
use unpacker.System.Ancestors.{ancestors-Near}
use unpacker.System.Confined.{
  Confined, DiskConfined, call-Confined, append_to-Confined, mkdir_all-Confined, flush-Confined,
  open_file-Confined, >>=-Confined, lift-Confined,
}
use unpacker.Pull.Budget.{Descriptor, DownloadBudget, charge_any}
use unpacker.Pull.Blob.{fetch_blob_to_file}
use unpacker.Pull.Confined.{fetch_blob_to_file-Confined}
use unpacker.Pull.Credentials.{Repository}
use unpacker.Pull.Registry.{Registry, ReferrerManifest}
use unpacker.Report.{Referrer}
use unpacker.Referrers.Names.{
  safe_file_name, type_dir_name, safe_file_name-IsName, type_dir_name-IsName,
}
use unpacker.Referrers.Fetch.{
  or_numbered, layer_name, download_layers, download_rest, artifact_type_of, new_referrer,
  referrer_dir, file_referrer, by_subject, other_subject, download_referrer,
}
use unpacker.Unpack.Layers.{annotation, title_key}

module _ (d : Bytes) where
  store-Confined : (p s : Bytes) → IsBelow d p → Keeps (Confined d) (store p s)
  unfolding store
  store-Confined p s below = call-Confined d (run_store p s) run
    where
      run : (f : Option ℕ) (x : Disk) → DiskConfined d x (run_store p s f x).1
      run none x = append_to-Confined d p s x below
      run (some k) x = append_to-Confined d p (take k s) x below

  write_file-Confined :
      (p s : Bytes) (mode : ℕ) → IsBelow d p → Keeps (Confined d) (write_file p s mode)
  unfolding write_file
  write_file-Confined p s mode below =
      >>=-Confined d (Unit {0}) (Unit {0}) (open_file p mode) _ (open_file-Confined d p mode below)
        λ _.
          >>=-Confined d (Result (Unit {0})) (Unit {0}) (attempt (store p s))
            (λ written. attempt flush >>= λ closed. lift (first_error written closed))
            (store-Confined p s below)
            λ written.
              >>=-Confined d (Result (Unit {0})) (Unit {0}) (attempt flush)
                (λ closed. lift (first_error written closed)) (flush-Confined d)
                λ closed. lift-Confined d (Unit {0}) (first_error written closed)

or_numbered-IsPlain : (i : ℕ) (name : Bytes) → IsPlain name → IsPlain (or_numbered i name)
unfolding or_numbered
or_numbered-IsPlain i [] (h, s) = cc (h.0, bytes_eq_refl [])
or_numbered-IsPlain i (c ∷ name) h = h

manifest-IsPlain : IsPlain (codes "manifest.json")
unfolding bytes_eq
manifest-IsPlain = ((refl, refl, refl), ground arith)

referrers-EndsInName : (output_dir : Bytes) → EndsInName (join output_dir (codes "referrers"))
unfolding bytes_eq
referrers-EndsInName output_dir =
    join-EndsInName output_dir (codes "referrers") (ground arith) (refl, refl, refl)

module _ {Body : Type 0} (R : Registry Body) (repo : Repository) where
  -- go-digest's `Encoded` of the digest of a descriptor names an entry of a directory, as it does
  -- where the digest is a valid one and `Encoded` is hexadecimal.
  abbrev pub EncodesPlain : Descriptor → Type 0
  EncodesPlain desc = IsPlain (R.encoded desc.digest)

  layer_name-IsPlain :
      (i : ℕ) (layer : Descriptor) → EncodesPlain layer → IsPlain (layer_name R repo i layer)
  unfolding layer_name
  layer_name-IsPlain i layer plain =
      or_numbered-IsPlain i (safe_file_name title fallback)
        (named (safe_file_name-IsName title fallback))
    where
      title : Bytes
      title = annotation title_key layer.annotations

      fallback : Bytes
      fallback = R.encoded layer.digest

      named :
          (safe_file_name title fallback ≡ fallback) ⊎ IsPlain (safe_file_name title fallback)
          → IsPlain (safe_file_name title fallback)
      named (inl e) = subst IsPlain (sym e) plain
      named (inr h) = h

  module _ (d : Bytes) (h : EndsInName d) where
    download_layers-Confined :
        (dir : Bytes) (i : ℕ) (layers : List Descriptor) (ref : Referrer)
        (budget : Option DownloadBudget)
        → IsBelow d dir
        → All EncodesPlain layers
        → Keeps (Confined d) (download_layers R repo dir i layers ref budget)
    unfolding download_layers
    download_layers-Confined dir i [] ref budget below plain = λ w q _. inl refl
    download_layers-Confined dir i (layer ∷ layers) ref budget below (plain, all) =
        let name = layer_name R repo i layer in
        let kept : Referrer = record ref { files = ref.files ++ (name ∷ []) } in
        >>=-Confined d (Option DownloadBudget) (Referrer × Option DownloadBudget)
          (wrapping "referrer" (fetch_blob_to_file (R.client repo) layer (join dir name) budget))
          (download_layers R repo dir (i + 1) layers kept)
          (fetch_blob_to_file-Confined d (R.client repo) layer (join dir name) budget
            (join-IsBelow d dir name h below (layer_name-IsPlain i layer plain)))
          (λ left. download_layers-Confined dir (i + 1) layers kept left below all)

    file_referrer-Confined :
        (desc : Descriptor) (content : Bytes) (m : ReferrerManifest) (e : Option Error)
        (budget : Option DownloadBudget)
        → clean d ≡ d
        → IsPlain (codes "manifest.json")
        → EncodesPlain desc
        → All EncodesPlain m.layers
        → Keeps (Confined d) (file_referrer R repo desc d content m e budget)
    unfolding file_referrer
    file_referrer-Confined desc content m e budget cleaned manifest own all =
        >>=-Confined d (Unit {0}) (Referrer × Option DownloadBudget)
          (wrapping "create referrer dir" (mkdir_all dir 0o755)) _
          (mkdir_all-Confined d dir 0o755 (ancestors-Near d dir below))
          λ _.
            >>=-Confined d (Unit {0}) (Referrer × Option DownloadBudget)
              (wrapping "write referrer manifest"
                (write_file (join dir (codes "manifest.json")) content 0o644))
              (λ _. download_rest R repo dir m e (new_referrer R repo m desc) budget)
              (write_file-Confined d (join dir (codes "manifest.json")) content 0o644
                (join-IsBelow d dir (codes "manifest.json") h below manifest))
              λ _. rest e
      where
        dir : Bytes
        dir = referrer_dir R repo d m desc

        kind : List ℕ
        kind = runes (artifact_type_of R repo m desc)

        below : IsBelow d dir
        below =
            join_all-IsBelow d (type_dir_name kind) (R.encoded desc.digest) cleaned h
              ((type_dir_name-IsName kind).0, (type_dir_name-IsName kind).1) own

        rest :
            (e : Option Error)
            → Keeps (Confined d) (download_rest R repo dir m e (new_referrer R repo m desc) budget)
        rest (some e) = λ w q _. inl refl
        rest none =
            download_layers-Confined dir 0 m.layers (new_referrer R repo m desc) budget below all

  -- Where the encoded part of the digest of a listed referrer and those of the layers of its served
  -- manifest name entries of a directory, the download of this referrer changes nothing outside
  -- referrers/ of the output directory but for making missing directories on the way to it, on every
  -- outcome, whatever titles and types the registry lists.
  pub download_referrer-Confined :
      (desc : Descriptor) (output_dir subject : Bytes) (budget : Option DownloadBudget) (w : World)
      → IsPlain (R.encoded desc.digest)
      → ((content : Bytes)
          → R.fetch_all repo desc ≡ ok content
          → All (λ layer. IsPlain (R.encoded layer.digest)) (R.parse_referrer content).0.layers)
      → Confined
          (join output_dir (codes "referrers"))
          w
          (download_referrer R repo desc (join output_dir (codes "referrers")) subject budget w).1
  unfolding download_referrer
  download_referrer-Confined desc output_dir subject budget w own all =
      >>=-Confined d (Option DownloadBudget) (Referrer × Option DownloadBudget)
        (lift (wrap_result "referrer" (charge_any desc budget))) _
        (lift-Confined d _ (wrap_result "referrer" (charge_any desc budget)))
        (λ left. served left (R.fetch_all repo desc) refl) w
    where
      d : Bytes
      d = join output_dir (codes "referrers")

      filed : Option DownloadBudget → Bytes → M (Referrer × Option DownloadBudget)
      filed left content =
          file_referrer R repo desc d content (R.parse_referrer content).0
            (R.parse_referrer content).1 left

      behind : Option DownloadBudget → Bytes → M (Referrer × Option DownloadBudget)
      behind left content =
          by_subject R repo (R.parse_referrer content).0.subject subject left (filed left content)

      Layers : Bytes → Type 0
      Layers content = All EncodesPlain (R.parse_referrer content).0.layers

      chosen :
          (b : Bool) (left : Option DownloadBudget) (content : Bytes)
          → Layers content
          → Keeps (Confined d) (if b then filed left content else fail (other_subject R repo))
      chosen true left content plain =
          file_referrer-Confined d (referrers-EndsInName output_dir) desc content
            (R.parse_referrer content).0 (R.parse_referrer content).1 left
            (clean-join output_dir b'r' (codes "eferrers")) manifest-IsPlain own plain
      chosen false left content plain = λ w q _. inl refl

      bound :
          (left : Option DownloadBudget) (content : Bytes) (s : Option Bytes)
          → Layers content
          → Keeps (Confined d) (by_subject R repo s subject left (filed left content))
      bound left content none plain = λ w q _. inl refl
      bound left content (some s) plain = chosen (bytes_eq s subject) left content plain

      served :
          (left : Option DownloadBudget) (r : Result Bytes)
          → R.fetch_all repo desc ≡ r
          → Keeps (Confined d) (lift (wrap_result "fetch referrer manifest" r) >>= behind left)
      served left (err e) got = λ w q _. inl refl
      served left (ok content) got =
          bound left content (R.parse_referrer content).0.subject (all content got)
