-- ===== src/Referrers/Budgeted.antt =====
-- How many bytes the blobs of one referrer have together.
use unpacker.Base.{
  String, ℕ, ◌+◌, ◌≤◌, ◌≡◌, refl, sym, ap, subst, ◌∙◌, arith, Bool, true, false, List, [], ◌∷◌,
  ◌++◌, Option, none, some, length, if◌then◌else◌,
}
use unpacker.Base.Text.{Bytes, codes, bytes_eq}
use unpacker.Base.Word.{IsNat}
use unpacker.Path.{join}
use unpacker.Errors.{Error, wrap, Result, ok, err, wrap_result}
use unpacker.System.{
  World, M, proceed, ◌>>=◌, fail, attempt, wrapping, lift, said, mkdir_all, write_file,
}
use unpacker.System.Keeps.{Keeps}
use unpacker.System.Quiet.{Quiet, mkdir_all-Quiet, write_file-Quiet}
use unpacker.Report.{Referrer}
use unpacker.Pull.Budget.{
  Descriptor, DownloadBudget, charge, charge_any, IsBudget, AreNat, less, charge_fits,
  charge_refuses, less-IsBudget,
}
use unpacker.Pull.Blob.{fetch_blob_to_file}
use unpacker.Pull.Credentials.{Repository}
use unpacker.Pull.Registry.{Registry, ReferrerManifest}
use unpacker.Pull.Total.{Copies, fetch_blob_to_file-Copies}
use unpacker.Referrers.Fetch.{
  zero_referrer, layer_name, download_layers, new_referrer, referrer_dir, download_rest,
  file_referrer, other_subject, by_subject, download_referrer,
}

-- A part that copies nothing, in front of a sequence.
first_silent-Copies :
    {A B C : Type 0} (m : M A) (g : A → M B) (f : B → M C) (n : ℕ) (w : World)
    → Keeps Quiet m
    → ((a : A) (u : World) → Copies n u ((g a >>= f) u))
    → Copies n w (((m >>= g) >>= f) w)
first_silent-Copies {A} {B} {C} m g f n w quiet next = go (m w) (quiet w)
  where
    go : (o : Result A × World) → Quiet w o.1 → Copies n w (proceed f (proceed g o))
    go (ok a, u) q = omega (arith, q, next a u)
    go (err e, u) q = omega (arith, q)

-- A named step, whose continuation is known.
wrapping_then-Copies :
    {A B C : Type 0} (t : String) (m : M A) (g : A → M B) (f : B → M C) (n : ℕ) (w : World)
    → Copies n w ((m >>= λ a. g a >>= f) w)
    → Copies n w (((wrapping t m >>= g) >>= f) w)
wrapping_then-Copies {A} {B} {C} t m g f n w = go (m w)
  where
    named : Result A × World → Result A × World
    named o = (elim o.0 [ ok a ↦ ok a | err e ↦ err (wrap t e) ], o.1)

    go :
        (o : Result A × World)
        → Copies n w (proceed (λ a. g a >>= f) o)
        → Copies n w (proceed f (proceed g (named o)))
    go (ok a, u) h = h
    go (err e, u) h = h

-- A step whose failure is looked at.
pub attempt_then-Copies :
    {A B : Type 0} (m : M A) (g : Result A → M B) (n : ℕ) (w : World)
    → Copies n w ((m >>= λ a. g (ok a)) w)
    → ((e : Error) → Keeps Quiet (g (err e)))
    → Copies n w ((attempt m >>= g) w)
attempt_then-Copies {A} {B} m g n w h quiet = go (m w) h
  where
    go : (o : Result A × World) → Copies n w (proceed (λ a. g (ok a)) o) → Copies n w (g o.0 o.1)
    go (ok a, u) h = h
    go (err e, u) h = omega (arith, h, quiet e u)

-- What follows a download copies no more than what the download has left.
abbrev pub WithinLeft : {C : Type 0} → (Referrer × Option DownloadBudget → M C) → Type 0
WithinLeft f =
    (ref : Referrer) (b : DownloadBudget) (u : World)
    → IsBudget b
    → Copies b.remaining u (f (ref, some b) u)

-- Readers give no more bytes than a descriptor says, and the layers of a served manifest have no
-- negative sizes.
module _ {Body : Type 0} (R : Registry Body)
    (is_bounded : (repo : Repository) (desc : Descriptor) (body : Body)
      → length ((R.client repo).passed desc body) ≤ desc.size)
    (layers_nat : (repo : Repository) (desc : Descriptor) (content : Bytes)
      → R.fetch_all repo desc ≡ ok content
      → AreNat (R.parse_referrer content).0.layers)
    (repo : Repository) where
  download_layers-Copies :
      {C : Type 0} (dir : Bytes) (i : ℕ) (layers : List Descriptor) (ref : Referrer)
      (b : DownloadBudget) (f : Referrer × Option DownloadBudget → M C) (w : World)
      → IsBudget b
      → AreNat layers
      → WithinLeft f
      → Copies b.remaining w ((download_layers R repo dir i layers ref (some b) >>= f) w)
  unfolding download_layers
  download_layers-Copies dir i [] ref b f w ib all next = next ref b w ib
  download_layers-Copies dir i (layer ∷ layers) ref b f w ib (h, all) next =
      let name = layer_name R repo i layer in
      let kept : Referrer = record ref { files = ref.files ++ (name ∷ []) } in
      wrapping_then-Copies "referrer"
        (fetch_blob_to_file (R.client repo) layer (join dir name) (some b))
        (download_layers R repo dir (i + 1) layers kept) f b.remaining w
        (fetch_blob_to_file-Copies (R.client repo) (is_bounded repo) layer (join dir name) b
          (λ left. download_layers R repo dir (i + 1) layers kept left >>= f) w ib h
          (λ _ u.
            download_layers-Copies dir (i + 1) layers kept (less layer b) f u
              (less-IsBudget layer b ib) all next))

  file_referrer-Copies :
      {C : Type 0} (desc : Descriptor) (base_dir content : Bytes) (m : ReferrerManifest)
      (e : Option Error) (b : DownloadBudget) (f : Referrer × Option DownloadBudget → M C)
      (w : World)
      → IsBudget b
      → AreNat m.layers
      → WithinLeft f
      → Copies b.remaining w ((file_referrer R repo desc base_dir content m e (some b) >>= f) w)
  unfolding file_referrer
  file_referrer-Copies desc base_dir content m e b f w ib all next =
      first_silent-Copies (wrapping "create referrer dir" (mkdir_all dir 0o755)) written f
        b.remaining w (mkdir_all-Quiet dir 0o755)
        (λ _ u.
          first_silent-Copies
            (wrapping "write referrer manifest"
              (write_file (join dir (codes "manifest.json")) content 0o644))
            (λ _. download_rest R repo dir m e ref (some b)) f b.remaining u
            (write_file-Quiet (join dir (codes "manifest.json")) content 0o644) (λ _ v. rest e v))
    where
      dir : Bytes
      dir = referrer_dir R repo base_dir m desc

      ref : Referrer
      ref = new_referrer R repo m desc

      written : Unit {0} → M (Referrer × Option DownloadBudget)
      written u =
          wrapping "write referrer manifest"
            (write_file (join dir (codes "manifest.json")) content 0o644)
          >>= λ _. download_rest R repo dir m e ref (some b)

      rest :
          (e : Option Error) (v : World)
          → Copies b.remaining v ((download_rest R repo dir m e ref (some b) >>= f) v)
      rest (some x) v =
          next ref b (record v { log = v.log ++ (said "manifest is not a layer list" ∷ []) }) ib
      rest none v = download_layers-Copies dir 0 m.layers ref b f v ib all next

  pub download_referrer-Copies :
      {C : Type 0} (desc : Descriptor) (base_dir subject : Bytes) (b : DownloadBudget)
      (f : Referrer × Option DownloadBudget → M C) (w : World)
      → IsBudget b
      → IsNat desc.size
      → WithinLeft f
      → Copies b.remaining w ((download_referrer R repo desc base_dir subject (some b) >>= f) w)
  unfolding download_referrer charge_any
  download_referrer-Copies {C} desc base_dir subject b f w ib h next = charged (charge desc b) refl
    where
      filed : Option DownloadBudget → Bytes → M (Referrer × Option DownloadBudget)
      filed left content =
          file_referrer R repo desc base_dir content (R.parse_referrer content).0
            (R.parse_referrer content).1 left

      judged : Option DownloadBudget → Bytes → M (Referrer × Option DownloadBudget)
      judged left content =
          by_subject R repo (R.parse_referrer content).0.subject subject left (filed left content)

      onward : Option DownloadBudget → M (Referrer × Option DownloadBudget)
      onward left =
          lift (wrap_result "fetch referrer manifest" (R.fetch_all repo desc)) >>= judged left

      chosen :
          (q : Bool) (c : DownloadBudget) (content : Bytes)
          → IsBudget c
          → R.fetch_all repo desc ≡ ok content
          → Copies c.remaining w
              (((if q then filed (some c) content else fail (other_subject R repo)) >>= f) w)
      chosen true c content ic served =
          file_referrer-Copies desc base_dir content (R.parse_referrer content).0
            (R.parse_referrer content).1 c f w ic (layers_nat repo desc content served) next
      chosen false c content ic served = omega arith

      bound :
          (o : Option Bytes) (c : DownloadBudget) (content : Bytes)
          → IsBudget c
          → R.fetch_all repo desc ≡ ok content
          → Copies c.remaining w
              ((by_subject R repo o subject (some c) (filed (some c) content) >>= f) w)
      bound none c content ic served =
          next zero_referrer c
            (record w { log = w.log ++ (said "referrer declares no subject" ∷ []) }) ic
      bound (some x) c content ic served = chosen (bytes_eq x subject) c content ic served

      fetched :
          (r : Result Bytes) (c : DownloadBudget)
          → IsBudget c
          → R.fetch_all repo desc ≡ r
          → Copies c.remaining w
              (((lift (wrap_result "fetch referrer manifest" r) >>= judged (some c)) >>= f) w)
      fetched (ok content) c ic served =
          bound (R.parse_referrer content).0.subject c content ic served
      fetched (err e) c ic served = omega arith

      charged :
          (r : Result DownloadBudget)
          → charge desc b ≡ r
          → Copies b.remaining w (
              ((lift (wrap_result "referrer" (elim r [ ok c ↦ ok (some c) | err e ↦ err e ]))
                    >>= onward)
                  >>= f)
                w)
      charged (err e) q = omega arith
      charged (ok c) q =
          let (small, fits) = charge_refuses desc b c ib h q in
          let same : ok (less desc b) ≡ ok c = sym (charge_fits desc b ib h small fits) ∙ q in
          let left : less desc b ≡ c =
            ap (λ (r : Result DownloadBudget). elim r [ ok x ↦ x | err e ↦ b ]) same in
          let all : Copies (less desc b).remaining w ((onward (some (less desc b)) >>= f) w) =
            fetched (R.fetch_all repo desc) (less desc b) (less-IsBudget desc b ib) refl in
          let moved : Copies (less desc b).remaining w ((onward (some c) >>= f) w) =
            subst (λ d. Copies (less desc b).remaining w ((onward (some d) >>= f) w)) left all in
          omega (arith, moved)
