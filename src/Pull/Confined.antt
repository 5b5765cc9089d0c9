-- ===== src/Pull/Confined.antt =====
-- Where the downloads of `pullWithOras` land.
use unpacker.Base.{
  ℕ, refl, subst, inl, inr, ◌∙◌, Bool, true, false, List, [], ◌∷◌, All, Option, none, some,
  Bool-cases,
}
use unpacker.Base.Text.{Bytes, bytes_eq, bytes_eq_iff}
use unpacker.Path.{join}
use unpacker.Path.Confine.{IsBelow}
use unpacker.Errors.{Result, ok, err, wrap_result, first_error}
use unpacker.System.{
  World, ◌>>=◌, ◌>>◌, attempt, wrapping, lift, find, erase, find-erase, call, next_fault,
  run_remove, removed, remove, write, flush, open_file, is_there, occupied,
}
use unpacker.System.Disk.{Disk}
use unpacker.System.Keeps.{Keeps}
use unpacker.System.Confined.{
  Confined, DiskConfined, write-Confined, flush-Confined, open_file-Confined, >>=-Confined,
  lift-Confined,
}
use unpacker.Pull.Budget.{Descriptor, DownloadBudget, charge_any}
use unpacker.Pull.Blob.{Fetcher, copy_verified, settle, store_blob, fetch_blob_to_file}
use unpacker.Pull.Credentials.{Repository}
use unpacker.Pull.Registry.{Registry}
use unpacker.Pull.Oras.{blob_name, layer_desc, pull_layers}

module _ (d : Bytes) where
  erase_below : (p : Bytes) (x : Disk) → IsBelow d p → DiskConfined d x (erase p x)
  erase_below p x below q h = elim (Bool-cases (bytes_eq p q)) [
    | inl e ↦ absurd (h (subst (IsBelow d) ((bytes_eq_iff p q).0 e) below))
    | inr e ↦ inl (find-erase p q x ∙ rw e)
  ]

  pub remove-Confined : (p : Bytes) → IsBelow d p → Keeps (Confined d) (remove p)
  unfolding remove call
  remove-Confined p below w = go (next_fault w.faults).0
    where
      gone : (a b : Bool) → DiskConfined d w.disk (removed p w.disk a b).1
      gone true false = erase_below p w.disk below
      gone true true = λ q _. inl refl
      gone false b = λ q _. inl refl

      go : (f : Option ℕ) → DiskConfined d w.disk (run_remove p f w.disk).1
      go none = gone (is_there (find p w.disk)) (occupied p (erase p w.disk))
      go (some k) = λ q _. inl refl

  module _ {Body : Type 0} (F : Fetcher Body) where
    store_blob-Confined :
        (desc : Descriptor) (dest : Bytes) (body : Body)
        → IsBelow d dest
        → Keeps (Confined d) (store_blob F desc dest body)
    unfolding store_blob copy_verified
    store_blob-Confined desc dest body below =
        >>=-Confined d (Result (Unit {0})) (Unit {0}) (attempt (copy_verified F desc dest body))
          (λ copied. attempt flush >>= λ closed. settle F dest (first_error copied closed))
          (>>=-Confined d ℕ (Unit {0}) (write dest (F.passed desc body))
            (λ _. lift (F.read_error desc body) >> lift (F.verify desc body))
            (write-Confined d dest (F.passed desc body) below)
            (λ _.
              >>=-Confined d (Unit {0}) (Unit {0}) (lift (F.read_error desc body))
                (λ _. lift (F.verify desc body))
                (lift-Confined d (Unit {0}) (F.read_error desc body))
                (λ _. lift-Confined d (Unit {0}) (F.verify desc body))))
          (λ copied.
            >>=-Confined d (Result (Unit {0})) (Unit {0}) (attempt flush)
              (λ closed. settle F dest (first_error copied closed)) (flush-Confined d)
              (λ closed. settled (first_error copied closed)))
      where
        settled : (r : Result (Unit {0})) → Keeps (Confined d) (settle F dest r)
        settled (ok u) = λ w q _. inl refl
        settled (err e) = remove-Confined dest below

    pub fetch_blob_to_file-Confined :
        (desc : Descriptor) (dest : Bytes) (budget : Option DownloadBudget)
        → IsBelow d dest
        → Keeps (Confined d) (fetch_blob_to_file F desc dest budget)
    unfolding fetch_blob_to_file
    fetch_blob_to_file-Confined desc dest budget below =
        >>=-Confined d (Option DownloadBudget) (Option DownloadBudget)
          (lift (charge_any desc budget)) _ (lift-Confined d _ (charge_any desc budget))
          λ left.
            >>=-Confined d Body (Option DownloadBudget)
              (lift (wrap_result "fetch blob" (F.fetch desc))) _
              (lift-Confined d _ (wrap_result "fetch blob" (F.fetch desc)))
              λ body.
                >>=-Confined d (Unit {0}) (Option DownloadBudget)
                  (wrapping "create blob file" (open_file dest 0o666)) _
                  (open_file-Confined d dest 0o666 below)
                  λ _.
                    >>=-Confined d (Unit {0}) (Option DownloadBudget) (store_blob F desc dest body)
                      _ (store_blob-Confined desc dest body below) λ _ w q _. inl refl

module _ {Body : Type 0} (R : Registry Body) where
  -- Where the name of every layer leads below the directory of the pull, the downloads of an artifact
  -- change nothing outside it but for making missing directories on the way to it, on every outcome.
  pub pull_layers-Confined :
      (repo : Repository) (tmp : Bytes) (layers : List Descriptor) (budget : Option DownloadBudget)
      (w : World)
      → All (λ layer. IsBelow tmp (join tmp (blob_name layer))) layers
      → Confined tmp w (pull_layers R repo tmp layers budget w).1
  unfolding pull_layers
  pull_layers-Confined repo tmp [] budget w all = λ q _. inl refl
  pull_layers-Confined repo tmp (layer ∷ layers) budget w (below, all) =
      >>=-Confined tmp (Option DownloadBudget) (Unit {0})
        (fetch_blob_to_file (R.client repo) (layer_desc layer) (join tmp (blob_name layer)) budget)
        (pull_layers R repo tmp layers)
        (fetch_blob_to_file-Confined tmp (R.client repo) (layer_desc layer)
          (join tmp (blob_name layer)) budget below)
        (λ left u. pull_layers-Confined repo tmp layers left u all) w
