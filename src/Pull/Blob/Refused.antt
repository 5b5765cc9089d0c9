-- ===== src/Pull/Blob/Refused.antt =====
-- What `fetchBlobToFile` leaves behind when it returns an error.
use unpacker.Base.{ℕ, ◌≡◌, ◌⊎◌, inl, inr, refl, ap, subst, ◌∙◌}
use unpacker.Base.{Bool, true, false, [], ◌++◌, Option, none, some}
use unpacker.Base.Text.{Bytes, bytes_eq_refl}
use unpacker.Errors.{first_error, Error, Result, ok, err, wrap_result}
use unpacker.System.{
  World, proceed, ◌>>=◌, ◌>>◌, pure, attempt, wrapping, lift, open_file, write, flush, remove, call,
  append_to, truncated, has_folder, appended,
}
use unpacker.System.{Node, file, folder, find, put, find-put, erase, occupied}
use unpacker.System.Disk.{Disk}
use unpacker.System.Removal.{IsBare, erase-put, erase-append_to, remove-erase}
use unpacker.Path.{dir}
use unpacker.Pull.Budget.{Descriptor, DownloadBudget, charge_any}
use unpacker.Pull.Blob.{Fetcher, copy_verified, settle, store_blob, fetch_blob_to_file}

module _ {Body : Type 0} (F : Fetcher Body) (desc : Descriptor) (dest : Bytes) where
  -- A copy that is refused is removed again.
  abbrev IsGone : Disk → Result (Unit {0}) × World → Type 0
  IsGone d (ok u, v) = Unit
  IsGone d (err e, v) = v.disk ≡ erase dest d

  there :
      (s : Bytes) (m : ℕ) (d : Disk)
      → find dest d ≡ some (file m [])
      → (n : Node) × (find dest (append_to dest s d) ≡ some n)
  there s m d found = (
    file m ([] ++ s),
    ap (λ n. find dest (appended dest s d n)) found
        ∙ find-put dest dest (file m ([] ++ s)) d
        ∙ rw (bytes_eq_refl dest),
  )

  stored-IsGone :
      (body : Body) (w : World) (m : ℕ)
      → find dest w.disk ≡ some (file m [])
      → IsBare dest w.disk
      → IsGone w.disk (store_blob F desc dest body (record w { faults = [] }))
  unfolding store_blob copy_verified write flush call
  stored-IsGone body w m found bare = go (F.read_error desc body) (F.verify desc body)
    where
      after : World
      after = (write dest (F.passed desc body) (record w { faults = [] })).1

      gone : (remove dest after).1.disk ≡ erase dest w.disk
      gone =
          let same = erase-append_to dest (F.passed desc body) w.disk in
          remove-erase dest after (there (F.passed desc body) m w.disk found).1
            (ap (λ d. occupied dest d) same ∙ bare)
          ∙ same

      copied : Result (Unit {0}) → Result (Unit {0}) → Result (Unit {0}) × World
      copied r s = (lift r >> lift s) after

      go :
          (r s : Result (Unit {0}))
          → IsGone w.disk (
              proceed
                (λ c. attempt flush >>= λ closed. settle F dest (first_error c closed))
                (ok (copied r s).0, (copied r s).1))
      go (ok x) (ok y) = tt
      go (ok x) (err e) = gone
      go (err e) s = gone

  -- What may be left: the disk as it was, or without the file.
  abbrev IsLeft : Disk → Result (Option DownloadBudget) × World → Type 0
  IsLeft d (ok l, v) = Unit
  IsLeft d (err e, v) = (v.disk ≡ d) ⊎ (v.disk ≡ erase dest d)

  stored-IsLeft :
      (body : Body) (l : Option DownloadBudget) (d : Disk) (w : World) (m : ℕ)
      → w.disk ≡ put dest (file m []) d
      → IsBare dest d
      → IsLeft d ((store_blob F desc dest body >> pure l) (record w { faults = [] }))
  stored-IsLeft body l d w m same bare =
      go (store_blob F desc dest body (record w { faults = [] }))
        (stored-IsGone body w m found (ap (λ d. occupied dest d) less ∙ bare))
    where
      less : erase dest w.disk ≡ erase dest d
      less = ap (λ d. erase dest d) same ∙ erase-put dest (file m []) d

      found : find dest w.disk ≡ some (file m [])
      found =
          ap (λ d. find dest d) same ∙ find-put dest dest (file m []) d ∙ rw (bytes_eq_refl dest)

      go : (o : Result (Unit {0}) × World) → IsGone w.disk o → IsLeft d (proceed (λ _. pure l) o)
      go (ok u, v) h = tt
      go (err e, v) h = inr (h ∙ less)

  fetched-IsLeft :
      (budget : Option DownloadBudget) (w : World)
      → IsBare dest w.disk
      → IsLeft w.disk (fetch_blob_to_file F desc dest budget (record w { faults = [] }))
  unfolding fetch_blob_to_file open_file call
  fetched-IsLeft budget w bare =
      go (charge_any desc budget) (wrap_result "fetch blob" (F.fetch desc))
    where
      opened :
          (body : Body) (l : Option DownloadBudget) (b : Bool) (n : Option Node)
          → IsLeft w.disk (
              (wrapping "create blob file" (λ u.
                    let (r, d) = truncated dest 0o666 w.disk b n in
                    (r, record w { disk = d; faults = [] }))
                  >> (store_blob F desc dest body >> pure l))
                (record w { faults = [] }))
      opened body l false n = inl refl
      opened body l true (some (folder m)) = inl refl
      opened body l true (some (file m s)) =
          stored-IsLeft body l w.disk (record w { disk = put dest (file m []) w.disk }) m refl bare
      opened body l true none =
          stored-IsLeft body l w.disk (record w { disk = put dest (file 0o666 []) w.disk }) 0o666
            refl bare

      go :
          (c : Result (Option DownloadBudget)) (b : Result Body)
          → IsLeft w.disk (
              proceed
                (λ l. lift b >>= λ body.
                  wrapping "create blob file" (open_file dest 0o666)
                  >> (store_blob F desc dest body >> pure l))
                (c, record w { faults = [] }))
      go (ok l) (ok body) = opened body l (has_folder (dir dest) w.disk) (find dest w.disk)
      go (ok l) (err e) = inl refl
      go (err e) b = inl refl

  -- Where no call of the system fails and nothing stands below the file's path, an error of
  -- `fetchBlobToFile` leaves the disk as it was, or without the file: a blob that does not match its
  -- descriptor is not kept.
  pub fetch_blob_to_file-erase :
      (budget : Option DownloadBudget) (w v : World) (e : Error)
      → IsBare dest w.disk
      → fetch_blob_to_file F desc dest budget (record w { faults = [] }) ≡ (err e, v)
      → (v.disk ≡ w.disk) ⊎ (v.disk ≡ erase dest w.disk)
  fetch_blob_to_file-erase budget w v e bare h =
      subst (IsLeft w.disk) h (fetched-IsLeft budget w bare)
