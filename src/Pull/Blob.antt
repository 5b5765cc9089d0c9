-- ===== src/Pull/Blob.antt =====
-- internal/unpacker/pull.go: `fetchBlobToFile`, which leaves a file only where its bytes are the
-- ones that the descriptor names.
pub mod Verified
pub mod Refused
use unpacker.Base.{ℕ, ◌≡◌, ◌≢◌, ◌⊎◌, inl, inr, refl, sym, ap, subst, ◌∙◌, arith, length}
use unpacker.Base.{Bool, true, false, List, [], ◌∷◌, Option, none, some, if◌then◌else◌}
use unpacker.Base.Text.{Bytes, bytes_eq, bytes_eq_iff}
use unpacker.Errors.{Error, wrap, Result, ok, err, wrap_result, first_error}
use unpacker.System.{
  World, M, ◌>>=◌, ◌>>◌, pure, fail, attempt, wrapping, lift, open_file, write, flush, remove,
}
use unpacker.System.{Node, file, find}
use unpacker.System.Disk.{Disk}
use unpacker.Pull.Budget.{Descriptor, DownloadBudget, charge_any}

-- The registry and oras-go's `content.VerifyReader`: what is fetched for a descriptor, the bytes
-- that the reader lets through of it with the error that reading ends in, and `Verify`.
pub record Fetcher (Body : Type 0) : Type 0 where
  pub fetch : Descriptor → Result Body
  pub passed : Descriptor → Body → Bytes
  pub read_error : Descriptor → Body → Result (Unit {0})
  pub verify : Descriptor → Body → Result (Unit {0})

module _ {Body : Type 0} (F : Fetcher Body) where
  -- `io.Copy` from the verifying reader, and `Verify` behind it.
  unfoldable pub copy_verified : Descriptor → Bytes → Body → M (Unit {0})
  copy_verified desc dest body = do
    _ ← write dest (F.passed desc body)
    lift (F.read_error desc body)
    lift (F.verify desc body)

  abbrev pub settle : Bytes → Result (Unit {0}) → M (Unit {0})
  settle dest (ok u) = pure tt
  settle dest (err e) = do
    _ ← attempt (remove dest)
    fail (wrap "blob failed verification against its declared digest" e)

  -- Behind `os.Create`.
  unfoldable pub store_blob : Descriptor → Bytes → Body → M (Unit {0})
  unfolding copy_verified
  store_blob desc dest body = do
    copied ← attempt (copy_verified desc dest body)
    closed ← attempt flush
    settle dest (first_error copied closed)

  -- `fetchBlobToFile`: the budget that is left.
  unfoldable pub fetch_blob_to_file :
      Descriptor → Bytes → Option DownloadBudget → M (Option DownloadBudget)
  unfolding store_blob charge_any
  fetch_blob_to_file desc dest budget = do
    left ← lift (charge_any desc budget)
    body ← lift (wrap_result "fetch blob" (F.fetch desc))
    wrapping "create blob file" (open_file dest 0o666)
    store_blob desc dest body
    pure left
