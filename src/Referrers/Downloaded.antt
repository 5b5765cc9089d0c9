-- ===== src/Referrers/Downloaded.antt =====
-- internal/unpacker/referrers.go: the records that the loop of FetchReferrers collects.

use mathlib.Core.List.{Memᴰ}
use unpacker.Base.{
  ◌≡◌, refl, arith, inl, inr, Bool, true, false, List, [], ◌∷◌, ◌++◌, All, All-append, Option,
}
use unpacker.Base.{if◌then◌else◌}
use unpacker.Base.Text.{Bytes, bytes_eq, bytes_eq_iff}
use unpacker.Errors.{Result, ok, err}
use unpacker.System.{World, M, pure, attempt}
use unpacker.System.Yields.{Yields, >>=-Yields}
use unpacker.Config.{Config}
use unpacker.Report.{Referrer, RunResult}
use unpacker.Pull.Budget.{Descriptor, DownloadBudget}
use unpacker.Pull.Credentials.{Repository}
use unpacker.Pull.Registry.{Registry}
use unpacker.Referrers.Fetch.{
  download_referrer, with_referrer, after_download, failing, download_all, record_and_fail,
}
use unpacker.Referrers.Subject.{IsFiled, IsKept, download_referrer-IsKept}
use unpacker.Referrers.Fetch.{announce}
use unpacker.Report.{write_result}

module _ {Body : Type 0} (R : Registry Body) (repo : Repository) where
  module _ (encode : RunResult → Result Bytes) (cfg : Config) where
    -- All that is recorded is filed.
    abbrev pub AllFiled : Bytes → List Descriptor → RunResult → Type 0
    AllFiled subject listed result = All (IsFiled R repo subject listed) result.referrers

    with_referrer-AllFiled :
        (subject : Bytes) (listed : List Descriptor) (ref : Referrer) (left : Option DownloadBudget)
        (result : RunResult)
        → IsKept R repo subject listed (ref, left)
        → AllFiled subject listed result
        → AllFiled subject listed (with_referrer R repo ref result)
    with_referrer-AllFiled subject listed ref left result kept all =
        go (bytes_eq ref.digest []) refl kept
      where
        go :
            (b : Bool)
            → bytes_eq ref.digest [] ≡ b
            → IsKept R repo subject listed (ref, left)
            → AllFiled subject listed
                (if b then result else record result { referrers = result.referrers ++ (ref ∷ []) })
        go true h kept = all
        go false h (inl empty) = absurd (ground (arith, bytes_eq_iff ref.digest []))
        go false h (inr filed) =
            All-append (IsFiled R repo subject listed) result.referrers (ref ∷ []) all (filed, tt)

    pub download_all-AllFiled :
        (base_dir subject : Bytes) (listed descs : List Descriptor) (result : RunResult)
        (budget : Option DownloadBudget) (w : World)
        → All (λ desc. Memᴰ desc listed) descs
        → AllFiled subject listed result
        → Yields
            (AllFiled subject listed)
            (download_all R repo encode cfg base_dir subject descs result budget w)
    unfolding download_all record_and_fail
    download_all-AllFiled base_dir subject listed [] result budget w mem all =
        >>=-Yields (AllFiled subject listed) (write_result encode cfg result) (λ _. pure result) w
          (λ _ u _. all)
    download_all-AllFiled base_dir subject listed (desc ∷ descs) result budget w (here, mem) all =
        one (download_referrer R repo desc base_dir subject budget w)
          (download_referrer-IsKept R repo desc base_dir subject listed budget w here)
          (λ r b u a. download_all-AllFiled base_dir subject listed descs r b u mem a)
      where
        next : RunResult → Option DownloadBudget → M RunResult
        next = download_all R repo encode cfg base_dir subject descs

        announced :
            (ref : Referrer) (left : Option DownloadBudget) (u : World)
            → ((u : World)
                → Yields (AllFiled subject listed) (next (with_referrer R repo ref result) left u))
            → Yields
                (AllFiled subject listed)
                (after_download R repo encode cfg next result (ok (ref, left)) u)
        announced ref left u rest =
            >>=-Yields (AllFiled subject listed) (announce R repo ref)
              (λ _. next (with_referrer R repo ref result) left) u (λ _ v _. rest v)

        one :
            (o : Result (Referrer × Option DownloadBudget) × World)
            → Yields (IsKept R repo subject listed) o
            → ((r : RunResult) (b : Option DownloadBudget) (u : World)
                → AllFiled subject listed r
                → Yields (AllFiled subject listed) (next r b u))
            → Yields
                (AllFiled subject listed)
                (after_download R repo encode cfg next result o.0 o.1)
        one (err e, u) kept rest =
            >>=-Yields (AllFiled subject listed) (attempt (write_result encode cfg result))
              (failing R repo encode cfg e) u (λ r v _. failed r v)
          where
            failed :
                (r : Result (Unit {0})) (v : World)
                → Yields (AllFiled subject listed) (failing R repo encode cfg e r v)
            failed (ok t) v = tt
            failed (err x) v = tt
        one (ok (ref, left), u) kept rest = announced ref left u (λ v.
            rest (with_referrer R repo ref result) left v
              (with_referrer-AllFiled subject listed ref left result kept all))
