-- ===== src/Referrers/Recorded.antt =====
-- internal/unpacker/referrers.go: which referrers FetchReferrers records.

use mathlib.Core.List.{Memᴰ}
use unpacker.Base.{◌≡◌, refl, subst, ◌⊎◌, inl, inr, Bool, true, false, List, [], ◌∷◌, All, some}
use unpacker.Base.{if◌then◌else◌}
use unpacker.Base.Text.{Bytes, codes}
use unpacker.Errors.{wrap_result, Result, ok, err}
use unpacker.System.{World, M, ◌>>=◌, ◌>>◌, pure, fail, lift, say, said}
use unpacker.Path.{join}
use unpacker.System.Yields.{Yields, >>=-Yields}
use unpacker.Config.{Config}
use unpacker.Report.{RunResult}
use unpacker.Pull.Budget.{Descriptor}
use unpacker.Pull.Credentials.{Repository}
use unpacker.Pull.Registry.{Registry}
use unpacker.Referrers.Fetch.{download_all}
use unpacker.Referrers.Fetch.{
  no_referrers, nothing_listed, download_listed, fetch_referrers, too_many,
}
use unpacker.Report.{write_result}
use unpacker.Base.{length}
use unpacker.Base.Word.{lt_i64}
use unpacker.Limits.{max_referrers}
use unpacker.Errors.{error_is, errdef_unsupported, wrap}
use unpacker.Pull.Budget.{new_download_budget}
use unpacker.Pull.Credentials.{new_oras_repository}
use unpacker.Referrers.Downloaded.{AllFiled, download_all-AllFiled}

Memᴰ-All : {A : Type 0} (l : List A) → All (λ x. Memᴰ x l) l
Memᴰ-All {A} l = go l l (λ x m. m)
  where
    go : (l big : List A) → ((x : A) → Memᴰ x l → Memᴰ x big) → All (λ x. Memᴰ x big) l
    go [] big inc = tt
    go (x ∷ l) big inc = (inc x (Memᴰ.head refl), go l big (λ y m. inc y (Memᴰ.tail m)))

module _ {Body : Type 0} (R : Registry Body) (encode : RunResult → Result Bytes)
    (cfg : Config) where
  -- What was listed, within the bound, and what of it is recorded.
  abbrev pub FromListing : Repository → Bytes → RunResult → Type 0
  FromListing repo subject result =
      (listed : List Descriptor) × (R.referrers repo subject ≡ ok listed)
      × (lt_i64 (max_referrers cfg.max_referrers) (length listed) ≡ false)
      × AllFiled R repo encode cfg subject listed result

  abbrev IsRecorded : Repository → Bytes → RunResult → Type 0
  IsRecorded repo subject result = (result.referrers ≡ []) ⊎ FromListing repo subject result

  nothing_listed-IsRecorded :
      (repo : Repository) (subject : Bytes) (result : RunResult) (w : World)
      → result.referrers ≡ []
      → Yields (IsRecorded repo subject) (nothing_listed R encode cfg result w)
  nothing_listed-IsRecorded repo subject result w empty =
      >>=-Yields (IsRecorded repo subject) (say (said "no referrers")) (λ _. written) w
        (λ _ u _. recorded u)
    where
      written : M RunResult
      written = do write_result encode cfg result; pure result

      recorded : (u : World) → Yields (IsRecorded repo subject) (written u)
      recorded u =
          >>=-Yields (IsRecorded repo subject) (write_result encode cfg result) (λ _. pure result) u
            (λ _ v _. inl empty)

  download_listed-IsRecorded :
      (repo : Repository) (subject : Bytes) (result : RunResult) (w : World)
      (r : Result (List Descriptor))
      → R.referrers repo subject ≡ r
      → result.referrers ≡ []
      → Yields (IsRecorded repo subject) (download_listed R encode cfg repo subject result r w)
  unfolding download_listed
  download_listed-IsRecorded repo subject result w (err e) q empty =
      chosen (error_is errdef_unsupported e)
    where
      chosen :
          (b : Bool)
          → Yields (IsRecorded repo subject) (
              (if b then nothing_listed R encode cfg result else fail (wrap "query referrers" e)) w)
      chosen true = nothing_listed-IsRecorded repo subject result w empty
      chosen false = tt
  download_listed-IsRecorded repo subject result w (ok []) q empty =
      nothing_listed-IsRecorded repo subject result w empty
  download_listed-IsRecorded repo subject result w (ok (desc ∷ descs)) q empty =
      chosen (lt_i64 (max_referrers cfg.max_referrers) (length (desc ∷ descs))) refl
    where
      listed : List Descriptor
      listed = desc ∷ descs

      download : M RunResult
      download =
          download_all R repo encode cfg (join cfg.output_dir (codes "referrers")) subject listed
            result (some (new_download_budget cfg.limits))

      found :
          (o : Result RunResult × World)
          → lt_i64 (max_referrers cfg.max_referrers) (length listed) ≡ false
          → Yields (AllFiled R repo encode cfg subject listed) o
          → Yields (IsRecorded repo subject) o
      found (ok got, u) few all = inr (listed, q, few, all)
      found (err e, u) few all = tt

      chosen :
          (b : Bool)
          → lt_i64 (max_referrers cfg.max_referrers) (length listed) ≡ b
          → Yields
              (IsRecorded repo subject)
              ((if b then fail (too_many R encode cfg) else download) w)
      chosen true many = tt
      chosen false few = found (download w) few (
          download_all-AllFiled R repo encode cfg (join cfg.output_dir (codes "referrers")) subject
            listed listed result (some (new_download_budget cfg.limits)) w (Memᴰ-All listed)
            (rw empty tt))

  -- What `FetchReferrers` returns records no referrer, or it was listed by the registry for the
  -- digest that was asked for, no more are listed than allowed, and the verified manifest of every
  -- recorded referrer names that digest as its subject.
  pub fetch_referrers-IsRecorded :
      (digest : Bytes) (w v : World) (result : RunResult)
      → fetch_referrers R encode cfg digest w ≡ (ok result, v)
      → (subject : Bytes) × (repo : Repository) × (R.parse_digest digest ≡ ok subject)
        × (new_oras_repository R.parse_reference cfg ≡ ok repo)
        × ((result.referrers ≡ []) ⊎ FromListing repo subject result)
  unfolding fetch_referrers
  fetch_referrers-IsRecorded digest w v result h =
      subst (Yields Answer) h (parsed (R.parse_digest digest) refl)
    where
      Answer : RunResult → Type 0
      Answer result =
          (subject : Bytes) × (repo : Repository) × (R.parse_digest digest ≡ ok subject)
          × (new_oras_repository R.parse_reference cfg ≡ ok repo)
          × IsRecorded repo subject result

      behind : Bytes → Repository → M RunResult
      behind subject repo =
          download_listed R encode cfg repo subject (no_referrers R encode cfg digest)
            (R.referrers repo subject)

      found :
          (subject : Bytes) (repo : Repository) (o : Result RunResult × World)
          → R.parse_digest digest ≡ ok subject
          → new_oras_repository R.parse_reference cfg ≡ ok repo
          → Yields (IsRecorded repo subject) o
          → Yields Answer o
      found subject repo (ok got, u) p q all = (subject, repo, p, q, all)
      found subject repo (err e, u) p q all = tt

      made :
          (subject : Bytes) (r : Result Repository)
          → R.parse_digest digest ≡ ok subject
          → new_oras_repository R.parse_reference cfg ≡ r
          → Yields Answer ((lift r >>= behind subject) w)
      made subject (err e) p q = tt
      made subject (ok repo) p q = found subject repo (behind subject repo w) p q (
          download_listed-IsRecorded repo subject (no_referrers R encode cfg digest) w
            (R.referrers repo subject) refl refl)

      parsed :
          (r : Result Bytes)
          → R.parse_digest digest ≡ r
          → Yields Answer (
              (do
                subject ← lift (wrap_result "parse subject digest" r)
                repo ← lift (new_oras_repository R.parse_reference cfg)
                behind subject repo)
                w)
      parsed (err e) p = tt
      parsed (ok subject) p = made subject (new_oras_repository R.parse_reference cfg) p refl
