-- ===== src/Pull/Answered.antt =====
-- internal/unpacker/pull.go: the digest that Pull answers, beside the manifest.json of that pull.
use unpacker.Base.{
  ◌≡◌, refl, sym, ap, subst, ◌∙◌, inl, inr, arith, Bool, true, false, List, [], append-nil, All,
  Option, none, some, if◌then◌else◌,
}
use unpacker.Base.Text.{Bytes, codes, bytes_eq, has_prefix}
use unpacker.Path.{join}
use unpacker.Path.Confine.{IsBelow}
use unpacker.Path.Names.{clean-join}
use unpacker.Path.Siblings.{within-siblings}
use unpacker.Errors.{Error, Result, ok, err, wrap_two, wrap_result, error_is, use_crane_fallback}
use unpacker.System.{
  World, M, ◌>>=◌, ◌>>◌, pure, fail, attempt, wrapping, lift, say, said, write_file, mkdir_all,
  remove_all, within, find,
}
use unpacker.System.Leaves.{
  Leaves, >>=-Leaves, wrapping-Leaves, lift-Leaves, lift-wrap_result-Leaves,
}
use unpacker.System.Reads.{Holds}
use unpacker.System.Confined.{Confined, Kept}
use unpacker.System.Settled.{IsBelow-within}
use unpacker.Config.{Config}
use unpacker.Pull.Budget.{Descriptor, DownloadBudget, new_download_budget}
use unpacker.Pull.Credentials.{Repository, new_oras_repository}
use unpacker.Pull.Relabel.{FallbackReason, crane_fallback_reason}
use unpacker.Pull.Registry.{Registry}
use unpacker.Pull.Oras.{or_latest, blob_name, decline, pull_layers, pull_artifact, pull_with_oras}
use unpacker.Pull.Crane.{Crane, pull_with_crane, after_crane, after_oras, pull}
use unpacker.Pull.Confined.{pull_layers-Confined}
use unpacker.Pull.Served.{ByOras, ByCrane, IsServed, written-Holds, pull_with_crane-ByCrane}
use unpacker.Pull.Settled.{tmp_dir, manifest_path}

-- manifest.json does not lie in tmp/.
manifest-tmp : (cfg : Config) → within (tmp_dir cfg) (manifest_path cfg) ≡ false
unfolding within bytes_eq has_prefix
manifest-tmp cfg =
    ap (within (tmp_dir cfg)) (sym (append-nil (manifest_path cfg)))
    ∙ within-siblings cfg.output_dir (codes "tmp") (codes "manifest.json") []
        ((refl, refl, refl), ground arith) ((refl, refl, refl), ground arith)
    ∙ refl

Confined-Holds :
    (cfg : Config) (w v : World) (s : Bytes)
    → Confined (tmp_dir cfg) w v
    → Holds w.disk (manifest_path cfg) s
    → Holds v.disk (manifest_path cfg) s
Confined-Holds cfg w v s kept (m, found) = same (
    kept (manifest_path cfg) (λ below. cc (
      IsBelow-within (tmp_dir cfg) (manifest_path cfg) (clean-join cfg.output_dir b't' (codes "mp"))
          below,
      manifest-tmp cfg,
    )))
  where
    same :
        Kept
          (tmp_dir cfg)
          (manifest_path cfg)
          (find (manifest_path cfg) w.disk)
          (find (manifest_path cfg) v.disk)
        → Holds v.disk (manifest_path cfg) s
    same (inl e) = (m, e ∙ found)
    same (inr (k, absent, _, _)) = absurd (ground (arith, sym absent ∙ found))

-- Where the layers of the served manifest have names that lead below tmp/.
module _ {Body : Type 0} (R : Registry Body) (C : Crane) (cfg : Config)
    (named : (repo : Repository) (desc : Descriptor) (body : Body) (content : Bytes)
        (layers : List Descriptor)
      → R.fetch_reference repo (or_latest repo.reference.reference) ≡ ok (desc, body)
      → R.read_all desc body ≡ ok content
      → R.parse_layers content ≡ ok layers
      → All (λ layer. IsBelow (tmp_dir cfg) (join (tmp_dir cfg) (blob_name layer))) layers) where
  abbrev tmp : Bytes
  tmp = tmp_dir cfg

  abbrev IsKept : Descriptor → Bytes → Bytes → World → Type 0
  IsKept desc content digest v =
      (crane_fallback_reason R.types R.config_type desc.media_type content ≡ none)
      × (digest ≡ desc.digest)
      × Holds v.disk (manifest_path cfg) content

  pull_artifact-IsKept :
      (repo : Repository) (desc : Descriptor) (content : Bytes) (w : World)
      → ((layers : List Descriptor)
          → R.parse_layers content ≡ ok layers
          → All (λ layer. IsBelow tmp (join tmp (blob_name layer))) layers)
      → Leaves (IsKept desc content) (pull_artifact R cfg tmp repo desc content w)
  unfolding pull_artifact
  pull_artifact-IsKept repo desc content w below =
      declined (crane_fallback_reason R.types R.config_type desc.media_type content) refl
    where
      Q : Bytes → World → Type 0
      Q = IsKept desc content

      budget : Option DownloadBudget
      budget = some (new_download_budget cfg.limits)

      fetched : List Descriptor → M Bytes
      fetched layers = pull_layers R repo tmp layers budget >> pure desc.digest

      parsed : Unit {0} → M Bytes
      parsed _ = lift (wrap_result "parse manifest" (R.parse_layers content)) >>= fetched

      stored : M Bytes
      stored =
          wrapping "write manifest.json" (write_file (manifest_path cfg) content 0o644) >>= parsed

      declined :
          (r : Option FallbackReason)
          → crane_fallback_reason R.types R.config_type desc.media_type content ≡ r
          → Leaves Q ((lift (decline r) >>= λ _. stored) w)
      declined (some reason) none_given = tt
      declined none none_given =
          wrapping-Leaves Q (Unit {0}) "write manifest.json"
            (write_file (manifest_path cfg) content 0o644) parsed w
            λ t u wrote.
              lift-wrap_result-Leaves Q (List Descriptor) "parse manifest" (R.parse_layers content)
                fetched u
                λ layers listed.
                  >>=-Leaves Q (Unit {0}) (pull_layers R repo tmp layers budget)
                    (λ _. pure desc.digest) u
                    λ _ x ran. (
                      none_given,
                      refl,
                      Confined-Holds cfg u x content
                          (subst (λ (o : Result (Unit {0}) × World). Confined tmp u o.1) ran
                            (pull_layers-Confined R repo tmp layers budget u (below layers listed)))
                          (written-Holds R C cfg content w u wrote),
                    )

  pull_with_oras-ByOras :
      (w : World) → Leaves (λ digest v. ByOras R C cfg digest v.disk) (pull_with_oras R cfg tmp w)
  unfolding pull_with_oras
  pull_with_oras-ByOras w =
      lift-Leaves Q Repository (new_oras_repository R.parse_reference cfg) found w λ repo made.
        lift-wrap_result-Leaves Q (Descriptor × Body) "fetch manifest" (asked repo) (read repo) w
          λ (desc, body) served.
            lift-wrap_result-Leaves Q Bytes "read manifest" (R.read_all desc body)
              (pull_artifact R cfg tmp repo desc) w
              λ content verified.
                whole repo desc body content made served verified
                  (pull_artifact R cfg tmp repo desc content w)
                  (pull_artifact-IsKept repo desc content w
                    (λ layers. named repo desc body content layers served verified))
    where
      Q : Bytes → World → Type 0
      Q digest v = ByOras R C cfg digest v.disk

      asked : Repository → Result (Descriptor × Body)
      asked repo = R.fetch_reference repo (or_latest repo.reference.reference)

      read : Repository → Descriptor × Body → M Bytes
      read repo (desc, body) =
          lift (wrap_result "read manifest" (R.read_all desc body))
          >>= pull_artifact R cfg tmp repo desc

      found : Repository → M Bytes
      found repo = lift (wrap_result "fetch manifest" (asked repo)) >>= read repo

      whole :
          (repo : Repository) (desc : Descriptor) (body : Body) (content : Bytes)
          → new_oras_repository R.parse_reference cfg ≡ ok repo
          → asked repo ≡ ok (desc, body)
          → R.read_all desc body ≡ ok content
          → (o : Result Bytes × World) → Leaves (IsKept desc content) o
          → Leaves Q o
      whole repo desc body content made served verified (ok digest, v) (reason, same, held) =
          (repo, desc, body, content, made, served, verified, reason, same, held)
      whole repo desc body content made served verified (err e, v) kept = tt

  -- Where the layers of the served manifest have names that lead below tmp/, a pull that answers a
  -- digest has left in manifest.json either the manifest of an artifact, verified by oras against the
  -- descriptor that has this digest, or the manifest of an image as OCI, where crane serves the image
  -- under this digest and its declared sizes were accepted.
  pub pull-IsServed :
      (w v : World) (digest : Bytes)
      → pull R C cfg w ≡ (ok digest, v)
      → IsServed R C cfg digest v.disk
  unfolding pull
  pull-IsServed w v digest h = subst (Leaves Q) h (
      wrapping-Leaves Q (Unit {0}) "create tmp dir" (mkdir_all tmp 0o755) tried w λ _ u _.
        chosen (told u) (pull_with_oras R cfg tmp (told u)) (pull_with_oras-ByOras (told u)))
    where
      Q : Bytes → World → Type 0
      Q digest v = IsServed R C cfg digest v.disk

      told : World → World
      told u = (say (said "pulling with oras") u).1

      tried : Unit {0} → M Bytes
      tried _ =
          say (said "pulling with oras")
          >> (attempt (pull_with_oras R cfg tmp) >>= after_oras R C cfg tmp)

      refused :
          (b : Bool) (e x : Error) (y : World)
          → Leaves Q ((if b then fail x else fail (wrap_two "oras: %w; crane fallback: %w" e x)) y)
      refused true e x y = tt
      refused false e x y = tt

      crane :
          (e : Error) (o : Result Bytes × World)
          → Leaves (λ digest v. ByCrane R C cfg digest v.disk) o
          → Leaves Q (after_crane R C e o.0 o.1)
      crane e (ok digest, y) shown = inr shown
      crane e (err x, y) shown = refused (error_is use_crane_fallback e) e x y

      chosen :
          (u : World) (o : Result Bytes × World)
          → Leaves (λ digest v. ByOras R C cfg digest v.disk) o
          → Leaves Q (after_oras R C cfg tmp o.0 o.1)
      chosen u (ok digest, x) kept = inl kept
      chosen u (err e, x) kept =
          wrapping-Leaves Q (Unit {0}) "clean partial oras output" (remove_all tmp)
            (λ _. attempt (pull_with_crane R.types C cfg) >>= after_crane R C e)
            (say (said "oras failed, falling back to go-containerregistry") x).1
            λ _ y _. crane e (pull_with_crane R.types C cfg y) (pull_with_crane-ByCrane R C cfg y)
