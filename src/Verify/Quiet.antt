-- ===== src/Verify/Quiet.antt =====
-- internal/unpacker/verify.go: what newSignatureVerifier does to the disk.

use unpacker.Base.{refl}
use unpacker.Base.{Bool, true, false, [], ◌∷◌, Option, some, if◌then◌else◌}
use unpacker.Base.Text.{Bytes, codes}
use unpacker.Errors.{wrap_result}
use unpacker.System.{M, ◌>>=◌, pure, lift, read_file, wrapping}
use unpacker.System.Keeps.{Keeps}
use unpacker.System.Reads.{SameBut, >>=-SameBut, lift-pure-SameBut, read_file-SameBut}
use unpacker.Auth.{filled}
use unpacker.Verify.Config.{VerifyConfig}
use unpacker.Verify.Trust.{
  Sigstore, Material, trusted_root, public_key_material, initial_root, trusted_material,
}
use unpacker.Verify.Bundles.{Engine, make_verifier, new_signature_verifier}

module _ (S : Sigstore) (E : Engine S) where
  -- `new_signature_verifier` reads, and a fetch fills its cache.
  public_key_material-SameBut :
      (path : Bytes) → Keeps (SameBut S.in_tuf_cache) (public_key_material S path)
  unfolding public_key_material
  public_key_material-SameBut path =
      >>=-SameBut S.in_tuf_cache (wrapping "read cosign key" (read_file path)) _
        (read_file-SameBut S.in_tuf_cache path) (λ pem. lift-pure-SameBut S.in_tuf_cache _ _)

  initial_root-SameBut : (path : Bytes) → Keeps (SameBut S.in_tuf_cache) (initial_root S path)
  unfolding initial_root
  initial_root-SameBut [] = λ w. ((λ q _. refl), refl)
  initial_root-SameBut (c ∷ path) =
      >>=-SameBut S.in_tuf_cache (wrapping "read TUF root" (read_file (c ∷ path)))
        (λ root_json. pure (some root_json)) (read_file-SameBut S.in_tuf_cache (c ∷ path))
        (λ r w. ((λ q _. refl), refl))

  trusted_material-SameBut :
      (v : VerifyConfig) → Keeps (SameBut S.in_tuf_cache) (trusted_material S v)
  unfolding trusted_material
  trusted_material-SameBut v =
      chosen (filled v.cosign_key_path) (filled v.trusted_root_path) (filled v.tuf_mirror)
    where
      by_key : M (Material S × Bytes)
      by_key = do material ← public_key_material S v.cosign_key_path; pure (material, codes "key")

      fetched : Option Bytes → M (Material S × Bytes)
      fetched initial = do
        root ← wrapping "fetch trusted root" (S.fetch_trusted_root_with v.tuf_mirror initial)
        pure (trusted_root root, codes "tuf")

      chosen :
          (k r t : Bool)
          → Keeps (SameBut S.in_tuf_cache) (
              if k
              then by_key
              else if r
              then (do
                content ← wrapping "read trusted root" (read_file v.trusted_root_path)
                root ← lift (wrap_result "read trusted root" (S.parse_trusted_root content))
                pure (trusted_root root, codes "trusted-root"))
              else if t
              then (do
                initial ← initial_root S v.tuf_root_path
                root ←
                    wrapping "fetch trusted root" (S.fetch_trusted_root_with v.tuf_mirror initial)
                pure (trusted_root root, codes "tuf"))
              else (do
                root ← wrapping "fetch the public Sigstore trusted root" S.fetch_trusted_root
                pure (trusted_root root, codes "public")))
      chosen true r t =
          >>=-SameBut S.in_tuf_cache (public_key_material S v.cosign_key_path)
            (λ material. pure (material, codes "key"))
            (public_key_material-SameBut v.cosign_key_path) (λ material w. ((λ q _. refl), refl))
      chosen false true t =
          >>=-SameBut S.in_tuf_cache (wrapping "read trusted root" (read_file v.trusted_root_path))
            _ (read_file-SameBut S.in_tuf_cache v.trusted_root_path)
            (λ content. lift-pure-SameBut S.in_tuf_cache _ _)
      chosen false false true =
          >>=-SameBut S.in_tuf_cache (initial_root S v.tuf_root_path) fetched
            (initial_root-SameBut v.tuf_root_path)
            λ initial.
              >>=-SameBut S.in_tuf_cache
                (wrapping "fetch trusted root" (S.fetch_trusted_root_with v.tuf_mirror initial))
                (λ root. pure (trusted_root root, codes "tuf"))
                (S.fetch_trusted_root_with-SameBut v.tuf_mirror initial)
                (λ root w. ((λ q _. refl), refl))
      chosen false false false =
          >>=-SameBut S.in_tuf_cache
            (wrapping "fetch the public Sigstore trusted root" S.fetch_trusted_root)
            (λ root. pure (trusted_root root, codes "public")) S.fetch_trusted_root-SameBut
            (λ root w. ((λ q _. refl), refl))

  pub new_signature_verifier-SameBut :
      (v : VerifyConfig) (subject : Bytes)
      → Keeps (SameBut S.in_tuf_cache) (new_signature_verifier S E v subject)
  unfolding new_signature_verifier
  new_signature_verifier-SameBut v subject =
      >>=-SameBut S.in_tuf_cache (trusted_material S v) (λ t. lift (make_verifier S E v subject t))
        (trusted_material-SameBut v) (λ t w. ((λ q _. refl), refl))
