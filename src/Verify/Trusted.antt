-- ===== src/Verify/Trusted.antt =====
-- internal/unpacker/verify.go: which key or root `trustedMaterial` answers.
use unpacker.Base.{
  ◌≡◌, refl, ap, subst, ◌⊎◌, inl, inr, Bool, true, false, [], ◌∷◌, Option, none, some,
  if◌then◌else◌,
}
use unpacker.Base.Text.{Bytes, codes}
use unpacker.Errors.{wrap, Result, ok, err, wrap_result}
use unpacker.System.{World, M, ◌>>=◌, pure, wrapping, lift, read_file}
use unpacker.System.Leaves.{
  Leaves, >>=-Leaves, wrapping-Leaves, lift-Leaves, lift-wrap_result-Leaves,
}
use unpacker.System.Reads.{Holds, read_file-Holds}
use unpacker.Auth.{filled}
use unpacker.Verify.Config.{VerifyConfig}
use unpacker.Verify.Trust.{
  Sigstore, Material, public_key, trusted_root, decoded_key, public_key_material, initial_root,
  trusted_material,
}

module _ (S : Sigstore) where
  -- The key that the PEM text of this file holds.
  abbrev pub IsKeyOf : Bytes → World → Material S → Type 0
  IsKeyOf path w tm =
      (pem : Bytes) × (block : Bytes) × (pub_key : S.PublicKey) × (key : S.Key) × Holds w.disk path
        pem
      × (S.pem_decode pem ≡ some block)
      × (S.parse_public_key block ≡ ok pub_key)
      × (S.load_verifier pub_key ≡ ok key)
      × (tm ≡ public_key key)

  -- The root that this file holds.
  abbrev pub IsRootOf : Bytes → World → Material S → Type 0
  IsRootOf path w tm =
      (content : Bytes) × (root : S.Root) × Holds w.disk path content
      × (S.parse_trusted_root content ≡ ok root)
      × (tm ≡ trusted_root root)

  -- The root of TUF that a fetch starts from: the content of the file, where one is named.
  abbrev pub IsInitial : Bytes → World → Option Bytes → Type 0
  IsInitial [] w initial = initial ≡ none
  IsInitial (c ∷ path) w initial =
      (raw : Bytes) × Holds w.disk (c ∷ path) raw × (initial ≡ some raw)

  -- What is trusted: the key of the flags, else their root, else what their TUF mirror delivers, else
  -- what the public instance delivers.
  abbrev pub IsTrusted : VerifyConfig → World → Material S → World → Type 0
  IsTrusted v w tm u =
      ((filled v.cosign_key_path ≡ true) × IsKeyOf v.cosign_key_path w tm)
      ⊎ ((filled v.cosign_key_path ≡ false)
          × (filled v.trusted_root_path ≡ true)
          × IsRootOf v.trusted_root_path w tm)
      ⊎ ((filled v.cosign_key_path ≡ false)
          × (filled v.trusted_root_path ≡ false)
          × (filled v.tuf_mirror ≡ true)
          × (initial : Option Bytes) × (x : World) × (root : S.Root) × IsInitial v.tuf_root_path w
              initial
          × (S.fetch_trusted_root_with v.tuf_mirror initial x ≡ (ok root, u))
          × (tm ≡ trusted_root root))
      ⊎ ((filled v.cosign_key_path ≡ false)
          × (filled v.trusted_root_path ≡ false)
          × (filled v.tuf_mirror ≡ false)
          × (root : S.Root) × (S.fetch_trusted_root w ≡ (ok root, u))
          × (tm ≡ trusted_root root))

  read-Holds : (p : Bytes) (w u : World) (s : Bytes) → read_file p w ≡ (ok s, u) → Holds w.disk p s
  read-Holds p w u s h = read_file-Holds p w (ap (λ (o : Result Bytes × World). o.0) h)

  decoded_key-ok :
      (o : Option Bytes) (key : S.Key)
      → decoded_key S o ≡ ok key
      → (block : Bytes) × (pub_key : S.PublicKey) × (o ≡ some block)
        × (S.parse_public_key block ≡ ok pub_key)
        × (S.load_verifier pub_key ≡ ok key)
  unfolding decoded_key
  decoded_key-ok none key h = cc
  decoded_key-ok (some block) key h = parsed (S.parse_public_key block) refl h
    where
      Found : Type 0
      Found =
          (b : Bytes) × (pub_key : S.PublicKey) × (some block ≡ some b)
          × (S.parse_public_key b ≡ ok pub_key)
          × (S.load_verifier pub_key ≡ ok key)

      loaded :
          (pub_key : S.PublicKey)
          → S.parse_public_key block ≡ ok pub_key
          → (r : Result S.Key) → S.load_verifier pub_key ≡ r
          → wrap_result "load cosign key" r ≡ ok key
          → Found
      loaded pub_key p (ok k) l h =
          (block, pub_key, refl, p, subst (λ z. S.load_verifier pub_key ≡ z) h l)
      loaded pub_key p (err e) l h = cc

      parsed :
          (r : Result S.PublicKey)
          → S.parse_public_key block ≡ r
          → elim r [
            | err e ↦ err (wrap "parse cosign key" e)
            | ok pub_key ↦ wrap_result "load cosign key" (S.load_verifier pub_key)
          ]
            ≡ ok key
          → Found
      parsed (err e) p h = cc
      parsed (ok pub_key) p h = loaded pub_key p (S.load_verifier pub_key) refl h

  public_key_material-IsKeyOf :
      (path : Bytes) (w : World) → Leaves (λ tm u. IsKeyOf path w tm) (public_key_material S path w)
  unfolding public_key_material
  public_key_material-IsKeyOf path w =
      wrapping-Leaves (λ tm u. IsKeyOf path w tm) Bytes "read cosign key" (read_file path) decode w
        λ pem u read.
          lift-Leaves (λ tm u. IsKeyOf path w tm) S.Key (decoded_key S (S.pem_decode pem))
            (λ key. pure (public_key key)) u
            λ key decoded.
              let (block, pub_key, found, parsed, loaded) =
                decoded_key-ok (S.pem_decode pem) key decoded in
              (pem, block, pub_key, key, read-Holds path w u pem read, found, parsed, loaded, refl)
    where
      decode : Bytes → M (Material S)
      decode pem = lift (decoded_key S (S.pem_decode pem)) >>= λ key. pure (public_key key)

  initial_root-IsInitial :
      (path : Bytes) (w : World)
      → Leaves (λ initial u. IsInitial path w initial) (initial_root S path w)
  unfolding initial_root
  initial_root-IsInitial [] w = refl
  initial_root-IsInitial (c ∷ path) w =
      wrapping-Leaves (λ initial u. IsInitial (c ∷ path) w initial) Bytes "read TUF root"
        (read_file (c ∷ path)) (λ raw. pure (some raw)) w
        λ raw u read. (raw, read-Holds (c ∷ path) w u raw read, refl)

  pub trusted_material-IsTrusted :
      (v : VerifyConfig) (w : World)
      → Leaves (λ (p : Material S × Bytes) u. IsTrusted v w p.0 u) (trusted_material S v w)
  unfolding trusted_material
  trusted_material-IsTrusted v w =
      chosen (filled v.cosign_key_path) (filled v.trusted_root_path) (filled v.tuf_mirror) refl refl
        refl
    where
      Q : Material S × Bytes → World → Type 0
      Q p u = IsTrusted v w p.0 u

      rooted : Bytes → S.Root → M (Material S × Bytes)
      rooted source root = pure (trusted_root root, source)

      parsed : Bytes → M (Material S × Bytes)
      parsed content =
          lift (wrap_result "read trusted root" (S.parse_trusted_root content))
          >>= rooted (codes "trusted-root")

      fetched : Option Bytes → M (Material S × Bytes)
      fetched initial =
          wrapping "fetch trusted root" (S.fetch_trusted_root_with v.tuf_mirror initial)
          >>= rooted (codes "tuf")

      chosen :
          (k r t : Bool)
          → filled v.cosign_key_path ≡ k
          → filled v.trusted_root_path ≡ r
          → filled v.tuf_mirror ≡ t
          → Leaves Q (
              (if k
                  then (public_key_material S v.cosign_key_path >>= λ tm. pure (tm, codes "key"))
                  else if r
                  then (wrapping "read trusted root" (read_file v.trusted_root_path) >>= parsed)
                  else if t
                  then (initial_root S v.tuf_root_path >>= fetched)
                  else (wrapping "fetch the public Sigstore trusted root" S.fetch_trusted_root
                      >>= rooted (codes "public")))
                w)
      chosen true r t k' r' t' =
          >>=-Leaves Q (Material S) (public_key_material S v.cosign_key_path)
            (λ tm. pure (tm, codes "key")) w
            λ tm u loaded. inl (
              k',
              subst (Leaves (λ tm u. IsKeyOf v.cosign_key_path w tm)) loaded
                  (public_key_material-IsKeyOf v.cosign_key_path w),
            )
      chosen false true t k' r' t' =
          wrapping-Leaves Q Bytes "read trusted root" (read_file v.trusted_root_path) parsed w
            λ content u read.
              lift-wrap_result-Leaves Q S.Root "read trusted root" (S.parse_trusted_root content)
                (rooted (codes "trusted-root")) u
                λ root found. inr (
                  inl (
                    k',
                    r',
                    (content, root, read-Holds v.trusted_root_path w u content read, found, refl),
                  ))
      chosen false false true k' r' t' =
          >>=-Leaves Q (Option Bytes) (initial_root S v.tuf_root_path) fetched w
            λ initial x started.
              wrapping-Leaves Q S.Root "fetch trusted root"
                (S.fetch_trusted_root_with v.tuf_mirror initial) (rooted (codes "tuf")) x
                λ root u got. inr (
                  inr (
                    inl (
                      k',
                      r',
                      t',
                      initial,
                      x,
                      root,
                      subst (Leaves (λ initial u. IsInitial v.tuf_root_path w initial)) started
                          (initial_root-IsInitial v.tuf_root_path w),
                      got,
                      refl,
                    )))
      chosen false false false k' r' t' =
          wrapping-Leaves Q S.Root "fetch the public Sigstore trusted root" S.fetch_trusted_root
            (rooted (codes "public")) w λ root u got. inr (inr (inr (k', r', t', root, got, refl)))
