-- ===== src/Unpack/Atomic.antt =====
-- What a failing `Unpack` leaves behind.
use unpacker.Base.{◌≡◌, refl, ◌∙◌, ◌⊎◌, inl, inr, arith, Bool, true, false, ◌||◌, ◌++◌, subst}
use unpacker.Base.Text.{Bytes, codes, bytes_eq, has_prefix}
use unpacker.Path.Names.{IsPlain}
use unpacker.Path.Siblings.{within-siblings}
use unpacker.Errors.{Error, Result, ok, err}
use unpacker.System.{World, proceed, ◌>>=◌, fail, attempt, wrapping, remove_all, within, ancestors}
use unpacker.System.Keeps.{Keeps, IsPreorder, >>=-Keeps}
use unpacker.System.Ancestors.{OneOf}
use unpacker.System.Settled.{
  Settled, Settled-IsPreorder, Confined-Settled, remove_all-Settled, rename-Settled,
}
use unpacker.Config.{Config}
use unpacker.Unpack.{Tools, unpack_into, unpack, publish, staging_dir, image_dir}
use unpacker.Unpack.Confined.{UmociStays, clean-staging_dir, unpack_into-Confined}

-- A directory on the way to the staging directory.
abbrev pub OnWay : Config → Bytes → Type 0
OnWay cfg q = OneOf q (ancestors (staging_dir cfg))

-- Both trees that an unpacking works on.
abbrev pub in_trees : Config → Bytes → Bool
in_trees cfg q = within (staging_dir cfg) q || within (image_dir cfg) q

in_staging : (cfg : Config) (q : Bytes) → within (staging_dir cfg) q ≡ true → in_trees cfg q ≡ true
in_staging cfg q h = rw h refl

in_image : (cfg : Config) (q : Bytes) → within (image_dir cfg) q ≡ true → in_trees cfg q ≡ true
in_image cfg q h = ground arith

-- Nothing but the staging directory has changed, but for missing directories on the way to it.
abbrev pub OnlyStaged : Config → World → World → Type 0
OnlyStaged cfg = Settled (within (staging_dir cfg)) (OnWay cfg)

module _ (T : Tools) (cfg : Config) (stays : UmociStays T cfg) where
  abbrev staging : Bytes
  staging = staging_dir cfg

  -- The parts of an unpacking, in a region that holds the staging directory.
  module _ (inside : Bytes → Bool)
      (holds_staging : (q : Bytes) → within staging q ≡ true → inside q ≡ true) where
    abbrev R : World → World → Type 0
    R = Settled inside (OnWay cfg)

    P : IsPreorder R
    P = Settled-IsPreorder inside (OnWay cfg)

    unpack_into-Settled : Keeps R (unpack_into T cfg staging)
    unpack_into-Settled w =
        Confined-Settled inside (OnWay cfg) staging w (unpack_into T cfg staging w).1
          (clean-staging_dir cfg) holds_staging
          (λ q o. subst (λ z. OneOf q (ancestors z)) (clean-staging_dir cfg) o)
          (unpack_into-Confined T cfg stays w)

    remove_staging-Settled : Keeps R (remove_all staging)
    remove_staging-Settled = remove_all-Settled inside (OnWay cfg) staging holds_staging

    publish_err-Settled : (e : Error) → Keeps R (publish cfg (err e))
    publish_err-Settled e =
        >>=-Keeps R P (Result (Unit {0})) (Unit {0}) (attempt (remove_all staging)) (λ _. fail e)
          remove_staging-Settled (λ r w. P.same w)

    publish-Settled :
        ((q : Bytes) → within (image_dir cfg) q ≡ true → inside q ≡ true)
        → (r : Result (Unit {0})) → Keeps R (publish cfg r)
    publish-Settled holds_image (err e) = publish_err-Settled e
    publish-Settled holds_image (ok u) =
        >>=-Keeps R P (Unit {0}) (Unit {0})
          (wrapping "replace previous image dir" (remove_all (image_dir cfg))) _
          (remove_all-Settled inside (OnWay cfg) (image_dir cfg) holds_image)
          (λ _. rename-Settled inside (OnWay cfg) staging (image_dir cfg) holds_staging holds_image)

  -- On every outcome, an unpacking changes nothing outside image/ and the staging directory.
  pub unpack-Settled : Keeps (Settled (in_trees cfg) (OnWay cfg)) (unpack T cfg)
  unfolding unpack
  unpack-Settled =
      >>=-Keeps R' P' (Unit {0}) (Unit {0}) (wrapping "clear staging dir" (remove_all staging)) _
        (remove_staging-Settled (in_trees cfg) (in_staging cfg))
        λ _.
          >>=-Keeps R' P' (Result (Unit {0})) (Unit {0}) (attempt (unpack_into T cfg staging))
            (publish cfg) (unpack_into-Settled (in_trees cfg) (in_staging cfg))
            (publish-Settled (in_trees cfg) (in_staging cfg) (in_image cfg))
    where
      R' : World → World → Type 0
      R' = Settled (in_trees cfg) (OnWay cfg)

      P' : IsPreorder R'
      P' = Settled-IsPreorder (in_trees cfg) (OnWay cfg)

  -- An unpacking either fails with nothing changed but the staging directory, or its three ways have
  -- gone through, with nothing changed but the staging directory, and it ends with the publication.
  pub unpack-OnlyStaged :
      (w : World)
      → ((e : Error) × ((unpack T cfg w).0 ≡ err e) × OnlyStaged cfg w (unpack T cfg w).1)
        ⊎ ((u : World) × (x : World) × (unpack_into T cfg staging u ≡ (ok tt, x))
            × OnlyStaged cfg w x
            × (unpack T cfg w ≡ publish cfg (ok tt) x))
  unfolding unpack
  unpack-OnlyStaged w =
      cleared (wrapping "clear staging dir" (remove_all staging) w)
        (remove_staging-Settled (within staging) (λ q h. h) w)
    where
      P' : IsPreorder (OnlyStaged cfg)
      P' = Settled-IsPreorder (within staging) (OnWay cfg)

      Ends : Result (Unit {0}) × World → Type 0
      Ends o =
          ((e : Error) × (o.0 ≡ err e) × OnlyStaged cfg w o.1)
          ⊎ ((u : World) × (x : World) × (unpack_into T cfg staging u ≡ (ok tt, x))
              × OnlyStaged cfg w x
              × (o ≡ publish cfg (ok tt) x))

      tried :
          (u : World) (o : Result (Unit {0}) × World)
          → unpack_into T cfg staging u ≡ o
          → OnlyStaged cfg w o.1
          → Ends (publish cfg o.0 o.1)
      tried u (ok t, x) ran kept = inr (u, x, ran, kept, refl)
      tried u (err e, x) ran kept = inl (
        e,
        refl,
        P'.then_also w x (publish cfg (err e) x).1 kept
            (publish_err-Settled (within staging) (λ q h. h) e x),
      )

      cleared :
          (o : Result (Unit {0}) × World)
          → OnlyStaged cfg w o.1
          → Ends (proceed (λ _. attempt (unpack_into T cfg staging) >>= publish cfg) o)
      cleared (ok t, u) kept = tried u (unpack_into T cfg staging u) refl (
          P'.then_also w u (unpack_into T cfg staging u).1 kept
            (unpack_into-Settled (within staging) (λ q h. h) u))
      cleared (err e, u) kept = inl (e, refl, kept)

-- The trees of image/ and of the staging directory have no path in common.
staging-IsPlain : IsPlain (codes ".image.staging")
unfolding bytes_eq
staging-IsPlain = ((refl, refl, refl), ground arith)

image-IsPlain : IsPlain (codes "image")
unfolding bytes_eq
image-IsPlain = ((refl, refl, refl), ground arith)

pub staging-image :
    (cfg : Config) (s : Bytes) → within (staging_dir cfg) (image_dir cfg ++ s) ≡ false
unfolding within bytes_eq has_prefix
staging-image cfg s =
    within-siblings cfg.output_dir (codes ".image.staging") (codes "image") s staging-IsPlain
      image-IsPlain
    ∙ refl

pub image-staging :
    (cfg : Config) (s : Bytes) → within (image_dir cfg) (staging_dir cfg ++ s) ≡ false
unfolding within bytes_eq has_prefix
image-staging cfg s =
    within-siblings cfg.output_dir (codes "image") (codes ".image.staging") s image-IsPlain
      staging-IsPlain
    ∙ refl
