-- ===== src/Unpack/Publish.antt =====
-- What `Unpack` publishes.
use unpacker.Base.{◌≡◌, refl, ap, ◌∙◌, arith, ◌++◌, none, if◌then◌else◌}
use unpacker.Base.Text.{Bytes}
use unpacker.Errors.{Result, ok, err}
use unpacker.System.{
  World, ◌>>=◌, attempt, wrapping, remove_all, rename, find, within, find-remove_tree,
}
use unpacker.System.Sequel.{>>=-ok, wrapping-ok}
use unpacker.System.Moved.{IsTail, find-move_tree, remove_all-ok, rename-ok}
use unpacker.Config.{Config}
use unpacker.Unpack.Atomic.{image-staging}
use unpacker.Unpack.{Tools, unpack_into, unpack, publish, staging_dir, image_dir}

module _ (T : Tools) (cfg : Config) where
  abbrev staging : Bytes
  staging = staging_dir cfg

  abbrev image : Bytes
  image = image_dir cfg

  publish-ok :
      (x v : World) (s : Bytes)
      → IsTail s
      → publish cfg (ok tt) x ≡ (ok tt, v)
      → find (image ++ s) v.disk ≡ find (staging ++ s) x.disk
  publish-ok x v s tail h =
      let (_, y, gone, moved) =
        >>=-ok (wrapping "replace previous image dir" (remove_all image))
          (λ _. wrapping "publish image dir" (rename staging image)) x h in
      let (free, disk) =
        rename-ok staging image y v (wrapping-ok _ (rename staging image) y moved) in
      ap (find (image ++ s)) disk
      ∙ find-move_tree staging image s y.disk tail free
      ∙ ap (find (staging ++ s)) (remove_all-ok image x y (wrapping-ok _ (remove_all image) x gone))
      ∙ find-remove_tree image (staging ++ s) x.disk
      ∙ rw (image-staging cfg s) refl

  -- The staging directory is cleared, and nothing else is touched.
  abbrev pub Cleared : World → World → Type 0
  Cleared w u = (q : Bytes) → find q u.disk ≡ (if within staging q then none else find q w.disk)

  -- The three ways have run from a disk with an empty staging directory, and image/ is what they left.
  abbrev pub Published : World → World → Type 0
  Published w v =
      (u : World) × (x : World) × Cleared w u
      × (unpack_into T cfg staging u ≡ (ok tt, x))
      × ((s : Bytes) → IsTail s → find (image ++ s) v.disk ≡ find (staging ++ s) x.disk)

  -- An unpacking that goes through has run the three ways into the staging directory without an error,
  -- from the disk that it started on with the staging directory cleared, and image/ then holds at
  -- every path exactly what that run left there.
  pub unpack-publishes : (w v : World) → unpack T cfg w ≡ (ok tt, v) → Published w v
  unfolding unpack
  unpack-publishes w v h =
      let (_, u, gone, rest) =
        >>=-ok (wrapping "clear staging dir" (remove_all staging))
          (λ _. attempt (unpack_into T cfg staging) >>= publish cfg) w h in
      go u (wrapping-ok _ (remove_all staging) w gone) (unpack_into T cfg staging u) refl rest
    where
      go :
          (u : World)
          → remove_all staging w ≡ (ok tt, u)
          → (o : Result (Unit {0}) × World) → unpack_into T cfg staging u ≡ o
          → publish cfg o.0 o.1 ≡ (ok tt, v)
          → Published w v
      go u gone (ok t, x) q h = (
        u,
        x,
        (λ p. ap (find p) (remove_all-ok staging w u gone) ∙ find-remove_tree staging p w.disk),
        q,
        λ s tail. publish-ok x v s tail h,
      )
      go u gone (err e, x) q h =
          absurd (ground (arith, ap (λ (o : Result (Unit {0}) × World). o.0) h))
