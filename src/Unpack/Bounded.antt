-- ===== src/Unpack/Bounded.antt =====
-- internal/unpacker/unpack.go: the byte limit over Unpack, by each of its three ways.
use unpacker.Base.{
  ◌+◌, ◌≤◌, ◌≢◌, refl, sym, subst, arith, Bool, true, false, ◌||◌, List, [], ◌∷◌, Option, none,
  some, length,
}
use unpacker.Base.{ltb}
use unpacker.Base.Text.{Bytes, codes}
use unpacker.Base.Word.{I64}
use unpacker.Path.{join, join_all}
use unpacker.Errors.{Error, Result, ok, err, wrap_result}
use unpacker.System.{
  World, M, ◌>>=◌, pure, fail, attempt, wrapping, lift, say, said, read_file, read_dir, remove_all,
  rename,
}
use unpacker.System.Disk.{Listing}
use unpacker.System.Keeps.{Keeps, >>=-Keeps, if-Keeps}
use unpacker.System.Quiet.{
  Quiet, Quiet-IsPreorder, read_file-Quiet, read_dir-Quiet, stat_ok-Quiet, remove_all-Quiet,
  rename-Quiet,
}
use unpacker.Limits.{Limits, with_defaults, with_defaults_idem}
use unpacker.Config.{Config}
use unpacker.Extract.Budget.{IsResolved}
use unpacker.Extract.Bounded.{WithinLimit}
use unpacker.Unpack.Layers.{Layer}
use unpacker.Unpack.Copied.{silent, copy_files-WithinLimit}
use unpacker.Unpack.Shared.{extract_layers-WithinLimit}
use unpacker.Unpack.{
  Tools, first_of_listing, first_file, first_file_is_archive, sniffs_as_archive, copy_files,
  layers_of_manifest, unpack_by, umoci_args, after_umoci, run_umoci, dir_exists, unpack_into,
  staging_dir, image_dir, publish, unpack,
}

silent_all :
    (cap : I64) (w : World) (o : Result (Unit {0}) × World) → Quiet w o.1 → WithinLimit cap w o
silent_all cap w (ok t, u) q = omega (arith, q)
silent_all cap w (err e, u) q = omega (arith, q)

-- A command copies nothing: it is a process of its own.
module _ (T : Tools) (cfg : Config)
    (command-Quiet : (name : Bytes) (args : List Bytes) → Keeps Quiet (T.command name args))
    (v : IsResolved (with_defaults cfg.limits)) where
  abbrev cap : I64
  cap = (with_defaults cfg.limits).max_total_bytes

  run_umoci-Quiet : (tmp image : Bytes) → Keeps Quiet (run_umoci T tmp image)
  unfolding run_umoci
  run_umoci-Quiet tmp image =
      >>=-Keeps Quiet Quiet-IsPreorder (Bytes × Option Error) (Unit {0})
        (T.command (codes "umoci") (umoci_args tmp image)) after_umoci
        (command-Quiet (codes "umoci") (umoci_args tmp image)) ended
    where
      ended : (o : Bytes × Option Error) → Keeps Quiet (after_umoci o)
      ended (out, some e) = λ w. refl
      ended (out, none) =
          if-Keeps Quiet Quiet-IsPreorder (Unit {0}) (ltb 0 (length out))
            (say (said "umoci output")) (pure tt) (λ w. refl) (λ w. refl)

  unpack_by-WithinLimit :
      (tmp image : Bytes) (archive : Bool) (layers : List Layer) (w : World)
      → WithinLimit cap w (unpack_by T tmp image (with_defaults cfg.limits) archive layers w)
  unpack_by-WithinLimit tmp image true [] w =
      silent_all cap w (run_umoci T tmp image w) (run_umoci-Quiet tmp image w)
  unpack_by-WithinLimit tmp image true (l ∷ layers) w =
      extract_layers-WithinLimit T.readers tmp image (l ∷ layers) (with_defaults cfg.limits) w v
  unpack_by-WithinLimit tmp image false layers w =
      subst
        (λ (l : Limits).
          WithinLimit l.max_total_bytes w (copy_files tmp image (with_defaults cfg.limits) w))
        (with_defaults_idem cfg.limits)
        (copy_files-WithinLimit tmp image (with_defaults cfg.limits) w
          (subst IsResolved (sym (with_defaults_idem cfg.limits)) v))

  layers_of_manifest-Quiet : (r : Result Bytes) → Keeps Quiet (layers_of_manifest T cfg r)
  layers_of_manifest-Quiet (err e) = λ w. refl
  layers_of_manifest-Quiet (ok content) =
      >>=-Keeps Quiet Quiet-IsPreorder (List Layer) (List Layer)
        (lift (wrap_result "parse manifest" (T.parse_manifest content))) _ (λ w. refl)
        (λ layers w. refl)

  first_file_is_archive-Quiet : (dir : Bytes) → Keeps Quiet (first_file_is_archive dir)
  unfolding first_file_is_archive
  first_file_is_archive-Quiet dir =
      >>=-Keeps Quiet Quiet-IsPreorder (Result Listing) Bool (attempt (read_dir dir))
        (first_of_listing dir) (read_dir-Quiet dir) listing
    where
      first :
          (o : Option Bytes)
          → Keeps Quiet (elim o as (λ _. M Bool) [
            | none ↦ pure false
            | some name ↦ (do
              content ← attempt (read_file (join dir name))
              pure (sniffs_as_archive content))
          ])
      first none = λ w. refl
      first (some name) =
          >>=-Keeps Quiet Quiet-IsPreorder (Result Bytes) Bool (attempt (read_file (join dir name)))
            (λ content. pure (sniffs_as_archive content)) (read_file-Quiet (join dir name))
            (λ content w. refl)

      listing : (r : Result Listing) → Keeps Quiet (first_of_listing dir r)
      listing (err e) = λ w. refl
      listing (ok l) = first (first_file l)

  unpack_into-WithinLimit :
      (image : Bytes) (w : World) → WithinLimit cap w (unpack_into T cfg image w)
  unfolding unpack_into
  unpack_into-WithinLimit image w =
      silent (Result Bytes) cap w read (attempt (read_file manifest) w) (read_file-Quiet manifest w)
        λ r u.
          silent (List Layer) cap u filtered (layers_of_manifest T cfg r u)
            (layers_of_manifest-Quiet r u)
            λ allowed x.
              silent Bool cap x (sniffed allowed) (first_file_is_archive tmp x)
                (first_file_is_archive-Quiet tmp x)
                λ has_tar y.
                  silent Bool cap y (chosen allowed has_tar) (dir_exists blobs y)
                    (stat_ok-Quiet blobs y)
                    λ has_blobs z. unpack_by-WithinLimit tmp image (has_tar || has_blobs) allowed z
    where
      manifest : Bytes
      manifest = join cfg.output_dir (codes "manifest.json")

      tmp : Bytes
      tmp = join cfg.output_dir (codes "tmp")

      blobs : Bytes
      blobs = join_all (tmp ∷ codes "blobs" ∷ codes "sha256" ∷ [])

      chosen : List Layer → Bool → Bool → M (Unit {0})
      chosen allowed has_tar has_blobs =
          unpack_by T tmp image (with_defaults cfg.limits) (has_tar || has_blobs) allowed

      sniffed : List Layer → Bool → M (Unit {0})
      sniffed allowed has_tar = dir_exists blobs >>= chosen allowed has_tar

      filtered : List Layer → M (Unit {0})
      filtered allowed = first_file_is_archive tmp >>= sniffed allowed

      read : Result Bytes → M (Unit {0})
      read r = layers_of_manifest T cfg r >>= filtered

  -- What an unpacking copies into the staging directory is published or removed without a copy.
  publish-Quiet : (r : Result (Unit {0})) → Keeps Quiet (publish cfg r)
  publish-Quiet (err e) =
      >>=-Keeps Quiet Quiet-IsPreorder (Result (Unit {0})) (Unit {0})
        (attempt (remove_all (staging_dir cfg))) (λ _. fail e) (remove_all-Quiet (staging_dir cfg))
        (λ r w. refl)
  publish-Quiet (ok u) =
      >>=-Keeps Quiet Quiet-IsPreorder (Unit {0}) (Unit {0})
        (wrapping "replace previous image dir" (remove_all (image_dir cfg)))
        (λ _. wrapping "publish image dir" (rename (staging_dir cfg) (image_dir cfg)))
        (remove_all-Quiet (image_dir cfg)) (λ _. rename-Quiet (staging_dir cfg) (image_dir cfg))

  -- For limits below the largest int64, where a command copies nothing, an unpacking by any of its
  -- three ways copies at most --max-total-bytes on success, and one byte more at most on an error.
  pub unpack-WithinLimit : (w : World) → WithinLimit cap w (unpack T cfg w)
  unfolding unpack
  unpack-WithinLimit w =
      silent (Unit {0}) cap w tried (wrapping "clear staging dir" (remove_all staging) w)
        (remove_all-Quiet staging w)
        λ _ u. published u (unpack_into T cfg staging u) (unpack_into-WithinLimit staging u)
    where
      staging : Bytes
      staging = staging_dir cfg

      tried : Unit {0} → M (Unit {0})
      tried _ = attempt (unpack_into T cfg staging) >>= publish cfg

      failed :
          (u x : World) (o : Result (Unit {0}) × World)
          → x.copied ≤ u.copied + cap + 1
          → Quiet x o.1
          → ((t : Unit {0}) → o.0 ≢ ok t)
          → WithinLimit cap u o
      failed u x (ok t, y) h q not_ok = absurd (not_ok t refl)
      failed u x (err e, y) h q not_ok = omega (arith, h, q)

      went :
          (u x : World) (o : Result (Unit {0}) × World)
          → x.copied ≤ u.copied + cap
          → Quiet x o.1
          → WithinLimit cap u o
      went u x (ok t, y) h q = omega (arith, h, q)
      went u x (err e, y) h q = omega (arith, h, q)

      published :
          (u : World) (o : Result (Unit {0}) × World)
          → WithinLimit cap u o
          → WithinLimit cap u (publish cfg o.0 o.1)
      published u (ok t, x) h = went u x (publish cfg (ok t) x) h (publish-Quiet (ok t) x)
      published u (err e, x) h =
          failed u x (publish cfg (err e) x) h (publish-Quiet (err e) x) (λ t q. cc)
