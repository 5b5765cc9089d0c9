-- ===== src/Unpack/Confined.antt =====
-- Where the three ways to unpack write.
use unpacker.Base.{
  inl, ℕ, ◌≡◌, refl, subst, Bool, true, false, ◌||◌, List, [], ◌∷◌, ◌++◌, Option, none, some,
  length, arith, All,
}
use unpacker.Base.{ltb}
use unpacker.Base.Text.{Bytes, codes, bytes_eq, has_prefix}
use unpacker.Base.Word.{I64, add_i64, sub_i64, lt_i64}
use unpacker.Path.{slash, clean, join, join_all}
use unpacker.Path.Confine.{EndsInName, IsBelow, join-EndsInName}
use unpacker.Path.Names.{join_self-IsBelow, clean-join}
use unpacker.Errors.{Error, plain, Result, ok, err, wrap_result}
use unpacker.System.{
  ◌>>◌, World, M, ◌>>=◌, pure, fail, attempt, wrapping, lift, say, said, copied_file, mkdir_all,
  open_file, read_file, open_source, read_source, read_dir, stat_ok, ancestors,
}
use unpacker.System.Disk.{Listing}
use unpacker.System.Keeps.{Keeps, >>=-Keeps_of}
use unpacker.System.Ancestors.{Near, ancestors_self-Near}
use unpacker.System.Yields.{Yields, wrapping-Yields}
use unpacker.System.Listed.{ListsNames, read_dir-ListsNames}
use unpacker.System.Confined.{
  Confined, Confined-IsPreorder, mkdir_all-Confined, open_file-Confined, read_file-Confined,
  open_source-Confined, read_source-Confined, read_dir-Confined, stat_ok-Confined, >>=-Confined,
  lift-Confined, if-Confined,
}
use unpacker.Limits.{Limits, with_defaults}
use unpacker.Config.{Config}
use unpacker.Compression.{Readers}
use unpacker.Extract.{copy_limited, extract_resolved}
use unpacker.Extract.Confinement.{copy_limited-Confined, extract_resolved-Confined}
use unpacker.Unpack.Layers.{
  Layer, cut_colon, candidates, find_candidate, blob_path, extract_each, extract_layers,
}
use unpacker.Unpack.{
  Tools, first_of_listing, first_file, first_file_is_archive, copy_entries, copy_files,
  layers_of_manifest, unpack_by, umoci_args, after_umoci, run_umoci, unpack_into, staging_dir,
  sniffs_as_archive,
}

module _ (d : Bytes) (named : EndsInName d) (cleaned : clean d ≡ d) where
  mkdir_self-Confined : (mode : ℕ) → Keeps (Confined d) (mkdir_all d mode)
  mkdir_self-Confined mode =
      mkdir_all-Confined d d mode
        (subst (λ z. All (Near d) (ancestors z)) cleaned (ancestors_self-Near d))

  -- The files of a listing.
  copy_entries-Confined :
      (src : Bytes) (lim : Limits) (entries : Listing) (copied total : I64)
      → ListsNames entries
      → Keeps (Confined d) (copy_entries src d lim entries copied total)
  unfolding copy_entries
  copy_entries-Confined src lim [] copied total _ = λ w q _. inl refl
  copy_entries-Confined src lim ((name, true) ∷ entries) copied total (h, hs) =
      copy_entries-Confined src lim entries copied total hs
  copy_entries-Confined src lim ((name, false) ∷ entries) copied total (h, hs) =
      if-Confined d (Unit {0}) (lt_i64 lim.max_entries (add_i64 copied 1)) _ _ (λ w q _. inl refl)
        (>>=-Confined d (Unit {0}) (Unit {0}) (open_source (join src name)) (λ _. file)
          (open_source-Confined d (join src name))
          λ _.
            >>=-Confined d (Unit {0}) (Unit {0}) (open_file (join d name) 0o666)
              (λ _. read_source (join src name) >>= read)
              (open_file-Confined d (join d name) 0o666 below)
              λ _.
                >>=-Confined d (Bytes × Option Error) (Unit {0}) (read_source (join src name)) read
                  (read_source-Confined d (join src name))
                  λ (content, e). copied_on content e (copy_entries-Confined src lim entries))
    where
      below : IsBelow d (join d name)
      below = join_self-IsBelow d name cleaned named h

      next : I64 → M (Unit {0})
      next sum = say (copied_file name) >> copy_entries src d lim entries (add_i64 copied 1) sum

      read : Bytes × Option Error → M (Unit {0})
      read (content, e) = copy_limited (join d name) content e lim total >>= next

      file : M (Unit {0})
      file = open_file (join d name) 0o666 >> (read_source (join src name) >>= read)

      copied_on :
          (content : Bytes) (e : Option Error)
          → ((copied total : I64)
              → ListsNames entries
              → Keeps (Confined d) (copy_entries src d lim entries copied total))
          → Keeps (Confined d) (read (content, e))
      copied_on content e rest =
          >>=-Confined d I64 (Unit {0}) (copy_limited (join d name) content e lim total) next
            (copy_limited-Confined d named (join d name) content e lim total below)
            λ sum.
              >>=-Confined d (Unit {0}) (Unit {0}) (say (copied_file name))
                (λ _. copy_entries src d lim entries (add_i64 copied 1) sum) (λ w q _. inl refl)
                λ _. rest (add_i64 copied 1) sum hs

  pub copy_files-Confined : (src : Bytes) (lim : Limits) → Keeps (Confined d) (copy_files src d lim)
  unfolding copy_files
  copy_files-Confined src lim =
      >>=-Confined d (Unit {0}) (Unit {0}) (wrapping "create dest dir" (mkdir_all d 0o755)) _
        (mkdir_self-Confined 0o755)
        λ _.
          >>=-Keeps_of (Confined d) (Confined-IsPreorder d) Listing (Unit {0}) ListsNames
            (wrapping "read src dir" (read_dir src))
            (λ entries. copy_entries src d (with_defaults lim) entries 0 0)
            (read_dir-Confined d src) listed
            λ entries h. copy_entries-Confined src (with_defaults lim) entries 0 0 h
    where
      listed : (w : World) → Yields ListsNames (wrapping "read src dir" (read_dir src) w)
      listed w =
          wrapping-Yields ListsNames "read src dir" (read_dir src) w (read_dir-ListsNames src w)

  module _ (R : Readers) (tmp : Bytes) where
    find_candidate-Confined : (cs : List Bytes) → Keeps (Confined d) (find_candidate tmp cs)
    unfolding find_candidate
    find_candidate-Confined [] = λ w q _. inl refl
    find_candidate-Confined (c ∷ cs) =
        if-Confined d Bytes (has_prefix (clean c ++ (slash ∷ [])) (clean tmp ++ (slash ∷ []))) _ _
          (>>=-Confined d Bool Bytes (stat_ok c) _ (stat_ok-Confined d c) λ there.
            if-Confined d Bytes there (pure c) (find_candidate tmp cs) (λ w q _. inl refl)
              (find_candidate-Confined cs))
          (λ w q _. inl refl)

    blob_path-Confined : (l : Layer) → Keeps (Confined d) (blob_path tmp l)
    unfolding blob_path
    blob_path-Confined l = go (cut_colon l.digest [])
      where
        go :
            (o : Option (Bytes × Bytes))
            → Keeps (Confined d) (elim o as (λ _. M Bytes) [
              | none ↦ fail (plain "invalid digest format")
              | some (algo, hex) ↦ find_candidate tmp (candidates tmp l algo hex)
            ])
        go none = λ w q _. inl refl
        go (some (algo, hex)) = find_candidate-Confined (candidates tmp l algo hex)

    extract_each-Confined :
        (layers : List Layer) (budget : Limits)
        → Keeps (Confined d) (extract_each R tmp d layers budget)
    unfolding extract_each
    extract_each-Confined [] budget = λ w q _. inl refl
    extract_each-Confined (l ∷ layers) budget =
        >>=-Confined d Bytes (Unit {0}) (blob_path tmp l) _ (blob_path-Confined l) λ src.
          >>=-Confined d I64 (Unit {0}) (wrapping "extract layer" (extract_resolved R src d budget))
            _ (extract_resolved-Confined R d named src budget)
            λ written.
              extract_each-Confined layers
                (record budget { max_total_bytes = sub_i64 budget.max_total_bytes written })

    pub extract_layers-Confined :
        (layers : List Layer) (lim : Limits)
        → Keeps (Confined d) (extract_layers R tmp d layers lim)
    unfolding extract_layers
    extract_layers-Confined layers lim =
        >>=-Confined d (Unit {0}) (Unit {0}) (wrapping "create image dir" (mkdir_all d 0o755)) _
          (mkdir_self-Confined 0o755)
          λ _.
            >>=-Confined d (Unit {0}) (Unit {0}) (extract_each R tmp d layers lim) _
              (extract_each-Confined layers lim)
              λ _.
                if-Confined d (Unit {0}) (ltb 1 (length layers)) _ (pure tt) (λ w q _. inl refl)
                  (λ w q _. inl refl)

-- `umoci raw unpack` writes below the directory that it is given.
abbrev pub UmociStays : Tools → Config → Type 0
UmociStays T cfg =
    (tmp : Bytes)
    → Keeps (Confined (staging_dir cfg))
        (T.command (codes "umoci") (umoci_args tmp (staging_dir cfg)))

pub staging-EndsInName : (cfg : Config) → EndsInName (staging_dir cfg)
unfolding bytes_eq
staging-EndsInName cfg =
    join-EndsInName cfg.output_dir (codes ".image.staging") (ground arith) (refl, refl, refl)

pub clean-staging_dir : (cfg : Config) → clean (staging_dir cfg) ≡ staging_dir cfg
clean-staging_dir cfg = clean-join cfg.output_dir b'.' (codes "image.staging")

module _ (T : Tools) (cfg : Config) (stays : UmociStays T cfg) where
  abbrev staging : Bytes
  staging = staging_dir cfg

  layers_of_manifest-Confined :
      (r : Result Bytes) → Keeps (Confined staging) (layers_of_manifest T cfg r)
  layers_of_manifest-Confined (err e) = λ w q _. inl refl
  layers_of_manifest-Confined (ok content) =
      >>=-Confined staging (List Layer) (List Layer)
        (lift (wrap_result "parse manifest" (T.parse_manifest content))) _
        (lift-Confined staging _ (wrap_result "parse manifest" (T.parse_manifest content)))
        λ layers w q _. inl refl

  first_file_is_archive-Confined :
      (dir : Bytes) → Keeps (Confined staging) (first_file_is_archive dir)
  unfolding first_file_is_archive
  first_file_is_archive-Confined dir =
      >>=-Confined staging (Result Listing) Bool (attempt (read_dir dir)) (first_of_listing dir)
        (read_dir-Confined staging dir) listing
    where
      first :
          (o : Option Bytes)
          → Keeps (Confined staging) (elim o as (λ _. M Bool) [
            | none ↦ pure false
            | some name ↦ (do
              content ← attempt (read_file (join dir name))
              pure (sniffs_as_archive content))
          ])
      first none = λ w q _. inl refl
      first (some name) =
          >>=-Confined staging (Result Bytes) Bool (attempt (read_file (join dir name)))
            (λ content. pure (sniffs_as_archive content))
            (read_file-Confined staging (join dir name)) λ content w q _. inl refl

      listing : (r : Result Listing) → Keeps (Confined staging) (first_of_listing dir r)
      listing (err e) = λ w q _. inl refl
      listing (ok l) = first (first_file l)

  run_umoci-Confined : (tmp : Bytes) → Keeps (Confined staging) (run_umoci T tmp staging)
  unfolding run_umoci
  run_umoci-Confined tmp =
      >>=-Confined staging (Bytes × Option Error) (Unit {0})
        (T.command (codes "umoci") (umoci_args tmp staging)) after_umoci (stays tmp) ended
    where
      ended : (o : Bytes × Option Error) → Keeps (Confined staging) (after_umoci o)
      ended (out, some e) = λ w q _. inl refl
      ended (out, none) =
          if-Confined staging (Unit {0}) (ltb 0 (length out)) (say (said "umoci output")) (pure tt)
            (λ w q _. inl refl) (λ w q _. inl refl)

  unpack_by-Confined :
      (tmp : Bytes) (lim : Limits) (archive : Bool) (layers : List Layer)
      → Keeps (Confined staging) (unpack_by T tmp staging lim archive layers)
  unpack_by-Confined tmp lim false layers =
      copy_files-Confined staging (staging-EndsInName cfg) (clean-staging_dir cfg) tmp lim
  unpack_by-Confined tmp lim true [] = run_umoci-Confined tmp
  unpack_by-Confined tmp lim true (l ∷ layers) =
      extract_layers-Confined staging (staging-EndsInName cfg) (clean-staging_dir cfg) T.readers tmp
        (l ∷ layers) lim

  -- Whatever the three ways do, it stays in the staging directory.
  pub unpack_into-Confined : Keeps (Confined staging) (unpack_into T cfg staging)
  unfolding unpack_into
  unpack_into-Confined =
      >>=-Confined staging (Result Bytes) (Unit {0}) (attempt (read_file manifest)) read
        (read_file-Confined staging manifest)
        λ data_read.
          >>=-Confined staging (List Layer) (Unit {0}) (layers_of_manifest T cfg data_read) filtered
            (layers_of_manifest-Confined data_read)
            λ allowed.
              >>=-Confined staging Bool (Unit {0}) (first_file_is_archive tmp) (sniffed allowed)
                (first_file_is_archive-Confined tmp)
                λ has_tar.
                  >>=-Confined staging Bool (Unit {0}) (stat_ok blobs) (chosen allowed has_tar)
                    (stat_ok-Confined staging blobs)
                    λ has_blobs.
                      unpack_by-Confined tmp (with_defaults cfg.limits) (has_tar || has_blobs)
                        allowed
    where
      manifest : Bytes
      manifest = join cfg.output_dir (codes "manifest.json")

      tmp : Bytes
      tmp = join cfg.output_dir (codes "tmp")

      blobs : Bytes
      blobs = join_all (tmp ∷ codes "blobs" ∷ codes "sha256" ∷ [])

      chosen : List Layer → Bool → Bool → M (Unit {0})
      chosen allowed has_tar has_blobs =
          unpack_by T tmp staging (with_defaults cfg.limits) (has_tar || has_blobs) allowed

      sniffed : List Layer → Bool → M (Unit {0})
      sniffed allowed has_tar = stat_ok blobs >>= chosen allowed has_tar

      filtered : List Layer → M (Unit {0})
      filtered allowed = first_file_is_archive tmp >>= sniffed allowed

      read : Result Bytes → M (Unit {0})
      read data_read = layers_of_manifest T cfg data_read >>= filtered
