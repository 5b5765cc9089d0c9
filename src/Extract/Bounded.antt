-- ===== src/Extract/Bounded.antt =====
-- The byte limit over a whole archive, on every outcome of its extraction.
use unpacker.Base.{ℕ, ◌+◌, ◌≤◌, ◌≡◌, refl, sym, ap, ◌∙◌, Bool, true, false, ◌==◌}
use unpacker.Base.{arith, Option, List, [], ◌∷◌, ◌++◌, if◌then◌else◌}
use unpacker.Base.Text.{Bytes, bytes_eq, has_prefix}
use unpacker.Base.Word.{I64, add_i64, lt_i64}
use unpacker.Path.{slash, clean, join, dir}
use unpacker.Errors.{Error, Result, ok, err}
use unpacker.System.{
  World, M, proceed, lift, pure, ◌>>=◌, ◌>>◌, mkdir_all, open_file, read_file, wrapping,
}
use unpacker.Limits.{Limits, with_defaults}
use unpacker.Compression.{Header, Item, entry, broken, Readers, Stream, tar_stream}
use unpacker.Extract.{
  Progress, copy_limited, extract_file, place_entry, extract_entry, extract_items,
}
use unpacker.Extract.{type_dir, type_reg, type_x_global_header, clamp_mode, perm, bump}
use unpacker.Extract.{extract_resolved, extract_tar, fresh, report_skipped}
use unpacker.Extract.Budget.{IsResolved, CopyOutcome, copy_limited_lem}

module _ (lim : Limits) (v : IsResolved lim) where
  -- A success has written what the total counts, within the limits; a failure one byte more at most.
  abbrev Bounded : Progress → World → Result Progress × World → Type 0
  Bounded p w (ok q, w') =
      (q.total ≤ lim.max_total_bytes) × (w'.copied + p.total ≡ w.copied + q.total)
  Bounded p w (err e, w') = w'.copied + p.total ≤ w.copied + lim.max_total_bytes + 1

  rebase :
      (p : Progress) (w w' : World) (o : Result Progress × World)
      → w'.copied ≡ w.copied
      → Bounded p w' o
      → Bounded p w o
  rebase p w w' (ok q, u) e (h, k) = (h, k ∙ ap (λ z. z + q.total) e)
  rebase p w w' (err x, u) e h = omega arith

  -- A step that copies nothing, and then a bounded one.
  quiet :
      (A : Type 0) (p : Progress) (w : World) (f : A → M Progress) (o : Result A × World)
      → p.total ≤ lim.max_total_bytes
      → o.1.copied ≡ w.copied
      → ((a : A) (u : World) → Bounded p u (f a u))
      → Bounded p w (proceed f o)
  quiet A p w f (ok a, u) fits e h = rebase p w u (f a u) e (h a u)
  quiet A p w f (err x, u) fits e h = omega arith

  copied_file :
      (p : Progress) (w : World) (target body : Bytes) (e : Option Error) (o : Result I64 × World)
      (fits : p.total ≤ lim.max_total_bytes)
      → CopyOutcome lim v p.total fits target e body w o
      → Bounded p w (proceed (λ t. pure (record p { total = t })) o)
  copied_file p w target body e (ok t, w') fits h = (h.2, omega (arith, h.0, h.3))
  copied_file p w target body e (err x, w') fits h = h

  extract_file-Bounded :
      (target : Bytes) (mode : ℕ) (body : Bytes) (e : Option Error) (p : Progress) (w : World)
      → p.total ≤ lim.max_total_bytes
      → Bounded p w (extract_file target mode body e lim p w)
  unfolding extract_file
  extract_file-Bounded target mode body e p w fits =
      quiet (Unit {0}) p w (λ _. opened) (mkdir_all (dir target) 0o755 w) fits
        (unfold mkdir_all in refl)
        (λ _ u.
          quiet (Unit {0}) p u (λ _. copied) (open_file target mode u) fits
            (unfold open_file in refl)
            (λ _ u'.
              copied_file p u' target body e (copy_limited target body e lim p.total u') fits
                (copy_limited_lem lim v p.total fits target body e u')))
    where
      copied : M Progress
      copied = copy_limited target body e lim p.total >>= λ t. pure (record p { total = t })

      opened : M Progress
      opened = open_file target mode >> copied

  choose :
      (p : Progress) (w : World) (b : Bool) (m n : M Progress)
      → Bounded p w (m w)
      → Bounded p w (n w)
      → Bounded p w ((if b then m else n) w)
  choose p w true m n h k = h
  choose p w false m n h k = k

  -- An entry that writes nothing.
  unchanged :
      (p q : Progress) (w : World)
      → p.total ≤ lim.max_total_bytes
      → q.total ≡ p.total
      → Bounded p w (ok q, w)
  unchanged p q w fits e = (omega arith, ap (λ z. w.copied + z) (sym e))

  place_entry-Bounded :
      (target : Bytes) (hdr : Header) (body : Bytes) (e : Option Error) (p : Progress) (w : World)
      → p.total ≤ lim.max_total_bytes
      → Bounded p w (place_entry target hdr body e lim p w)
  unfolding place_entry
  place_entry-Bounded target hdr body e p w fits =
      choose p w (hdr.typeflag == type_dir) _ _
        (quiet (Unit {0}) p w (λ _. pure p) (mkdir_all target mode w) fits
          (unfold mkdir_all in refl) (λ _ u. unchanged p p u fits refl))
        (choose p w (hdr.typeflag == type_reg) _ _
          (extract_file-Bounded target mode body e p w fits)
          (choose p w (hdr.typeflag == type_x_global_header) _ _ (unchanged p p w fits refl)
            (unchanged p (record p { skipped = bump hdr.typeflag p.skipped }) w fits refl)))
    where
      mode : ℕ
      mode = clamp_mode (perm hdr.mode) (hdr.typeflag == type_dir)

  extract_entry-Bounded :
      (dest : Bytes) (hdr : Header) (body : Bytes) (e : Option Error) (p : Progress) (w : World)
      → p.total ≤ lim.max_total_bytes
      → Bounded p w (extract_entry dest lim hdr body e p w)
  unfolding extract_entry
  extract_entry-Bounded dest hdr body e p w fits =
      choose p w (lt_i64 lim.max_entries q.entries) _ _ refused (
        choose p w (bytes_eq target (clean dest)) _ _ (unchanged p q w fits refl) (
          choose p w (has_prefix target (clean dest ++ (slash ∷ []))) _ _
            (counted (place_entry target hdr body e lim q w)
              (place_entry-Bounded target hdr body e q w fits))
            refused))
    where
      q : Progress
      q = record p { entries = add_i64 p.entries 1 }

      target : Bytes
      target = join dest (clean hdr.name)

      refused : w.copied + p.total ≤ w.copied + lim.max_total_bytes + 1
      refused = omega arith

      counted : (o : Result Progress × World) → Bounded q w o → Bounded p w o
      counted (ok r, u) h = h
      counted (err x, u) h = h

  -- The rest of the loop, from where an entry left it.
  resume :
      (p : Progress) (w : World) (f : Progress → M Progress) (o : Result Progress × World)
      → Bounded p w o
      → ((q : Progress) (u : World) → q.total ≤ lim.max_total_bytes → Bounded q u (f q u))
      → Bounded p w (proceed f o)
  resume p w f (err x, u) h next = h
  resume p w f (ok q, u) h next = onward (f q u) (next q u h.0)
    where
      onward : (o : Result Progress × World) → Bounded q u o → Bounded p w o
      onward (ok r, u') k = (k.0, omega (arith, h.1, k.1))
      onward (err x, u') k = omega (arith, h.1, k)

  extract_items-Bounded :
      (dest : Bytes) (items : List Item) (p : Progress) (w : World)
      → p.total ≤ lim.max_total_bytes
      → Bounded p w (extract_items dest lim items p w)
  unfolding extract_items
  extract_items-Bounded dest [] p w fits = unchanged p p w fits refl
  extract_items-Bounded dest (broken e ∷ items) p w fits = omega arith
  extract_items-Bounded dest (entry hdr body e ∷ items) p w fits =
      resume p w (extract_items dest lim items) (extract_entry dest lim hdr body e p w)
        (extract_entry-Bounded dest hdr body e p w fits)
        (λ q u. extract_items-Bounded dest items q u)

-- What a run of `ExtractTar` has copied: at most the limit on success, one byte more on an error.
abbrev pub WithinLimit : I64 → World → Result (Unit {0}) × World → Type 0
WithinLimit cap w (ok u, w') = w'.copied ≤ w.copied + cap
WithinLimit cap w (err e, w') = w'.copied ≤ w.copied + cap + 1

module _ (R : Readers) (dest : Bytes) (lim : Limits) (v : IsResolved lim) (w : World) where
  -- The count that is returned is what was copied.
  abbrev pub Finished : (o : Result I64 × World) → Type 0
  Finished (ok t, u) = (t ≤ lim.max_total_bytes) × (u.copied ≡ w.copied + t)
  Finished (err e, u) = u.copied ≤ w.copied + lim.max_total_bytes + 1

  reported :
      (o : Result Progress × World)
      → Bounded lim v fresh w o
      → Finished (proceed (λ p. report_skipped p.skipped >> pure p.total) o)
  reported (ok q, u) h = logged q.skipped
    where
      logged : (l : List (ℕ × ℕ)) → Finished ((report_skipped l >> pure q.total) u)
      logged [] = unfold report_skipped in (h.0, omega (arith, h.1))
      logged (s ∷ l) = unfold report_skipped in (h.0, omega (arith, h.1))
  reported (err e, u) h = omega (arith, h)

  silent :
      (A : Type 0) (f : A → M I64) (o : Result A × World)
      → o.1.copied ≡ w.copied
      → ((a : A) (u : World) → u.copied ≡ w.copied → Finished (f a u))
      → Finished (proceed f o)
  silent A f (ok a, u) e h = h a u e
  silent A f (err x, u) e h = omega arith

  pub extract_resolved-Bounded :
      (tar_path : Bytes) → Finished (extract_resolved R tar_path dest lim w)
  unfolding extract_resolved
  extract_resolved-Bounded tar_path =
      silent Bytes opened (wrapping "open tar" (read_file tar_path) w) (unfold read_file in refl)
        (λ content u e. silent Stream extracted (lift (tar_stream R content) u) e (λ s u' e'.
          reported (extract_items dest lim (R.untar s) fresh u') (
            rebase lim v fresh w u' _ e'
              (extract_items-Bounded lim v dest (R.untar s) fresh u' (omega arith)))))
    where
      extracted : Stream → M I64
      extracted s =
          extract_items dest lim (R.untar s) fresh >>= λ p. report_skipped p.skipped >> pure p.total

      opened : Bytes → M I64
      opened content = lift (tar_stream R content) >>= extracted

-- One extraction copies at most `--max-total-bytes` to the disk when it succeeds, and at most one
-- byte more when it fails, whatever the archive declares or holds and whichever calls fail. The
-- limits are those that `withDefaults` resolves, below the largest int64.
pub extract_tar-WithinLimit :
    (R : Readers) (tar_path dest : Bytes) (lim : Limits) (w : World)
    → IsResolved (with_defaults lim)
    → WithinLimit (with_defaults lim).max_total_bytes w (extract_tar R tar_path dest lim w)
unfolding extract_tar
extract_tar-WithinLimit R tar_path dest lim w v =
    go (extract_resolved R tar_path dest (with_defaults lim) w)
      (extract_resolved-Bounded R dest (with_defaults lim) v w tar_path)
  where
    go :
        (o : Result I64 × World)
        → Finished R dest (with_defaults lim) v w o
        → WithinLimit (with_defaults lim).max_total_bytes w (proceed (λ _. pure tt) o)
    go (ok t, u) h = omega (arith, h.0, h.1)
    go (err e, u) h = h
