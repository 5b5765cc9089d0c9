-- ===== src/Extract/Confinement.antt =====
-- Where an extraction may write: the path guard of `extractTar`, followed to the disk.
use unpacker.Base.{ℕ, ◌≡◌, refl, ◌≢◌, sym, subst, inl, inr, Bool, true, false, List, [], ◌∷◌, ◌++◌}
use unpacker.Base.{Option, All, if◌then◌else◌, ◌==◌}
use unpacker.Base.Text.{Bytes, bytes_eq, has_prefix}
use unpacker.Base.Word.{I64, add_i64, lt_i64}
use unpacker.Path.{slash, clean, join, dir, walk, split, is_rooted}
use unpacker.Path.Confine.{IsBelow, EndsInName, has_prefix-IsBelow}
use unpacker.Path.Below.{dir-IsBelow}
use unpacker.Errors.{Error, plain, Result, ok, err}
use unpacker.System.{World, M, ◌>>=◌, pure, fail, attempt, lift, write, flush, mkdir_all, open_file}
use unpacker.System.{ancestors, wrapping, read_file, ◌>>◌}
use unpacker.System.Keeps.{Keeps}
use unpacker.System.Ancestors.{Near, ancestors-Near, ancestors_self-Near}
use unpacker.System.Confined.{Confined, Confined-IsPreorder, mkdir_all-Confined, open_file-Confined}
use unpacker.System.Confined.{
  >>=-Confined, pure-Confined, lift-Confined, if-Confined, write-Confined, flush-Confined,
  read_file-Confined,
}
use unpacker.Limits.{Limits, with_defaults}
use unpacker.Compression.{Header, Item, entry, broken, Readers, Stream, tar_stream}
use unpacker.Extract.{Progress, limit_reader, limit_error, finish_file, copy_limited, extract_file}
use unpacker.Extract.{
  copy_window, copy_through, check_copied, type_dir, type_reg, type_x_global_header, bump,
}
use unpacker.Extract.{
  place_entry, extract_entry, extract_items, extract_resolved, extract_tar, fresh, report_skipped,
}

-- The guard compares the cleaned target, so a target that passes it is a cleaned path.
join-clean : (a b : Bytes) → a ≢ [] → (x : Bytes) × (join a b ≡ clean x)
unfolding join
join-clean [] b h = absurd (h refl)
join-clean (c ∷ a) [] h = (c ∷ a, refl)
join-clean (c ∷ a) (d ∷ b) h = ((c ∷ a) ++ (slash ∷ d ∷ b), refl)

module _ (d : Bytes) (named : EndsInName d) where
  finish_file-Confined : (r : Result ℕ) → Keeps (Confined d) (finish_file r)
  unfolding finish_file
  finish_file-Confined (err e) w = flush-Confined d w
  finish_file-Confined (ok n) w =
      subst (Confined d w) (sym (lifts (flush w).0 (flush (flush w).1).0 (flush (flush w).1).1)) (
        then_also w (flush w).1 (flush (flush w).1).1 (flush-Confined d w)
          (flush-Confined d (flush w).1))
    where
      open (Confined-IsPreorder d) use {then_also}

      lifts : (a b : Result (Unit {0})) (v : World) → ((lift a >> (lift b >> pure n)) v).1 ≡ v
      lifts (ok x) (ok y) v = refl
      lifts (ok x) (err e) v = refl
      lifts (err e) b v = refl

  copy_through-Confined :
      (p body : Bytes) (e : Option Error) (window : I64)
      → IsBelow d p
      → Keeps (Confined d) (copy_through p body e window)
  unfolding copy_through
  copy_through-Confined p body e window h =
      >>=-Confined d ℕ ℕ (write p (limit_reader window body))
        (λ n. lift (limit_error window body e) >> pure n)
        (write-Confined d p (limit_reader window body) h)
        (λ n.
          >>=-Confined d (Unit {0}) ℕ (lift (limit_error window body e)) (λ _. pure n)
            (lift-Confined d (Unit {0}) (limit_error window body e)) (λ _. pure-Confined d ℕ n))

  pub copy_limited-Confined :
      (p body : Bytes) (e : Option Error) (lim : Limits) (total : I64)
      → IsBelow d p
      → Keeps (Confined d) (copy_limited p body e lim total)
  unfolding copy_limited
  copy_limited-Confined p body e lim total h =
      >>=-Confined d (Result ℕ) I64 (attempt (copy_through p body e (copy_window lim total)))
        (λ r. finish_file r >>= λ n. lift (check_copied lim total n))
        (copy_through-Confined p body e (copy_window lim total) h)
        (λ r.
          >>=-Confined d ℕ I64 (finish_file r) (λ n. lift (check_copied lim total n))
            (finish_file-Confined r) (λ n. lift-Confined d I64 (check_copied lim total n)))

  dir-Near : (p : Bytes) → IsBelow d p → All (Near d) (ancestors (dir p))
  dir-Near p h = elim (dir-IsBelow d p named h) [
    | inl e ↦ subst (λ z. All (Near d) (ancestors z)) (sym e) (ancestors_self-Near d)
    | inr b ↦ ancestors-Near d (dir p) b
  ]

  extract_file-Confined :
      (p : Bytes) (mode : ℕ) (body : Bytes) (e : Option Error) (lim : Limits) (q : Progress)
      → IsBelow d p
      → Keeps (Confined d) (extract_file p mode body e lim q)
  unfolding extract_file
  extract_file-Confined p mode body e lim q h =
      >>=-Confined d (Unit {0}) Progress (mkdir_all (dir p) 0o755) (λ _. opened)
        (mkdir_all-Confined d (dir p) 0o755 (dir-Near p h))
        (λ _.
          >>=-Confined d (Unit {0}) Progress (open_file p mode) (λ _. copied)
            (open_file-Confined d p mode h)
            (λ _.
              >>=-Confined d I64 Progress (copy_limited p body e lim q.total)
                (λ t. pure (record q { total = t })) (copy_limited-Confined p body e lim q.total h)
                (λ t. pure-Confined d Progress (record q { total = t }))))
    where
      copied : M Progress
      copied = copy_limited p body e lim q.total >>= λ t. pure (record q { total = t })

      opened : M Progress
      opened = open_file p mode >> copied

  place_entry-Confined :
      (p : Bytes) (hdr : Header) (body : Bytes) (e : Option Error) (lim : Limits) (q : Progress)
      → IsBelow d p
      → Keeps (Confined d) (place_entry p hdr body e lim q)
  unfolding place_entry
  place_entry-Confined p hdr body e lim q h =
      if-Confined d Progress (hdr.typeflag == type_dir) _ _
        (>>=-Confined d (Unit {0}) Progress _ (λ _. pure q)
          (mkdir_all-Confined d p _ (ancestors-Near d p h)) (λ _. pure-Confined d Progress q))
        (if-Confined d Progress (hdr.typeflag == type_reg) _ _
          (extract_file-Confined p _ body e lim q h)
          (if-Confined d Progress (hdr.typeflag == type_x_global_header) _ _
            (pure-Confined d Progress q)
            (pure-Confined d Progress (record q { skipped = bump hdr.typeflag q.skipped }))))

  extract_entry-Confined :
      (lim : Limits) (hdr : Header) (body : Bytes) (e : Option Error) (p : Progress)
      → d ≢ []
      → Keeps (Confined d) (extract_entry d lim hdr body e p)
  unfolding extract_entry
  extract_entry-Confined lim hdr body e p filled =
      if-Confined d Progress (lt_i64 lim.max_entries q.entries) _ _ (λ w z _. inl refl)
        (if-Confined d Progress (bytes_eq target (clean d)) _ _ (pure-Confined d Progress q)
          (guarded (has_prefix target (clean d ++ (slash ∷ []))) refl))
    where
      q : Progress
      q = record p { entries = add_i64 p.entries 1 }

      target : Bytes
      target = join d (clean hdr.name)

      below : has_prefix target (clean d ++ (slash ∷ [])) ≡ true → IsBelow d target
      below h =
          let (x, g) = join-clean d (clean hdr.name) filled in
          subst (IsBelow d) (sym g) (
            has_prefix-IsBelow d x named
              (subst (λ z. has_prefix z (clean d ++ (slash ∷ [])) ≡ true) g h))

      guarded :
          (b : Bool)
          → has_prefix target (clean d ++ (slash ∷ [])) ≡ b
          → Keeps (Confined d) (
              if b then place_entry target hdr body e lim q else fail (plain "illegal path in tar"))
      guarded true h = place_entry-Confined target hdr body e lim q (below h)
      guarded false h = λ w z _. inl refl

  extract_items-Confined :
      (lim : Limits) (items : List Item) (p : Progress)
      → d ≢ []
      → Keeps (Confined d) (extract_items d lim items p)
  unfolding extract_items
  extract_items-Confined lim [] p filled = pure-Confined d Progress p
  extract_items-Confined lim (broken e ∷ items) p filled = λ w z _. inl refl
  extract_items-Confined lim (entry hdr body e ∷ items) p filled =
      >>=-Confined d Progress Progress (extract_entry d lim hdr body e p)
        (extract_items d lim items) (extract_entry-Confined lim hdr body e p filled)
        (λ q. extract_items-Confined lim items q filled)

EndsInName-ne-nil : (d : Bytes) → EndsInName d → d ≢ []
unfolding walk split is_rooted bytes_eq
EndsInName-ne-nil [] (t, st, e, n) h = cc
EndsInName-ne-nil (c ∷ d) named h = cc

module _ (R : Readers) (d : Bytes) (named : EndsInName d) where
  report_skipped-Confined : (l : List (ℕ × ℕ)) → Keeps (Confined d) (report_skipped l)
  unfolding report_skipped
  report_skipped-Confined [] w q _ = inl refl
  report_skipped-Confined (s ∷ l) w q _ = inl refl

  pub extract_resolved-Confined :
      (tar_path : Bytes) (lim : Limits) → Keeps (Confined d) (extract_resolved R tar_path d lim)
  unfolding extract_resolved
  extract_resolved-Confined tar_path lim =
      >>=-Confined d Bytes I64 (wrapping "open tar" (read_file tar_path)) opened
        (read_file-Confined d tar_path)
        (λ content.
          >>=-Confined d Stream I64 (lift (tar_stream R content)) extracted
            (lift-Confined d Stream (tar_stream R content))
            (λ s.
              >>=-Confined d Progress I64 (extract_items d lim (R.untar s) fresh) reported
                (extract_items-Confined d named lim (R.untar s) fresh (EndsInName-ne-nil d named))
                (λ p.
                  >>=-Confined d (Unit {0}) I64 (report_skipped p.skipped) (λ _. pure p.total)
                    (report_skipped-Confined p.skipped) (λ _. pure-Confined d I64 p.total))))
    where
      reported : Progress → M I64
      reported p = report_skipped p.skipped >> pure p.total

      extracted : Stream → M I64
      extracted s = extract_items d lim (R.untar s) fresh >>= reported

      opened : Bytes → M I64
      opened content = lift (tar_stream R content) >>= extracted

-- Whatever the archive holds, whichever calls fail and on every outcome, extraction into a
-- directory whose last component is a name leaves each path outside it as it was, but for missing
-- directories on the way to it.
pub extract_tar-Confined :
    (R : Readers) (tar_path d : Bytes) (lim : Limits) (w : World)
    → EndsInName d
    → Confined d w (extract_tar R tar_path d lim w).1
unfolding extract_tar
extract_tar-Confined R tar_path d lim w named =
    >>=-Confined d I64 (Unit {0}) (extract_resolved R tar_path d (with_defaults lim)) (λ _. pure tt)
      (extract_resolved-Confined R d named tar_path (with_defaults lim))
      (λ _. pure-Confined d (Unit {0}) tt) w
