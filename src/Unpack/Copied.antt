-- ===== src/Unpack/Copied.antt =====
-- internal/unpacker/unpack.go: the byte limit over CopyFiles.
use unpacker.Base.{Option, ◌+◌, ◌≤◌, arith, Bool, true, false, [], ◌∷◌, if◌then◌else◌}
use unpacker.Base.Text.{Bytes}
use unpacker.Base.Word.{I64, add_i64, lt_i64}
use unpacker.Path.{join}
use unpacker.Errors.{Error, limit, Result, ok, err}
use unpacker.System.{
  World, M, proceed, ◌>>=◌, ◌>>◌, fail, wrapping, say, copied_file, mkdir_all, open_file,
  open_source, read_source, read_dir,
}
use unpacker.System.Disk.{Listing}
use unpacker.System.Quiet.{
  Quiet, mkdir_all-Quiet, open_file-Quiet, open_source-Quiet, read_source-Quiet, read_dir-Quiet,
}
use unpacker.Limits.{Limits, with_defaults}
use unpacker.Extract.{copy_limited}
use unpacker.Extract.Budget.{IsResolved, CopyOutcome, copy_limited_lem}
use unpacker.Extract.Bounded.{WithinLimit}
use unpacker.Unpack.{copy_entries, copy_files}

-- A part that copies nothing, in front of a bounded one.
pub silent :
    (A : Type 0) (cap : I64) (w : World) (f : A → M (Unit {0})) (o : Result A × World)
    → Quiet w o.1
    → ((a : A) (u : World) → WithinLimit cap u (f a u))
    → WithinLimit cap w (proceed f o)
silent A cap w f (ok a, u) q next = shifted (f a u) (next a u)
  where
    shifted : (o : Result (Unit {0}) × World) → WithinLimit cap u o → WithinLimit cap w o
    shifted (ok t, v) h = omega (arith, q, h)
    shifted (err e, v) h = omega (arith, q, h)
silent A cap w f (err e, u) q next = omega (arith, q)

module _ (lim : Limits) (v : IsResolved lim) (src dest : Bytes) where
  -- What is left of the limit behind the files that are copied.
  abbrev Left : I64 → World → Result (Unit {0}) × World → Type 0
  Left total w (ok u, w') = w'.copied + total ≤ w.copied + lim.max_total_bytes
  Left total w (err e, w') = w'.copied + total ≤ w.copied + lim.max_total_bytes + 1

  before_copy :
      (A : Type 0) (total : I64) (w : World) (f : A → M (Unit {0})) (o : Result A × World)
      → total ≤ lim.max_total_bytes
      → Quiet w o.1
      → ((a : A) (u : World) → Left total u (f a u))
      → Left total w (proceed f o)
  before_copy A total w f (ok a, u) fits q next = shifted (f a u) (next a u)
    where
      shifted : (o : Result (Unit {0}) × World) → Left total u o → Left total w o
      shifted (ok t, x) h = omega (arith, q, h)
      shifted (err e, x) h = omega (arith, q, h)
  before_copy A total w f (err e, u) fits q next = omega (arith, fits, q)

  copy_entries-Left :
      (entries : Listing) (copied total : I64) (w : World)
      → total ≤ lim.max_total_bytes
      → Left total w (copy_entries src dest lim entries copied total w)
  unfolding copy_entries
  copy_entries-Left [] copied total w fits = omega (arith, fits)
  copy_entries-Left ((name, true) ∷ entries) copied total w fits =
      copy_entries-Left entries copied total w fits
  copy_entries-Left ((name, false) ∷ entries) copied total w fits =
      counted (lt_i64 lim.max_entries (add_i64 copied 1))
        (λ t u h. copy_entries-Left entries (add_i64 copied 1) t u h)
    where
      Rest : Type 0
      Rest =
          (t : I64) (u : World)
          → t ≤ lim.max_total_bytes
          → Left t u (copy_entries src dest lim entries (add_i64 copied 1) t u)

      next : I64 → M (Unit {0})
      next t = say (copied_file name) >> copy_entries src dest lim entries (add_i64 copied 1) t

      read : Bytes × Option Error → M (Unit {0})
      read (content, e) = copy_limited (join dest name) content e lim total >>= next

      file : M (Unit {0})
      file = open_file (join dest name) 0o666 >> (read_source (join src name) >>= read)

      onward :
          (body : Bytes) (b : Option Error) (u : World) (o : Result I64 × World)
          → CopyOutcome lim v total fits (join dest name) b body u o
          → Rest
          → Left total u (proceed next o)
      onward body b u (ok t, x) h rest =
          added (copy_entries src dest lim entries (add_i64 copied 1) t _) (rest t _ h.2)
        where
          added : (o : Result (Unit {0}) × World) → Left t x o → Left total u o
          added (ok z, y) k = omega (arith, h.0, h.3, k)
          added (err e, y) k = omega (arith, h.0, h.3, k)
      onward body b u (err e, x) h rest = h

      counted :
          (b : Bool)
          → Rest
          → Left total w (
              (if b
                  then fail (limit "more files to copy than allowed (--max-entries)")
                  else (open_source (join src name) >> file))
                w)
      counted true rest = omega (arith, fits)
      counted false rest =
          before_copy (Unit {0}) total w (λ _. file) (open_source (join src name) w) fits
            (open_source-Quiet (join src name) w)
            λ _ u.
              before_copy (Unit {0}) total u (λ _. read_source (join src name) >>= read)
                (open_file (join dest name) 0o666 u) fits (open_file-Quiet (join dest name) 0o666 u)
                λ _ x.
                  before_copy (Bytes × Option Error) total x read (read_source (join src name) x)
                    fits (read_source-Quiet (join src name) x)
                    λ (content, e) y.
                      onward content e y (copy_limited (join dest name) content e lim total y)
                        (copy_limited_lem lim v total fits (join dest name) content e y) rest

pub copy_files-WithinLimit :
    (src dest : Bytes) (lim : Limits) (w : World)
    → IsResolved (with_defaults lim)
    → WithinLimit (with_defaults lim).max_total_bytes w (copy_files src dest lim w)
unfolding copy_files
copy_files-WithinLimit src dest lim w v =
    silent (Unit {0}) cap w listed (wrapping "create dest dir" (mkdir_all dest 0o755) w)
      (mkdir_all-Quiet dest 0o755 w)
      λ _ u.
        silent Listing cap u copied (wrapping "read src dir" (read_dir src) u)
          (read_dir-Quiet src u)
          λ entries x.
            bounded x (copied entries x)
              (copy_entries-Left (with_defaults lim) v src dest entries 0 0 x (omega arith))
  where
    cap : I64
    cap = (with_defaults lim).max_total_bytes

    copied : Listing → M (Unit {0})
    copied entries = copy_entries src dest (with_defaults lim) entries 0 0

    listed : Unit {0} → M (Unit {0})
    listed u = wrapping "read src dir" (read_dir src) >>= copied

    bounded :
        (x : World) (o : Result (Unit {0}) × World)
        → Left (with_defaults lim) v src dest 0 x o
        → WithinLimit cap x o
    bounded x (ok t, y) h = omega (arith, h)
    bounded x (err e, y) h = omega (arith, h)
