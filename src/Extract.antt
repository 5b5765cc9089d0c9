-- ===== src/Extract.antt =====
-- internal/unpacker/unpack.go: `ExtractTar`, the extraction of one archive.
-- The loop over the archive is a recursion on its items; `Progress` holds the loop's variables.
pub mod Modes
pub mod Skipped
pub mod Confinement
pub mod Budget
pub mod Bounded
pub mod Complete
use Prim.Native.Nat.{bit_and, bit_or, bit_xor}
use unpacker.Base.{
  ℕ, zero, suc, ◌+◌, ◌%◌, ◌≡◌, Bool, true, false, List, [], ◌∷◌, ◌++◌, Option, none, some,
}
use unpacker.Base.{if◌then◌else◌, length, take, ◌==◌, ltb}
use unpacker.Base.Text.{Bytes, codes, bytes_eq, has_prefix}
use unpacker.Base.Word.{I64, add_i64, sub_i64, lt_i64}
use unpacker.Path.{slash, clean, join, dir}
use unpacker.Errors.{Error, plain, limit, wrap, Result, ok, err}
use unpacker.System.{
  World, M, ◌>>=◌, ◌>>◌, pure, fail, attempt, wrapping, lift, say, LogLine, skipped_entries,
}
use unpacker.System.{mkdir_all, open_file, write, flush, read_file}
use unpacker.Limits.{Limits, with_defaults}
use unpacker.Compression.{Header, Item, entry, broken, Readers, tar_stream}

abbrev pub extract_umask : ℕ
extract_umask = 0o022

abbrev pub min_file_mode : ℕ
min_file_mode = 0o400

abbrev pub min_dir_mode : ℕ
min_dir_mode = 0o700

-- `mode &^ extractUmask`, on a 32-bit mode.
unfoldable pub clamp_mode : ℕ → Bool → ℕ
clamp_mode mode is_dir =
    let masked = bit_and mode (bit_xor extract_umask 0xffff_ffff) in
    if is_dir then bit_or masked min_dir_mode else bit_or masked min_file_mode

-- `hdr.FileInfo().Mode().Perm()`
abbrev pub perm : ℕ → ℕ
perm mode = mode % 512

abbrev pub type_reg : ℕ
type_reg = b'0'

abbrev pub type_dir : ℕ
type_dir = b'5'

abbrev pub type_x_global_header : ℕ
type_x_global_header = b'g'

-- What `io.LimitReader(r, n)` lets through: nothing if n is not positive.
unfoldable pub limit_reader : I64 → Bytes → Bytes
limit_reader n body = if lt_i64 0 n then take n body else []

-- The error of the reader is met only where the limit does not end the copy before it.
unfoldable pub limit_error : I64 → Bytes → Option Error → Result (Unit {0})
limit_error n body none = ok tt
limit_error n body (some e) = if lt_i64 (length body) n then err e else ok tt

-- Sync where the copy went well, Close in any case, and the first of the errors.
unfoldable pub finish_file : Result ℕ → M ℕ
finish_file (err e) = do _ ← attempt flush; fail e
finish_file (ok n) = do
  synced ← attempt flush
  closed ← attempt flush
  lift synced
  lift closed
  pure n

-- One byte past whichever limit binds first, so that an entry that is too large is detected.
unfoldable pub copy_window : Limits → I64 → I64
copy_window lim total =
    let remaining = sub_i64 lim.max_total_bytes total in
    add_i64 (if lt_i64 remaining lim.max_file_bytes then remaining else lim.max_file_bytes) 1

-- `io.Copy(out, io.LimitReader(tr, window))`
unfoldable pub copy_through : Bytes → Bytes → Option Error → I64 → M ℕ
unfolding limit_reader limit_error
copy_through target body body_error window = do
  n ← write target (limit_reader window body)
  lift (limit_error window body body_error)
  pure n

-- The switch on what was written.
unfoldable pub check_copied : Limits → I64 → I64 → Result I64
check_copied lim total n =
    if lt_i64 lim.max_file_bytes n
    then err (limit "file exceeds the byte limit for a single file (--max-file-bytes)")
    else if lt_i64 lim.max_total_bytes (add_i64 total n)
    then err (limit "archive expands past the byte total limit (--max-total-bytes)")
    else ok (add_i64 total n)

-- The copy of one file: the new total, or an error.
unfoldable pub copy_limited : Bytes → Bytes → Option Error → Limits → I64 → M I64
unfolding copy_window copy_through finish_file check_copied
copy_limited target body body_error lim total = do
  copied ← attempt (copy_through target body body_error (copy_window lim total))
  n ← finish_file copied
  lift (check_copied lim total n)

pub record Progress : Type 0 where
  pub entries : I64
  pub total : I64
  -- how many entries of each type flag were dropped
  pub skipped : List (ℕ × ℕ)

abbrev pub fresh : Progress
fresh = record { entries = 0; total = 0; skipped = [] }

-- `skipped[flag]++`
unfoldable pub bump : ℕ → List (ℕ × ℕ) → List (ℕ × ℕ)
bump flag [] = (flag, 1) ∷ []
bump flag ((f, n) ∷ rest) = if f == flag then (f, n + 1) ∷ rest else (f, n) ∷ bump flag rest

unfoldable pub total_skipped : List (ℕ × ℕ) → ℕ
total_skipped [] = 0
total_skipped ((f, n) ∷ rest) = n + total_skipped rest

unfoldable pub extract_file : Bytes → ℕ → Bytes → Option Error → Limits → Progress → M Progress
unfolding copy_limited
extract_file target mode body body_error lim p = do
  mkdir_all (dir target) 0o755
  open_file target mode
  total ← copy_limited target body body_error lim p.total
  pure (record p { total = total })

-- The switch on the type flag.
unfoldable pub place_entry : Bytes → Header → Bytes → Option Error → Limits → Progress → M Progress
unfolding extract_file clamp_mode bump
place_entry target hdr body body_error lim p =
    let mode = clamp_mode (perm hdr.mode) (hdr.typeflag == type_dir) in
    if hdr.typeflag == type_dir
    then (do mkdir_all target mode; pure p)
    else if hdr.typeflag == type_reg
    then extract_file target mode body body_error lim p
    else if hdr.typeflag == type_x_global_header
    then pure p
    else pure (record p { skipped = bump hdr.typeflag p.skipped })

-- One round of the loop, behind `tr.Next`.
unfoldable pub extract_entry :
    Bytes → Limits → Header → Bytes → Option Error → Progress → M Progress
unfolding place_entry
extract_entry dest lim hdr body body_error p =
    let q = record p { entries = add_i64 p.entries 1 } in
    let target = join dest (clean hdr.name) in
    if lt_i64 lim.max_entries q.entries
    then fail (limit "archive has more entries than allowed (--max-entries)")
    else if bytes_eq target (clean dest)
    then pure q
    else if has_prefix target (clean dest ++ (slash ∷ []))
    then place_entry target hdr body body_error lim q
    else fail (plain "illegal path in tar")

unfoldable pub extract_items : Bytes → Limits → List Item → Progress → M Progress
unfolding extract_entry
extract_items dest lim [] p = pure p
extract_items dest lim (broken e ∷ items) p = fail (wrap "read tar entry" e)
extract_items dest lim (entry hdr body body_error ∷ items) p = do
  q ← extract_entry dest lim hdr body body_error p
  extract_items dest lim items q

unfoldable pub report_skipped : List (ℕ × ℕ) → M (Unit {0})
report_skipped [] = pure tt
report_skipped (s ∷ skipped) = say (skipped_entries (total_skipped (s ∷ skipped)) (s ∷ skipped))

-- `extractTar`: the limits are resolved by the caller. The count of bytes is returned on success;
-- no caller reads it behind an error.
unfoldable pub extract_resolved : Readers → Bytes → Bytes → Limits → M I64
unfolding extract_items report_skipped
extract_resolved R tar_path dest lim = do
  content ← wrapping "open tar" (read_file tar_path)
  stream ← lift (tar_stream R content)
  p ← extract_items dest lim (R.untar stream) fresh
  report_skipped p.skipped
  pure p.total

-- `ExtractTar`
unfoldable pub extract_tar : Readers → Bytes → Bytes → Limits → M (Unit {0})
unfolding extract_resolved with_defaults
extract_tar R tar_path dest lim = do
  _ ← extract_resolved R tar_path dest (with_defaults lim)
  pure tt
