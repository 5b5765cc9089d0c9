-- ===== src/System/Quiet.antt =====
-- Programs that copy no bytes: they call neither `io.Copy` nor anything that does.
use unpacker.Base.{ℕ, ◌≡◌, refl, ◌∙◌}
use unpacker.Base.Text.{Bytes}
use unpacker.Errors.{first_error}
use unpacker.System.Keeps.{Keeps, IsPreorder, >>=-Keeps}
use unpacker.System.Monad.{
  World, M, ◌>>=◌, attempt, lift, call, mkdir_all, open_file, store, flush, write_file, read_file,
  open_source, read_source, read_dir, stat_ok, remove_all, rename,
}

abbrev pub Quiet : World → World → Type 0
Quiet w v = v.copied ≡ w.copied

pub Quiet-IsPreorder : IsPreorder Quiet
Quiet-IsPreorder = record {
  same = λ w. refl;
  then_also = λ u v w e f. f ∙ e;
  ignores_log = λ w l. refl;
}

pub mkdir_all-Quiet : (p : Bytes) (mode : ℕ) → Keeps Quiet (mkdir_all p mode)
unfolding mkdir_all call
mkdir_all-Quiet p mode w = refl

pub open_file-Quiet : (p : Bytes) (mode : ℕ) → Keeps Quiet (open_file p mode)
unfolding open_file call
open_file-Quiet p mode w = refl

store-Quiet : (p s : Bytes) → Keeps Quiet (store p s)
unfolding store call
store-Quiet p s w = refl

flush-Quiet : Keeps Quiet flush
unfolding flush call
flush-Quiet w = refl

pub write_file-Quiet : (p s : Bytes) (mode : ℕ) → Keeps Quiet (write_file p s mode)
unfolding write_file
write_file-Quiet p s mode =
    >>=-Keeps Quiet Quiet-IsPreorder (Unit {0}) (Unit {0}) (open_file p mode) closing
      (open_file-Quiet p mode) λ _ w. flush-Quiet (store p s w).1 ∙ store-Quiet p s w
  where
    closing : Unit {0} → M (Unit {0})
    closing u = do
      written ← attempt (store p s)
      closed ← attempt flush
      lift (first_error written closed)

pub open_source-Quiet : (p : Bytes) → Keeps Quiet (open_source p)
unfolding open_source call
open_source-Quiet p w = refl

pub read_source-Quiet : (p : Bytes) → Keeps Quiet (read_source p)
unfolding read_source call
read_source-Quiet p w = refl

pub read_file-Quiet : (p : Bytes) → Keeps Quiet (read_file p)
unfolding read_file call
read_file-Quiet p w = refl

pub read_dir-Quiet : (p : Bytes) → Keeps Quiet (read_dir p)
unfolding read_dir call
read_dir-Quiet p w = refl

pub stat_ok-Quiet : (p : Bytes) → Keeps Quiet (stat_ok p)
unfolding stat_ok call
stat_ok-Quiet p w = refl

pub remove_all-Quiet : (p : Bytes) → Keeps Quiet (remove_all p)
unfolding remove_all call
remove_all-Quiet p w = refl

pub rename-Quiet : (from to : Bytes) → Keeps Quiet (rename from to)
unfolding rename call
rename-Quiet from to w = refl
