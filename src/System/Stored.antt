-- ===== src/System/Stored.antt =====
-- What a call of os.WriteFile does to the disk, and what can be read behind it.
use unpacker.Base.{ℕ, ◌≡◌, refl, ap, ◌∙◌, arith, Bool, true, false, Option, none, some, [], ◌++◌}
use unpacker.Base.{take}
use unpacker.Base.Text.{Bytes, bytes_eq, bytes_eq_refl}
use unpacker.Path.{dir}
use unpacker.Errors.{Result, ok, err, first_error}
use unpacker.System.Disk.{Disk, Node, file, folder, find, put, find-put}
use unpacker.System.Keeps.{Keeps, IsPreorder, >>=-Keeps}
use unpacker.System.Monad.{
  M, World, proceed, ◌>>=◌, lift, attempt, call, next_fault, has_folder, truncated, run_open_file,
  open_file, appended, run_store, store, flush, write_file,
}
use unpacker.System.Reads.{Holds}

-- No other path than `p` has changed.
abbrev pub OnlyAt : Bytes → World → World → Type 0
OnlyAt p w v = (q : Bytes) → bytes_eq p q ≡ false → find q v.disk ≡ find q w.disk

pub OnlyAt-IsPreorder : (p : Bytes) → IsPreorder (OnlyAt p)
OnlyAt-IsPreorder p = record {
  same = λ w q h. refl;
  then_also = λ u v w e f q h. f q h ∙ e q h;
  ignores_log = λ w l q h. refl;
}

put-elsewhere :
    (p q : Bytes) (n : Node) (d : Disk) → bytes_eq p q ≡ false → find q (put p n d) ≡ find q d
put-elsewhere p q n d h = ground (arith, find-put p q n d)

truncated-elsewhere :
    (p q : Bytes) (mode : ℕ) (d : Disk) (b : Bool) (n : Option Node)
    → bytes_eq p q ≡ false
    → find q (truncated p mode d b n).1 ≡ find q d
truncated-elsewhere p q mode d false n h = refl
truncated-elsewhere p q mode d true none h = put-elsewhere p q (file mode []) d h
truncated-elsewhere p q mode d true (some (file m s)) h = put-elsewhere p q (file m []) d h
truncated-elsewhere p q mode d true (some (folder m)) h = refl

appended-elsewhere :
    (p q s : Bytes) (d : Disk) (n : Option Node)
    → bytes_eq p q ≡ false
    → find q (appended p s d n) ≡ find q d
appended-elsewhere p q s d none h = refl
appended-elsewhere p q s d (some (file m t)) h = put-elsewhere p q (file m (t ++ s)) d h
appended-elsewhere p q s d (some (folder m)) h = refl

open_file-OnlyAt : (p : Bytes) (mode : ℕ) → Keeps (OnlyAt p) (open_file p mode)
unfolding open_file call
open_file-OnlyAt p mode w q h = go (next_fault w.faults).0
  where
    go : (f : Option ℕ) → find q (run_open_file p mode f w.disk).1 ≡ find q w.disk
    go none = truncated-elsewhere p q mode w.disk (has_folder (dir p) w.disk) (find p w.disk) h
    go (some k) = refl

store-OnlyAt : (p s : Bytes) → Keeps (OnlyAt p) (store p s)
unfolding store call
store-OnlyAt p s w q h = go (next_fault w.faults).0
  where
    go : (f : Option ℕ) → find q (run_store p s f w.disk).1 ≡ find q w.disk
    go none = appended-elsewhere p q s w.disk (find p w.disk) h
    go (some k) = appended-elsewhere p q (take k s) w.disk (find p w.disk) h

flush-same : (w : World) → (flush w).1.disk ≡ w.disk
unfolding flush call
flush-same w = refl

-- Once the file is open: the store, the close, and the first of their errors.
abbrev closing : Bytes → Bytes → M (Unit {0})
closing p s = do
  written ← attempt (store p s)
  closed ← attempt flush
  lift (first_error written closed)

pub write_file-OnlyAt : (p s : Bytes) (mode : ℕ) → Keeps (OnlyAt p) (write_file p s mode)
unfolding write_file
write_file-OnlyAt p s mode =
    >>=-Keeps (OnlyAt p) (OnlyAt-IsPreorder p) (Unit {0}) (Unit {0}) (open_file p mode)
      (λ _. closing p s) (open_file-OnlyAt p mode)
      (λ _ w q h. ap (find q) (flush-same (store p s w).1) ∙ store-OnlyAt p s w q h)

truncated-ok :
    (p : Bytes) (mode : ℕ) (d : Disk) (b : Bool) (n : Option Node)
    → (truncated p mode d b n).0 ≡ ok tt
    → Holds (truncated p mode d b n).1 p []
truncated-ok p mode d false n h = cc
truncated-ok p mode d true none h = (mode, find-put p p (file mode []) d ∙ rw (bytes_eq_refl p))
truncated-ok p mode d true (some (file m s)) h =
    (m, find-put p p (file m []) d ∙ rw (bytes_eq_refl p))
truncated-ok p mode d true (some (folder m)) h = cc

open_file-Holds :
    (p : Bytes) (mode : ℕ) (w : World)
    → (open_file p mode w).0 ≡ ok tt
    → Holds (open_file p mode w).1.disk p []
unfolding open_file call
open_file-Holds p mode w = go (next_fault w.faults).0
  where
    go :
        (f : Option ℕ)
        → (run_open_file p mode f w.disk).0 ≡ ok tt
        → Holds (run_open_file p mode f w.disk).1 p []
    go none h = truncated-ok p mode w.disk (has_folder (dir p) w.disk) (find p w.disk) h
    go (some k) h = cc

appended-Holds :
    (p s : Bytes) (d : Disk) (n : Option Node) {m : ℕ}
    → n ≡ some (file m [])
    → Holds (appended p s d n) p s
appended-Holds p s d (some (file m t)) h =
    let empty : t ≡ [] = ground arith in
    (m, find-put p p (file m (t ++ s)) d ∙ (rw (bytes_eq_refl p, empty)))
appended-Holds p s d (some (folder m)) h = cc
appended-Holds p s d none h = cc

store-Holds :
    (p s : Bytes) (w : World)
    → Holds w.disk p []
    → (store p s w).0 ≡ ok tt
    → Holds (store p s w).1.disk p s
unfolding store call
store-Holds p s w (m, found) = go (next_fault w.faults).0
  where
    go : (f : Option ℕ) → (run_store p s f w.disk).0 ≡ ok tt → Holds (run_store p s f w.disk).1 p s
    go none h = appended-Holds p s w.disk (find p w.disk) found
    go (some k) h = cc

first_error-ok : (a b : Result (Unit {0})) → first_error a b ≡ ok tt → a ≡ ok tt
first_error-ok (ok u) b h = refl
first_error-ok (err e) b h = cc

closing-Holds :
    (p s : Bytes) (w : World)
    → Holds w.disk p []
    → (closing p s w).0 ≡ ok tt
    → Holds (closing p s w).1.disk p s
closing-Holds p s w empty h =
    let (m, found) =
      store-Holds p s w empty (first_error-ok (store p s w).0 (flush (store p s w).1).0 h) in
    (m, ap (find p) (flush-same (store p s w).1) ∙ found)

-- A `write_file` that goes through leaves exactly these bytes.
pub write_file-Holds :
    (p s : Bytes) (mode : ℕ) (w : World)
    → (write_file p s mode w).0 ≡ ok tt
    → Holds (write_file p s mode w).1.disk p s
unfolding write_file
write_file-Holds p s mode w = go (open_file p mode w) (open_file-Holds p mode w)
  where
    go :
        (o : Result (Unit {0}) × World)
        → (o.0 ≡ ok tt → Holds o.1.disk p [])
        → (proceed (λ _. closing p s) o).0 ≡ ok tt
        → Holds (proceed (λ _. closing p s) o).1.disk p s
    go (ok u, v) empty h = closing-Holds p s v (empty refl) h
    go (err e, v) empty h = cc
