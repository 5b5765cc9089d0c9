-- ===== src/System/Monad.antt =====
-- Programs over the system: they return a value or an error, and change the world either way.
use unpacker.Base.{ℕ, ◌+◌, Bool, true, false, ◌||◌, ◌==◌, String}
use unpacker.Base.{List, [], ◌∷◌, ◌++◌, Option, none, some, if◌then◌else◌, length, take}
use unpacker.Base.Text.{Bytes, bytes_eq}
use unpacker.Path.{slash, dot, dot_dot, dir}
use unpacker.Errors.{Error, plain, wrap, Result, ok, err, first_error}
use unpacker.System.Disk.{
  Node, file, folder, Disk, find, put, remove_tree, remove_some, move_tree, occupied, erase,
}
use unpacker.System.Disk.{Listing, list_dir}

-- A line of the log, by the values that it shows.
pub data LogLine : Type 0 where
  skipped_entries : ℕ → List (ℕ × ℕ) → LogLine
  extracted_layers : ℕ → LogLine
  copied_file : Bytes → LogLine
  said : String → LogLine

pub record World : Type 0 where
  pub disk : Disk
  pub faults : List (Option ℕ)
  -- the bytes that `io.Copy` has written to files
  pub copied : ℕ
  pub log : List LogLine

abbrev pub M : Type 0 → Type 0
M A = World → Result A × World

-- What follows a call, on its result.
abbrev pub proceed : {A B : Type 0} → (A → M B) → Result A × World → Result B × World
proceed f (ok a, w) = f a w
proceed f (err e, w) = (err e, w)

infixl 5 ◌>>=◌ ◌>>◌
abbrev pub ◌>>=◌ : {A B : Type 0} → M A → (A → M B) → M B
◌>>=◌ m f w = proceed f (m w)

abbrev pub ◌>>◌ : {B : Type 0} → M (Unit {0}) → M B → M B
m >> k = m >>= λ _. k

abbrev pub pure : {A : Type 0} → A → M A
pure a w = (ok a, w)

abbrev pub fail : {A : Type 0} → Error → M A
fail e w = (err e, w)

-- The result of a call as a value, for code that goes on after an error.
abbrev pub attempt : {A : Type 0} → M A → M (Result A)
attempt m w = let (r, w') = m w in (ok r, w')

-- `if err := …; err != nil { return fmt.Errorf("…: %w", err) }`
abbrev pub wrapping : {A : Type 0} → String → M A → M A
wrapping m run w = let (r, w') = run w in (elim r [ ok a ↦ ok a | err e ↦ err (wrap m e) ], w')

abbrev pub lift : {A : Type 0} → Result A → M A
lift r w = (r, w)

abbrev pub say : LogLine → M (Unit {0})
say l w = (ok tt, record w { log = w.log ++ (l ∷ []) })

abbrev pub os_error : Error
os_error = plain "os error"

abbrev pub next_fault : List (Option ℕ) → Option ℕ × List (Option ℕ)
next_fault [] = (none, [])
next_fault (f ∷ fs) = (f, fs)

-- A call: it takes the next fault and runs on the disk.
unfoldable pub call : {A : Type 0} → (Option ℕ → Disk → Result A × Disk) → M A
call run w =
    let (f, fs) = next_fault w.faults in
    let (r, d) = run f w.disk in (r, record w { disk = d; faults = fs })

-- The directories that a path names on the way: the texts before its slashes, and the path.
unfoldable pub prefixes : Bytes → Bytes → List Bytes
prefixes [] cur = cur ∷ []
prefixes (c ∷ s) cur =
    let rest = prefixes s (cur ++ (c ∷ [])) in if c == slash then cur ∷ rest else rest

unfoldable pub ancestors : Bytes → List Bytes
unfolding prefixes
ancestors p = prefixes p []

-- The current directory, its parents and the root are always there.
unfoldable pub is_given : Bytes → Bool
unfolding bytes_eq
is_given p = bytes_eq p [] || bytes_eq p dot || bytes_eq p dot_dot || bytes_eq p (slash ∷ [])

-- `mkdir` for one directory: an existing one is kept, a file in the way is an error.
abbrev pub make_dir :
    Option Node
    → Bool
    → Result (Unit {0}) × Disk
    → Result (Unit {0}) × Disk
    → Disk
    → Result (Unit {0}) × Disk
make_dir (some (folder m)) given kept made d = kept
make_dir (some (file m s)) given kept made d = (err os_error, d)
make_dir none true kept made d = kept
make_dir none false kept made d = made

unfoldable pub make_dirs : ℕ → List Bytes → Disk → Result (Unit {0}) × Disk
unfolding is_given
make_dirs mode [] d = (ok tt, d)
make_dirs mode (p ∷ ps) d =
    let kept = make_dirs mode ps d in
    let made = make_dirs mode ps (put p (folder mode) d) in
    make_dir (find p d) (is_given p) kept made d

abbrev pub run_mkdir_all : ℕ → List Bytes → Option ℕ → Disk → Result (Unit {0}) × Disk
run_mkdir_all mode ps none d = make_dirs mode ps d
run_mkdir_all mode ps (some k) d = (err os_error, (make_dirs mode (take k ps) d).1)

-- `os.MkdirAll`
unfoldable pub mkdir_all : Bytes → ℕ → M (Unit {0})
unfolding call make_dirs ancestors
mkdir_all p mode = call (run_mkdir_all mode (ancestors p))

unfoldable pub has_folder : Bytes → Disk → Bool
has_folder p d = is_given p || elim (find p d) [ some (folder m) ↦ true | _ ↦ false ]

-- Open for writing, emptied: an existing file keeps its permissions, a directory is refused, and
-- so is a file whose directory is missing.
abbrev pub truncated : Bytes → ℕ → Disk → Bool → Option Node → Result (Unit {0}) × Disk
truncated p mode d false n = (err os_error, d)
truncated p mode d true (some (folder m)) = (err os_error, d)
truncated p mode d true (some (file m s)) = (ok tt, put p (file m []) d)
truncated p mode d true none = (ok tt, put p (file mode []) d)

abbrev pub run_open_file : Bytes → ℕ → Option ℕ → Disk → Result (Unit {0}) × Disk
run_open_file p mode none d = truncated p mode d (has_folder (dir p) d) (find p d)
run_open_file p mode (some k) d = (err os_error, d)

-- `os.OpenFile` with O_CREATE|O_WRONLY|O_TRUNC, and `os.Create` at mode 0666.
unfoldable pub open_file : Bytes → ℕ → M (Unit {0})
unfolding call has_folder
open_file p mode = call (run_open_file p mode)

abbrev pub appended : Bytes → Bytes → Disk → Option Node → Disk
appended p s d (some (file m t)) = put p (file m (t ++ s)) d
appended p s d _ = d

abbrev pub append_to : Bytes → Bytes → Disk → Disk
append_to p s d = appended p s d (find p d)

abbrev pub before_fault : Option ℕ → Bytes → Bytes
before_fault none s = s
before_fault (some k) s = take k s

abbrev pub count_written : Option ℕ → Bytes → Result ℕ
count_written none s = ok (length s)
count_written (some k) s = err os_error

-- `io.Copy` of the bytes to an open file: a failure leaves those written before it.
unfoldable pub write : Bytes → Bytes → M ℕ
write p s w =
    let (f, fs) = next_fault w.faults in
    let done = before_fault f s in
    (
      count_written f s,
      record w { disk = append_to p done w.disk; copied = w.copied + length done; faults = fs },
    )

-- `File.Write` of a whole text to an open file.
abbrev pub run_store : Bytes → Bytes → Option ℕ → Disk → Result (Unit {0}) × Disk
run_store p s none d = (ok tt, append_to p s d)
run_store p s (some k) d = (err os_error, append_to p (take k s) d)

unfoldable pub store : Bytes → Bytes → M (Unit {0})
unfolding call
store p s = call (run_store p s)

abbrev pub unless_fault : {A : Type 0} → (Disk → Result A) → Option ℕ → Disk → Result A × Disk
unless_fault answer f d = (elim f [ none ↦ answer d | some k ↦ err os_error ], d)

-- A call that changes nothing on the disk, and may fail: Sync and Close.
unfoldable pub flush : M (Unit {0})
unfolding call
flush = call (unless_fault (λ d. ok tt))

-- `os.WriteFile`
unfoldable pub write_file : Bytes → Bytes → ℕ → M (Unit {0})
unfolding open_file store flush
write_file p s mode = do
  open_file p mode
  written ← attempt (store p s)
  closed ← attempt flush
  lift (first_error written closed)

abbrev pub content : Option Node → Result Bytes
content (some (file m s)) = ok s
content _ = err os_error

-- `os.ReadFile`
unfoldable pub read_file : Bytes → M Bytes
unfolding call
read_file p = call (unless_fault (λ d. content (find p d)))

-- `os.RemoveAll`: a missing path is no error.
abbrev pub run_remove_all : Bytes → Option ℕ → Disk → Result (Unit {0}) × Disk
run_remove_all p none d = (ok tt, remove_tree p d)
run_remove_all p (some k) d = (err os_error, remove_some k p d)

unfoldable pub remove_all : Bytes → M (Unit {0})
unfolding call remove_tree remove_some
remove_all p = call (run_remove_all p)

abbrev pub is_there : Option Node → Bool
is_there none = false
is_there (some n) = true

-- `os.Remove`: a file, or a directory with nothing in it.
abbrev pub removed : Bytes → Disk → Bool → Bool → Result (Unit {0}) × Disk
removed p d true false = (ok tt, erase p d)
removed p d _ _ = (err os_error, d)

abbrev pub run_remove : Bytes → Option ℕ → Disk → Result (Unit {0}) × Disk
run_remove p none d = removed p d (is_there (find p d)) (occupied p (erase p d))
run_remove p (some k) d = (err os_error, d)

unfoldable pub remove : Bytes → M (Unit {0})
unfolding call erase occupied
remove p = call (run_remove p)

-- `os.Rename` of a directory. A target that is there is refused: the program removes it before.
abbrev pub renamed : Bytes → Bytes → Disk → Bool → Bool → Result (Unit {0}) × Disk
renamed from to d true false = (ok tt, move_tree from to d)
renamed from to d _ _ = (err os_error, d)

abbrev pub run_rename : Bytes → Bytes → Option ℕ → Disk → Result (Unit {0}) × Disk
run_rename from to none d = renamed from to d (is_there (find from d)) (occupied to d)
run_rename from to (some k) d = (err os_error, d)

unfoldable pub rename : Bytes → Bytes → M (Unit {0})
unfolding call move_tree occupied
rename from to = call (run_rename from to)

-- `os.ReadDir`
unfoldable pub read_dir : Bytes → M Listing
unfolding call has_folder list_dir
read_dir p = call (unless_fault (λ d. if has_folder p d then ok (list_dir p d) else err os_error))

-- `os.Open`
unfoldable pub open_source : Bytes → M (Unit {0})
unfolding call
open_source p =
    call (unless_fault (λ d. if is_there (find p d) || is_given p then ok tt else err os_error))

-- What the reads of an open file deliver, and the error that ends them before its end.
abbrev pub delivered : Option ℕ → Result Bytes → Bytes × Option Error
delivered f (err e) = ([], some e)
delivered none (ok s) = (s, none)
delivered (some k) (ok s) = (take k s, some os_error)

unfoldable pub read_source : Bytes → M (Bytes × Option Error)
unfolding call
read_source p = call (λ f d. (ok (delivered f (content (find p d))), d))

-- Whether `os.Stat` of the path gives no error.
unfoldable pub stat_ok : Bytes → M Bool
unfolding call
stat_ok p w =
    let (r, w') = call (unless_fault (λ d. ok (is_there (find p d) || is_given p))) w in
    (ok (elim r [ ok b ↦ b | err e ↦ false ]), w')
