-- ===== src/Extract/Complete.antt =====
-- A successful extraction is a complete one: the disk that it leaves is that of a plain
-- specification, with no limits and no failing calls.
use unpacker.Base.{ℕ, ◌≤◌, ◌≡◌, refl, sym, ap, subst, ◌∙◌, Bool, true, false, ◌==◌}
use unpacker.Base.{arith, Option, none, some, List, [], ◌∷◌, ◌++◌, if◌then◌else◌}
use unpacker.Base.Text.{Bytes, bytes_eq, bytes_eq_refl, has_prefix}
use unpacker.Base.Word.{I64, add_i64, lt_i64}
use unpacker.Path.{slash, clean, join, dir}
use unpacker.Errors.{Error, Result, ok, err}
use unpacker.System.{Node, file, folder, find, put, World, M, proceed, pure, ◌>>=◌, ◌>>◌}
use unpacker.System.{
  mkdir_all, open_file, make_dirs, ancestors, run_mkdir_all, run_open_file, truncated,
}
use unpacker.System.{has_folder, next_fault, append_to}
use unpacker.System.Disk.{Disk, find-put, put-put}
use unpacker.Limits.{Limits}
use unpacker.Compression.{Header, Item, entry, broken}
use unpacker.Extract.{
  Progress, copy_limited, extract_file, place_entry, extract_entry, extract_items, fresh,
}
use unpacker.Extract.{type_dir, type_reg, type_x_global_header, clamp_mode, perm}
use unpacker.Extract.Budget.{IsResolved, CopyOutcome, copy_limited_lem}

-- An overwritten file keeps its permissions.
abbrev pub kept_mode : ℕ → Option Node → ℕ
kept_mode mode (some (file m s)) = m
kept_mode mode _ = mode

abbrev made : Bytes → ℕ → Disk → Disk
made p mode d = (make_dirs mode (ancestors p) d).1

-- The file with all of its bytes, its directories made.
unfoldable pub place_file : Bytes → ℕ → Bytes → Disk → Disk
place_file target mode body d =
    let d' = made (dir target) 0o755 d in
    put target (file (kept_mode mode (find target d')) body) d'

-- A body that could be read to its end is what is meant; one that could not be is no file.
abbrev pub if_read : Option Error → Disk → Option Disk
if_read none d = some d
if_read (some e) d = none

-- What an entry of an archive is meant to leave on the disk, where it is a whole one.
unfoldable pub unpacked_entry : Bytes → Header → Bytes → Option Error → Disk → Option Disk
unfolding place_file
unpacked_entry dest hdr body e d =
    let target = join dest (clean hdr.name) in
    let mode = clamp_mode (perm hdr.mode) (hdr.typeflag == type_dir) in
    if bytes_eq target (clean dest)
    then some d
    else if hdr.typeflag == type_dir
    then some (made target mode d)
    else if hdr.typeflag == type_reg
    then if_read e (place_file target mode body d)
    else some d

-- What an archive describes: nothing where it breaks off.
unfoldable pub unpacked : Bytes → List Item → Disk → Option Disk
unfolding unpacked_entry
unpacked dest [] d = some d
unpacked dest (broken e ∷ items) d = none
unpacked dest (entry hdr body e ∷ items) d = elim (unpacked_entry dest hdr body e d) [
  | none ↦ none
  | some d' ↦ unpacked dest items d'
]

mkdir_all-ok :
    (p : Bytes) (mode : ℕ) (w : World)
    → (mkdir_all p mode w).0 ≡ ok tt
    → (mkdir_all p mode w).1.disk ≡ made p mode w.disk
unfolding mkdir_all
mkdir_all-ok p mode w h = go (next_fault w.faults).0 h
  where
    go :
        (f : Option ℕ)
        → (run_mkdir_all mode (ancestors p) f w.disk).0 ≡ ok tt
        → (run_mkdir_all mode (ancestors p) f w.disk).1 ≡ made p mode w.disk
    go none h = refl
    go (some k) h = cc

append_to_empty :
    (p s : Bytes) (m : ℕ) (d : Disk) → append_to p s (put p (file m []) d) ≡ put p (file m s) d
append_to_empty p s m d =
    let found : find p (put p (file m []) d) ≡ some (file m []) =
      find-put p p (file m []) d ∙ rw (bytes_eq_refl p) in
    rw found (put-put p (file m s) (file m []) d)

-- The file that was opened, with the bytes that are copied into it.
pub open_file-ok :
    (p s : Bytes) (mode : ℕ) (w : World)
    → (open_file p mode w).0 ≡ ok tt
    → append_to p s (open_file p mode w).1.disk
      ≡ put p (file (kept_mode mode (find p w.disk)) s) w.disk
unfolding open_file
open_file-ok p s mode w h = go (next_fault w.faults).0 h
  where
    opened :
        (b : Bool) (n : Option Node)
        → (truncated p mode w.disk b n).0 ≡ ok tt
        → append_to p s (truncated p mode w.disk b n).1 ≡ put p (file (kept_mode mode n) s) w.disk
    opened false n h = cc
    opened true (some (folder m)) h = cc
    opened true (some (file m t)) h = append_to_empty p s m w.disk
    opened true none h = append_to_empty p s mode w.disk

    go :
        (f : Option ℕ)
        → (run_open_file p mode f w.disk).0 ≡ ok tt
        → append_to p s (run_open_file p mode f w.disk).1
          ≡ put p (file (kept_mode mode (find p w.disk)) s) w.disk
    go none h = opened (has_folder (dir p) w.disk) (find p w.disk) h
    go (some k) h = cc

-- On success the disk is the one that is meant, and the total has stayed in its limit.
abbrev Placed : Limits → Option Disk → Result Progress × World → Type 0
Placed lim d (ok q, w) = (d ≡ some w.disk) × (q.total ≤ lim.max_total_bytes)
Placed lim d (err e, w) = Unit

module _ (lim : Limits) (v : IsResolved lim) where
  place_file-Placed :
      (target : Bytes) (mode : ℕ) (body : Bytes) (e : Option Error) (p : Progress) (w : World)
      → p.total ≤ lim.max_total_bytes
      → Placed lim
          (if_read e (place_file target mode body w.disk))
          (extract_file target mode body e lim p w)
  unfolding extract_file place_file
  place_file-Placed target mode body e p w fits = afterwards (mkdir_all (dir target) 0o755 w) refl
    where
      copied : M Progress
      copied = copy_limited target body e lim p.total >>= λ t. pure (record p { total = t })

      goal : Result Progress × World → Type 0
      goal = Placed lim (if_read e (place_file target mode body w.disk))

      filled :
          (u : World) (o : Result I64 × World)
          → append_to target body u.disk ≡ place_file target mode body w.disk
          → CopyOutcome lim v p.total fits target e body u o
          → goal (proceed (λ t. pure (record p { total = t })) o)
      filled u (ok t, u') same h = (
        ap (λ z. if_read z (place_file target mode body w.disk)) h.5 ∙ ap some (sym (h.4 ∙ same)),
        h.2,
      )
      filled u (err x, u') same h = tt

      opened :
          (u : World) (o : Result (Unit {0}) × World)
          → u.disk ≡ made (dir target) 0o755 w.disk
          → open_file target mode u ≡ o
          → goal (proceed (λ _. copied) o)
      opened u (err x, u') same q = tt
      opened u (ok x, u') same q =
          filled u' (copy_limited target body e lim p.total u')
            (ap (λ (o : Result (Unit {0}) × World). append_to target body o.1.disk) (sym q)
              ∙ open_file-ok target body mode u (ap (λ (o : Result (Unit {0}) × World). o.0) q)
              ∙ ap (λ d. put target (file (kept_mode mode (find target d)) body) d) same)
            (copy_limited_lem lim v p.total fits target body e u')

      afterwards :
          (o : Result (Unit {0}) × World)
          → mkdir_all (dir target) 0o755 w ≡ o
          → goal (proceed (λ _. open_file target mode >> copied) o)
      afterwards (err x, u) q = tt
      afterwards (ok x, u) q =
          opened u (open_file target mode u)
            (ap (λ (o : Result (Unit {0}) × World). o.1.disk) (sym q)
              ∙ mkdir_all-ok (dir target) 0o755 w (ap (λ (o : Result (Unit {0}) × World). o.0) q))
            refl

  -- Two ways to go, against the same two ways of the specification.
  choose :
      (b : Bool) (w : World) (m n : M Progress) (c d : Option Disk)
      → Placed lim c (m w)
      → Placed lim d (n w)
      → Placed lim (if b then c else d) ((if b then m else n) w)
  choose true w m n c d h k = h
  choose false w m n c d h k = k

  both :
      (b : Bool) (w : World) (m n : M Progress) (d : Option Disk)
      → Placed lim d (m w)
      → Placed lim d (n w)
      → Placed lim d ((if b then m else n) w)
  both true w m n d h k = h
  both false w m n d h k = k

  made-Placed :
      (p : Bytes) (mode : ℕ) (q : Progress) (w : World)
      → q.total ≤ lim.max_total_bytes
      → Placed lim (some (made p mode w.disk)) ((mkdir_all p mode >> pure q) w)
  made-Placed p mode q w fits = go (mkdir_all p mode w) refl
    where
      go :
          (o : Result (Unit {0}) × World)
          → mkdir_all p mode w ≡ o
          → Placed lim (some (made p mode w.disk)) (proceed (λ _. pure q) o)
      go (ok x, u) e = (
        ap some (
            sym (
              ap (λ (o : Result (Unit {0}) × World). o.1.disk) (sym e)
              ∙ mkdir_all-ok p mode w (ap (λ (o : Result (Unit {0}) × World). o.0) e))),
        fits,
      )
      go (err x, u) e = tt

  extract_entry-Placed :
      (dest : Bytes) (hdr : Header) (body : Bytes) (e : Option Error) (p : Progress) (w : World)
      → p.total ≤ lim.max_total_bytes
      → Placed lim (unpacked_entry dest hdr body e w.disk) (extract_entry dest lim hdr body e p w)
  unfolding extract_entry place_entry unpacked_entry
  extract_entry-Placed dest hdr body e p w fits =
      both (lt_i64 lim.max_entries q.entries) w _ _ _ tt (
        choose (bytes_eq target (clean dest)) w _ _ _ _ (refl, fits)
          (both (has_prefix target (clean dest ++ (slash ∷ []))) w _ _ _
            (choose (hdr.typeflag == type_dir) w _ _ _ _ (made-Placed target mode q w fits) (
              choose (hdr.typeflag == type_reg) w _ _ _ _
                (place_file-Placed target mode body e q w fits)
                (both (hdr.typeflag == type_x_global_header) w _ _ _ (refl, fits) (refl, fits))))
            tt))
    where
      q : Progress
      q = record p { entries = add_i64 p.entries 1 }

      target : Bytes
      target = join dest (clean hdr.name)

      mode : ℕ
      mode = clamp_mode (perm hdr.mode) (hdr.typeflag == type_dir)

  extract_items-Placed :
      (dest : Bytes) (items : List Item) (p : Progress) (w : World)
      → p.total ≤ lim.max_total_bytes
      → Placed lim (unpacked dest items w.disk) (extract_items dest lim items p w)
  unfolding extract_items unpacked
  extract_items-Placed dest [] p w fits = (refl, fits)
  extract_items-Placed dest (broken e ∷ items) p w fits = tt
  extract_items-Placed dest (entry hdr body e ∷ items) p w fits =
      onward (extract_entry dest lim hdr body e p w) (extract_entry-Placed dest hdr body e p w fits)
        (λ q u. extract_items-Placed dest items q u)
    where
      onward :
          (o : Result Progress × World)
          → Placed lim (unpacked_entry dest hdr body e w.disk) o
          → ((q : Progress) (u : World)
              → q.total ≤ lim.max_total_bytes
              → Placed lim (unpacked dest items u.disk) (extract_items dest lim items q u))
          → Placed lim
              (elim (unpacked_entry dest hdr body e w.disk) [
                | none ↦ none
                | some d ↦ unpacked dest items d
              ])
              (proceed (extract_items dest lim items) o)
      onward (err x, u) h next = tt
      onward (ok q, u) h next =
          subst
            (λ (o : Option Disk).
              Placed lim (elim o [ none ↦ none | some d ↦ unpacked dest items d ])
                (extract_items dest lim items q u))
            (sym h.0) (next q u h.1)

-- If an extraction under limits below the largest int64 succeeds, its archive could be read to its
-- end, the body of every regular file included, and the disk is the one that the archive describes:
-- every directory made, every regular file with all of its bytes, in the order of the archive, and
-- nothing else changed.
pub extract_items-refines :
    (dest : Bytes) (lim : Limits) (items : List Item) (w w' : World) (q : Progress)
    → IsResolved lim
    → extract_items dest lim items fresh w ≡ (ok q, w')
    → unpacked dest items w.disk ≡ some w'.disk
extract_items-refines dest lim items w w' q v e =
    (subst (Placed lim (unpacked dest items w.disk)) e
      (extract_items-Placed lim v dest items fresh w (omega arith))).0
