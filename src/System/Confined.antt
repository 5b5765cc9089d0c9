-- ===== src/System/Confined.antt =====
-- Programs that change the disk only below one directory. A path that does not lie below it keeps
-- its node, but for missing directories on the way to it, which may be made.
use unpacker.Base.{ℕ, ◌≡◌, refl, sym, subst, ◌∙◌, ◌⊎◌, inl, inr, Bool, true, false, ◌||◌, zero, suc}
use unpacker.Base.{List, [], ◌∷◌, ◌++◌, All, Option, none, some, if◌then◌else◌, Bool-cases, take}
use unpacker.Base.Text.{Bytes, bytes_eq, bytes_eq_iff}
use unpacker.Path.{clean}
use unpacker.Path.Confine.{IsBelow}
use unpacker.Errors.{Result, ok, err}
use unpacker.System.Disk.{Node, file, folder, Disk, find, put, find-put, list_dir}
use unpacker.System.Monad.{
  World, M, ancestors, make_dirs, mkdir_all, truncated, open_file, write, ◌>>=◌, pure, lift,
}
use unpacker.System.Monad.{
  append_to, flush, read_file, open_source, read_source, is_given, call, next_fault, before_fault,
  make_dir,
}
use unpacker.System.Monad.{
  run_mkdir_all, run_open_file, has_folder, appended, unless_fault, content, read_dir, stat_ok,
  is_there, os_error,
}
use unpacker.Path.{dir}
use unpacker.System.Keeps.{Keeps, IsPreorder, >>=-Keeps, if-Keeps}
use unpacker.System.Ancestors.{OneOf, Near}

abbrev pub Kept : Bytes → Bytes → Option Node → Option Node → Type 0
Kept d q a b =
    (b ≡ a) ⊎ ((m : ℕ) × (a ≡ none) × OneOf q (ancestors (clean d)) × (b ≡ some (folder m)))

module _ (d : Bytes) where
  abbrev pub DiskConfined : Disk → Disk → Type 0
  DiskConfined x y = (q : Bytes) → ¬ IsBelow d q → Kept d q (find q x) (find q y)

  abbrev pub Confined : World → World → Type 0
  Confined v w = DiskConfined v.disk w.disk

  Kept-trans : (q : Bytes) (a b c : Option Node) → Kept d q a b → Kept d q b c → Kept d q a c
  Kept-trans q a b c (inl p) (inl r) = inl (r ∙ p)
  Kept-trans q a b c (inl p) (inr (m, n, o, r)) = inr (m, sym p ∙ n, o, r)
  Kept-trans q a b c (inr (m, n, o, r)) (inl p) = inr (m, n, o, p ∙ r)
  Kept-trans q a b c (inr (m, n, o, r)) (inr (m', n', o', r')) = cc

  pub DiskConfined-trans : (x y z : Disk) → DiskConfined x y → DiskConfined y z → DiskConfined x z
  DiskConfined-trans x y z f g q h = Kept-trans q (find q x) (find q y) (find q z) (f q h) (g q h)

  pub Confined-IsPreorder : IsPreorder Confined
  Confined-IsPreorder = record {
    same = λ w q _. inl refl;
    then_also = λ u v w f g. DiskConfined-trans u.disk v.disk w.disk f g;
    ignores_log = λ w l q _. inl refl;
  }

  -- A write below the directory.
  put_below : (p : Bytes) (n : Node) (x : Disk) → IsBelow d p → DiskConfined x (put p n x)
  put_below p n x below q h = elim (Bool-cases (bytes_eq p q)) [
    | inl e ↦ absurd (h (subst (IsBelow d) ((bytes_eq_iff p q).0 e) below))
    | inr e ↦ inl (find-put p q n x ∙ rw e)
  ]

  -- A missing directory on the way is made.
  put_folder :
      (p : Bytes) (m : ℕ) (x : Disk)
      → Near d p
      → find p x ≡ none
      → DiskConfined x (put p (folder m) x)
  put_folder p m x (inl below) absent = put_below p (folder m) x below
  put_folder p m x (inr one) absent = λ q h. elim (Bool-cases (bytes_eq p q)) [
    | inl e ↦
        let same : p ≡ q = (bytes_eq_iff p q).0 e in
        inr (
          m,
          subst (λ z. find z x ≡ none) same absent,
          subst (λ z. OneOf z (ancestors (clean d))) same one,
          find-put p q (folder m) x ∙ rw e,
        )
    | inr e ↦ inl (find-put p q (folder m) x ∙ rw e)
  ]

  make_dirs-Confined :
      (mode : ℕ) (ps : List Bytes) (x : Disk)
      → All (Near d) ps
      → DiskConfined x (make_dirs mode ps x).1
  unfolding make_dirs
  make_dirs-Confined mode [] x _ = λ q _. inl refl
  make_dirs-Confined mode (p ∷ ps) x (h, hs) =
      made (find p x) (is_given p) refl (make_dirs-Confined mode ps x hs)
        (make_dirs-Confined mode ps (put p (folder mode) x) hs)
    where
      made :
          (n : Option Node) (b : Bool)
          → find p x ≡ n
          → DiskConfined x (make_dirs mode ps x).1
          → DiskConfined (put p (folder mode) x) (make_dirs mode ps (put p (folder mode) x)).1
          → DiskConfined x
              (make_dir n b (make_dirs mode ps x) (make_dirs mode ps (put p (folder mode) x)) x).1
      made (some (folder m)) b e ih ih' = ih
      made (some (file m t)) b e ih ih' = λ q _. inl refl
      made none true e ih ih' = ih
      made none false e ih ih' =
          DiskConfined-trans x (put p (folder mode) x) _ (put_folder p mode x h e) ih'

  take-All : (k : ℕ) (ps : List Bytes) → All (Near d) ps → All (Near d) (take k ps)
  take-All zero ps h = tt
  take-All (suc k) [] h = tt
  take-All (suc k) (p ∷ ps) (h, hs) = (h, take-All k ps hs)

  -- A call whose effect on the disk is confined, whatever the fault.
  pub call-Confined :
      {A : Type 0} (run : Option ℕ → Disk → Result A × Disk)
      → ((f : Option ℕ) (x : Disk) → DiskConfined x (run f x).1)
      → Keeps Confined (call run)
  unfolding call
  call-Confined run h w = h (next_fault w.faults).0 w.disk

  pub mkdir_all-Confined :
      (p : Bytes) (mode : ℕ) → All (Near d) (ancestors p) → Keeps Confined (mkdir_all p mode)
  unfolding mkdir_all
  mkdir_all-Confined p mode h = call-Confined (run_mkdir_all mode (ancestors p)) run
    where
      run : (f : Option ℕ) (x : Disk) → DiskConfined x (run_mkdir_all mode (ancestors p) f x).1
      run none x = make_dirs-Confined mode (ancestors p) x h
      run (some k) x = make_dirs-Confined mode (take k (ancestors p)) x (take-All k (ancestors p) h)

  pub open_file-Confined : (p : Bytes) (mode : ℕ) → IsBelow d p → Keeps Confined (open_file p mode)
  unfolding open_file
  open_file-Confined p mode h = call-Confined (run_open_file p mode) run
    where
      opened : (x : Disk) (b : Bool) (n : Option Node) → DiskConfined x (truncated p mode x b n).1
      opened x false n = λ q _. inl refl
      opened x true (some (folder m)) = λ q _. inl refl
      opened x true (some (file m s)) = put_below p (file m []) x h
      opened x true none = put_below p (file mode []) x h

      run : (f : Option ℕ) (x : Disk) → DiskConfined x (run_open_file p mode f x).1
      run none x = opened x (has_folder (dir p) x) (find p x)
      run (some k) x = λ q _. inl refl

  pub append_to-Confined : (p s : Bytes) (x : Disk) → IsBelow d p → DiskConfined x (append_to p s x)
  append_to-Confined p s x h = go (find p x)
    where
      go : (n : Option Node) → DiskConfined x (appended p s x n)
      go none = λ q _. inl refl
      go (some (file m t)) = put_below p (file m (t ++ s)) x h
      go (some (folder m)) = λ q _. inl refl

  pub write-Confined : (p s : Bytes) → IsBelow d p → Keeps Confined (write p s)
  unfolding write
  write-Confined p s h w = append_to-Confined p (before_fault (next_fault w.faults).0 s) w.disk h

  -- A call that only answers.
  unless_fault-Confined :
      {A : Type 0} (answer : Disk → Result A) → Keeps Confined (call (unless_fault answer))
  unless_fault-Confined answer = call-Confined (unless_fault answer) (λ f x q _. inl refl)

  pub flush-Confined : Keeps Confined flush
  unfolding flush
  flush-Confined = unless_fault-Confined (λ x. ok tt)

  pub read_file-Confined : (p : Bytes) → Keeps Confined (read_file p)
  unfolding read_file
  read_file-Confined p = unless_fault-Confined (λ x. content (find p x))

  pub read_dir-Confined : (p : Bytes) → Keeps Confined (read_dir p)
  unfolding read_dir
  read_dir-Confined p =
      unless_fault-Confined (λ x. if has_folder p x then ok (list_dir p x) else err os_error)

  pub open_source-Confined : (p : Bytes) → Keeps Confined (open_source p)
  unfolding open_source
  open_source-Confined p =
      unless_fault-Confined (λ x. if is_there (find p x) || is_given p then ok tt else err os_error)

  pub read_source-Confined : (p : Bytes) → Keeps Confined (read_source p)
  unfolding read_source call
  read_source-Confined p w q _ = inl refl

  pub stat_ok-Confined : (p : Bytes) → Keeps Confined (stat_ok p)
  unfolding stat_ok
  stat_ok-Confined p = unless_fault-Confined (λ x. ok (is_there (find p x) || is_given p))

  -- The rules of `Keeps`, at this relation.
  pub >>=-Confined :
      (A B : Type 0) (m : M A) (f : A → M B)
      → Keeps Confined m
      → ((a : A) → Keeps Confined (f a))
      → Keeps Confined (m >>= f)
  >>=-Confined = >>=-Keeps Confined Confined-IsPreorder

  pub pure-Confined : (A : Type 0) (a : A) → Keeps Confined (pure a)
  pure-Confined A a w q _ = inl refl

  pub lift-Confined : (A : Type 0) (r : Result A) → Keeps Confined (lift r)
  lift-Confined A r w q _ = inl refl

  pub if-Confined :
      (A : Type 0) (b : Bool) (m n : M A)
      → Keeps Confined m
      → Keeps Confined n
      → Keeps Confined (if b then m else n)
  if-Confined = if-Keeps Confined Confined-IsPreorder
